-- ===== src/Domain/Validation.antt =====
-- app/domain/validation.py: which links are accepted. The regular expression is matched from the left;
-- no part of it can match in two ways, so no step is ever taken back.
pub mod Canonical
use aucnotif.Prelude.{
  ℕ, Bool, true, false, not, ◌&&◌, ◌||◌, Option, none, some, List, [], ◌∷◌, ◌++◌, if◌then◌else◌,
  ltb, leb, ◌==◌,
}
use aucnotif.Prelude.Lists.{length}
use aucnotif.Prelude.Text.{Text, codes, strip}

-- The class `[a-zA-Z0-9]`.
abbrev pub is_alnum : ℕ → Bool
is_alnum c = leb b'a' c && leb c b'z' || (leb b'A' c && leb c b'Z' || leb b'0' c && leb c b'9')

-- A literal piece of the pattern.
abbrev pub expect : Text → Text → Option Text
expect [] s = some s
expect (p ∷ ps) [] = none
expect (p ∷ ps) (c ∷ s) = if p == c then expect ps s else none

-- A piece under `?`: taken if it is there.
abbrev pub optional : Text → Text → Text
optional p s = elim (expect p s) [ none ↦ s | some rest ↦ rest ]

-- `[a-zA-Z0-9]+`, as far as it goes, and what is behind it.
abbrev pub span_alnum : Text → Text × Text
span_alnum [] = ([], [])
span_alnum (c ∷ s) = if is_alnum c then (c ∷ (span_alnum s).0, (span_alnum s).1) else ([], c ∷ s)

abbrev pub one_line : Text → Bool
one_line [] = true
one_line (c ∷ s) = not (c == 10) && one_line s

-- `(?:\?.*)?$` on a text without a newline at its end.
abbrev pub is_tail : Text → Bool
is_tail [] = true
is_tail (c ∷ s) = c == b'?' && one_line s

abbrev pub is_empty : Text → Bool
is_empty [] = true
is_empty _ = false

infixl 5 ◌>>=◌
abbrev pub ◌>>=◌ : {A B : Type 0} → Option A → (A → Option B) → Option B
none >>= f = none
some a >>= f = f a

-- The group and the tail.
abbrev pub finish : Text × Text → Option Text
finish (auction_id, rest) =
    if not (is_empty auction_id) && is_tail (optional (codes "/") rest)
    then some auction_id
    else none

-- `YAHOO_AUCTION_URL_RE.match(url)`: the first group, or `none` if the pattern does not match.
match_url : Text → Option Text
match_url url = do
  scheme ← expect (codes "http") url
  host ← expect (codes "://") (optional (codes "s") scheme)
  let named = optional (codes "page.") (optional (codes "www.") host)
  path ← expect (codes "auctions.yahoo.co.jp/jp/auction/") named
  finish (span_alnum path)

abbrev pub canonical_prefix : Text
canonical_prefix = codes "https://page.auctions.yahoo.co.jp/jp/auction/"

-- `none` stands for `InvalidAuctionUrl`, here and below.
unfoldable pub validate_auction_url : Text → Option Text
unfolding match_url
validate_auction_url url =
    let stripped = strip url in
    if ltb 2048 (length stripped)
    then none
    else (do auction_id ← match_url stripped; some (canonical_prefix ++ auction_id))

unfoldable pub extract_auction_id : Text → Option Text
unfolding match_url
extract_auction_id url = match_url (strip url)

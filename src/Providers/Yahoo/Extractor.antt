-- ===== src/Providers/Yahoo/Extractor.antt =====
-- app/providers/yahoo/extractor.py: finding the `pageData` object in a page. A position in the page is the
-- rest of the page from there. `loads` is `json.loads`, with `none` for the `JSONDecodeError`.
pub mod Balanced
use aucnotif.Prelude.{
  ℕ, zero, suc, ◌-◌, Bool, true, false, not, ◌&&◌, Option, none, some, List, [], ◌∷◌, ◌++◌, ltb,
  ◌==◌, if◌then◌else◌,
}
use aucnotif.Prelude.Lists.{length}
use aucnotif.Prelude.Tables.{map_option}
use aucnotif.Prelude.Text.{Text, codes}
use aucnotif.Schemas.Json.{Json, Fields, null, bool, int, float, str, arr, obj}

abbrev pub max_object_len : ℕ
max_object_len = 1000000

-- The variables of the loop.
pub record Scan : Type 0 where
  pub depth : ℕ
  pub in_string : Bool
  pub escaped : Bool

-- One round of the loop on a character. In a string, `escaped` skips one character.
unfoldable pub next : ℕ → Scan → Scan
next ch s =
    if s.in_string
    then (if s.escaped
        then record s { escaped = false }
        else if ch == b'\\'
        then record s { escaped = true }
        else if ch == b'"'
        then record s { in_string = false }
        else s)
    else if ch == b'"'
    then record s { in_string = true }
    else if ch == b'{'
    then record s { depth = suc s.depth }
    else if ch == b'}'
    then record s { depth = s.depth - 1 }
    else s

-- The brace that closes the object.
unfoldable pub closes : ℕ → Scan → Bool
closes ch s = not s.in_string && (ch == b'}' && s.depth - 1 == 0)

-- The loop: the text up to the closing brace. The depth is at least one after the first brace.
unfoldable pub scan : Scan → Text → Option Text
scan s [] = none
scan s (ch ∷ text) =
    let rest = scan (next ch s) text in
    if closes ch s then some (ch ∷ []) else map_option (λ r. ch ∷ r) rest

abbrev start : Scan
start = record { depth = 0; in_string = false; escaped = false }

abbrev limited : Text → Option Text
limited raw = if ltb max_object_len (length raw - 1) then none else some raw

unfoldable pub extract_balanced_object : Text → Option Text
unfolding scan next closes
extract_balanced_object [] = none
extract_balanced_object (ch ∷ text) =
    if ch == b'{'
    then elim (scan start (ch ∷ text)) [ none ↦ none | some raw ↦ limited raw ]
    else none

abbrev starts_with : Text → Text → Bool
starts_with [] text = true
starts_with (c ∷ marker) [] = false
starts_with (c ∷ marker) (ch ∷ text) = ch == c && starts_with marker text

-- `html.find("{", idx, idx + n)`.
abbrev pub find_brace : ℕ → Text → Option Text
find_brace zero text = none
find_brace (suc n) [] = none
find_brace (suc n) (ch ∷ text) = if ch == b'{' then some (ch ∷ text) else find_brace n text

abbrev with_brace : Option Text → List Text → List Text
with_brace none rest = rest
with_brace (some brace) rest = brace ∷ rest

-- `_iter_candidates` for one marker. No two matches of a marker overlap, and the two markers do not
-- match at one place, so neither the jump past a match nor the set of places seen changes anything.
unfoldable pub candidates : Text → Text → List Text
candidates marker [] = []
candidates marker (ch ∷ html) =
    let rest = candidates marker html in
    if starts_with marker (ch ∷ html) then with_brace (find_brace 200 (ch ∷ html)) rest else rest

abbrev pub as_dict : Option Json → Option Fields
as_dict (some (obj fields)) = some fields
as_dict _ = none

module _ (loads : Text → Option Json) where
  -- The object at a candidate's place, or nothing where the loop goes on.
  unfoldable pub object_at : Text → Option Fields
  object_at brace = elim (extract_balanced_object brace) [
    | none ↦ none
    | some raw ↦ as_dict (loads raw)
  ]

  unfoldable pub first_object : List Text → Option Fields
  first_object [] = none
  first_object (brace ∷ rest) = elim (object_at brace) [
    | none ↦ first_object rest
    | some fields ↦ some fields
  ]

  -- `none` stands for the `PageDataExtractionError`.
  unfoldable pub extract : Text → Option Fields
  unfolding candidates
  extract html =
      first_object (candidates (codes "pageData") html ++ candidates (codes "PageData") html)

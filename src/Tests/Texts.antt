-- ===== src/Tests/Texts.antt =====
-- Texts: numbers, links, escapes.
use aucnotif.Prelude.{ℕ, ◌≡◌, ◌≤◌, refl, some, ◌++◌, arith}
use aucnotif.Prelude.Lists.{length}
use aucnotif.Prelude.Text.{Text, codes}
use aucnotif.Domain.Validation.{validate_auction_url, extract_auction_id, canonical_prefix}
use aucnotif.Domain.Validation.Canonical.{IsId, validated-IsId, validate_idempotent}

abbrev given : Text
given = codes " http://auctions.yahoo.co.jp/jp/auction/ab12/?x=1"

abbrev canonical : Text
canonical = codes "https://page.auctions.yahoo.co.jp/jp/auction/ab12"

accepted : validate_auction_url given ≡ some canonical
unfolding validate_auction_url aucnotif.Prelude.Text.strip
accepted = refl

validated-IsId_example :
    (id : Text) × (extract_auction_id given ≡ some id)
    × (canonical ≡ canonical_prefix ++ id)
    × (extract_auction_id canonical ≡ some id)
    × IsId id
validated-IsId_example = validated-IsId given canonical accepted

short : length canonical ≤ 2048
short = omega arith

validate_idempotent_example : validate_auction_url canonical ≡ some canonical
validate_idempotent_example = validate_idempotent given canonical accepted short

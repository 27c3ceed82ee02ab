-- ===== src/Tests/Pages.antt =====
-- Pages of Yahoo and what the provider makes of them.
use aucnotif.Prelude.{
  ℕ, ◌-◌, ◌≡◌, refl, true, false, Option, none, some, if◌then◌else◌, [], ◌∷◌, ◌++◌, arith,
}
use aucnotif.Prelude.Text.{Text, codes}
use aucnotif.Prelude.Int.{pos}
use aucnotif.Prelude.Decimal.{is_digit, grouped}
use aucnotif.Schemas.Json.{Json, Fields}
use aucnotif.Schemas.Yahoo.{to_int, text, PageDataItems}
use aucnotif.Schemas.Yahoo.Numbers.{to_int-grouped}
use aucnotif.Repositories.Auctions.{get_by_id}
use aucnotif.Providers.Yahoo.Client.{Answer, http_error}
use aucnotif.Providers.Yahoo.Provider.{PageData, no_items, fetch_state_with_raw}
use aucnotif.Services.Monitoring.{Polled, poll}
use aucnotif.Services.Monitoring.Network.{IsStopped, network_error_stops}
use aucnotif.Tests.Data.{settings, database, auction}
use aucnotif.Providers.Yahoo.Extractor.{extract_balanced_object}
use aucnotif.Providers.Yahoo.Extractor.Balanced.{
  Quoted, empty, char, escape, Inside, nothing, plain, literal, nested, extract-balanced,
}

-- "}\"":{} inside braces
abbrev key : Text
key = codes "}\\\""

key-Quoted : Quoted key
key-Quoted = char b'}' (codes "\\\"") refl refl (escape b'"' [] empty)

abbrev body : Text
body = b'"' ∷ key ++ b'"' ∷ b':' ∷ b'{' ∷ [] ++ b'}' ∷ []

body-Inside : Inside body
body-Inside =
    literal key (b':' ∷ b'{' ∷ [] ++ b'}' ∷ []) key-Quoted
      (plain b':' (b'{' ∷ [] ++ b'}' ∷ []) refl refl refl (nested [] [] nothing nothing))

extract-balanced_example :
    extract_balanced_object (b'{' ∷ body ++ b'}' ∷ codes "; var x = {};")
    ≡ some (b'{' ∷ body ++ b'}' ∷ [])
extract-balanced_example = extract-balanced body (codes "; var x = {};") body-Inside (omega arith)

-- The digits of ASCII alone.
abbrev ascii_digit : ℕ → Option ℕ
ascii_digit c = if is_digit c then some (c - 48) else none

ascii : (c : ℕ) → is_digit c ≡ true → ascii_digit c ≡ some (c - 48)
ascii c h = rw h refl

to_int-grouped_example : to_int ascii_digit (text (grouped 1234567)) ≡ some (some (pos 1234567))
to_int-grouped_example = to_int-grouped ascii_digit ascii 1234567

known : get_by_id 1 database ≡ some auction
unfolding get_by_id
known = refl

abbrev no_loads : Text → Option Json
no_loads s = none

abbrev items_missing : Fields → PageData
items_missing fields = no_items

abbrev reason : PageDataItems → Text
reason items = codes "empty"

abbrev unreachable : Text → Answer
unreachable url = http_error (codes "connection reset")

network_error_stops_example :
    (p : Polled) × ((poll settings
          (λ url.
            fetch_state_with_raw no_loads items_missing reason ascii_digit false url
              (pos 70)
              (unreachable url))
          (pos 70)
          1
          database
        ≡ some p)
      × IsStopped (get_by_id 1 p.1))
network_error_stops_example =
    network_error_stops no_loads items_missing reason ascii_digit false settings unreachable
      (pos 70) 1 database auction known refl refl

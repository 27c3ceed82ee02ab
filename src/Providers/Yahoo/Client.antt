-- ===== src/Providers/Yahoo/Client.antt =====
-- app/providers/yahoo/client.py: one request. What httpx returns or raises is an argument. The rate
-- limiter is asked before the request and its answer is not used, so it is not an argument here.
pub mod Gone
use aucnotif.Prelude.{
  ℕ, Bool, true, false, ◌&&◌, ◌||◌, not, List, [], ◌∷◌, ◌++◌, leb, ◌==◌, ◌+◌, if◌then◌else◌,
}
use aucnotif.Prelude.Lists.{take, exists_where}
use aucnotif.Prelude.Text.{Text, codes}
use aucnotif.Prelude.Decimal.{decimal}
use aucnotif.Providers.{ProviderError, rate_limited_error, anti_bot_error, auction_gone_error}

-- What `client.get` does: it raises one of two exceptions, or returns a status and a text.
pub data Answer : Type 0 where
  timeout : Answer
  http_error : Text → Answer
  response : ℕ → Text → Answer

pub data Page : Type 0 where
  html : Text → Page
  raised : ProviderError → Page

-- `str.lower`, as far as the markers can tell: these are the characters whose lower case has an ASCII
-- letter in it.
abbrev pub lower_char : ℕ → Text
lower_char c =
    if leb 65 c && leb c 90
    then (c + 32) ∷ []
    else if c == 0x212a
    then 107 ∷ []
    else if c == 0x130
    then 105 ∷ 0x307 ∷ []
    else c ∷ []

unfoldable pub lower : Text → Text
lower [] = []
lower (c ∷ s) = lower_char c ++ lower s

abbrev begins : Text → Text → Bool
begins [] text = true
begins (c ∷ marker) [] = false
begins (c ∷ marker) (d ∷ text) = d == c && begins marker text

-- `marker in text`.
unfoldable pub contains : Text → Text → Bool
contains marker [] = begins marker []
contains marker (c ∷ text) = begins marker (c ∷ text) || contains marker text

abbrev anti_bot_markers : List Text
anti_bot_markers = codes "captcha" ∷ codes "security check" ∷ codes "challenge" ∷ []

unfoldable pub is_anti_bot : Text → Bool
unfolding lower contains
is_anti_bot text =
    exists_where (λ marker. contains marker (lower (take 20000 text))) anti_bot_markers

unfoldable pub check_status : ℕ → Text → Page
check_status status text =
    if status == 429
    then raised (rate_limited_error 429 (codes "rate limited"))
    else if status == 403
    then raised (rate_limited_error 403 (codes "forbidden"))
    else if status == 404 || status == 410
    then raised (auction_gone_error (codes "auction not found: " ++ decimal status))
    else if leb 500 status
    then raised (rate_limited_error status (codes "yahoo server error"))
    else if not (status == 200)
    then raised (auction_gone_error (codes "unexpected status " ++ decimal status))
    else if is_anti_bot text
    then raised (anti_bot_error (codes "anti-bot page detected"))
    else html text

unfoldable pub fetch_html : Answer → Page
fetch_html timeout = raised (rate_limited_error 0 (codes "timeout"))
fetch_html (http_error message) = raised (auction_gone_error message)
fetch_html (response status text) = check_status status text

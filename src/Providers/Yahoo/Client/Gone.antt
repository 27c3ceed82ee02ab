-- ===== src/Providers/Yahoo/Client/Gone.antt =====
-- Which answers the client takes for the end of an auction.
use aucnotif.Prelude.{◌≡◌, refl, Bool, true, false, not, ◌&&◌, arith, leb, ◌==◌}
use aucnotif.Providers.{ProviderError, auction_gone_error}
use aucnotif.Providers.Yahoo.Client.{
  Answer, timeout, http_error, response, Page, html, raised, check_status, fetch_html,
}

abbrev pub is_gone_error : ProviderError → Bool
is_gone_error (auction_gone_error m) = true
is_gone_error _ = false

abbrev pub is_gone : Page → Bool
is_gone (html text) = false
is_gone (raised e) = is_gone_error e

-- The answers that are not a page of an auction, nor asked to be tried again.
abbrev pub taken_for_gone : Answer → Bool
taken_for_gone timeout = false
taken_for_gone (http_error m) = true
taken_for_gone (response status text) =
    not (status == 200) && (not (status == 403) && (not (status == 429) && not (leb 500 status)))

-- A request ends in an `AuctionGoneError` for every network error that is not a timeout, and for every
-- status but 200, 403, 429 and those from 500 on, not only for 404 and 410.
pub gone_exactly : (answer : Answer) → is_gone (fetch_html answer) ≡ taken_for_gone answer
unfolding fetch_html check_status
gone_exactly timeout = refl
gone_exactly (http_error m) = refl
gone_exactly (response status text) = ground arith

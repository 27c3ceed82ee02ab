-- ===== src/Providers/Yahoo/Provider.antt =====
-- app/providers/yahoo/provider.py: from the page to the auction's state. `model_validate` is that of
-- pydantic on `PageData`, and `explain` the text of the exception that `from_items` ends in.
use aucnotif.Prelude.{ℕ, Bool, false, Option, none, some, ◌++◌, if◌then◌else◌}
use aucnotif.Prelude.Text.{Text, codes}
use aucnotif.Times.{Instant}
use aucnotif.Domain.AuctionState.{AuctionState}
use aucnotif.Schemas.Json.{Json, Fields, obj}
use aucnotif.Schemas.Yahoo.{PageDataItems, YahooAuctionData, from_items, from_items_overflows}
use aucnotif.Providers.{
  Fetched, fetched, failed, crashed, page_data_not_found_error, page_data_parse_error,
}
use aucnotif.Providers.Yahoo.Client.{Answer, Page, html, raised, fetch_html}
use aucnotif.Providers.Yahoo.Extractor.{extract}

-- What `PageData.model_validate` makes of the object: an exception's text, no `items`, or the items.
pub data PageData : Type 0 where
  invalid : Text → PageData
  no_items : PageData
  with_items : PageDataItems → PageData

-- `bool(yahoo_data.is_closed)`.
abbrev pub truthy : Option Bool → Bool
truthy none = false
truthy (some b) = b

unfoldable pub state_of : YahooAuctionData → Instant → AuctionState
state_of yahoo_data observed_at = record {
  auction_id = yahoo_data.product_id;
  title = yahoo_data.product_name;
  current_price = yahoo_data.price;
  bid_count = yahoo_data.bids;
  start_time = yahoo_data.starttime;
  end_time = yahoo_data.endtime;
  buy_now_price = yahoo_data.win_price;
  quantity = yahoo_data.quantity;
  is_store = yahoo_data.is_store;
  is_closed = truthy yahoo_data.is_closed;
  has_winner = yahoo_data.has_winner;
  new_bid = yahoo_data.new_bid;
  observed_at = observed_at;
}

module _ (loads : Text → Option Json) (model_validate : Fields → PageData)
    (explain : PageDataItems → Text) (digit_of : ℕ → Option ℕ) (store_raw_data : Bool) where
  abbrev invalid_data : Text → Text → Fetched
  invalid_data url reason =
      failed
        (page_data_parse_error (codes "invalid pageData for " ++ (url ++ (codes ": " ++ reason))))

  unfoldable pub parse_items : Text → Instant → Fields → PageDataItems → Fetched
  parse_items url now raw items =
      let parsed : Fetched = elim (from_items digit_of items) [
        | none ↦ invalid_data url (explain items)
        | some yahoo_data ↦
            fetched (state_of yahoo_data now) (if store_raw_data then some (obj raw) else none)
      ] in
      if from_items_overflows digit_of items then crashed else parsed

  unfoldable pub parse_fields : Text → Instant → Fields → PageData → Fetched
  parse_fields url now raw (invalid reason) = invalid_data url reason
  parse_fields url now raw no_items =
      failed (page_data_parse_error (codes "pageData.items is missing"))
  parse_fields url now raw (with_items items) = parse_items url now raw items

  unfoldable pub parse_auction_state : Text → Text → Instant → Fetched
  parse_auction_state page url now = elim (extract loads page) [
    | none ↦ failed (page_data_not_found_error (codes "pageData not found for " ++ url))
    | some raw ↦ parse_fields url now raw (model_validate raw)
  ]

  abbrev pub from_page : Text → Instant → Page → Fetched
  from_page url now (html page) = parse_auction_state page url now
  from_page url now (raised e) = failed e

  unfoldable pub fetch_state_with_raw : Text → Instant → Answer → Fetched
  fetch_state_with_raw url now answer = from_page url now (fetch_html answer)

-- ===== src/Providers.antt =====
-- app/providers/base.py: what a provider of auction data returns or raises.
pub mod Yahoo
use aucnotif.Prelude.{ℕ, Option}
use aucnotif.Prelude.Text.{Text}
use aucnotif.Schemas.Json.{Json}
use aucnotif.Domain.AuctionState.{AuctionState}

-- The exceptions, each with its message; `RateLimitedError` has the HTTP status too.
pub data ProviderError : Type 0 where
  rate_limited_error : ℕ → Text → ProviderError
  anti_bot_error : Text → ProviderError
  page_data_not_found_error : Text → ProviderError
  page_data_parse_error : Text → ProviderError
  auction_gone_error : Text → ProviderError

-- `crashed` stands for any other exception, which no caller of a provider catches.
pub data Fetched : Type 0 where
  fetched : AuctionState → Option Json → Fetched
  failed : ProviderError → Fetched
  crashed : Fetched

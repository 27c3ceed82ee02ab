-- ===== src/Schemas/Yahoo.antt =====
-- app/schemas/yahoo.py: from the texts in the page data to typed values. `digit_of` is the value that
-- Unicode gives a decimal digit, which `int` reads; its limit of 4300 digits is left out.
-- `none` as a result stands for a `ValueError`.
pub mod Numbers
use aucnotif.Prelude.{
  ℕ, ◌+◌, ◌*◌, Bool, true, false, not, ◌||◌, Option, none, some, List, [], ◌∷◌, ◌++◌, ◌==◌, leb,
  ◌&&◌, is_some, if◌then◌else◌,
}
use aucnotif.Prelude.Int.{ℤ, pos, ◌-ℤ◌, eq_ℤ}
use aucnotif.Prelude.Lists.{delete_where}
use aucnotif.Prelude.Text.{Text, codes, strip, text_eq}
use aucnotif.Times.{Instant}
use aucnotif.Domain.Time.{Parsed, parsed, parse_error, overflow, parse_yahoo_datetime}
use aucnotif.Providers.Yahoo.Client.{lower}

-- What the two coercions take.
pub data Value : Type 0 where
  absent : Value
  boolean : Bool → Value
  number : ℤ → Value
  text : Text → Value

-- What a character is to `int`.
pub data Piece : Type 0 where
  underscore : Piece
  value : ℕ → Piece
  other : Piece

abbrev pub is_empty : Text → Bool
is_empty [] = true
is_empty _ = false

abbrev signed : Bool → Option ℕ → Option ℤ
signed minus none = none
signed minus (some n) = some (if minus then pos 0 -ℤ pos n else pos n)

infixl 5 ◌>>=◌
abbrev ◌>>=◌ : {A B : Type 0} → Option A → (A → Option B) → Option B
none >>= f = none
some a >>= f = f a

module _ (digit_of : ℕ → Option ℕ) where
  unfoldable pub piece : ℕ → Piece
  piece c = if c == b'_' then underscore else elim (digit_of c) [ none ↦ other | some d ↦ value d ]

  -- Digits, with single underscores between them; `after` says that the last character was a digit.
  abbrev pub digits_from : ℕ → Bool → Text → Option ℕ
  digits_from acc after [] = if after then some acc else none
  digits_from acc after (c ∷ s) = elim (piece c) [
    | underscore ↦ elim after [ true ↦ digits_from acc false s | false ↦ none ]
    | value d ↦ digits_from (acc * 10 + d) true s
    | other ↦ none
  ]

  abbrev pub after_sign : Text → Option ℤ
  after_sign [] = none
  after_sign (c ∷ s) =
      if c == b'-'
      then signed true (digits_from 0 false s)
      else if c == b'+'
      then signed false (digits_from 0 false s)
      else signed false (digits_from 0 false (c ∷ s))

  -- `int(text)`.
  unfoldable pub parse_int : Text → Option ℤ
  parse_int s = after_sign (strip s)

  abbrev pub read_int : Text → Option (Option ℤ)
  read_int s =
      if is_empty s then some none else elim (parse_int s) [ none ↦ none | some n ↦ some (some n) ]

  unfoldable pub to_int : Value → Option (Option ℤ)
  unfolding parse_int
  to_int absent = some none
  to_int (boolean b) = some (some (if b then pos 1 else pos 0))
  to_int (number n) = some (some n)
  to_int (text s) = read_int (delete_where (λ c. c == b',') (strip s))

abbrev is_one_of : Text → List Text → Bool
is_one_of s [] = false
is_one_of s (t ∷ rest) = text_eq s t || is_one_of s rest

unfoldable pub to_bool : Value → Option (Option Bool)
to_bool absent = some none
to_bool (boolean b) = some (some b)
to_bool (number n) = some (some (not (eq_ℤ n (pos 0))))
to_bool (text s) =
    let lowered = lower (strip s) in
    if is_one_of lowered (codes "1" ∷ codes "true" ∷ codes "yes" ∷ [])
    then some (some true)
    else if is_one_of lowered (codes "0" ∷ codes "false" ∷ codes "no" ∷ [] ∷ [])
    then some (some false)
    else none

-- The fields that are read further on.
pub record PageDataItems : Type 0 where
  pub product_id : Option Text
  pub product_name : Option Text
  pub price : Option Text
  pub starttime : Option Text
  pub endtime : Option Text
  pub win_price : Option Text
  pub quantity : Option Text
  pub bids : Option Text
  pub is_store : Option Text
  pub is_closed : Option Text
  pub has_winner : Option Text
  pub new_bid : Option Text

pub record YahooAuctionData : Type 0 where
  pub product_id : Text
  pub product_name : Option Text
  pub price : Option ℤ
  pub starttime : Option Instant
  pub endtime : Option Instant
  pub win_price : Option ℤ
  pub quantity : Option ℤ
  pub bids : Option ℤ
  pub is_store : Option Bool
  pub is_closed : Option Bool
  pub has_winner : Option Bool
  pub new_bid : Option Bool

abbrev given : Option Text → Value
given none = absent
given (some s) = text s

abbrev known_id : Option Text → Option Text
known_id none = none
known_id (some s) = if is_empty s then none else some s

-- The `OverflowError` of a time in the first hours of the year 1 is not a `ValueError`: see `overflows`.
abbrev in_time : Parsed → Option (Option Instant)
in_time (parsed t) = some (some t)
in_time parse_error = none
in_time overflow = none

abbrev is_overflow : Parsed → Bool
is_overflow overflow = true
is_overflow _ = false

module _ (digit_of : ℕ → Option ℕ) where
  -- The validator of the two times.
  unfoldable pub datetimes : Option Text → Option (Option Instant)
  datetimes none = some none
  datetimes (some s) = if is_empty s then some none else in_time (parse_yahoo_datetime digit_of s)

  -- Whether this validator ends in the `OverflowError`.
  abbrev pub overflows : Option Text → Bool
  overflows none = false
  overflows (some s) = not (is_empty s) && is_overflow (parse_yahoo_datetime digit_of s)

  -- pydantic runs every validator and collects the `ValueError`s, so an `OverflowError` of one of the two
  -- comes out of `from_items` whatever the other fields hold.
  abbrev pub from_items_overflows : PageDataItems → Bool
  from_items_overflows items =
      is_some (known_id items.product_id) && (overflows items.starttime || overflows items.endtime)

  unfoldable pub from_items : PageDataItems → Option YahooAuctionData
  unfolding to_int to_bool datetimes
  from_items items = do
    product_id ← known_id items.product_id
    price ← to_int digit_of (given items.price)
    starttime ← datetimes items.starttime
    endtime ← datetimes items.endtime
    win_price ← to_int digit_of (given items.win_price)
    quantity ← to_int digit_of (given items.quantity)
    bids ← to_int digit_of (given items.bids)
    is_store ← to_bool (given items.is_store)
    is_closed ← to_bool (given items.is_closed)
    has_winner ← to_bool (given items.has_winner)
    new_bid ← to_bool (given items.new_bid)
    some (record {
      product_id = product_id;
      product_name = items.product_name;
      price = price;
      starttime = starttime;
      endtime = endtime;
      win_price = win_price;
      quantity = quantity;
      bids = bids;
      is_store = is_store;
      is_closed = is_closed;
      has_winner = has_winner;
      new_bid = new_bid;
    })

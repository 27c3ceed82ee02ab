-- ===== src/Repositories/Columns.antt =====
-- What the columns of app/models take in PostgreSQL; a value that they do not take is an error at the flush.
use aucnotif.Prelude.{◌^◌, ◌-◌, Bool, true, not, ◌&&◌, ◌||◌, Option, none, some, ◌==◌, leb}
use aucnotif.Prelude.Int.{ℤ, pos, ◌-ℤ◌, leb_ℤ}
use aucnotif.Prelude.Lists.{exists_where, length}
use aucnotif.Prelude.Text.{Text, codes, text_eq}
use aucnotif.Schemas.Json.{
  Json, Items, Fields, null, bool, int, float, str, arr, obj, nil, cons, end, field,
}
use aucnotif.Domain.AuctionState.{AuctionState}

-- `Integer`: 32 bits.
abbrev pub takes_integer : Option ℤ → Bool
takes_integer none = true
takes_integer (some n) = leb_ℤ (pos 0 -ℤ pos (2 ^ 31)) n && leb_ℤ n (pos (2 ^ 31 - 1))

-- No NUL, and no half of a surrogate pair.
abbrev takes_text : Text → Bool
takes_text s = not (exists_where (λ c. c == 0 || (leb 0xd800 c && leb c 0xdfff)) s)

abbrev takes_title : Option Text → Bool
takes_title none = true
takes_title (some s) = takes_text s

-- `JSONB`, which has no number but the finite ones.
abbrev is_finite : Text → Bool
is_finite s =
    not (text_eq s (codes "NaN"))
    && (not (text_eq s (codes "Infinity")) && not (text_eq s (codes "-Infinity")))

mutual
  takes_json : Json → Bool
  takes_json null = true
  takes_json (bool b) = true
  takes_json (int n) = true
  takes_json (float s) = is_finite s
  takes_json (str s) = takes_text s
  takes_json (arr items) = takes_items items
  takes_json (obj fields) = takes_fields fields

  takes_items : Items → Bool
  takes_items nil = true
  takes_items (cons j items) = takes_json j && takes_items items

  takes_fields : Fields → Bool
  takes_fields end = true
  takes_fields (field name j fields) = takes_text name && (takes_json j && takes_fields fields)

abbrev takes_raw : Option Json → Bool
takes_raw none = true
takes_raw (some j) = takes_json j

-- The columns of an auction that a state is written to.
unfoldable pub takes_state : AuctionState → Bool
takes_state state =
    takes_title state.title
    && (takes_integer state.current_price
        && (takes_integer state.bid_count
            && (takes_integer state.buy_now_price && takes_integer state.quantity)))

-- And those of a snapshot.
unfoldable pub takes_snapshot : AuctionState → Option Json → Bool
unfolding takes_json takes_state
takes_snapshot state raw_data = takes_state state && takes_raw raw_data

-- `String(64)`
unfoldable pub takes_id : Text → Bool
takes_id external_id = leb (length external_id) 64

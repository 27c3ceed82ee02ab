-- ===== src/Migrations/Initial.antt =====
-- alembic/versions/0001_initial.py.
use aucnotif.Prelude.{Bool, true, false, none, some, List, [], ◌∷◌}
use aucnotif.Prelude.Text.{Text, codes}
use aucnotif.Migrations.Schema.{
  ColumnType, big_integer, integer, text, boolean, timestamp, jsonb, varchar, Column, Index, Table,
  Change, create_table, create_index, drop_table,
}

abbrev pub required : Text → ColumnType → Column
required name type = record {
  name = name;
  type = type;
  primary_key = false;
  nullable = false;
  server_default = none;
  references = none;
}

abbrev pub optional : Text → ColumnType → Column
optional name type = record (required name type) { nullable = true }

abbrev pub defaulting : Text → ColumnType → Text → Column
defaulting name type default = record (required name type) { server_default = some default }

abbrev pub foreign : Text → Text → Column
foreign name target = record (required name big_integer) { references = some target }

-- A time that the server sets to the current one.
abbrev pub stamp : Text → Column
stamp name = defaulting name timestamp (codes "now()")

abbrev pub id : Column
id = record (required (codes "id") big_integer) { primary_key = true }

-- An index or a constraint.
abbrev pub on : Text → List Text → Bool → Index
on name columns unique = record { name = name; columns = columns; unique = unique }

abbrev pub users : Table
users = record {
  name = codes "users";
  columns =
      id
      ∷ required (codes "telegram_id") big_integer
      ∷ defaulting (codes "timezone") (varchar 64) (codes "Europe/Moscow")
      ∷ defaulting (codes "language") (varchar 8) (codes "ru")
      ∷ defaulting (codes "is_active") boolean (codes "true")
      ∷ stamp (codes "created_at")
      ∷ stamp (codes "updated_at")
      ∷ [];
  constraints = [];
  indexes = [];
}

abbrev pub auctions : Table
auctions = record {
  name = codes "auctions";
  columns =
      id
      ∷ required (codes "external_id") (varchar 64)
      ∷ required (codes "url") text
      ∷ optional (codes "title") text
      ∷ optional (codes "current_price") integer
      ∷ optional (codes "bid_count") integer
      ∷ optional (codes "start_time") timestamp
      ∷ optional (codes "end_time") timestamp
      ∷ optional (codes "buy_now_price") integer
      ∷ optional (codes "quantity") integer
      ∷ optional (codes "is_store") boolean
      ∷ defaulting (codes "is_closed") boolean (codes "false")
      ∷ optional (codes "has_winner") boolean
      ∷ defaulting (codes "monitoring_active") boolean (codes "true")
      ∷ optional (codes "next_poll_at") timestamp
      ∷ optional (codes "last_polled_at") timestamp
      ∷ optional (codes "last_error") text
      ∷ defaulting (codes "consecutive_errors") integer (codes "0")
      ∷ stamp (codes "created_at")
      ∷ stamp (codes "updated_at")
      ∷ [];
  constraints = [];
  indexes = [];
}

abbrev pub user_auctions : Table
user_auctions = record {
  name = codes "user_auctions";
  columns =
      id
      ∷ foreign (codes "user_id") (codes "users")
      ∷ foreign (codes "auction_id") (codes "auctions")
      ∷ defaulting (codes "notifications_enabled") boolean (codes "true")
      ∷ stamp (codes "created_at")
      ∷ stamp (codes "updated_at")
      ∷ [];
  constraints =
      on (codes "uq_user_auction") ((codes "user_id") ∷ (codes "auction_id") ∷ []) true ∷ [];
  indexes = [];
}

abbrev pub auction_snapshots : Table
auction_snapshots = record {
  name = codes "auction_snapshots";
  columns =
      id
      ∷ foreign (codes "auction_id") (codes "auctions")
      ∷ required (codes "observed_at") timestamp
      ∷ optional (codes "current_price") integer
      ∷ optional (codes "bid_count") integer
      ∷ optional (codes "end_time") timestamp
      ∷ optional (codes "buy_now_price") integer
      ∷ optional (codes "is_closed") boolean
      ∷ optional (codes "has_winner") boolean
      ∷ optional (codes "new_bid") boolean
      ∷ optional (codes "raw_data") jsonb
      ∷ [];
  constraints = [];
  indexes = [];
}

abbrev pub sent_notifications : Table
sent_notifications = record {
  name = codes "sent_notifications";
  columns =
      id
      ∷ foreign (codes "user_auction_id") (codes "user_auctions")
      ∷ required (codes "kind") (varchar 32)
      ∷ required (codes "dedup_key") (varchar 128)
      ∷ optional (codes "text") text
      ∷ defaulting (codes "status") (varchar 16) (codes "pending")
      ∷ required (codes "created_at") timestamp
      ∷ optional (codes "sent_at") timestamp
      ∷ [];
  constraints =
      on (codes "uq_sent_notification")
        ((codes "user_auction_id") ∷ (codes "kind") ∷ (codes "dedup_key") ∷ []) true
      ∷ [];
  indexes = [];
}

unfoldable pub initial_upgrade : List Change
initial_upgrade =
    create_table users
    ∷ create_index (on (codes "ix_users_telegram_id") ((codes "telegram_id") ∷ []) true)
        (codes "users")
    ∷ create_table auctions
    ∷ create_index (on (codes "ix_auctions_external_id") ((codes "external_id") ∷ []) true)
        (codes "auctions")
    ∷ create_index
        (on (codes "ix_auctions_monitoring_next_poll")
          ((codes "monitoring_active") ∷ (codes "next_poll_at") ∷ []) false)
        (codes "auctions")
    ∷ create_index (on (codes "ix_auctions_closed") ((codes "is_closed") ∷ []) false)
        (codes "auctions")
    ∷ create_table user_auctions
    ∷ create_index (on (codes "ix_user_auctions_user_id") ((codes "user_id") ∷ []) false)
        (codes "user_auctions")
    ∷ create_index (on (codes "ix_user_auctions_auction_id") ((codes "auction_id") ∷ []) false)
        (codes "user_auctions")
    ∷ create_table auction_snapshots
    ∷ create_index
        (on (codes "ix_snapshots_auction_observed")
          ((codes "auction_id") ∷ (codes "observed_at") ∷ []) false)
        (codes "auction_snapshots")
    ∷ create_table sent_notifications
    ∷ create_index (on (codes "ix_sent_notifications_status") ((codes "status") ∷ []) false)
        (codes "sent_notifications")
    ∷ []

unfoldable pub initial_downgrade : List Change
initial_downgrade =
    drop_table (codes "sent_notifications")
    ∷ drop_table (codes "auction_snapshots")
    ∷ drop_table (codes "user_auctions")
    ∷ drop_table (codes "auctions")
    ∷ drop_table (codes "users")
    ∷ []

-- ===== src/Migrations/Declared.antt =====
-- app/models: the tables that the classes declare, as SQLAlchemy reads them for PostgreSQL. The defaults of the
-- classes are set by the program and not by the server. `index=True` makes an index named after table and column.
use aucnotif.Prelude.{true, false, List, [], ◌∷◌}
use aucnotif.Prelude.Text.{codes}
use aucnotif.Migrations.Schema.{
  big_integer, integer, text, boolean, timestamp, jsonb, varchar, Column, Table, Schema,
}
use aucnotif.Migrations.Initial.{required, optional, foreign, stamp, id, on}

-- `TimestampMixin`
abbrev timestamps : List Column
timestamps = stamp (codes "created_at") ∷ stamp (codes "updated_at") ∷ []

abbrev declared_users : Table
declared_users = record {
  name = codes "users";
  columns =
      id
      ∷ required (codes "telegram_id") big_integer
      ∷ required (codes "language") (varchar 8)
      ∷ required (codes "is_active") boolean
      ∷ timestamps;
  constraints = [];
  indexes = on (codes "ix_users_telegram_id") ((codes "telegram_id") ∷ []) true ∷ [];
}

abbrev declared_auctions : Table
declared_auctions = record {
  name = codes "auctions";
  columns =
      id
      ∷ required (codes "external_id") (varchar 64)
      ∷ required (codes "url") text
      ∷ optional (codes "title") text
      ∷ optional (codes "current_price") integer
      ∷ optional (codes "bid_count") integer
      ∷ optional (codes "start_time") timestamp
      ∷ optional (codes "end_time") timestamp
      ∷ optional (codes "buy_now_price") integer
      ∷ optional (codes "quantity") integer
      ∷ optional (codes "is_store") boolean
      ∷ required (codes "is_closed") boolean
      ∷ optional (codes "has_winner") boolean
      ∷ required (codes "monitoring_active") boolean
      ∷ optional (codes "next_poll_at") timestamp
      ∷ optional (codes "last_polled_at") timestamp
      ∷ optional (codes "last_error") text
      ∷ required (codes "consecutive_errors") integer
      ∷ timestamps;
  constraints = [];
  indexes =
      on (codes "ix_auctions_external_id") ((codes "external_id") ∷ []) true
      ∷ on (codes "ix_auctions_monitoring_next_poll")
          ((codes "monitoring_active") ∷ (codes "next_poll_at") ∷ []) false
      ∷ on (codes "ix_auctions_closed") ((codes "is_closed") ∷ []) false
      ∷ [];
}

abbrev declared_user_auctions : Table
declared_user_auctions = record {
  name = codes "user_auctions";
  columns =
      id
      ∷ foreign (codes "user_id") (codes "users")
      ∷ foreign (codes "auction_id") (codes "auctions")
      ∷ required (codes "notifications_enabled") boolean
      ∷ optional (codes "label") (varchar 255)
      ∷ timestamps;
  constraints =
      on (codes "uq_user_auction") ((codes "user_id") ∷ (codes "auction_id") ∷ []) true ∷ [];
  indexes =
      on (codes "ix_user_auctions_auction_id") ((codes "auction_id") ∷ []) false
      ∷ on (codes "ix_user_auctions_user_id") ((codes "user_id") ∷ []) false
      ∷ [];
}

abbrev declared_auction_snapshots : Table
declared_auction_snapshots = record {
  name = codes "auction_snapshots";
  columns =
      id
      ∷ foreign (codes "auction_id") (codes "auctions")
      ∷ required (codes "observed_at") timestamp
      ∷ optional (codes "current_price") integer
      ∷ optional (codes "bid_count") integer
      ∷ optional (codes "end_time") timestamp
      ∷ optional (codes "buy_now_price") integer
      ∷ optional (codes "is_closed") boolean
      ∷ optional (codes "has_winner") boolean
      ∷ optional (codes "new_bid") boolean
      ∷ optional (codes "raw_data") jsonb
      ∷ [];
  constraints = [];
  indexes =
      on (codes "ix_snapshots_auction_observed") ((codes "auction_id") ∷ (codes "observed_at") ∷ [])
        false
      ∷ [];
}

abbrev declared_sent_notifications : Table
declared_sent_notifications = record {
  name = codes "sent_notifications";
  columns =
      id
      ∷ foreign (codes "user_auction_id") (codes "user_auctions")
      ∷ required (codes "kind") (varchar 32)
      ∷ required (codes "dedup_key") (varchar 128)
      ∷ optional (codes "text") text
      ∷ required (codes "status") (varchar 16)
      ∷ required (codes "created_at") timestamp
      ∷ optional (codes "sent_at") timestamp
      ∷ [];
  constraints =
      on (codes "uq_sent_notification")
        ((codes "user_auction_id") ∷ (codes "kind") ∷ (codes "dedup_key") ∷ []) true
      ∷ [];
  indexes = on (codes "ix_sent_notifications_status") ((codes "status") ∷ []) false ∷ [];
}

abbrev pub declared : Schema
declared =
    declared_users ∷ declared_auctions ∷ declared_user_auctions ∷ declared_auction_snapshots
    ∷ declared_sent_notifications ∷ []

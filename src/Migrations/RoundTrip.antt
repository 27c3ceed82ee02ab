-- ===== src/Migrations/RoundTrip.antt =====
-- All migrations up and all of them down again.
use aucnotif.Prelude.{◌≡◌, refl, false, some, List, [], ◌∷◌}
use aucnotif.Prelude.Lists.{All}
use aucnotif.Prelude.Text.{Text, codes}
use aucnotif.Migrations.Schema.{Schema, has_table, has_index, is_referenced, then_run, run, apply}
use aucnotif.Migrations.Initial.{initial_upgrade, initial_downgrade}
use aucnotif.Migrations.Versions.{
  upgrade, downgrade, moscow_upgrade, moscow_downgrade, timezone_upgrade, timezone_downgrade,
  label_upgrade, label_downgrade,
}

abbrev pub tables : List Text
tables =
    codes "users"
    ∷ codes "auctions"
    ∷ codes "user_auctions"
    ∷ codes "auction_snapshots"
    ∷ codes "sent_notifications"
    ∷ []

abbrev pub indexes : List Text
indexes =
    codes "ix_users_telegram_id"
    ∷ codes "ix_auctions_external_id"
    ∷ codes "ix_auctions_monitoring_next_poll"
    ∷ codes "ix_auctions_closed"
    ∷ codes "ix_user_auctions_user_id"
    ∷ codes "ix_user_auctions_auction_id"
    ∷ codes "ix_snapshots_auction_observed"
    ∷ codes "ix_sent_notifications_status"
    ∷ []

-- A schema that knows none of the program's names.
pub record IsForeign (s : Schema) : Type 0 where
  pub no_table : All (λ name. has_table name s ≡ false) tables
  pub no_index : All (λ name. has_index name s ≡ false) indexes
  pub no_key : All (λ name. is_referenced name s ≡ false) tables

-- Up and down again: beside tables of other programs, which use none of this program's names, no migration is
-- refused, and in the end the schema is the one from before.
pub upgrade-downgrade :
    (s : Schema) → IsForeign s → then_run (run upgrade s) (run downgrade) ≡ some s
unfolding upgrade downgrade run apply initial_upgrade initial_downgrade moscow_upgrade
    moscow_downgrade timezone_upgrade timezone_downgrade label_upgrade label_downgrade
upgrade-downgrade s h =
    let (t₁, (t₂, (t₃, (t₄, (t₅, _))))) = h.no_table in
    let (i₁, (i₂, (i₃, (i₄, (i₅, (i₆, (i₇, (i₈, _)))))))) = h.no_index in
    let (k₁, (k₂, (k₃, (k₄, (k₅, _))))) = h.no_key in
    rw (t₁, i₁, t₂, i₂, i₃, i₄, t₃, i₅, i₆, t₄, i₇, t₅, i₈, k₅, k₄, k₃, k₂, k₁) refl

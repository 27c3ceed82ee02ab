-- ===== src/Migrations/Versions.antt =====
-- alembic/versions: 0002_moscow_default_timezone.py, 0003_drop_users_timezone.py, 0004_user_auction_label.py, and
-- the order of all four, which their `down_revision`s say.
use aucnotif.Prelude.{some, List, [], ◌∷◌, ◌++◌}
use aucnotif.Prelude.Text.{Text, codes}
use aucnotif.Migrations.Schema.{
  varchar, Change, add_column, drop_column, set_server_default, update_rows,
}
use aucnotif.Migrations.Initial.{optional, defaulting, initial_upgrade, initial_downgrade}

abbrev default_timezone : Text → Change
default_timezone zone = set_server_default (codes "users") (codes "timezone") (some zone)

unfoldable pub moscow_upgrade : List Change
moscow_upgrade =
    update_rows
      (codes "UPDATE users SET timezone = 'Europe/Moscow' WHERE timezone = 'Europe/London'")
    ∷ default_timezone (codes "Europe/Moscow")
    ∷ []

unfoldable pub moscow_downgrade : List Change
moscow_downgrade = default_timezone (codes "Europe/London") ∷ []

unfoldable pub timezone_upgrade : List Change
timezone_upgrade = drop_column (codes "users") (codes "timezone") ∷ []

unfoldable pub timezone_downgrade : List Change
timezone_downgrade =
    add_column (codes "users") (defaulting (codes "timezone") (varchar 64) (codes "Europe/Moscow"))
    ∷ []

unfoldable pub label_upgrade : List Change
label_upgrade = add_column (codes "user_auctions") (optional (codes "label") (varchar 255)) ∷ []

unfoldable pub label_downgrade : List Change
label_downgrade = drop_column (codes "user_auctions") (codes "label") ∷ []

unfoldable pub upgrade : List Change
unfolding initial_upgrade moscow_upgrade timezone_upgrade label_upgrade
upgrade = initial_upgrade ++ (moscow_upgrade ++ (timezone_upgrade ++ label_upgrade))

unfoldable pub downgrade : List Change
unfolding initial_downgrade moscow_downgrade timezone_downgrade label_downgrade
downgrade = label_downgrade ++ (timezone_downgrade ++ (moscow_downgrade ++ initial_downgrade))

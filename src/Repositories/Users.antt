-- ===== src/Repositories/Users.antt =====
-- app/repositories/users.py
use aucnotif.Prelude.{ℕ, suc, true, Option, none, some, ◌∷◌, ◌==◌}
use aucnotif.Prelude.Lists.{select_one}
use aucnotif.Prelude.Text.{Text}
use aucnotif.Models.{User}
use aucnotif.Database.{Database}

unfoldable pub get_by_telegram_id : ℕ → Database → Option User
get_by_telegram_id telegram_id db = select_one (λ u. u.telegram_id == telegram_id) db.users

unfoldable pub create : ℕ → Text → Database → User × Database
create telegram_id language db =
    let user : User = record {
      id = db.next_user;
      telegram_id = telegram_id;
      language = language;
      is_active = true;
    } in
    (user, record db { users = user ∷ db.users; next_user = suc db.next_user })

unfoldable pub get_or_create : ℕ → Text → Database → User × Database
get_or_create telegram_id language db = elim (get_by_telegram_id telegram_id db) [
  | some user ↦ (user, db)
  | none ↦ create telegram_id language db
]

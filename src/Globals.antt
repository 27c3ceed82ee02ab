-- ===== src/Globals.antt =====
-- The process-wide objects of app/db.py, app/infrastructure/redis.py, app/infrastructure/container.py and
-- app/workers/settings.py. An object is a number, drawn when it is made; what a constructor is given is left out,
-- but for the objects that it keeps.
pub mod Held
use aucnotif.Prelude.{
  ℕ, suc, Bool, true, false, Option, none, some, List, [], ◌∷◌, ◌==◌, if◌then◌else◌,
}

-- Beside the variables, what is open: an object that no variable holds may still be.
pub record Globals : Type 0 where
  pub engine : Option ℕ
  pub session_factory : Option ℕ
  pub redis : Option ℕ
  pub provider : Option ℕ
  pub open_engines : List ℕ
  pub open_clients : List ℕ
  pub open_providers : List ℕ
  pub fresh : ℕ

abbrev pub at_start : Globals
at_start = record {
  engine = none;
  session_factory = none;
  redis = none;
  provider = none;
  open_engines = [];
  open_clients = [];
  open_providers = [];
  fresh = 0;
}

abbrev pub closed : ℕ → List ℕ → List ℕ
closed n [] = []
closed n (m ∷ ms) = let rest = m ∷ closed n ms in if m == n then ms else rest

-- The engine that is there, or a new one.
unfoldable pub get_engine : Globals → ℕ × Globals
get_engine g = elim g.engine [
  | some e ↦ (e, g)
  | none ↦ (
    g.fresh,
    record g {
      engine = some g.fresh;
      open_engines = g.fresh ∷ g.open_engines;
      fresh = suc g.fresh;
    },
  )
]

-- A session factory is the engine that it is bound to.
unfoldable pub get_session_factory : Globals → ℕ × Globals
get_session_factory g = elim g.session_factory [
  | some e ↦ (e, g)
  | none ↦ let (e, made) = get_engine g in (e, record made { session_factory = some e })
]

abbrev pub disposed : Option ℕ → List ℕ → List ℕ
disposed none opened = opened
disposed (some n) opened = closed n opened

unfoldable pub dispose_engine : Globals → Globals
dispose_engine g = record g {
  engine = none;
  session_factory = none;
  open_engines = disposed g.engine g.open_engines;
}

unfoldable pub get_redis : Globals → ℕ × Globals
get_redis g = elim g.redis [
  | some r ↦ (r, g)
  | none ↦ (
    g.fresh,
    record g { redis = some g.fresh; open_clients = g.fresh ∷ g.open_clients; fresh = suc g.fresh },
  )
]

unfoldable pub close_redis : Globals → Globals
close_redis g = record g { redis = none; open_clients = disposed g.redis g.open_clients }

-- The rate limiter of the provider gets the client.
unfoldable pub get_worker_provider : Globals → ℕ × Globals
get_worker_provider g = elim g.provider [
  | some p ↦ (p, g)
  | none ↦
      let made = (get_redis g).1 in
      (
        made.fresh,
        record made {
          provider = some made.fresh;
          open_providers = made.fresh ∷ made.open_providers;
          fresh = suc made.fresh;
        },
      )
]

unfoldable pub close_worker_provider : Globals → Globals
close_worker_provider g = record g {
  provider = none;
  open_providers = disposed g.provider g.open_providers;
}

unfoldable pub startup : Globals → Globals
unfolding get_worker_provider
startup g = (get_worker_provider g).1

unfoldable pub shutdown : Globals → Globals
unfolding close_worker_provider close_redis
shutdown g = close_redis (close_worker_provider g)

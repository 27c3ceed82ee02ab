-- ===== src/Globals/Held.antt =====
-- What is open is what the variables hold.
use aucnotif.Prelude.{
  ◌⊎◌, ℕ, ◌≡◌, refl, sym, ap, ◌∙◌, Option, none, some, List, [], ◌∷◌, ==_iff, Option-cases, inl,
  inr,
}
use aucnotif.Globals.{
  Globals, at_start, closed, disposed, get_engine, get_session_factory, dispose_engine, get_redis,
  close_redis, get_worker_provider, close_worker_provider, startup, shutdown,
}

abbrev pub holding : Option ℕ → List ℕ
holding none = []
holding (some n) = n ∷ []

-- Nothing is open but what a variable holds, and a session factory is bound to the engine that is there.
pub record IsHeld (g : Globals) : Type 0 where
  pub engines : g.open_engines ≡ holding g.engine
  pub clients : g.open_clients ≡ holding g.redis
  pub providers : g.open_providers ≡ holding g.provider
  pub bound : (g.session_factory ≡ none) ⊎ (g.session_factory ≡ g.engine)

pub data Call : Type 0 where
  calls_engine calls_session_factory disposes_engine calls_redis closes_redis calls_provider : Call
  closes_provider starts_worker stops_worker : Call

unfoldable pub serve : Call → Globals → Globals
serve calls_engine g = (get_engine g).1
serve calls_session_factory g = (get_session_factory g).1
serve disposes_engine g = dispose_engine g
serve calls_redis g = (get_redis g).1
serve closes_redis g = close_redis g
serve calls_provider g = (get_worker_provider g).1
serve closes_provider g = close_worker_provider g
serve starts_worker g = startup g
serve stops_worker g = shutdown g

unfoldable pub serve_all : List Call → Globals → Globals
serve_all [] g = g
serve_all (c ∷ calls) g = serve_all calls (serve c g)

disposed-holding : (v : Option ℕ) (opened : List ℕ) → opened ≡ holding v → disposed v opened ≡ []
disposed-holding none opened h = h
disposed-holding (some n) opened h = ap (closed n) h ∙ rw ((==_iff n n).1 refl) refl

unbound :
    (factory engine : Option ℕ)
    → (factory ≡ none) ⊎ (factory ≡ engine)
    → engine ≡ none
    → factory ≡ none
unbound factory engine (inl f) e = f
unbound factory engine (inr f) e = f ∙ e

get_engine-IsHeld :
    (g : Globals)
    → IsHeld g
    → IsHeld (get_engine g).1 × ((get_engine g).1.engine ≡ some (get_engine g).0)
unfolding get_engine
get_engine-IsHeld g h = elim (Option-cases g.engine) [
  | inl e ↦
      rw (e, get_engine)
        (
          record {
            engines = ap (λ opened. g.fresh ∷ opened) (h.engines ∙ ap holding e);
            clients = h.clients;
            providers = h.providers;
            bound = inl (unbound g.session_factory g.engine h.bound e);
          },
          refl,
        )
  | inr (n, e) ↦ rw (e, get_engine) (h, e)
]

get_session_factory-IsHeld : (g : Globals) → IsHeld g → IsHeld (get_session_factory g).1
unfolding get_session_factory
get_session_factory-IsHeld g h = elim (Option-cases g.session_factory) [
  | inl e ↦
      let (made, engine) = get_engine-IsHeld g h in
      rw (e, get_session_factory)
        (record {
          engines = made.engines;
          clients = made.clients;
          providers = made.providers;
          bound = inr (sym engine);
        })
  | inr (n, e) ↦ rw (e, get_session_factory) h
]

get_redis-IsHeld : (g : Globals) → IsHeld g → IsHeld (get_redis g).1
unfolding get_redis
get_redis-IsHeld g h = elim (Option-cases g.redis) [
  | inl e ↦
      rw (e, get_redis)
        (record {
          engines = h.engines;
          clients = ap (λ opened. g.fresh ∷ opened) (h.clients ∙ ap holding e);
          providers = h.providers;
          bound = h.bound;
        })
  | inr (n, e) ↦ rw (e, get_redis) h
]

get_redis-provider : (g : Globals) → (get_redis g).1.provider ≡ g.provider
unfolding get_redis
get_redis-provider g = elim (Option-cases g.redis) [
  | inl e ↦ rw (e, get_redis) refl
  | inr (n, e) ↦ rw (e, get_redis) refl
]

get_worker_provider-IsHeld : (g : Globals) → IsHeld g → IsHeld (get_worker_provider g).1
unfolding get_worker_provider
get_worker_provider-IsHeld g h = elim (Option-cases g.provider) [
  | inl e ↦
      let made = get_redis-IsHeld g h in
      rw (e, get_worker_provider)
        (record {
          engines = made.engines;
          clients = made.clients;
          providers =
              ap (λ opened. (get_redis g).1.fresh ∷ opened)
                (made.providers ∙ ap holding (get_redis-provider g ∙ e));
          bound = made.bound;
        })
  | inr (n, e) ↦ rw (e, get_worker_provider) h
]

dispose_engine-IsHeld : (g : Globals) → IsHeld g → IsHeld (dispose_engine g)
unfolding dispose_engine
dispose_engine-IsHeld g h = record {
  engines = disposed-holding g.engine g.open_engines h.engines;
  clients = h.clients;
  providers = h.providers;
  bound = inl refl;
}

close_redis-IsHeld : (g : Globals) → IsHeld g → IsHeld (close_redis g)
unfolding close_redis
close_redis-IsHeld g h = record {
  engines = h.engines;
  clients = disposed-holding g.redis g.open_clients h.clients;
  providers = h.providers;
  bound = h.bound;
}

close_worker_provider-IsHeld : (g : Globals) → IsHeld g → IsHeld (close_worker_provider g)
unfolding close_worker_provider
close_worker_provider-IsHeld g h = record {
  engines = h.engines;
  clients = h.clients;
  providers = disposed-holding g.provider g.open_providers h.providers;
  bound = h.bound;
}

serve-IsHeld : (c : Call) (g : Globals) → IsHeld g → IsHeld (serve c g)
unfolding serve startup shutdown
serve-IsHeld calls_engine g h = (get_engine-IsHeld g h).0
serve-IsHeld calls_session_factory g h = get_session_factory-IsHeld g h
serve-IsHeld disposes_engine g h = dispose_engine-IsHeld g h
serve-IsHeld calls_redis g h = get_redis-IsHeld g h
serve-IsHeld closes_redis g h = close_redis-IsHeld g h
serve-IsHeld calls_provider g h = get_worker_provider-IsHeld g h
serve-IsHeld closes_provider g h = close_worker_provider-IsHeld g h
serve-IsHeld starts_worker g h = get_worker_provider-IsHeld g h
serve-IsHeld stops_worker g h =
    close_redis-IsHeld (close_worker_provider g) (close_worker_provider-IsHeld g h)

at_start-IsHeld : IsHeld at_start
at_start-IsHeld = record { engines = refl; clients = refl; providers = refl; bound = inl refl }

IsHeld-serve_all : (calls : List Call) (g : Globals) → IsHeld g → IsHeld (serve_all calls g)
unfolding serve_all
IsHeld-serve_all [] g h = h
IsHeld-serve_all (c ∷ calls) g h = IsHeld-serve_all calls (serve c g) (serve-IsHeld c g h)

-- However the process asks for its engine, its session factory, its Redis client and its provider, and closes them:
-- at any time no more is open than the one of each that the variables hold, and a session factory that is there is
-- bound to the engine that is there.
pub serve_all-IsHeld : (calls : List Call) → IsHeld (serve_all calls at_start)
serve_all-IsHeld calls = IsHeld-serve_all calls at_start at_start-IsHeld

-- ===== src/Tests/Globals.antt =====
-- A worker that starts, opens sessions, stops, and starts again.
use aucnotif.Prelude.{List, [], ◌∷◌}
use aucnotif.Globals.{at_start}
use aucnotif.Globals.Held.{
  IsHeld, Call, calls_session_factory, disposes_engine, calls_engine, starts_worker, stops_worker,
  serve_all, serve_all-IsHeld,
}

abbrev calls : List Call
calls =
    starts_worker ∷ calls_session_factory ∷ stops_worker ∷ disposes_engine ∷ calls_engine
    ∷ starts_worker ∷ []

serve_all-IsHeld_example : IsHeld (serve_all calls at_start)
serve_all-IsHeld_example = serve_all-IsHeld calls

-- ===== src/Tests/Ticks.antt =====
-- A tick of the scheduler on the test data.
use aucnotif.Prelude.{◌≡◌, false, none, List, ◌++◌, arith}
use aucnotif.Prelude.Int.{pos}
use aucnotif.Prelude.Lists.{All}
use aucnotif.Repositories.Auctions.{is_due, list_due}
use aucnotif.Scheduler.{Job, due_limit, tick_body}
use aucnotif.Scheduler.Due.{Fits}
use aucnotif.Scheduler.Tick.{watched, tick-NothingDue}
use aucnotif.Tests.Data.{settings, database}

fits : Fits (pos 100) database
unfolding is_due
fits = omega arith

tick-NothingDue_example :
    All (λ a. is_due (pos 100) a ≡ false) (tick_body settings (pos 100) none database).db.auctions
    × ((sends : List Job) × ((tick_body settings (pos 100) none database).jobs
          ≡ watched database (list_due (pos 100) due_limit database) ++ sends))
tick-NothingDue_example = tick-NothingDue settings (pos 100) none database (omega arith) fits

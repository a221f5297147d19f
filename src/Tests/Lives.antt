-- ===== src/Tests/Lives.antt =====
-- The theorems on the lives of runs, each at one input.
use fakery.Prelude.{
  ℕ, ◌*◌, ◌≡◌, refl, arith, true, false, none, some, [], find_row, sort_by, insert_by,
}
use fakery.Core.Action.{Action, ok}
use fakery.Bots.State.{joining}
use fakery.Bots.Models.{Instant, Db}
use fakery.Bots.Repository
use fakery.Bots.Repository.{precedes}
use fakery.Bots.Service.{cancel}
use fakery.Bots.Service.Create.{new_run}
use fakery.Bots.Service.Artifacts.Pages.{pages, list_runs_pages}
use fakery.Bots.Histories.{nothing, followed, is_advanced, is_cancelled, is_relayed}
use fakery.Bots.Histories.Refines.{reaches-Evolves}
use fakery.Bots.Life.{Evolves}
use fakery.Bots.Jobs.{missing}
use fakery.Bots.Jobs.Client.{Answer, not_there}
use fakery.Bots.Runtime.Job.{JobCalls, spawn, job_result}
use fakery.Bots.Runtime.Job.Fails.{IsOver}
use fakery.Bots.Runtime.Job.Over.{spawn-IsOver}
use fakery.Bots.Runtime.Process
use fakery.Bots.Runtime.Process.Over.{run-IsOver}
use fakery.Tests.{sample_run, sample_db, sink}
use fakery.Tests.Runs.{sample_db-IsSound, sink_keeps}
use fakery.Tests.Meetings.{joining_db, five_seconds}
use fakery.Tests.Attendance.{meeting, sink_leaves}

reaches-Evolves_example : Evolves sample_db (cancel sink 220 1 joining_db).1
reaches-Evolves_example =
    reaches-Evolves sink sample_db (cancel sink 220 1 joining_db).1 sink_keeps sample_db-IsSound (
      followed
        (followed (followed nothing (is_relayed 205 (λ k. none))) (is_advanced 210 1 joining))
        (is_cancelled 220 1))

list_runs_pages_example : pages 2 1 none sample_db ≡ sort_by precedes sample_db.bots
unfolding sort_by insert_by
list_runs_pages_example =
    list_runs_pages 1 2 sample_db sample_db-IsSound (omega arith) (omega arith)

abbrev ten_seconds : ℕ → Instant
ten_seconds i = 10_000_000 * i

abbrev gone : ℕ → Answer
gone i = not_there

-- A job that is gone; meanwhile the run was cancelled.
abbrev calls : JobCalls
calls = record { existing = ok false; created = ok tt; waited = ok missing }

spawn-IsOver_example :
    (act : Action Db (Unit {0})) × (spawn 30 230 none sink
        (λ uri. none)
        1
        five_seconds
        (λ i. sample_db)
        calls
      ≡ some act)
    × ((act (cancel sink 220 1 sample_db).1).0 ≡ ok tt)
    × IsOver 1 (act (cancel sink 220 1 sample_db).1).1
unfolding job_result Repository.get find_row new_run
spawn-IsOver_example =
    spawn-IsOver 30 230 none sink (λ uri. none) 1 five_seconds (λ i. sample_db)
      (cancel sink 220 1 sample_db).1 calls missing sample_run refl sink_keeps (λ i. omega arith)
      sample_db-IsSound refl (λ i. nothing) (λ i. followed nothing (is_cancelled 220 1))

run-IsOver_example :
    IsOver 1
      (Process.run sink 210 30 true none
        (λ uri. none)
        1
        (λ e. false)
        (λ e. [])
        (ok tt)
        (ok tt)
        meeting
        sample_db).1
unfolding Repository.get find_row new_run
run-IsOver_example =
    run-IsOver sink 210 sink_leaves 30 true none (λ uri. none) 1 (λ e. false) (λ e. []) (ok tt)
      (ok tt) meeting sample_run sample_db refl

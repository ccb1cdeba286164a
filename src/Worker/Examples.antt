-- ===== src/Worker/Examples.antt =====
-- Two workers with spin-locked queues: task 5 arrives, and spawns the tasks 1 and 2 and defers 3.
use mathlib.Core.List.{Perm}
use cmpth_rs.Prelude.{
  ℕ, suc, ◌≡◌, refl, List, [], ◌∷◌, ◌++◌, arith, ◌==◌, ℕ_discrete, if◌then◌else◌,
}
use cmpth_rs.RunQueue.Spin.{spin}
use cmpth_rs.RunQueue.{spin_pop, spin_push, spin_defer, spin_steal}
use cmpth_rs.Steal.{random_sweep_try_steal, sweep, sweep_from}
use cmpth_rs.Worker.{
  try_run_one, run_found, round, after_next, run_on, push_each, defer_each, push, defer, visited,
  submit, spin_idle, new_workers, next, or_steal, or_external, or_answer, try_pop, try_steal,
  pop_external,
}
use cmpth_rs.Worker.Steals.{tasks}
use cmpth_rs.Worker.Runs.{
  Event, turn, waits, arrives, step, run, entered, pool_conserves, empty-tasks,
}

abbrev made : ℕ → List ℕ
made c = if c == 5 then 1 ∷ 2 ∷ [] else []

abbrev put_off : ℕ → List ℕ
put_off c = if c == 5 then 3 ∷ [] else []

abbrev events : List (Event ℕ)
events = arrives 5 ∷ turn 0 ∷ waits 1 ∷ turn 0 ∷ []

pool_conserves_example :
    let start = new_workers (spin ℕ) spin_idle 2 suc in
    let after = run (spin ℕ) spin_idle 2 made put_off events start in
    Perm
      (after.0 ++ tasks (spin ℕ) spin_idle 2 after.1)
      (entered (spin ℕ) spin_idle 2 made put_off events start)
pool_conserves_example =
    pool_conserves (spin ℕ) spin_idle 2 made put_off (omega arith) events suc
      (omega arith, (omega arith, (omega arith, tt)))

ran :
    (run (spin ℕ) spin_idle 2 made put_off events (new_workers (spin ℕ) spin_idle 2 suc)).0
    ≡ 5 ∷ 3 ∷ 2 ∷ []
unfolding run step submit round next or_steal or_external or_answer after_next run_on push_each
    defer_each push defer try_pop try_steal pop_external spin_pop spin_push spin_defer spin_steal
    visited random_sweep_try_steal ℕ_discrete try_run_one run_found
ran = refl

empty-tasks_example : tasks (spin ℕ) spin_idle 2 (new_workers (spin ℕ) spin_idle 2 suc) ≡ []
unfolding next or_steal or_external or_answer try_pop try_steal pop_external spin_pop spin_steal
    visited random_sweep_try_steal sweep sweep_from ℕ_discrete
empty-tasks_example =
    empty-tasks (spin ℕ) spin_idle 2 made put_off (omega arith) 0
      (new_workers (spin ℕ) spin_idle 2 suc) (omega arith) (λ v. tt) refl

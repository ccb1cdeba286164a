-- ===== src/Sync/Checks.antt =====
-- The blocking mutex and the barriers at work.
use cmpth_rs.Prelude.{ℕ, ◌≡◌, refl, true, List, [], ◌∷◌, update, ℕ_discrete}
use cmpth_rs.Sync.Mcs.Enter.{Change}
use cmpth_rs.Sync.Blocking.{
  outside, waiting, holding, System, Step, lock_free, lock_busy, Reach, start, later,
}
use cmpth_rs.Sync.Blocking.Order.{IsOrder}
use cmpth_rs.Sync.Blocking.Safety.{mutex_refines-IsOrder}
use cmpth_rs.Sync.Barrier.{new_barrier, leads, waits, wait, wait_all}
use cmpth_rs.Sync.Barrier.Generations.{all_arrivals, all_outcomes, wait_all-generations}

-- Thread 0 has the guard, and thread 1 waits.
abbrev contended : System
contended = record {
  state = record { locked = true; waiters = 1 ∷ [] };
  pc = update (update (λ _. outside) 0 holding) 1 waiting;
}

contended-Reach : Reach contended
unfolding ℕ_discrete
contended-Reach = later (later start (lock_free 0 refl refl)) (lock_busy 1 refl refl)

mutex_refines-IsOrder_example :
    (q : List ℕ) × IsOrder contended q
    × ((t : System) → Step contended t → (q' : List ℕ) × IsOrder t q' × Change q q')
mutex_refines-IsOrder_example = mutex_refines-IsOrder contended-Reach

-- Two generations of three threads.
abbrev two_generations : List (List ℕ × ℕ)
two_generations = (4 ∷ 5 ∷ [], 6) ∷ (5 ∷ 6 ∷ [], 4) ∷ []

test_generations :
    (wait_all 3 (4 ∷ 5 ∷ 6 ∷ []) new_barrier).0 ≡ waits ∷ waits ∷ leads (4 ∷ 5 ∷ []) ∷ []
unfolding wait_all wait
test_generations = refl

wait_all-generations_example :
    wait_all 3 (all_arrivals two_generations) new_barrier
    ≡ (all_outcomes two_generations, new_barrier)
wait_all-generations_example = wait_all-generations 3 two_generations (refl, (refl, tt))

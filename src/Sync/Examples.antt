-- ===== src/Sync/Examples.antt =====
-- The locks at work: the theorems in concrete reachable states.
use cmpth_rs.Prelude.{ℕ, ◌≡◌, refl, ◌⊎◌, none, some, List, update, ℕ_discrete}
use cmpth_rs.Sync.Mcs.{
  idle, allocated, suspending, waiting, holding, handing, System, Step, allocate, swap_free,
  swap_busy, link, Reach, start, later,
}
use cmpth_rs.Sync.Mcs.Queue.{IsQueue}
use cmpth_rs.Sync.Mcs.Enter.{Change}
use cmpth_rs.Sync.Mcs.Safety.{Followed, mcs_refines-IsQueue, mcs_progress}

-- Thread 0 has the guard, and thread 1 waits behind it.
abbrev queued_up : System
queued_up = record {
  mem = record {
    tail = some 1;
    next = update (update (update (λ _. none) 0 none) 1 none) 0 (some 1);
  };
  pc =
      update
        (update (update (update (update (λ _. idle) 0 allocated) 0 holding) 1 allocated) 1
          (suspending 0))
        1 waiting;
}

queued_up-Reach : Reach queued_up
unfolding ℕ_discrete
queued_up-Reach =
    later
      (later
        (later (later (later start (allocate 0 refl)) (swap_free 0 refl refl)) (allocate 1 refl))
        (swap_busy 1 0 refl refl))
      (link 1 0 refl refl)

mcs_refines-IsQueue_example :
    (q : List ℕ) × IsQueue queued_up q
    × ((t : System) → Step queued_up t → (q' : List ℕ) × IsQueue t q' × Change q q')
mcs_refines-IsQueue_example = mcs_refines-IsQueue queued_up-Reach

mcs_progress_example :
    (h : ℕ) × ((queued_up.pc h ≡ holding) ⊎ ((queued_up.pc h ≡ handing) × Followed queued_up h))
unfolding ℕ_discrete
mcs_progress_example = mcs_progress queued_up-Reach 1 refl

-- ===== src/Sync/Barrier.antt =====
-- src/resumable/stackful/sync/barrier.rs and src/resumable/common/sync/dual_barrier.rs: an arrival
-- is one critical section; a thread that waits is suspended before the section ends.
pub mod Generations
use cmpth_rs.Prelude.{ℕ, suc, ◌+◌, Bool, true, false, List, [], ◌∷◌, ◌++◌, ◌==◌, if◌then◌else◌}

pub record BarrierState : Type 0 where
  pub count : ℕ
  pub waiters : List ℕ

abbrev pub new_barrier : BarrierState
new_barrier = record { count = 0; waiters = [] }

-- What `wait` does for the caller: it leads and notifies the waiters in order, or is suspended.
pub data Arrival : Type 0 where
  leads : (notified : List ℕ) → Arrival
  waits : Arrival

unfoldable pub wait : ℕ → ℕ → BarrierState → Arrival × BarrierState
wait n i s =
    if s.count + 1 == n
    then (leads s.waiters, record { count = 0; waiters = [] })
    else (waits, record { count = s.count + 1; waiters = s.waiters ++ i ∷ [] })

-- The threads `is` arrive in this order.
unfoldable pub wait_all : ℕ → List ℕ → BarrierState → List Arrival × BarrierState
unfolding wait
wait_all n [] s = ([], s)
wait_all n (i ∷ is) s =
    let (a, s') = wait n i s in let (rest, end) = wait_all n is s' in (a ∷ rest, end)

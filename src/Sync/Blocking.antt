-- ===== src/Sync/Blocking.antt =====
-- src/resumable/stackful/sync/mutex.rs, `Mutex`: any number of threads interleave at each critical
-- section of the spin lock over `MutexState`. A suspension unlocks it after the thread is queued.
pub mod Order
mod Keep
mod Wait
pub mod Safety
use cmpth_rs.Prelude.{ℕ, ◌≡◌, ◌≢◌, Bool, true, false, List, [], ◌∷◌, ◌++◌, update}

pub record MutexState : Type 0 where
  pub locked : Bool
  pub waiters : List ℕ

pub data Pc : Type 0 where
  outside : Pc
  waiting : Pc
  holding : Pc
  notifying : (next : ℕ) → Pc  -- in `mutex_unlock`, before `sth.notify()`
  fault : Pc  -- resumed though it did not wait

abbrev pub notified : Pc → Pc
notified waiting = holding
notified _ = fault

pub record System : Type 0 where
  pub state : MutexState
  pub pc : ℕ → Pc

pub data Step (s : System) : System → Type 0 where
  lock_free :
      (i : ℕ)
      → s.pc i ≡ outside
      → s.state.locked ≡ false
      → Step s (record { state = record s.state { locked = true }; pc = update s.pc i holding })
  lock_busy :
      (i : ℕ)
      → s.pc i ≡ outside
      → s.state.locked ≡ true
      → Step s (record {
        state = record s.state { waiters = s.state.waiters ++ i ∷ [] };
        pc = update s.pc i waiting;
      })
  try_lock_busy : (i : ℕ) → s.pc i ≡ outside → s.state.locked ≡ true → Step s s
  unlock_last :
      (i : ℕ)
      → s.pc i ≡ holding
      → s.state.waiters ≡ []
      → Step s (record { state = record s.state { locked = false }; pc = update s.pc i outside })
  unlock_next :
      (i t : ℕ) (ts : List ℕ)
      → s.pc i ≡ holding
      → s.state.waiters ≡ t ∷ ts
      → Step s
          (record { state = record s.state { waiters = ts }; pc = update s.pc i (notifying t) })
  notify :
      (i t : ℕ)
      → s.pc i ≡ notifying t
      → Step s (record s { pc = update (update s.pc i outside) t (notified (s.pc t)) })

abbrev pub init : System
init = record { state = record { locked = false; waiters = [] }; pc = λ _. outside }

pub data Reach : System → Type 0 where
  start : Reach init
  later : {s t : System} → Reach s → Step s t → Reach t

-- ===== src/Sync/Condvar.antt =====
-- `Condvar` of src/resumable/stackful/sync/mutex.rs, and `McsCondvar` of
-- src/resumable/stackful/sync/mcs_mutex.rs, whose code is the same: `n` threads interleave at each
-- critical section of the spin lock over `waiters` and at each `notify` outside it. A suspension unlocks
-- it after the thread is queued. Of the mutex, only the owner is kept.
pub mod Count
pub mod Inv
pub mod Keep
pub mod Safety
mod Examples
use cmpth_rs.Prelude.{
  ℕ, ◌+◌, ◌<◌, ◌≡◌, Bool, true, false, List, [], ◌∷◌, ◌++◌, Option, none, some, ◌==◌, if◌then◌else◌,
  update,
}

pub data Pc : Type 0 where
  running waiting : Pc
  resumed : Pc  -- in `wait`, before it locks the mutex again
  notifying : (rest : List ℕ) → Pc  -- in `notify_all`, with the threads that it has yet to notify
  fault : Pc  -- resumed though it did not wait

-- `unlocking` says that the suspension of a thread has still to unlock the mutex.
pub record System : Type 0 where
  pub waiters : List ℕ
  pub owner : Option ℕ
  pub pc : ℕ → Pc
  pub unlocking : ℕ → Bool

-- `sth.notify()`
unfoldable pub woken : Pc → Pc
woken waiting = resumed
woken running = fault
woken resumed = fault
woken (notifying rest) = fault
woken fault = fault

-- The loop of `notify_all`.
unfoldable pub notify_rest : List ℕ → Pc
notify_rest [] = running
notify_rest (t ∷ rest) = notifying (t ∷ rest)

pub data Step (n : ℕ) (s : System) : System → Type 0 where
  lock :
      (i : ℕ) → i < n → s.pc i ≡ running → s.owner ≡ none → Step n s (record s { owner = some i })
  unlock :
      (i : ℕ) → i < n → s.pc i ≡ running → s.owner ≡ some i → Step n s (record s { owner = none })
  -- `wait`, up to the unlocking of `waiters`.
  wait :
      (i : ℕ)
      → i < n
      → s.pc i ≡ running
      → s.owner ≡ some i
      → Step n s (record s {
        waiters = s.waiters ++ i ∷ [];
        pc = update s.pc i waiting;
        unlocking = update s.unlocking i true;
      })
  -- `mutex_unlock` by the suspension.
  release :
      (i : ℕ)
      → s.unlocking i ≡ true
      → Step n s (record s { owner = none; unlocking = update s.unlocking i false })
  relock :
      (i : ℕ)
      → i < n
      → s.pc i ≡ resumed
      → s.owner ≡ none
      → Step n s (record s { owner = some i; pc = update s.pc i running })
  -- `notify_one`, which notifies under the spin lock.
  notify_one :
      (i t : ℕ) (rest : List ℕ)
      → s.pc i ≡ running
      → s.waiters ≡ t ∷ rest
      → Step n s (record s { waiters = rest; pc = update s.pc t (woken (s.pc t)) })
  notify_nobody : (i : ℕ) → s.pc i ≡ running → s.waiters ≡ [] → Step n s s
  notify_all :
      (i : ℕ)
      → i < n
      → s.pc i ≡ running
      → Step n s (record s { waiters = []; pc = update s.pc i (notify_rest s.waiters) })
  notify :
      (i t : ℕ) (rest : List ℕ)
      → i < n
      → s.pc i ≡ notifying (t ∷ rest)
      → Step n s (record s {
        pc =
            update
              (update s.pc i (notify_rest rest))
              t
              (woken (update s.pc i (notify_rest rest) t));
      })

abbrev pub init : System
init = record { waiters = []; owner = none; pc = λ _. running; unlocking = λ _. false }

pub data Reach (n : ℕ) : System → Type 0 where
  start : Reach n init
  later : {s t : System} → Reach n s → Step n s t → Reach n t

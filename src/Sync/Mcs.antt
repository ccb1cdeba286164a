-- ===== src/Sync/Mcs.antt =====
-- src/resumable/stackful/sync/mcs_mutex.rs, and src/resumable/common/sync/dual_mutex.rs, whose
-- algorithm is the same: any number of threads interleave at each access to `tail` and `next`.
-- A thread's node carries the thread's number; it lives from the call of `lock` to the guard's drop.
pub mod Queue
mod Chain
pub mod Enter
mod Leave
mod Keep
pub mod Safety
use cmpth_rs.Prelude.{ℕ, ◌≡◌, ◌≢◌, Bool, true, false, Option, none, some, update}

-- `McsMutex::tail`, and `McsNode::next` of each node.
pub record Shared : Type 0 where
  pub tail : Option ℕ
  pub next : ℕ → Option ℕ

pub data Pc : Type 0 where
  idle : Pc
  allocated : Pc  -- in `lock`, before the swap
  suspending : (prev : ℕ) → Pc  -- before the callback of `wait_with` stores `(*prev).next`
  waiting : Pc
  holding : Pc  -- with the guard
  handing : Pc  -- in the guard's drop, past the compare-exchange
  fault : Pc  -- touched a node that was freed, or resumed a thread that does not wait

abbrev pub is_alive : Pc → Bool
is_alive idle = false
is_alive fault = false
is_alive _ = true

-- `(*next).suspended.notify()`
abbrev pub notified : Pc → Pc
notified waiting = holding
notified _ = fault

pub record System : Type 0 where
  pub mem : Shared
  pub pc : ℕ → Pc

pub data Step (s : System) : System → Type 0 where
  allocate :
      (i : ℕ)
      → s.pc i ≡ idle
      → Step s (record {
        mem = record s.mem { next = update s.mem.next i none };
        pc = update s.pc i allocated;
      })
  swap_free :
      (i : ℕ)
      → s.pc i ≡ allocated
      → s.mem.tail ≡ none
      → Step s (record { mem = record s.mem { tail = some i }; pc = update s.pc i holding })
  swap_busy :
      (i p : ℕ)
      → s.pc i ≡ allocated
      → s.mem.tail ≡ some p
      → Step s (record { mem = record s.mem { tail = some i }; pc = update s.pc i (suspending p) })
  link :
      (i p : ℕ)
      → s.pc i ≡ suspending p
      → is_alive (s.pc p) ≡ true
      → Step s (record {
        mem = record s.mem { next = update s.mem.next p (some i) };
        pc = update s.pc i waiting;
      })
  link_freed :
      (i p : ℕ)
      → s.pc i ≡ suspending p
      → is_alive (s.pc p) ≡ false
      → Step s (record s { pc = update s.pc i fault })
  release :
      (i : ℕ)
      → s.pc i ≡ holding
      → s.mem.tail ≡ some i
      → Step s (record { mem = record s.mem { tail = none }; pc = update s.pc i idle })
  contended :
      (i : ℕ)
      → s.pc i ≡ holding
      → s.mem.tail ≢ some i
      → Step s (record s { pc = update s.pc i handing })
  spin : (i : ℕ) → s.pc i ≡ handing → s.mem.next i ≡ none → Step s s
  hand_over :
      (i j : ℕ)
      → s.pc i ≡ handing
      → s.mem.next i ≡ some j
      → Step s (record s { pc = update (update s.pc i idle) j (notified (s.pc j)) })

abbrev pub init : System
init = record { mem = record { tail = none; next = λ _. none }; pc = λ _. idle }

pub data Reach : System → Type 0 where
  start : Reach init
  later : {s t : System} → Reach s → Step s t → Reach t

-- ===== src/Sync/Combining.antt =====
-- src/resumable/stackful/sync/combining_delegator.rs: `CombiningDelegator`, any number of threads at each
-- access to `tail` and `next`, with the calls that the consumer runs at once, defers and completes. A
-- thread's node carries the thread's number; it lives from the call to its return. A notification that
-- follows an access is part of its step; a caller that is notified returns at once.
pub mod Chain
pub mod Inv
mod Keep
mod Complete
mod Drain
pub mod Safety
mod Examples
use cmpth_rs.Prelude.{
  ℕ, ◌≡◌, ◌≢◌, ◌⊎◌, Bool, true, false, List, [], ◌∷◌, ◌++◌, Option, none, some, if◌then◌else◌,
  update,
}

-- A caller: `lock` is set in `with_lock`.
pub data Pc : Type 0 where
  outside : Pc
  linking : (prev : ℕ) (lock : Bool) → Pc  -- in `enqueue`, before the callback stores `(*prev).next`
  asleep : (lock : Bool) → Pc
  holding : Pc
  done : Pc  -- its request has run, and it is not notified yet
  deferred : Pc  -- it sleeps, and the consumer has its completion
  fault : Pc  -- touched a node that was freed, or was resumed or run though it did not wait for it

-- What the holder does: it is about to run its own request or closure; it drains the queue, at the node
-- `cur`, with the caller to wake for it, `own` if its own call is deferred, `stuck` if it only waits for
-- `cur`'s link; it has read the link to `next`.
pub data Holder : Type 0 where
  free : Holder
  inside : (me : ℕ) (lock : Bool) → Holder
  draining : (me cur : ℕ) (wake : Option ℕ) (own stuck : Bool) → Holder
  serving : (me next : ℕ) (lock own : Bool) → Holder
  clash : Holder  -- two holders, or one that touched a node that was freed

-- `arrived` lists the swaps of `tail` in their order, `ran` the requests and closures that have run.
pub record System : Type 0 where
  pub tail : Option ℕ
  pub next : ℕ → Option (ℕ × Bool)
  pub pc : ℕ → Pc
  pub holder : Holder
  pub arrived : List ℕ
  pub ran : List ℕ

-- Whether a thread's node is alive.
unfoldable pub is_alive : Pc → Bool
is_alive outside = false
is_alive fault = false
is_alive (linking prev lock) = true
is_alive (asleep lock) = true
is_alive holding = true
is_alive done = true
is_alive deferred = true

-- The swap found the queue empty.
unfoldable pub claim : Holder → ℕ → Bool → Holder
claim free i lock = inside i lock
claim (inside me l) i lock = clash
claim (draining me cur wake own stuck) i lock = clash
claim (serving me next l own) i lock = clash
claim clash i lock = clash

-- `w.notify()` for a caller that `from` says may be notified.
unfoldable pub notified : Pc → Pc → Pc
notified done done = outside
notified deferred deferred = outside
notified from p = fault

-- The caller to wake, if there is one.
unfoldable pub wake_up : Option ℕ → (ℕ → Pc) → ℕ → Pc
unfolding notified
wake_up none pc = pc
wake_up (some c) pc = update pc c (notified done (pc c))

-- The request in a node is taken out and run; `Poll::Pending` leaves the caller to the consumer.
unfoldable pub executed : Bool → Pc → Pc
executed ready (asleep false) = if ready then done else deferred
executed ready (asleep true) = fault
executed ready outside = fault
executed ready (linking prev lock) = fault
executed ready holding = fault
executed ready done = fault
executed ready deferred = fault
executed ready fault = fault

-- The lock is handed to a `with_lock` caller.
unfoldable pub handed : Pc → Pc
handed (asleep true) = holding
handed (asleep false) = fault
handed outside = fault
handed (linking prev lock) = fault
handed holding = fault
handed done = fault
handed deferred = fault
handed fault = fault

abbrev pub retires : Bool → Pc
retires own = if own then deferred else outside

-- `con.is_active()` is false.
abbrev pub IsQuiet : (ℕ → Pc) → Type 0
IsQuiet pc = (i : ℕ) → pc i ≢ deferred

pub data Step (s : System) : System → Type 0 where
  -- `enqueue`, up to the swap.
  enter_free :
      (i : ℕ) (lock : Bool)
      → s.pc i ≡ outside
      → s.tail ≡ none
      → Step s (record s {
        tail = some i;
        next = update s.next i none;
        pc = update s.pc i holding;
        holder = claim s.holder i lock;
        arrived = s.arrived ++ i ∷ [];
      })
  enter_busy :
      (i p : ℕ) (lock : Bool)
      → s.pc i ≡ outside
      → s.tail ≡ some p
      → Step s (record s {
        tail = some i;
        next = update s.next i none;
        pc = update s.pc i (linking p lock);
        arrived = s.arrived ++ i ∷ [];
      })
  link :
      (i p : ℕ) (lock : Bool)
      → s.pc i ≡ linking p lock
      → is_alive (s.pc p) ≡ true
      → Step s
          (record s { next = update s.next p (some (i, lock)); pc = update s.pc i (asleep lock) })
  link_freed :
      (i p : ℕ) (lock : Bool)
      → s.pc i ≡ linking p lock
      → is_alive (s.pc p) ≡ false
      → Step s (record s { pc = update s.pc i fault })
  -- The holder's own request, or its closure; only a request can be deferred.
  run_own :
      (h : ℕ) (lock pending : Bool)
      → s.holder ≡ inside h lock
      → (lock ≡ false) ⊎ (pending ≡ false)
      → Step s (record s { holder = draining h h none pending false; ran = s.ran ++ h ∷ [] })
  -- `progress` hands back the holder's own call, that of `cur`, or another.
  complete_own :
      (h c : ℕ) (w : Option ℕ)
      → s.holder ≡ draining h c w true false
      → Step s (record s { holder = draining h c w false false })
  complete_cur :
      (h c : ℕ) (w : Option ℕ) (own : Bool)
      → s.holder ≡ draining h c w own false
      → c ≢ h
      → s.pc c ≡ deferred
      → Step s (record s { holder = draining h c (some c) own false; pc = update s.pc c done })
  complete_other :
      (h c k : ℕ) (w : Option ℕ) (own : Bool)
      → s.holder ≡ draining h c w own false
      → s.pc k ≡ deferred
      → (c ≡ h) ⊎ (k ≢ c)
      → Step s (record s { pc = update s.pc k (notified deferred (s.pc k)) })
  -- The compare-exchange of `tail`, with nothing deferred.
  release :
      (h c : ℕ) (w : Option ℕ)
      → s.holder ≡ draining h c w false false
      → IsQuiet s.pc
      → s.tail ≡ some c
      → Step s (record s { tail = none; holder = free; pc = update (wake_up w s.pc) h outside })
  contended :
      (h c : ℕ) (w : Option ℕ)
      → s.holder ≡ draining h c w false false
      → IsQuiet s.pc
      → s.tail ≢ some c
      → Step s (record s { holder = draining h c w false true })
  -- The load of `cur`'s link; one that finds none changes nothing.
  follow :
      (h c n : ℕ) (w : Option ℕ) (own stuck lock : Bool)
      → s.holder ≡ draining h c w own stuck
      → is_alive (s.pc c) ≡ true
      → s.next c ≡ some (n, lock)
      → Step s (record s { holder = serving h n lock own; pc = wake_up w s.pc })
  follow_freed :
      (h c : ℕ) (w : Option ℕ) (own stuck : Bool)
      → s.holder ≡ draining h c w own stuck
      → is_alive (s.pc c) ≡ false
      → Step s (record s { holder = clash })
  serve :
      (h n : ℕ) (own ready : Bool)
      → s.holder ≡ serving h n false own
      → Step s (record s {
        holder = draining h n (if ready then some n else none) own false;
        pc = update s.pc n (executed ready (s.pc n));
        ran = s.ran ++ n ∷ [];
      })
  -- `hold`, at a `with_lock` caller: a holder whose own call is deferred sleeps first.
  hand :
      (h n : ℕ) (own : Bool)
      → s.holder ≡ serving h n true own
      → Step s (record s {
        holder = inside n true;
        pc = update (update s.pc h (retires own)) n (handed (update s.pc h (retires own) n));
      })

abbrev pub init : System
init = record {
  tail = none;
  next = λ _. none;
  pc = λ _. outside;
  holder = free;
  arrived = [];
  ran = [];
}

pub data Reach : System → Type 0 where
  start : Reach init
  later : {s t : System} → Reach s → Step s t → Reach t

-- ===== src/Timers.antt =====
-- src/duty.rs, the timers over the duties: `Sleep`, and `fire_timers`, the poll of the timer duty.
-- The binary heap is the list of its entries from the least on. A step is a section under the
-- queue's lock, or a later `poll` as a whole; the `replan` after a first `poll` is left out.
mod Heap
mod Fire
mod Armed
mod Examples
use cmpth_rs.Prelude.{
  ℕ, suc, ◌+◌, ◌≤◌, ◌<◌, ◌≡◌, Bool, true, false, not, ◌&&◌, ◌||◌, Option, none, some, List, [], ◌∷◌,
  ◌++◌, ltb, leb, ◌==◌, if◌then◌else◌, min, update,
}
use cmpth_rs.Duty.{never}

-- `TimerQueue`, the `TimerSlot` and the `at` of each `Sleep`, `seq`, and the timer duty's `deadline`. `running`:
-- `run` cleared the deadline and has not polled yet.
pub record Timers : Type 0 where
  pub heap : List (ℕ × ℕ)
  pub slots : ℕ → Bool
  pub fired : ℕ → Bool
  pub waker : ℕ → Option ℕ
  pub until : ℕ → ℕ
  pub seq : ℕ
  pub deadline : ℕ
  pub running : Bool

abbrev pub init : Timers
init = record {
  heap = [];
  slots = λ _. false;
  fired = λ _. false;
  waker = λ _. none;
  until = λ _. 0;
  seq = 0;
  deadline = never;
  running = false;
}

-- The order of `(at, id)`.
abbrev pub before : ℕ × ℕ → ℕ × ℕ → Bool
before (at, id) (at', id') = ltb at at' || ((at == at') && leb id id')

abbrev pub heap_push : ℕ × ℕ → List (ℕ × ℕ) → List (ℕ × ℕ)
heap_push e [] = e ∷ []
heap_push e (x ∷ xs) = let rest = heap_push e xs in if before e x then e ∷ x ∷ xs else x ∷ rest

abbrev pub woken_by : Option ℕ → List ℕ → List ℕ
woken_by none woken = woken
woken_by (some task) woken = task ∷ woken

abbrev pub fire_slot : ℕ → Timers → Timers
fire_slot id t = record t {
  slots = update t.slots id false;
  fired = update t.fired id true;
  waker = update t.waker id none;
}

-- The loop of `fire_timers` over the heap: the timers, and the tasks to wake.
unfoldable pub fire_loop : ℕ → List (ℕ × ℕ) → Timers → Timers × List ℕ
fire_loop now [] t = (record t { heap = [] }, [])
fire_loop now ((at, id) ∷ heap) t =
    let (gone, gone_woken) = fire_loop now heap t in
    let (left, left_woken) = fire_loop now heap (fire_slot id t) in
    if leb at now
    then if t.slots id then (left, woken_by (t.waker id) left_woken) else (gone, gone_woken)
    else (record t { heap = (at, id) ∷ heap }, [])

abbrev pub rearm : List (ℕ × ℕ) → ℕ → ℕ
rearm [] deadline = deadline
rearm ((at, id) ∷ heap) deadline = min deadline at

-- `fire_timers`: the timers, and the tasks that it wakes.
unfoldable pub fire_timers : ℕ → Timers → Timers × List ℕ
unfolding fire_loop
fire_timers now t =
    let (t', woken) = fire_loop now t.heap t in
    (record t' { deadline = rearm t'.heap t'.deadline; running = false }, woken)

-- `run` before the poll.
abbrev pub clear_deadline : Timers → Timers
clear_deadline t = record t { deadline = never; running = true }

-- The first `poll` of a `Sleep` until `at` by `task`, at a time before `at`.
abbrev pub start_sleep : ℕ → ℕ → Timers → Timers
start_sleep at task t = record t {
  heap = heap_push (at, t.seq) t.heap;
  slots = update t.slots t.seq true;
  fired = update t.fired t.seq false;
  waker = update t.waker t.seq (some task);
  until = update t.until t.seq at;
  seq = t.seq + 1;
  deadline = min t.deadline at;
}

-- A later `poll`: ready, or the waker is replaced.
abbrev pub poll_again : ℕ → ℕ → Timers → Bool × Timers
poll_again id task t =
    if t.fired id then (true, t) else (false, record t { waker = update t.waker id (some task) })

-- `Sleep::drop`
abbrev pub drop_sleep : ℕ → Timers → Timers
drop_sleep id t = record t { slots = update t.slots id false; waker = update t.waker id none }

pub data Step (t : Timers) : Timers → Type 0 where
  started : (at task : ℕ) → Step t (start_sleep at task t)
  polled : (id task : ℕ) → Step t (poll_again id task t).1
  dropped : (id : ℕ) → Step t (drop_sleep id t)
  cleared : t.running ≡ false → Step t (clear_deadline t)
  fired_at : (now : ℕ) → t.running ≡ true → Step t (fire_timers now t).0

pub data Reach : Timers → Type 0 where
  begin : Reach init
  later : {s t : Timers} → Reach s → Step s t → Reach t

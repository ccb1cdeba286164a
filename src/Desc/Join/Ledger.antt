-- ===== src/Desc/Join/Ledger.antt =====
-- What the effects of a task and its handle count up to.
use cmpth_rs.Prelude.{ℕ, ◌+◌, ◌≤◌, ◌≡◌, List, [], ◌∷◌, ◌++◌, arith, ◌==◌, if◌then◌else◌}
use cmpth_rs.Desc.{
  Effect, resume, wake, drop_waker, box_waker, reclaim, JoinState, running, finished, detached,
  sync_joiner, async_waker, async_joiner, Call, abandon, join, join_async, await,
}
use cmpth_rs.Desc.Join.{
  tally, is_resume, Exit, executing, checked, swapping, settled, handing, Handle, idle, calling,
  waiting, owner, taken, gone,
}

abbrev pub is_wake : ℕ → Effect → ℕ
is_wake a (wake w) = if w == a then 1 else 0
is_wake a (resume j) = 0
is_wake a (drop_waker w) = 0
is_wake a (box_waker w) = 0
is_wake a reclaim = 0

abbrev pub is_drop : ℕ → Effect → ℕ
is_drop a (drop_waker w) = if w == a then 1 else 0
is_drop a (wake w) = 0
is_drop a (resume j) = 0
is_drop a (box_waker w) = 0
is_drop a reclaim = 0

abbrev pub is_box : ℕ → Effect → ℕ
is_box a (box_waker w) = if w == a then 1 else 0
is_box a (drop_waker w) = 0
is_box a (wake w) = 0
is_box a (resume j) = 0
is_box a reclaim = 0

abbrev pub is_reclaim : Effect → ℕ
is_reclaim reclaim = 1
is_reclaim (resume j) = 0
is_reclaim (wake w) = 0
is_reclaim (drop_waker w) = 0
is_reclaim (box_waker w) = 0

-- A joiner or a waker is told.
abbrev pub is_notice : Effect → ℕ
is_notice (resume j) = 1
is_notice (wake w) = 1
is_notice (drop_waker w) = 0
is_notice (box_waker w) = 0
is_notice reclaim = 0

-- The box in the word.
abbrev pub held : ℕ → JoinState → ℕ
held a (async_waker w) = if w == a then 1 else 0
held a running = 0
held a finished = 0
held a detached = 0
held a (sync_joiner j) = 0
held a (async_joiner j) = 0

abbrev pub in_call : ℕ → Call → ℕ
in_call a (await w) = if w == a then 1 else 0
in_call a abandon = 0
in_call a (join j) = 0
in_call a (join_async j) = 0

-- The box that a call holds and has not stored.
abbrev pub carried : ℕ → Handle → ℕ
carried a (calling v c cur) = in_call a c
carried a (idle v) = 0
carried a (waiting j) = 0
carried a owner = 0
carried a taken = 0
carried a gone = 0

-- How often the descriptor must have been given back.
abbrev pub returns : Exit → Handle → ℕ
returns exit taken = 1
returns settled gone = 1
returns executing gone = 0
returns checked gone = 0
returns swapping gone = 0
returns (handing j) gone = 0
returns exit (idle v) = 0
returns exit (calling v c cur) = 0
returns exit (waiting j) = 0
returns exit owner = 0

module _ (f g : Effect → ℕ) (below : (e : Effect) → f e ≤ g e) where
  pub tally_mono : (log : List Effect) → tally f log ≤ tally g log
  tally_mono [] = omega arith
  tally_mono (e ∷ log) = omega (arith, below e, tally_mono log)

is_resume-le : (a : ℕ) (e : Effect) → is_resume a e ≤ is_notice e
is_resume-le a (resume j) = ground arith
is_resume-le a (wake w) = omega arith
is_resume-le a (drop_waker w) = omega arith
is_resume-le a (box_waker w) = omega arith
is_resume-le a reclaim = omega arith

is_wake-le : (a : ℕ) (e : Effect) → is_wake a e ≤ is_notice e
is_wake-le a (resume j) = omega arith
is_wake-le a (wake w) = ground arith
is_wake-le a (drop_waker w) = omega arith
is_wake-le a (box_waker w) = omega arith
is_wake-le a reclaim = omega arith

pub resumes-le : (a : ℕ) (log : List Effect) → tally (is_resume a) log ≤ tally is_notice log
resumes-le a log = tally_mono (is_resume a) is_notice (is_resume-le a) log

pub wakes-le : (a : ℕ) (log : List Effect) → tally (is_wake a) log ≤ tally is_notice log
wakes-le a log = tally_mono (is_wake a) is_notice (is_wake-le a) log

pub tally-append :
    (f : Effect → ℕ) (e log : List Effect) → tally f (e ++ log) ≡ tally f e + tally f log
tally-append f [] log = omega arith
tally-append f (x ∷ e) log = omega (arith, tally-append f e log)

-- ===== src/Desc/Join.antt =====
-- The exiting task and the join handle on one descriptor, an access to its word at a time: the exits of
-- src/resumable/stackful/thread.rs (`exit_with_result`) and src/resumable/stackless/thread.rs
-- (`poll_spawned_task`), and the handle of src/resumable/common/thread.rs with the loops of its calls.
pub mod Ledger
pub mod Inv
pub mod Settled
pub mod Exits
pub mod Fits
pub mod Calls
pub mod Keep
pub mod Safety
use cmpth_rs.Prelude.{
  ℕ, ◌≡◌, ◌≢◌, Bool, true, false, List, [], ◌∷◌, ◌++◌, Option, none, some, ◌==◌, if◌then◌else◌, ◌+◌,
}
use cmpth_rs.Desc.{
  Call, abandon, join, join_async, await, Effect, resume, wake, drop_waker, box_waker, reclaim,
  Turn, found_finished, stored, again, turn, turn_word, is_finished, is_abandoned, js_finished,
  js_detached, js_running, finish_and_settle, commit_finished, try_take_handoff_target,
}
use cmpth_rs.Desc.Word.{IsCall}

-- How far the task is: it runs its body, it has found no joiner to hand its worker to, it has also found
-- that it is not abandoned, it is switching to a joiner, it has exited.
pub data Exit : Type 0 where
  executing checked swapping settled : Exit
  handing : ℕ → Exit

-- What the handle has registered so far, when a poll has answered `Pending`.
pub data Waiter : Type 0 where
  no_waiter : Waiter
  waker joiner : ℕ → Waiter

-- The handle: between calls, in the loop of a call with the word it expects, suspended as the sync
-- joiner, told that the task has finished, after taking the result, abandoned.
pub data Handle : Type 0 where
  idle : Waiter → Handle
  calling : Waiter → Call → ℕ → Handle
  waiting : ℕ → Handle
  owner taken gone : Handle

pub record System : Type 0 where
  pub word : ℕ
  pub exit : Exit
  pub handle : Handle
  pub log : List Effect

-- A new task, with a handle or without.
unfoldable pub spawned : Bool → System
spawned has_handle = record {
  word = if has_handle then js_running else js_detached;
  exit = executing;
  handle = if has_handle then idle no_waiter else gone;
  log = [];
}

-- The first load of a call. A waker is boxed unless the task has finished.
unfoldable pub start : Waiter → Call → ℕ → Handle × List Effect
start v (await w) word =
    if word == js_finished then (owner, []) else (calling v (await w) word, box_waker w ∷ [])
start v abandon word = (calling v abandon word, [])
start v (join j) word = (calling v (join j) word, [])
start v (join_async j) word = (calling v (join_async j) word, [])

-- The handle after its call has stored its word.
unfoldable pub accepted : Call → Handle
accepted abandon = gone
accepted (join j) = waiting j
accepted (join_async j) = idle (joiner j)
accepted (await w) = idle (waker w)

unfoldable pub after_turn : Waiter → Call → Turn → Handle
unfolding accepted
after_turn v call (found_finished e) = owner
after_turn v call (stored e) = accepted call
after_turn v call (again cur) = calling v call cur

unfoldable pub turn_effects : Turn → List Effect
turn_effects (found_finished e) = e
turn_effects (stored e) = e
turn_effects (again cur) = []

-- The sum of what the effects count.
abbrev pub tally : (Effect → ℕ) → List Effect → ℕ
tally f [] = 0
tally f (e ∷ log) = f e + tally f log

abbrev pub is_resume : ℕ → Effect → ℕ
is_resume a (resume j) = if j == a then 1 else 0
is_resume a (wake w) = 0
is_resume a (drop_waker w) = 0
is_resume a (box_waker w) = 0
is_resume a reclaim = 0

-- An access to the word, with what follows it. `claims` says which async joiners are parked.
pub data Step (claims : ℕ → Bool) : System → System → Type 0 where
  -- `try_take_handoff_target` of a stackful exit.
  hand :
      (word j : ℕ) (h : Handle) (log : List Effect)
      → try_take_handoff_target word ≡ some j
      → Step claims
          (record { word = word; exit = executing; handle = h; log = log })
          (record { word = word; exit = handing j; handle = h; log = log })
  check :
      (word : ℕ) (h : Handle) (log : List Effect)
      → try_take_handoff_target word ≡ none
      → Step claims
          (record { word = word; exit = executing; handle = h; log = log })
          (record { word = word; exit = checked; handle = h; log = log })
  -- `commit_finished` behind the switch to the joiner.
  commit :
      (word j : ℕ) (h : Handle) (log : List Effect)
      → Step claims
          (record { word = word; exit = handing j; handle = h; log = log })
          (record { word = commit_finished word; exit = settled; handle = h; log = resume j ∷ log })
  -- `is_abandoned`, and `free_task` if so.
  free :
      (word : ℕ) (h : Handle) (log : List Effect)
      → is_abandoned word ≡ true
      → Step claims
          (record { word = word; exit = checked; handle = h; log = log })
          (record { word = word; exit = settled; handle = h; log = reclaim ∷ log })
  keep :
      (word : ℕ) (h : Handle) (log : List Effect)
      → is_abandoned word ≡ false
      → Step claims
          (record { word = word; exit = checked; handle = h; log = log })
          (record { word = word; exit = swapping; handle = h; log = log })
  -- A polled future has returned.
  ready :
      (word : ℕ) (h : Handle) (log : List Effect)
      → Step claims
          (record { word = word; exit = executing; handle = h; log = log })
          (record { word = word; exit = swapping; handle = h; log = log })
  swap :
      (word : ℕ) (h : Handle) (log e : List Effect)
      → (finish_and_settle claims word).0 ≡ some e
      → Step claims
          (record { word = word; exit = swapping; handle = h; log = log })
          (record {
            word = (finish_and_settle claims word).1;
            exit = settled;
            handle = h;
            log = e ++ log;
          })
  -- The fast path of `join`.
  look :
      (word : ℕ) (exit : Exit) (v : Waiter) (log : List Effect)
      → is_finished word ≡ true
      → Step claims
          (record { word = word; exit = exit; handle = idle v; log = log })
          (record { word = word; exit = exit; handle = owner; log = log })
  call :
      (word : ℕ) (exit : Exit) (v : Waiter) (log : List Effect) (c : Call)
      → IsCall c
      → Step claims
          (record { word = word; exit = exit; handle = idle v; log = log })
          (record {
            word = word;
            exit = exit;
            handle = (start v c word).0;
            log = (start v c word).1 ++ log;
          })
  try :
      (word : ℕ) (exit : Exit) (v : Waiter) (log : List Effect) (c : Call) (cur : ℕ)
      (spurious : Bool)
      → Step claims
          (record { word = word; exit = exit; handle = calling v c cur; log = log })
          (record {
            word = turn_word c cur word spurious;
            exit = exit;
            handle = after_turn v c (turn c cur word spurious);
            log = turn_effects (turn c cur word spurious) ++ log;
          })
  -- A suspended joiner runs again only once it has been resumed.
  resumed :
      (word : ℕ) (exit : Exit) (j : ℕ) (log : List Effect)
      → tally (is_resume j) log ≢ 0
      → Step claims
          (record { word = word; exit = exit; handle = waiting j; log = log })
          (record { word = word; exit = exit; handle = owner; log = log })
  -- The result is read and the descriptor given back (`take_result`, or the drop of a handle whose
  -- `try_abandon` answered true).
  take :
      (word : ℕ) (exit : Exit) (log : List Effect)
      → Step claims
          (record { word = word; exit = exit; handle = owner; log = log })
          (record { word = word; exit = exit; handle = taken; log = reclaim ∷ log })

pub data Reach (claims : ℕ → Bool) (s : System) : System → Type 0 where
  here : Reach claims s s
  next : {t u : System} → Reach claims s t → Step claims t u → Reach claims s u

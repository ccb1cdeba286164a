-- ===== src/Waker/Polling.antt =====
-- Workers that poll one task and threads that wake it, an access to its state at a time:
-- `run_async_poll` of src/resumable/stackless/worker.rs, `poll_spawned_task` of
-- src/resumable/stackless/thread.rs, and `try_wake_async` and the clones of
-- src/resumable/stackless/waker.rs.
pub mod Inv
pub mod Pollers
pub mod Tables
pub mod Wakers
pub mod Safety
use cmpth_rs.Prelude.{ℕ, zero, suc, ◌+◌, ◌≡◌, Bool, true, false, ◌==◌, if◌then◌else◌, update}
use cmpth_rs.Waker.{
  Choice, answer, exchange, unreachable, WakeOutcome, set_notified, claimed_parked, no_op,
  park_choice, wake_choice, note_word, mark_polling, mark_idle, claimed,
}

-- A worker: it does something else, it has popped the task's token, it runs `poll_fn`, `poll_fn` has
-- answered `Pending`, it has loaded the state for its exchange.
pub data Poller : Type 0 where
  away popped running pending : Poller
  parking : ℕ → Poller

-- A thread with a waker: it does something else, it is at the head of the wake loop, it has loaded the
-- state for its exchange, it has claimed the parked task and not pushed it yet, it is in
-- `note_waker_shared`.
pub data Waking : Type 0 where
  away looking holding : Waking
  waking sharing : ℕ → Waking

-- `signal` says that a wake has taken effect since the last poll began, and `finished` that the future
-- has returned.
pub record System : Type 0 where
  pub word : ℕ
  pub queued : ℕ
  pub signal : Bool
  pub finished : Bool
  pub pollers : ℕ → Poller
  pub wakers : ℕ → Waking

-- A task that was just spawned.
abbrev pub spawned : System
spawned = record {
  word = 0;
  queued = 1;
  signal = false;
  finished = false;
  pollers = λ _. away;
  wakers = λ _. away;
}

-- What a worker does after its exchange, which `park_choice` always asks for: the word, the tokens it pushes, and where it is.
pub record Parked : Type 0 where
  pub word : ℕ
  pub pushes : ℕ
  pub poller : Poller

unfoldable pub park_try : Choice Bool → ℕ → ℕ → Parked
park_try (exchange new parked) refs word =
    if word == refs
    then record { word = new; pushes = if parked then 0 else 1; poller = away }
    else record { word = word; pushes = 0; poller = pending }
park_try (answer parked) refs word = record { word = word; pushes = 0; poller = pending }
park_try unreachable refs word = record { word = word; pushes = 0; poller = pending }

-- Where a waker goes from the head of its loop, and whether its wake has taken effect.
unfoldable pub wake_look : Choice WakeOutcome → ℕ → Waking × Bool
wake_look (answer outcome) refs = (away, true)
wake_look (exchange new outcome) refs = (waking refs, false)
wake_look unreachable refs = (looking, false)

pub record Woken : Type 0 where
  pub word : ℕ
  pub done : Bool
  pub waker : Waking

-- Where it goes from its exchange. It gets there only with a word that makes it exchange.
unfoldable pub wake_try : Choice WakeOutcome → ℕ → ℕ → Woken
wake_try (exchange new outcome) refs word =
    if word == refs
    then record { word = new; done = true; waker = if claimed outcome then holding else away }
    else record { word = word; done = false; waker = looking }
wake_try (answer outcome) refs word = record { word = word; done = false; waker = looking }
wake_try unreachable refs word = record { word = word; done = false; waker = looking }

pub data Step (t : System) : System → Type 0 where
  pop :
      (j n : ℕ)
      → t.pollers j ≡ away
      → t.queued ≡ suc n
      → Step t (record t { queued = n; pollers = update t.pollers j popped })
  begin :
      (j : ℕ)
      → t.pollers j ≡ popped
      → Step t (record t {
        word = mark_polling t.word;
        signal = false;
        pollers = update t.pollers j running;
      })
  pend :
      (j : ℕ) → t.pollers j ≡ running → Step t (record t { pollers = update t.pollers j pending })
  finish :
      (j : ℕ)
      → t.pollers j ≡ running
      → Step t
          (record t { word = mark_idle t.word; finished = true; pollers = update t.pollers j away })
  load :
      (j : ℕ)
      → t.pollers j ≡ pending
      → Step t (record t { pollers = update t.pollers j (parking t.word) })
  park :
      (j refs : ℕ)
      → t.pollers j ≡ parking refs
      → Step t (record t {
        word = (park_try (park_choice refs) refs t.word).word;
        queued = t.queued + (park_try (park_choice refs) refs t.word).pushes;
        pollers = update t.pollers j (park_try (park_choice refs) refs t.word).poller;
      })
  call : (i : ℕ) → t.wakers i ≡ away → Step t (record t { wakers = update t.wakers i looking })
  look :
      (i : ℕ)
      → t.wakers i ≡ looking
      → Step t (record t {
        signal = if (wake_look (wake_choice t.word) t.word).1 then true else t.signal;
        wakers = update t.wakers i (wake_look (wake_choice t.word) t.word).0;
      })
  try :
      (i refs : ℕ)
      → t.wakers i ≡ waking refs
      → Step t (record t {
        word = (wake_try (wake_choice refs) refs t.word).word;
        signal = if (wake_try (wake_choice refs) refs t.word).done then true else t.signal;
        wakers = update t.wakers i (wake_try (wake_choice refs) refs t.word).waker;
      })
  push :
      (i : ℕ)
      → t.wakers i ≡ holding
      → Step t (record t { queued = t.queued + 1; wakers = update t.wakers i away })
  share :
      (i : ℕ)
      → t.wakers i ≡ away
      → Step t (record t { wakers = update t.wakers i (sharing t.word) })
  note :
      (i old : ℕ)
      → t.wakers i ≡ sharing old
      → Step t (record t {
        word = if t.word == old then note_word old else t.word;
        wakers = update t.wakers i (if t.word == old then away else sharing t.word);
      })

pub data Reach : System → Type 0 where
  here : Reach spawned
  next : {t u : System} → Reach t → Step t u → Reach u

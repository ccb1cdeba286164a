-- ===== src/Waker/Polling/Inv.antt =====
-- Who holds a polled task, and what its state says of it.
use cmpth_rs.Prelude.{
  ℕ, ◌+◌, ◌^◌, ◌<◌, ◌≡◌, ◌≢◌, ◌⊎◌, refl, Bool, true, false, arith, update, update_each,
}
use cmpth_rs.Waker.Words.{state}
use cmpth_rs.Waker.Polling.{
  System, spawned, Poller, Waking, popped, running, pending, parking, looking, holding, waking,
  sharing,
}

-- The one place where the task's token is: a queue, a worker, a thread that claimed it, its parked
-- state, or nowhere after the future has returned.
pub data Holder : Type 0 where
  in_queue nobody done : Holder
  polled claimer : ℕ → Holder

abbrev pub tokens : Holder → ℕ
tokens in_queue = 1
tokens nobody = 0
tokens done = 0
tokens (polled j) = 0
tokens (claimer i) = 0

abbrev pub is_done : Holder → Bool
is_done done = true
is_done in_queue = false
is_done nobody = false
is_done (polled j) = false
is_done (claimer i) = false

-- A worker is on the task exactly if it holds it, and a thread has claimed it exactly if it holds it.
abbrev pub Polls : Holder → ℕ → Poller → Type 0
Polls h j Poller.away = h ≢ polled j
Polls h j popped = h ≡ polled j
Polls h j running = h ≡ polled j
Polls h j pending = h ≡ polled j
Polls h j (parking refs) = h ≡ polled j

abbrev pub Wakes : Holder → ℕ → Waking → Type 0
Wakes h i Waking.away = h ≢ claimer i
Wakes h i looking = h ≢ claimer i
Wakes h i holding = h ≡ claimer i
Wakes h i (waking refs) = h ≢ claimer i
Wakes h i (sharing old) = h ≢ claimer i

-- During a poll the state is polling or notified, and notified if a wake has come.
abbrev pub Polling : ℕ → Bool → Type 0
Polling word signal = ((state word ≡ 1) ⊎ (state word ≡ 3)) × (signal ≡ true → state word ≡ 3)

abbrev pub InPoll : Poller → ℕ → Bool → Type 0
InPoll Poller.away word signal = ⊥
InPoll popped word signal = state word ≢ 2
InPoll running word signal = Polling word signal
InPoll pending word signal = Polling word signal
InPoll (parking refs) word signal = Polling word signal

abbrev pub Fits : Holder → (ℕ → Poller) → ℕ → Bool → Type 0
Fits in_queue pollers word signal = state word ≢ 2
Fits (claimer i) pollers word signal = state word ≢ 2
Fits done pollers word signal = state word ≡ 0
Fits nobody pollers word signal = (state word ≡ 2) × (signal ≡ false)
Fits (polled j) pollers word signal = InPoll (pollers j) word signal

pub record IsHeld (t : System) : Type 0 where
  pub holder : Holder
  pub bound : t.word < 2 ^ 64
  pub queued_is : t.queued ≡ tokens holder
  pub finished_is : t.finished ≡ is_done holder
  pub fits : Fits holder t.pollers t.word t.signal
  pub polls : (j : ℕ) → Polls holder j (t.pollers j)
  pub wakes : (i : ℕ) → Wakes holder i (t.wakers i)

pub spawned-IsHeld : IsHeld spawned
spawned-IsHeld = record {
  holder = in_queue;
  bound = omega arith;
  queued_is = refl;
  finished_is = refl;
  fits = omega arith;
  polls = λ j e. cc;
  wakes = λ i e. cc;
}

-- When the token moves between two places, a worker or thread that is neither stays as it was.
pub Polls-other :
    (h k : Holder) (j : ℕ) (p : Poller) → h ≢ polled j → k ≢ polled j → Polls h j p → Polls k j p
Polls-other h k j Poller.away n m q = m
Polls-other h k j popped n m q = absurd (n q)
Polls-other h k j running n m q = absurd (n q)
Polls-other h k j pending n m q = absurd (n q)
Polls-other h k j (parking refs) n m q = absurd (n q)

pub Wakes-other :
    (h k : Holder) (i : ℕ) (w : Waking) → h ≢ claimer i → k ≢ claimer i → Wakes h i w → Wakes k i w
Wakes-other h k i Waking.away n m q = m
Wakes-other h k i looking n m q = m
Wakes-other h k i holding n m q = absurd (n q)
Wakes-other h k i (waking refs) n m q = m
Wakes-other h k i (sharing old) n m q = m

-- A queued token is the only one.
pub queue_holder : (h : Holder) (n : ℕ) → n + 1 ≡ tokens h → (h ≡ in_queue) × (n ≡ 0)
queue_holder in_queue n e = (refl, omega (arith, e))
queue_holder nobody n e = absurd (omega (arith, e))
queue_holder done n e = absurd (omega (arith, e))
queue_holder (polled j) n e = absurd (omega (arith, e))
queue_holder (claimer i) n e = absurd (omega (arith, e))

module _ (h k : Holder) where
  pub moved-Polls :
      (f : ℕ → Poller) (j : ℕ) (p : Poller)
      → ((i : ℕ) → j ≢ i → h ≢ polled i)
      → ((i : ℕ) → j ≢ i → k ≢ polled i)
      → Polls k j p
      → ((i : ℕ) → Polls h i (f i))
      → (i : ℕ) → Polls k i (update f j p i)
  moved-Polls f j p n m here all =
      update_each (Polls k) f j here (λ i ne. Polls-other h k i (f i) (n i ne) (m i ne) (all i))

  pub kept-Polls :
      (f : ℕ → Poller)
      → ((i : ℕ) → h ≢ polled i)
      → ((i : ℕ) → k ≢ polled i)
      → ((i : ℕ) → Polls h i (f i))
      → (i : ℕ) → Polls k i (f i)
  kept-Polls f n m all i = Polls-other h k i (f i) (n i) (m i) (all i)

  pub moved-Wakes :
      (f : ℕ → Waking) (j : ℕ) (w : Waking)
      → ((i : ℕ) → j ≢ i → h ≢ claimer i)
      → ((i : ℕ) → j ≢ i → k ≢ claimer i)
      → Wakes k j w
      → ((i : ℕ) → Wakes h i (f i))
      → (i : ℕ) → Wakes k i (update f j w i)
  moved-Wakes f j w n m here all =
      update_each (Wakes k) f j here (λ i ne. Wakes-other h k i (f i) (n i ne) (m i ne) (all i))

  pub kept-Wakes :
      (f : ℕ → Waking)
      → ((i : ℕ) → h ≢ claimer i)
      → ((i : ℕ) → k ≢ claimer i)
      → ((i : ℕ) → Wakes h i (f i))
      → (i : ℕ) → Wakes k i (f i)
  kept-Wakes f n m all i = Wakes-other h k i (f i) (n i) (m i) (all i)

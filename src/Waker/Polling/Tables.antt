-- ===== src/Waker/Polling/Tables.antt =====
-- What the accesses of a waker do to the word, and what the poller keeps by it.
use native.Mathlib.Nat.{mod-lt}
use cmpth_rs.Prelude.{
  ℕ, ◌+◌, ◌-◌, ◌^◌, ◌<◌, ◌≡◌, ◌≢◌, ◌⊎◌, inl, inr, refl, subst, Bool, true, false, arith, ◌==◌,
  Bool-cases, ==_iff,
}
use cmpth_rs.Waker.{Choice, answer, exchange, unreachable, WakeOutcome, wake_choice, claimed}
use cmpth_rs.Waker.Words.{state, wake_choice-table}
use cmpth_rs.Waker.Polling.{
  Poller, Waking, popped, running, pending, parking, looking, holding, waking, wake_look, wake_try,
  Woken,
}
use cmpth_rs.Waker.Polling.Inv.{
  Holder, in_queue, nobody, done, polled, claimer, Fits, InPoll, Polling,
}

pub other : {i j : ℕ} → i ≢ j → claimer i ≢ claimer j
other n e = n (ground arith)

InPoll-word :
    (p : Poller) (word next : ℕ) (signal : Bool)
    → state next ≡ state word
    → InPoll p word signal
    → InPoll p next signal
InPoll-word Poller.away word next signal e f = f
InPoll-word popped word next signal e f = omega (arith, e, f)
InPoll-word running word next signal e f = rw e f
InPoll-word pending word next signal e f = rw e f
InPoll-word (parking refs) word next signal e f = rw e f

Polling-signal :
    (word next : ℕ) (signal : Bool)
    → ((state word ≢ 0) × (state next ≡ 3)) ⊎ ((state word ≡ 0) × (state next ≡ 0))
    → Polling word signal
    → Polling next true
Polling-signal word next signal (inl e) f = (inr e.1, λ _. e.1)
Polling-signal word next signal (inr e) (inl f, g) = absurd (omega (arith, e.0, f))
Polling-signal word next signal (inr e) (inr f, g) = absurd (omega (arith, e.0, f))

InPoll-signal :
    (p : Poller) (word next : ℕ) (signal : Bool)
    → ((state word ≢ 0) × (state next ≡ 3)) ⊎ ((state word ≡ 0) × (state next ≡ 0))
    → InPoll p word signal
    → InPoll p next true
InPoll-signal Poller.away word next signal e f = f
InPoll-signal popped word next signal (inl e) f = omega (arith, e.1)
InPoll-signal popped word next signal (inr e) f = omega (arith, e.1)
InPoll-signal running word next signal e f = Polling-signal word next signal e f
InPoll-signal pending word next signal e f = Polling-signal word next signal e f
InPoll-signal (parking refs) word next signal e f = Polling-signal word next signal e f

-- A word with the same state, or one that has become notified, serves as well.
pub Fits-word :
    (h : Holder) (f : ℕ → Poller) (word next : ℕ) (signal : Bool)
    → state next ≡ state word
    → Fits h f word signal
    → Fits h f next signal
Fits-word in_queue f word next signal e p = omega (arith, e, p)
Fits-word (claimer i) f word next signal e p = omega (arith, e, p)
Fits-word done f word next signal e p = omega (arith, e, p)
Fits-word nobody f word next signal e p = (omega (arith, e, p.0), p.1)
Fits-word (polled j) f word next signal e p = InPoll-word (f j) word next signal e p

-- A wake that finds the state notified or idle, or makes it notified.
pub Fits-signal :
    (h : Holder) (f : ℕ → Poller) (word next : ℕ) (signal : Bool)
    → state word ≢ 2
    → ((state word ≢ 0) × (state next ≡ 3)) ⊎ ((state word ≡ 0) × (state next ≡ 0))
    → Fits h f word signal
    → Fits h f next true
Fits-signal in_queue f word next signal n (inl e) p = omega (arith, e.1)
Fits-signal in_queue f word next signal n (inr e) p = omega (arith, e.1)
Fits-signal (claimer i) f word next signal n (inl e) p = omega (arith, e.1)
Fits-signal (claimer i) f word next signal n (inr e) p = omega (arith, e.1)
Fits-signal done f word next signal n (inl e) p = absurd (e.0 p)
Fits-signal done f word next signal n (inr e) p = e.1
Fits-signal nobody f word next signal n e p = absurd (n p.0)
Fits-signal (polled j) f word next signal n e p = InPoll-signal (f j) word next signal e p

-- Only the parked state stands for a task that nobody holds.
not_parked : (p : Poller) (word : ℕ) (signal : Bool) → state word ≡ 2 → ¬ (InPoll p word signal)
not_parked Poller.away word signal e f = f
not_parked popped word signal e f = f e
not_parked running word signal e f = absurd (ground (arith, e, f.0))
not_parked pending word signal e f = absurd (ground (arith, e, f.0))
not_parked (parking refs) word signal e f = absurd (ground (arith, e, f.0))

pub parked_nobody :
    (h : Holder) (f : ℕ → Poller) (word : ℕ) (signal : Bool)
    → state word ≡ 2
    → Fits h f word signal
    → h ≡ nobody
parked_nobody in_queue f word signal e p = absurd (p e)
parked_nobody (claimer i) f word signal e p = absurd (p e)
parked_nobody done f word signal e p = absurd (omega (arith, e, p))
parked_nobody nobody f word signal e p = refl
parked_nobody (polled j) f word signal e p = absurd (not_parked (f j) word signal e p)

-- The look at the head of the loop: it goes on to an exchange, or its wake has taken effect.
abbrev Looked : ℕ → Waking × Bool → Type 0
Looked word r =
    (r ≡ (waking word, false)) ⊎ ((r ≡ (Waking.away, true)) × ((state word ≡ 3) ⊎ (state word ≡ 0)))

pub look_table : (word : ℕ) → word < 2 ^ 64 → Looked word (wake_look (wake_choice word) word)
unfolding wake_look
look_table word b = rw (wake_choice-table word b).0 (elim (Bool-cases (state word == 1)) [
  | inl one ↦ rw one (inl refl)
  | inr other ↦ elim (Bool-cases (state word == 2)) [
    | inl two ↦ rw (other, two) (inl refl)
    | inr neither ↦ rw (other, neither) (inr (refl, ground (arith, mod-lt word {m = 4})))
  ]
])

-- The exchange: it is lost, or it takes the polling state to notified, or the parked state to polling,
-- which claims the task.
abbrev Tried : ℕ → Woken → Type 0
Tried word r =
    (r ≡ record { word = word; done = false; waker = looking })
    ⊎ ((state word ≡ 1) × (r ≡ record { word = word + 2; done = true; waker = Waking.away }))
    ⊎ ((state word ≡ 2) × (r ≡ record { word = word - 1; done = true; waker = holding }))

try_lost :
    (c : Choice WakeOutcome) (refs word : ℕ)
    → (word == refs) ≡ false
    → wake_try c refs word ≡ record { word = word; done = false; waker = looking }
unfolding wake_try
try_lost (answer outcome) refs word h = refl
try_lost (exchange new outcome) refs word h = rw h refl
try_lost unreachable refs word h = refl

try_won : (word : ℕ) → word < 2 ^ 64 → Tried word (wake_try (wake_choice word) word word)
unfolding wake_try claimed
try_won word b = rw (wake_choice-table word b).0 (elim (Bool-cases (state word == 1)) [
  | inl one ↦ inr (inl (ground arith, ground arith))
  | inr other ↦ elim (Bool-cases (state word == 2)) [
    | inl two ↦ inr (inr (ground arith, ground arith))
    | inr neither ↦ inl (ground arith)
  ]
])

pub try_table : (refs word : ℕ) → word < 2 ^ 64 → Tried word (wake_try (wake_choice refs) refs word)
try_table refs word b = elim (Bool-cases (word == refs)) [
  | inl same ↦
      let w : word ≡ refs = (==_iff word refs).0 same in
      subst (λ x. Tried word (wake_try (wake_choice x) x word)) w (try_won word b)
  | inr lost ↦ inl (try_lost (wake_choice refs) refs word lost)
]

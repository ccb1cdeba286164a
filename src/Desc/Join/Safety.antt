-- ===== src/Desc/Join/Safety.antt =====
-- The task and its handle settle everything between them once.
use cmpth_rs.Prelude.{
  ℕ, ◌+◌, ◌≤◌, ◌≡◌, ◌≢◌, inl, inr, refl, subst, ◌∙◌, Bool, true, List, none, arith,
}
use cmpth_rs.Desc.{
  JoinState, running, finished, detached, sync_joiner, async_waker, async_joiner, Effect, settle,
  finish_and_settle, is_finished,
}
use cmpth_rs.Desc.Word.{encode}
use cmpth_rs.Desc.Join.{
  tally, is_resume, Exit, executing, checked, swapping, settled, handing, Handle, idle, calling,
  waiting, owner, taken, gone, System, spawned, Reach,
}
use cmpth_rs.Desc.Join.Ledger.{
  is_wake, is_drop, is_box, is_reclaim, is_notice, held, carried, returns,
}
use cmpth_rs.Desc.Join.Inv.{Live, Told, Fits, Notified}
use cmpth_rs.Desc.Join.Settled.{same_returns, decoded}
use cmpth_rs.Desc.Join.Fits.{Live-finished}
use cmpth_rs.Desc.Join.Keep.{Reach-IsJoin}

-- The handle has nothing more to do.
abbrev pub IsOver : Handle → Type 0
IsOver taken = Unit {0}
IsOver gone = Unit {0}
IsOver (idle v) = ⊥
IsOver (calling v c cur) = ⊥
IsOver (waiting j) = ⊥
IsOver owner = ⊥

pub record IsReturned (t : System) : Type 0 where
  pub at_most_once : tally is_reclaim t.log ≤ 1
  pub not_early : t.exit ≢ settled → tally is_reclaim t.log ≡ 0
  pub at_the_end : t.exit ≡ settled → IsOver t.handle → tally is_reclaim t.log ≡ 1

Live-zero : (h : Handle) (s : JoinState) → Live h s → returns executing h ≡ 0
Live-zero (idle v) s l = refl
Live-zero (calling v c cur) s l = refl
Live-zero (waiting j) s l = refl
Live-zero gone s l = refl
Live-zero owner s l = absurd l
Live-zero taken s l = absurd l

settled_returns : (h : Handle) → (returns settled h ≤ 1) × (IsOver h → returns settled h ≡ 1)
settled_returns (idle v) = (omega arith, λ o. absurd o)
settled_returns (calling v c cur) = (omega arith, λ o. absurd o)
settled_returns (waiting j) = (omega arith, λ o. absurd o)
settled_returns owner = (omega arith, λ o. absurd o)
settled_returns taken = (omega arith, λ o. refl)
settled_returns gone = (omega arith, λ o. refl)

zero_bounds :
    (exit : Exit) (h : Handle)
    → exit ≢ settled
    → returns exit h ≡ 0
    → (returns exit h ≤ 1)
      × (exit ≢ settled → returns exit h ≡ 0)
      × (exit ≡ settled → IsOver h → returns exit h ≡ 1)
zero_bounds exit h n z = (omega (arith, z), λ _. z, λ e. absurd (n e))

returns_bounds :
    (claims : ℕ → Bool) (exit : Exit) (h : Handle) (s : JoinState) (log : List Effect)
    → Fits claims exit h s log
    → (returns exit h ≤ 1)
      × (exit ≢ settled → returns exit h ≡ 0)
      × (exit ≡ settled → IsOver h → returns exit h ≡ 1)
returns_bounds claims executing h s log f = zero_bounds executing h (λ e. cc) (Live-zero h s f.0)
returns_bounds claims checked h s log f =
    zero_bounds checked h (λ e. cc) ((same_returns h).0 ∙ Live-zero h s f.0)
returns_bounds claims swapping h s log f =
    zero_bounds swapping h (λ e. cc) ((same_returns h).1 ∙ Live-zero h s f.0)
returns_bounds claims (handing j) h s log f = zero_bounds (handing j) h (λ e. cc) (rw f.0 refl)
returns_bounds claims settled h s log f =
    ((settled_returns h).0, λ n. absurd (n refl), λ _. (settled_returns h).1)

-- For a task with a handle or without, in every order of the accesses of its exit and of its handle's
-- calls: the descriptor is given back at most once, never before the task has exited, and exactly once
-- when the task has exited and the handle has taken the result or is abandoned.
pub reclaimed_once :
    {claims : ℕ → Bool} (has_handle : Bool) {t : System}
    → Reach claims (spawned has_handle) t
    → IsReturned t
reclaimed_once {claims} has_handle {t} r =
    let i = Reach-IsJoin has_handle r in
    let b = returns_bounds claims t.exit t.handle i.state t.log i.fits in
    record {
      at_most_once = omega (arith, b.0, i.reclaims);
      not_early = λ n. omega (arith, b.1 n, i.reclaims);
      at_the_end = λ e o. omega (arith, b.2 e o, i.reclaims);
    }

-- The waiter of a handle, if it has one, is told.
abbrev pub IsInformed : (ℕ → Bool) → Handle → List Effect → Type 0
IsInformed claims (idle v) log = Notified claims v log
IsInformed claims (calling v c cur) log = Notified claims v log
IsInformed claims (waiting j) log = tally (is_resume j) log ≡ 1
IsInformed claims owner log = Unit {0}
IsInformed claims taken log = Unit {0}
IsInformed claims gone log = Unit {0}

pub record IsTold (claims : ℕ → Bool) (t : System) : Type 0 where
  pub at_most_once : tally is_notice t.log ≤ 1
  pub at_the_end : t.exit ≡ settled → IsInformed claims t.handle t.log
  pub not_early : t.exit ≢ settled → tally is_notice t.log ≡ 0

Told-IsInformed :
    (claims : ℕ → Bool) (h : Handle) (s : JoinState) (log : List Effect)
    → Told claims h s log
    → IsInformed claims h log
Told-IsInformed claims (idle v) s log f = f.1
Told-IsInformed claims (calling v c cur) s log f = f.1
Told-IsInformed claims (waiting j) s log f = f.1
Told-IsInformed claims owner s log f = tt
Told-IsInformed claims taken s log f = tt
Told-IsInformed claims gone s log f = tt

told_bounds :
    (claims : ℕ → Bool) (exit : Exit) (h : Handle) (s : JoinState) (log : List Effect)
    → Fits claims exit h s log
    → (tally is_notice log ≤ 1)
      × (exit ≡ settled → IsInformed claims h log)
      × (exit ≢ settled → tally is_notice log ≡ 0)
told_bounds claims executing h s log f = (omega (arith, f.1), λ e. cc, λ n. f.1)
told_bounds claims checked h s log f = (omega (arith, f.1), λ e. cc, λ n. f.1)
told_bounds claims swapping h s log f = (omega (arith, f.1), λ e. cc, λ n. f.1)
told_bounds claims (handing j) h s log f = (omega (arith, f.2), λ e. cc, λ n. f.2)
told_bounds claims settled h s log f =
    (f.1, λ e. Told-IsInformed claims h s log f.0, λ n. absurd (n refl))

-- In every order of the accesses: at most one waiter is told that the task has finished, none before the
-- task has exited, and once it has, the waiter that the handle registered last has been told exactly
-- once: the suspended sync joiner is resumed, the boxed waker woken, and the async joiner resumed
-- exactly if it can be claimed.
pub waiters-IsTold :
    {claims : ℕ → Bool} (has_handle : Bool) {t : System}
    → Reach claims (spawned has_handle) t
    → IsTold claims t
waiters-IsTold {claims} has_handle {t} r =
    let i = Reach-IsJoin has_handle r in
    let b = told_bounds claims t.exit t.handle i.state t.log i.fits in
    record { at_most_once = b.0; at_the_end = b.1; not_early = b.2 }

pub record IsUnboxed (t : System) : Type 0 where
  pub no_double_free :
      (a : ℕ) → tally (is_wake a) t.log + tally (is_drop a) t.log ≤ tally (is_box a) t.log
  pub no_leak :
      t.exit ≡ settled
      → IsOver t.handle
      → (a : ℕ) → tally (is_box a) t.log ≡ tally (is_wake a) t.log + tally (is_drop a) t.log

over_box :
    (claims : ℕ → Bool) (h : Handle) (s : JoinState) (log : List Effect) (a : ℕ)
    → Told claims h s log
    → IsOver h
    → held a s + carried a h ≡ 0
over_box claims (idle v) s log a f o = absurd o
over_box claims (calling v c cur) s log a f o = absurd o
over_box claims (waiting j) s log a f o = absurd o
over_box claims owner s log a f o = absurd o
over_box claims taken s log a f o = rw f refl
over_box claims gone s log a (inl f) o = rw f refl
over_box claims gone s log a (inr f) o = rw f refl

no_box :
    (claims : ℕ → Bool) (exit : Exit) (h : Handle) (s : JoinState) (log : List Effect) (a : ℕ)
    → Fits claims exit h s log
    → exit ≡ settled
    → IsOver h
    → held a s + carried a h ≡ 0
no_box claims executing h s log a f e o = cc
no_box claims checked h s log a f e o = cc
no_box claims swapping h s log a f e o = cc
no_box claims (handing j) h s log a f e o = cc
no_box claims settled h s log a f e o = over_box claims h s log a f.0 o

-- In every order of the accesses: a box is never woken or dropped more often than it was allocated, and
-- when the task has exited and the handle has taken the result or is abandoned, every boxed waker has
-- been woken or dropped as often as it was boxed.
pub boxes_freed :
    {claims : ℕ → Bool} (has_handle : Bool) {t : System}
    → Reach claims (spawned has_handle) t
    → IsUnboxed t
boxes_freed {claims} has_handle {t} r =
    let i = Reach-IsJoin has_handle r in
    record {
      no_double_free = λ a. omega (arith, i.boxes a);
      no_leak = λ e o a.
          omega (arith, i.boxes a, no_box claims t.exit t.handle i.state t.log a i.fits e o);
    }

Live-settles : (claims : ℕ → Bool) (h : Handle) (s : JoinState) → Live h s → settle claims s ≢ none
unfolding settle
Live-settles claims h finished l = absurd (Live-finished h l)
Live-settles claims h running l = λ e. cc
Live-settles claims h detached l = λ e. cc
Live-settles claims h (sync_joiner j) l = λ e. cc
Live-settles claims h (async_waker w) l = λ e. cc
Live-settles claims h (async_joiner j) l = λ e. cc

owner_finished :
    (claims : ℕ → Bool) (exit : Exit) (s : JoinState) (log : List Effect)
    → Fits claims exit owner s log
    → s ≡ finished
owner_finished claims executing s log f = absurd f.0
owner_finished claims checked s log f = absurd f.0
owner_finished claims swapping s log f = absurd f.0
owner_finished claims (handing j) s log f = cc
owner_finished claims settled s log f = f.0

-- In every order of the accesses: the exit's swap never finds a finished task, so its panic is
-- unreachable, and a handle that goes on to take the result sees a finished task.
pub join_asserts :
    {claims : ℕ → Bool} (has_handle : Bool) {t : System}
    → Reach claims (spawned has_handle) t
    → (t.exit ≡ swapping → (finish_and_settle claims t.word).0 ≢ none)
      × (t.handle ≡ owner → is_finished t.word ≡ true)
unfolding finish_and_settle is_finished encode
join_asserts {claims} has_handle {t} r =
    let i = Reach-IsJoin has_handle r in
    let d = decoded i.state t.word i.proper i.word_is in
    (
      λ e.
          let f : Fits claims swapping t.handle i.state t.log =
            subst (λ x. Fits claims x t.handle i.state t.log) e i.fits in
          rw d (Live-settles claims t.handle i.state f.0),
      λ o.
          let f : Fits claims t.exit owner i.state t.log =
            subst (λ h. Fits claims t.exit h i.state t.log) o i.fits in
          rw (i.word_is, owner_finished claims t.exit i.state t.log f) refl,
    )

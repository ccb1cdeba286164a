-- ===== src/Desc/Join/Fits.antt =====
-- What the handle has registered and the word agree, access by access.
use cmpth_rs.Prelude.{
  ℕ, ◌+◌, ◌≡◌, ◌≢◌, refl, sym, subst, ◌∙◌, Bool, List, [], ◌∷◌, ◌++◌, arith, if◌then◌else◌, ◌==◌,
}
use cmpth_rs.Desc.{
  JoinState, running, finished, detached, sync_joiner, async_waker, async_joiner, Effect,
  drop_waker, box_waker, reclaim, Call, abandon, join, join_async, await, replaced, unused_box,
  js_finished,
}
use cmpth_rs.Desc.Word.{IsState, encode, encode_finished, call_state}
use cmpth_rs.Desc.Join.{
  tally, is_resume, Exit, executing, checked, swapping, settled, handing, Waiter, no_waiter, waker,
  joiner, Handle, idle, calling, waiting, owner, taken, gone, accepted,
}
use cmpth_rs.Desc.Join.Ledger.{
  is_wake, is_drop, is_box, is_reclaim, is_notice, held, in_call, carried, returns, resumes-le,
}
use cmpth_rs.Desc.Join.Inv.{IsCalling, Live, Fits, Notified, waiter_state}

-- A finished word is the exit's doing.
pub Live-finished : (h : Handle) → ¬ (Live h finished)
Live-finished (idle no_waiter) l = cc
Live-finished (idle (waker w)) l = cc
Live-finished (idle (joiner k)) l = cc
Live-finished (calling no_waiter c cur) l = cc
Live-finished (calling (waker w) c cur) l = cc
Live-finished (calling (joiner k) c cur) l = cc
Live-finished (waiting k) l = cc
Live-finished owner l = l
Live-finished taken l = l
Live-finished gone l = cc

pub fits_finished :
    (claims : ℕ → Bool) (exit : Exit) (h : Handle) (log : List Effect)
    → Fits claims exit h finished log
    → exit ≡ settled
fits_finished claims executing h log f = absurd (Live-finished h f.0)
fits_finished claims checked h log f = absurd (Live-finished h f.0)
fits_finished claims swapping h log f = absurd (Live-finished h f.0)
fits_finished claims (handing j) h log f = cc
fits_finished claims settled h log f = refl

-- A handle that is between calls or in one learns that the task has finished.
pub learn :
    (claims : ℕ → Bool) (exit : Exit) (h : Handle) (s : JoinState) (log : List Effect)
    → s ≡ finished
    → Fits claims exit h s log
    → Fits claims exit owner s log
learn claims exit h s log e f =
    let x = fits_finished claims exit h log (subst (λ s. Fits claims exit h s log) e f) in
    let g : Fits claims settled h s log = subst (λ x. Fits claims x h s log) x f in rw x (e, g.1)

pub unfinished :
    (v : Waiter) (word : ℕ) (s : JoinState)
    → IsState s
    → word ≡ encode s
    → s ≡ waiter_state v
    → word ≢ js_finished
unfinished v word s p e l w =
    let f = encode_finished s p (sym e ∙ w) in
    Live-finished (idle v) (subst (λ x. x ≡ waiter_state v) f l)

-- Its turn found another word.
pub expect :
    (claims : ℕ → Bool) (exit : Exit) (v : Waiter) (c : Call) (cur word : ℕ) (s : JoinState)
    (log : List Effect)
    → IsState s
    → word ≡ encode s
    → Fits claims exit (idle v) s log
    → Fits claims exit (calling v c word) s log
expect claims executing v c cur word s log p e f = ((f.0, unfinished v word s p e f.0), f.1)
expect claims checked v c cur word s log p e f = ((f.0, unfinished v word s p e f.0), f.1)
expect claims swapping v c cur word s log p e f = ((f.0, unfinished v word s p e f.0), f.1)
expect claims (handing j) v c cur word s log p e f = cc
expect claims settled v c cur word s log p e f = f

-- What dropping a replaced waker, or an unused box, adds to the counts.
pub record Drops (e log : List Effect) (n : ℕ → ℕ) : Type 0 where
  pub notices : tally is_notice (e ++ log) ≡ tally is_notice log
  pub reclaimed : tally is_reclaim (e ++ log) ≡ tally is_reclaim log
  pub boxed : (a : ℕ) → tally (is_box a) (e ++ log) ≡ tally (is_box a) log
  pub woken : (a : ℕ) → tally (is_wake a) (e ++ log) ≡ tally (is_wake a) log
  pub resumed : (a : ℕ) → tally (is_resume a) (e ++ log) ≡ tally (is_resume a) log
  pub dropped : (a : ℕ) → tally (is_drop a) (e ++ log) ≡ n a + tally (is_drop a) log

nothing-Drops : (log : List Effect) → Drops [] log (λ a. 0)
nothing-Drops log = omega arith

drop-Drops :
    (w : ℕ) (log : List Effect) → Drops (drop_waker w ∷ []) log (λ a. if w == a then 1 else 0)
drop-Drops w log = omega arith

pub replaced-Drops : (s : JoinState) (log : List Effect) → Drops (replaced s) log (λ a. held a s)
unfolding replaced
replaced-Drops running log = nothing-Drops log
replaced-Drops finished log = nothing-Drops log
replaced-Drops detached log = nothing-Drops log
replaced-Drops (sync_joiner j) log = nothing-Drops log
replaced-Drops (async_waker w) log = drop-Drops w log
replaced-Drops (async_joiner j) log = nothing-Drops log

pub unused-Drops : (c : Call) (log : List Effect) → Drops (unused_box c) log (λ a. in_call a c)
unfolding unused_box
unused-Drops abandon log = nothing-Drops log
unused-Drops (join j) log = nothing-Drops log
unused-Drops (join_async j) log = nothing-Drops log
unused-Drops (await w) log = drop-Drops w log

-- What a call has stored is what the handle has registered.
pub accepted-Live : (c : Call) → Live (accepted c) (call_state c)
unfolding accepted
accepted-Live abandon = refl
accepted-Live (join j) = refl
accepted-Live (join_async j) = refl
accepted-Live (await w) = refl

returns_gone : (exit : Exit) → exit ≢ settled → returns exit gone ≡ 0
returns_gone executing n = refl
returns_gone checked n = refl
returns_gone swapping n = refl
returns_gone (handing j) n = refl
returns_gone settled n = absurd (n refl)

pub accepted_counts :
    (exit : Exit) (c : Call)
    → exit ≢ settled
    → (returns exit (accepted c) ≡ 0)
      × ((a : ℕ) → held a (call_state c) + carried a (accepted c) ≡ in_call a c)
unfolding accepted
accepted_counts exit abandon n = (returns_gone exit n, λ a. refl)
accepted_counts exit (join j) n = (refl, λ a. refl)
accepted_counts exit (join_async j) n = (refl, λ a. refl)
accepted_counts exit (await w) n = (refl, λ a. omega arith)

-- The exchange succeeded.
pub store_fits :
    (claims : ℕ → Bool) (exit : Exit) (v : Waiter) (c : Call) (word : ℕ) (s : JoinState)
    (log e : List Effect)
    → word ≢ js_finished
    → word ≡ encode s
    → tally is_notice (e ++ log) ≡ tally is_notice log
    → Fits claims exit (calling v c word) s log
    → (exit ≢ settled) × Fits claims exit (accepted c) (call_state c) (e ++ log)
unfolding encode
store_fits claims executing v c word s log e n w q f =
    (λ x. cc, (accepted-Live c, omega (arith, q, f.1)))
store_fits claims checked v c word s log e n w q f =
    (λ x. cc, (accepted-Live c, omega (arith, q, f.1)))
store_fits claims swapping v c word s log e n w q f =
    (λ x. cc, (accepted-Live c, omega (arith, q, f.1)))
store_fits claims (handing j) v c word s log e n w q f = cc
store_fits claims settled v c word s log e n w q f = absurd (n (rw (w, f.0.0) refl))

pub found_fits :
    (claims : ℕ → Bool) (exit : Exit) (v : Waiter) (c : Call) (s : JoinState) (log e : List Effect)
    → tally is_notice (e ++ log) ≡ tally is_notice log
    → Fits claims exit (calling v c js_finished) s log
    → Fits claims exit owner s (e ++ log)
found_fits claims executing v c s log e q f = absurd (f.0.1 refl)
found_fits claims checked v c s log e q f = absurd (f.0.1 refl)
found_fits claims swapping v c s log e q f = absurd (f.0.1 refl)
found_fits claims (handing j) v c s log e q f = cc
found_fits claims settled v c s log e q f = (f.0.0, omega (arith, q, f.1))

pub relax :
    (claims : ℕ → Bool) (exit : Exit) (v : Waiter) (c : Call) (cur : ℕ) (s : JoinState)
    (log : List Effect)
    → Fits claims exit (calling v c cur) s log
    → Fits claims exit (idle v) s log
relax claims executing v c cur s log f = (f.0.0, f.1)
relax claims checked v c cur s log f = (f.0.0, f.1)
relax claims swapping v c cur s log f = (f.0.0, f.1)
relax claims (handing j) v c cur s log f = cc
relax claims settled v c cur s log f = f

pub boxed-Notified :
    (claims : ℕ → Bool) (v : Waiter) (w : ℕ) (log : List Effect)
    → Notified claims v log
    → Notified claims v (box_waker w ∷ log)
boxed-Notified claims no_waiter w log n = n
boxed-Notified claims (waker x) w log n = omega (arith, n)
boxed-Notified claims (joiner j) w log n = omega (arith, n)

pub boxed_fits :
    (claims : ℕ → Bool) (exit : Exit) (v : Waiter) (c : Call) (cur w : ℕ) (s : JoinState)
    (log : List Effect)
    → Fits claims exit (calling v c cur) s log
    → Fits claims exit (calling v c cur) s (box_waker w ∷ log)
boxed_fits claims executing v c cur w s log f = (f.0, omega (arith, f.1))
boxed_fits claims checked v c cur w s log f = (f.0, omega (arith, f.1))
boxed_fits claims swapping v c cur w s log f = (f.0, omega (arith, f.1))
boxed_fits claims (handing j) v c cur w s log f = cc
boxed_fits claims settled v c cur w s log f =
    ((f.0.0, boxed-Notified claims v w log f.0.1), omega (arith, f.1))

pub resumed_fits :
    (claims : ℕ → Bool) (exit : Exit) (j : ℕ) (s : JoinState) (log : List Effect)
    → tally (is_resume j) log ≢ 0
    → Fits claims exit (waiting j) s log
    → Fits claims exit owner s log
resumed_fits claims executing j s log n f = absurd (omega (arith, n, f.1, resumes-le j log))
resumed_fits claims checked j s log n f = absurd (omega (arith, n, f.1, resumes-le j log))
resumed_fits claims swapping j s log n f = absurd (omega (arith, n, f.1, resumes-le j log))
resumed_fits claims (handing k) j s log n f = absurd (omega (arith, n, f.2, resumes-le j log))
resumed_fits claims settled j s log n f = (f.0.0, f.1)

pub take_fits :
    (claims : ℕ → Bool) (exit : Exit) (s : JoinState) (log : List Effect)
    → Fits claims exit owner s log
    → Fits claims exit taken s (reclaim ∷ log)
take_fits claims executing s log f = absurd f.0
take_fits claims checked s log f = absurd f.0
take_fits claims swapping s log f = absurd f.0
take_fits claims (handing k) s log f = cc
take_fits claims settled s log f = (f.0, omega (arith, f.1))

pub IsCalling-accepted : (c : Call) → IsCalling (accepted c)
unfolding accepted
IsCalling-accepted abandon = tt
IsCalling-accepted (join j) = tt
IsCalling-accepted (join_async j) = tt
IsCalling-accepted (await w) = tt

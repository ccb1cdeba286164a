-- ===== src/Desc/Join/Settled.antt =====
-- What the accesses of the exiting task do to the word, by what its handle has done.
use cmpth_rs.Prelude.{
  ℕ, ◌+◌, ◌≤◌, ◌≡◌, refl, ◌∙◌, Bool, List, [], ◌∷◌, ◌++◌, some, arith, inl, inr, Bool-cases,
}
use cmpth_rs.Desc.{
  JoinState, running, finished, detached, sync_joiner, async_waker, async_joiner, Effect, resume,
  wake, reclaim, settle, handoff_target, decode_join_state,
}
use cmpth_rs.Desc.Word.{IsState, encode, decode-encode}
use cmpth_rs.Desc.Join.{
  tally, Exit, executing, checked, swapping, settled, Waiter, no_waiter, waker, joiner, Handle,
  idle, calling, waiting, owner, taken, gone, System,
}
use cmpth_rs.Desc.Join.Ledger.{
  is_wake, is_drop, is_box, is_reclaim, is_notice, held, returns, resumes-le, wakes-le,
}
use cmpth_rs.Desc.Join.Inv.{Live, Told, Notified, waiter_state}

-- A system with these parts.
abbrev pub at : ℕ → Exit → Handle → List Effect → System
at word exit h log = record { word = word; exit = exit; handle = h; log = log }

pub decoded : (s : JoinState) (word : ℕ) → IsState s → word ≡ encode s → decode_join_state word ≡ s
decoded s word h e = rw e (decode-encode s h)

-- Only a suspended handle leaves a sync joiner in the word.
pub Live-sync : (h : Handle) (j : ℕ) → Live h (sync_joiner j) → h ≡ waiting j
Live-sync (idle no_waiter) j l = cc
Live-sync (idle (waker w)) j l = cc
Live-sync (idle (joiner k)) j l = cc
Live-sync (calling no_waiter c cur) j l = cc
Live-sync (calling (waker w) c cur) j l = cc
Live-sync (calling (joiner k) c cur) j l = cc
Live-sync (waiting k) j l = ground arith
Live-sync owner j l = absurd l
Live-sync taken j l = absurd l
Live-sync gone j l = cc

pub Live-detached : (h : Handle) → Live h detached → h ≡ gone
Live-detached (idle no_waiter) l = cc
Live-detached (idle (waker w)) l = cc
Live-detached (idle (joiner k)) l = cc
Live-detached (calling no_waiter c cur) l = cc
Live-detached (calling (waker w) c cur) l = cc
Live-detached (calling (joiner k) c cur) l = cc
Live-detached (waiting k) l = cc
Live-detached owner l = absurd l
Live-detached taken l = absurd l
Live-detached gone l = refl

pub target_sync : (s : JoinState) (j : ℕ) → handoff_target s ≡ some j → s ≡ sync_joiner j
unfolding handoff_target
target_sync running j e = cc
target_sync finished j e = cc
target_sync detached j e = cc
target_sync (sync_joiner k) j e = ground arith
target_sync (async_waker w) j e = cc
target_sync (async_joiner k) j e = cc

pub same_returns :
    (h : Handle)
    → (returns checked h ≡ returns executing h) × (returns swapping h ≡ returns executing h)
same_returns (idle v) = (refl, refl)
same_returns (calling v c cur) = (refl, refl)
same_returns (waiting j) = (refl, refl)
same_returns owner = (refl, refl)
same_returns taken = (refl, refl)
same_returns gone = (refl, refl)

-- What the exit's swap does, by what the handle has done.
settle_waiter :
    (claims : ℕ → Bool) (v : Waiter) (s : JoinState) (log e : List Effect)
    → s ≡ waiter_state v
    → tally is_notice log ≡ 0
    → settle claims s ≡ some e
    → ((◌≡◌ {A = JoinState} finished finished) × Notified claims v (e ++ log))
      × (tally is_notice (e ++ log) ≤ 1)
unfolding settle
settle_waiter claims no_waiter s log e l q se =
    let x : e ≡ [] = ground arith in rw x ((refl, tt), omega arith)
settle_waiter claims (waker w) s log e l q se =
    let x : e ≡ wake w ∷ [] = ground arith in rw x (ground (arith, wakes-le w log))
settle_waiter claims (joiner j) s log e l q se = elim (Bool-cases (claims j)) [
  | inl yes_parked ↦
      let x : e ≡ resume j ∷ [] = ground arith in rw x (ground (arith, resumes-le j log))
  | inr other ↦ let x : e ≡ [] = ground arith in rw x (ground (arith, resumes-le j log))
]

pub settle-Told :
    (claims : ℕ → Bool) (h : Handle) (s : JoinState) (log e : List Effect)
    → Live h s
    → tally is_notice log ≡ 0
    → settle claims s ≡ some e
    → Told claims h finished (e ++ log) × (tally is_notice (e ++ log) ≤ 1)
unfolding settle
settle-Told claims (idle v) s log e l q se = settle_waiter claims v s log e l q se
settle-Told claims (calling v c cur) s log e l q se = settle_waiter claims v s log e l.0 q se
settle-Told claims (waiting j) s log e l q se =
    let x : e ≡ resume j ∷ [] = ground arith in rw x (ground (arith, resumes-le j log))
settle-Told claims owner s log e l q se = absurd l
settle-Told claims taken s log e l q se = absurd l
settle-Told claims gone s log e l q se =
    let x : e ≡ reclaim ∷ [] = ground arith in rw x (inl refl, omega arith)

-- The exit gives the descriptor back exactly if the handle is gone.
waiter_reclaims :
    (claims : ℕ → Bool) (v : Waiter) (s : JoinState) (log e : List Effect)
    → s ≡ waiter_state v
    → settle claims s ≡ some e
    → tally is_reclaim (e ++ log) ≡ tally is_reclaim log
unfolding settle
waiter_reclaims claims no_waiter s log e l se = let x : e ≡ [] = ground arith in rw x (omega arith)
waiter_reclaims claims (waker w) s log e l se =
    let x : e ≡ wake w ∷ [] = ground arith in rw x (omega arith)
waiter_reclaims claims (joiner j) s log e l se = elim (Bool-cases (claims j)) [
  | inl yes_parked ↦ let x : e ≡ resume j ∷ [] = ground arith in rw x (omega arith)
  | inr other ↦ let x : e ≡ [] = ground arith in rw x (omega arith)
]

pub settle_reclaims :
    (claims : ℕ → Bool) (h : Handle) (s : JoinState) (log e : List Effect)
    → Live h s
    → settle claims s ≡ some e
    → tally is_reclaim log ≡ returns swapping h
    → tally is_reclaim (e ++ log) ≡ returns settled h
unfolding settle
settle_reclaims claims (idle v) s log e l se r = waiter_reclaims claims v s log e l se ∙ r
settle_reclaims claims (calling v c cur) s log e l se r =
    waiter_reclaims claims v s log e l.0 se ∙ r
settle_reclaims claims (waiting j) s log e l se r =
    let x : e ≡ resume j ∷ [] = ground arith in rw x (omega (arith, r))
settle_reclaims claims owner s log e l se r = absurd l
settle_reclaims claims taken s log e l se r = absurd l
settle_reclaims claims gone s log e l se r =
    let x : e ≡ reclaim ∷ [] = ground arith in rw x (omega (arith, r))

-- The box in the word is woken.
pub settle_boxes :
    (claims : ℕ → Bool) (s : JoinState) (log e : List Effect) (a c : ℕ)
    → settle claims s ≡ some e
    → tally (is_box a) log ≡ tally (is_wake a) log + tally (is_drop a) log + held a s + c
    → tally (is_box a) (e ++ log)
      ≡ tally (is_wake a) (e ++ log) + tally (is_drop a) (e ++ log) + held a finished + c
unfolding settle
settle_boxes claims running log e a c se b =
    let x : e ≡ [] = ground arith in rw x (omega (arith, b))
settle_boxes claims finished log e a c se b = cc
settle_boxes claims detached log e a c se b =
    let x : e ≡ reclaim ∷ [] = ground arith in rw x (omega (arith, b))
settle_boxes claims (sync_joiner j) log e a c se b =
    let x : e ≡ resume j ∷ [] = ground arith in rw x (omega (arith, b))
settle_boxes claims (async_waker w) log e a c se b =
    let x : e ≡ wake w ∷ [] = ground arith in rw x (omega (arith, b))
settle_boxes claims (async_joiner j) log e a c se b = elim (Bool-cases (claims j)) [
  | inl yes_parked ↦ let x : e ≡ resume j ∷ [] = ground arith in rw x (omega (arith, b))
  | inr other ↦ let x : e ≡ [] = ground arith in rw x (omega (arith, b))
]

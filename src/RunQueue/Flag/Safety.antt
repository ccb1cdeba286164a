-- ===== src/RunQueue/Flag/Safety.antt =====
-- What holds of `Deferred` in every reachable state.
use cmpth_rs.Prelude.{
  ℕ, ◌≡◌, ◌≢◌, refl, ◌⊎◌, inl, inr, Bool, true, false, [], arith, update, List-cases,
}
use cmpth_rs.RunQueue.Flag.{
  Shared, Pc, push_locked, pushed, storing, take_locked, popped, clearing, returning, Move,
  push_lock, push_back, push_unlock, store_true, take_lock, take_front, see_empty, store_false,
  take_unlock, System, pick, Reach, start, later,
}

-- Holds the spin lock.
abbrev pub holds : {T : Type 0} → Pc T → Bool
holds (push_locked v) = true
holds pushed = true
holds take_locked = true
holds (popped item) = true
holds (clearing item) = true
holds (returning item) = true
holds _ = false

-- Has put an item in, and has yet to set the flag.
abbrev pub owes_flag : {T : Type 0} → Pc T → Bool
owes_flag pushed = true
owes_flag storing = true
owes_flag _ = false

module _ {T : Type 0} where
  abbrev Clears : Shared T → Pc T → Type 0
  Clears m (clearing item) = m.q ≡ []
  Clears m _ = Unit {0}

  record Inv (m : Shared T) (pc : ℕ → Pc T) : Type 0 where
    single : (i j : ℕ) → holds (pc i) ≡ true → holds (pc j) ≡ true → i ≡ j
    taken : (i : ℕ) → holds (pc i) ≡ true → m.locked ≡ true
    clears : (i : ℕ) → Clears m (pc i)
    told : m.non_empty ≡ false → (m.q ≡ []) ⊎ ((i : ℕ) × (owes_flag (pc i) ≡ true))

  module _ {m : Shared T} {pc : ℕ → Pc T} (inv : Inv m pc) (i : ℕ) where
    open inv use {single, taken, clears, told}

    Move-single :
        {p p' : Pc T} {m' : Shared T}
        → Move m p m' p'
        → pc i ≡ p
        → (a b : ℕ) → holds (update pc i p' a) ≡ true
        → holds (update pc i p' b) ≡ true
        → a ≡ b
    Move-single (push_lock g) e a b x y = ground (arith, single a b, taken a, taken b)
    Move-single (take_lock g) e a b x y = ground (arith, single a b, taken a, taken b)
    Move-single mv e a b x y = ground (arith, single a b, single i a, single i b)

    Move-taken :
        {p p' : Pc T} {m' : Shared T}
        → Move m p m' p'
        → pc i ≡ p
        → (a : ℕ) → holds (update pc i p' a) ≡ true
        → m'.locked ≡ true
    Move-taken push_unlock e a x = ground (arith, single i a)
    Move-taken take_unlock e a x = ground (arith, single i a)
    Move-taken mv e a x = ground (arith, taken a, taken i)

    Move-Clears :
        {p p' : Pc T} {m' : Shared T}
        → Move m p m' p'
        → pc i ≡ p
        → (a : ℕ) → Clears m' (update pc i p' a)
    Move-Clears push_back e a = ground (arith, clears a, single i a)
    Move-Clears take_front e a = ground (arith, clears a, single i a)
    Move-Clears (see_empty g) e a = elim (List-cases m.q) [
      | inl z ↦ ground (arith, clears a)
      | inr (x, r, z) ↦ ground (arith, clears a)
    ]
    Move-Clears mv e a = ground (arith, clears a)

    Move-told :
        {p p' : Pc T} {m' : Shared T}
        → Move m p m' p'
        → pc i ≡ p
        → m'.non_empty ≡ false
        → (m'.q ≡ []) ⊎ ((j : ℕ) × (owes_flag (update pc i p' j) ≡ true))
    Move-told push_back e x = inr (i, ground arith)
    Move-told push_unlock e x = inr (i, ground arith)
    Move-told store_true e x = cc
    Move-told store_false e x = inl (ground (arith, clears i))
    Move-told take_front e x = elim (told x) [
      | inl z ↦ inl (rw z)
      | inr (j, o) ↦ inr (j, ground arith)
    ]
    Move-told mv e x = elim (told x) [ inl z ↦ inl z | inr (j, o) ↦ inr (j, ground arith) ]

    Move-Inv : {p' : Pc T} {m' : Shared T} → Move m (pc i) m' p' → Inv m' (update pc i p')
    Move-Inv mv = record {
      single = Move-single mv refl;
      taken = Move-taken mv refl;
      clears = Move-Clears mv refl;
      told = Move-told mv refl;
    }

  Reach-Inv : {s : System T} → Reach s → Inv s.mem s.pc
  Reach-Inv start = record {
    single = λ i j x y. cc;
    taken = λ i x. cc;
    clears = λ i. tt;
    told = λ x. inl refl;
  }
  Reach-Inv (later r (pick i mv)) = Move-Inv (Reach-Inv r) i mv

  -- In every reachable state at most one thread holds the spin lock of the deferred queue.
  pub deferred_exclusion :
      {s : System T} → Reach s → (i j : ℕ) → holds (s.pc i) ≡ true → holds (s.pc j) ≡ true → i ≡ j
  deferred_exclusion r = (Reach-Inv r).single

  -- In every reachable state, if the flag is clear while items are queued, then some thread has put
  -- an item in and has yet to set the flag. So where no thread is in between, a clear flag, on
  -- which `try_take` gives up without the lock, means that the queue is empty.
  pub hidden_item :
      {s : System T}
      → Reach s
      → s.mem.non_empty ≡ false
      → s.mem.q ≢ []
      → (i : ℕ) × (owes_flag (s.pc i) ≡ true)
  hidden_item r x ne = elim ((Reach-Inv r).told x) [ inl z ↦ absurd (ne z) | inr owed ↦ owed ]

-- ===== src/Sync/Condvar/Inv.antt =====
-- The invariant of a condition variable, and how its list follows the threads.
use cmpth_rs.Prelude.{
  ℕ, ◌+◌, ◌≤◌, ◌<◌, ◌≡◌, ◌≢◌, refl, ap, subst, ◌⊎◌, Bool, true, false, some, List, [], ◌∷◌, arith,
  update, ℕ_discrete, total, total-update, ite,
}
use cmpth_rs.Sync.Condvar.{
  Pc, running, waiting, resumed, notifying, fault, System, woken, notify_rest,
}
use cmpth_rs.Sync.Condvar.Count.{count, waits, holds, count_self, count_other, total-woken}

abbrev pub awake : Pc → Bool
awake running = true
awake (notifying rest) = true
awake waiting = false
awake resumed = false
awake fault = false

abbrev pub Counted : ℕ → List ℕ → (ℕ → Pc) → Type 0
Counted n w pc = (j : ℕ) → count j w + total (holds j) n pc ≡ waits (pc j)

pub record Inv (n : ℕ) (s : System) : Type 0 where
  pub counted : Counted n s.waiters s.pc
  pub sound : (i : ℕ) → s.pc i ≢ fault
  pub freeing : (i : ℕ) → s.unlocking i ≡ true → (s.owner ≡ some i) × (awake (s.pc i) ≡ false)
  pub owned : (i : ℕ) → s.owner ≡ some i → (s.unlocking i ≡ true) ⊎ (awake (s.pc i) ≡ true)

waits_le : (p : Pc) → waits p ≤ 1
waits_le running = omega arith
waits_le waiting = omega arith
waits_le resumed = omega arith
waits_le (notifying rest) = omega arith
waits_le fault = omega arith

pub waits_one : (p : Pc) → waits p ≡ 1 → p ≡ waiting
waits_one waiting e = refl
waits_one running e = absurd (omega (arith, e))
waits_one resumed e = absurd (omega (arith, e))
waits_one (notifying rest) e = absurd (omega (arith, e))
waits_one fault e = absurd (omega (arith, e))

pub notify_rest-waits : (rest : List ℕ) → waits (notify_rest rest) ≡ 0
unfolding notify_rest
notify_rest-waits [] = refl
notify_rest-waits (t ∷ rest) = refl

pub notify_rest-awake : (rest : List ℕ) → awake (notify_rest rest) ≡ true
unfolding notify_rest
notify_rest-awake [] = refl
notify_rest-awake (t ∷ rest) = refl

-- One thread moves, and entries move between `waiters` and its hands.
pub Counted-update :
    (n : ℕ) (w w' : List ℕ) (pc : ℕ → Pc) (i : ℕ) (p : Pc)
    → i < n
    → Counted n w pc
    → ((j : ℕ) → i ≢ j → count j w' + holds j p ≡ count j w + holds j (pc i))
    → count i w' + holds i p + waits (pc i) ≡ count i w + holds i (pc i) + waits p
    → Counted n w' (update pc i p)
Counted-update n w w' pc i p lt c other self j =
    elim (ℕ_discrete i j)
      as (λ d. count j w' + total (holds j) n (update pc i p) ≡ waits (ite d p (pc j))) [
        | no ne ↦ omega (arith, c j, other j ne, total-update (holds j) n pc i p lt)
        | yes e ↦
            subst (λ k. count k w' + total (holds k) n (update pc i p) ≡ waits p) e
              (omega (arith, c i, self, total-update (holds i) n pc i p lt))
      ]

-- The front thread waits.
pub front_waits :
    (n : ℕ) (w : List ℕ) (pc : ℕ → Pc) (t : ℕ) → Counted n (t ∷ w) pc → waits (pc t) ≡ 1
front_waits n w pc t c = omega (arith, c t, count_self t w, waits_le (pc t))

-- It is resumed and taken off the list.
pub Counted-woken :
    (n : ℕ) (w : List ℕ) (pc : ℕ → Pc) (t : ℕ)
    → Counted n (t ∷ w) pc
    → Counted n w (update pc t (woken (pc t)))
unfolding woken
Counted-woken n w pc t c j =
    let one = front_waits n w pc t c in
    elim (ℕ_discrete t j)
      as (λ d.
        count j w + total (holds j) n (update pc t (woken (pc t)))
        ≡ waits (ite d (woken (pc t)) (pc j))) [
          | no ne ↦ omega (arith, c j, count_other w ne, total-woken j n pc t one)
          | yes e ↦
              subst
                (λ k.
                  count k w + total (holds k) n (update pc t (woken (pc t))) ≡ waits (woken (pc t)))
                e
                (omega (
                  arith,
                  c t,
                  count_self t w,
                  one,
                  total-woken t n pc t one,
                  ap (λ p. waits (woken p)) (waits_one (pc t) one),
                ))
        ]

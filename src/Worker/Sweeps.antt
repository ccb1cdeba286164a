-- ===== src/Worker/Sweeps.antt =====
-- The sweep of src/resumable/common/steal.rs: whom it asked, and what they gave.

use cmpth_rs.Prelude.{
  ℕ, zero, suc, ◌%◌, ◌≡◌, refl, sym, ap, subst, inl, inr, Bool, true, false, List, [], ◌∷◌, ◌==◌,
  if◌then◌else◌, Bool-cases,
}
use cmpth_rs.RunQueue.Contract.{Steal, success, empty, retry}
use cmpth_rs.RunQueue.History.{stolen?}
use cmpth_rs.Steal.{sweep_from, after, wrapping_add}

-- How a sweep went: the victims asked before the last one gave nothing.
pub data Sweep {T : Type 0} (answers : ℕ → Steal T) : Steal T → List ℕ → Type 0 where
  gave : (v : ℕ) (c : T) → answers v ≡ success c → Sweep answers (success c) (v ∷ [])
  over : (r : Steal T) → stolen? r ≡ [] → Sweep answers r []
  passed :
      (v : ℕ) (r : Steal T) (vs : List ℕ)
      → stolen? (answers v) ≡ []
      → Sweep answers r vs
      → Sweep answers r (v ∷ vs)

after-Sweep :
    {T : Type 0} (answers : ℕ → Steal T) (v : ℕ) (a : Steal T) (saw : Bool)
    (rest : Bool → Steal T × List ℕ)
    → answers v ≡ a
    → ((b : Bool) → Sweep answers (rest b).0 (rest b).1)
    → Sweep answers (after v a saw rest).0 (after v a saw rest).1
after-Sweep answers v (success c) saw rest e go = gave v c e
after-Sweep answers v empty saw rest e go = passed v _ _ (ap stolen? e) (go saw)
after-Sweep answers v retry saw rest e go = passed v _ _ (ap stolen? e) (go true)

module _ {T : Type 0} (answers : ℕ → Steal T) (start me n : ℕ) where
  pub sweep_from-Sweep :
      (left i : ℕ) (saw : Bool)
      → Sweep answers
          (sweep_from answers start me n left i saw).0
          (sweep_from answers start me n left i saw).1
  unfolding sweep_from
  sweep_from-Sweep zero i saw = over _ (nothing saw)
    where
      nothing : (b : Bool) → stolen? {T = T} (if b then retry else empty) ≡ []
      nothing true = refl
      nothing false = refl
  sweep_from-Sweep (suc left) i saw =
      let victim = wrapping_add start i % n in
      let rest = sweep_from answers start me n left (suc i) in
      elim (Bool-cases (victim == me)) [
        | inl e ↦
            subst
              (λ b.
                let x = if b then rest saw else after victim (answers victim) saw rest in
                Sweep answers x.0 x.1)
              (sym e) (sweep_from-Sweep left (suc i) saw)
        | inr e ↦
            subst
              (λ b.
                let x = if b then rest saw else after victim (answers victim) saw rest in
                Sweep answers x.0 x.1)
              (sym e)
              (after-Sweep answers victim (answers victim) saw rest refl
                (sweep_from-Sweep left (suc i)))
      ]

-- ===== src/Steal/Means.antt =====
-- What the answer of a sweep means, and how it grows by one victim.

use cmpth_rs.Prelude.{
  ℕ, ◌≡◌, ◌≢◌, refl, sym, ap, ◌∙◌, ◌⊎◌, inl, inr, Bool, true, false, List, ◌∷◌, Among,
}
use cmpth_rs.RunQueue.Contract.{Steal, success, empty, retry}

module _ {T : Type 0} (answers : ℕ → Steal T) where
  -- `victims`: each has to be asked unless somebody before gave something.
  abbrev pub Means : (ℕ → Type 0) → Bool → Steal T → List ℕ → Type 0
  Means victims saw_retry (success c) asked = (v : ℕ) × Among v asked × (answers v ≡ success c)
  Means victims saw_retry retry asked =
      ((v : ℕ) → victims v → Among v asked)
      × ((saw_retry ≡ true) ⊎ ((v : ℕ) × Among v asked × (answers v ≡ retry)))
      × ((v : ℕ) → Among v asked → (c : T) → answers v ≢ success c)
  Means victims saw_retry empty asked =
      ((v : ℕ) → victims v → Among v asked)
      × (saw_retry ≡ false)
      × ((v : ℕ) → Among v asked → answers v ≡ empty)

  -- One more victim, which is oneself.
  pub passed :
      (p q : ℕ → Type 0) (saw : Bool) (r : Steal T) (vs : List ℕ)
      → ((v : ℕ) → q v → p v)
      → Means p saw r vs
      → Means q saw r vs
  passed p q saw (success c) vs f m = m
  passed p q saw retry vs f (a, b, c) = (λ v x. a v (f v x), b, c)
  passed p q saw empty vs f (a, b, c) = (λ v x. a v (f v x), b, c)

  -- One more victim, which gave nothing.
  pub asked_more :
      (p q : ℕ → Type 0) (saw saw' : Bool) (v : ℕ) (r : Steal T) (vs : List ℕ)
      → ((u : ℕ) → q u → (u ≡ v) ⊎ p u)
      → ((answers v ≡ empty) × (saw' ≡ saw)) ⊎ ((answers v ≡ retry) × (saw' ≡ true))
      → Means p saw' r vs
      → Means q saw r (v ∷ vs)
  asked_more p q saw saw' v (success c) vs f a (u, m, e) = (u, inr m, e)
  asked_more p q saw saw' v retry vs f (inl (e, s)) (a, b, c) = (
    λ u x. elim (f u x) [ inl w ↦ inl w | inr y ↦ inr (a u y) ],
    elim b [ inl w ↦ inl (sym s ∙ w) | inr (u, m, w) ↦ inr (u, inr m, w) ],
    λ u m d. elim m [ inl w ↦ (λ g. cc (ap answers w, e, g)) | inr m' ↦ c u m' d ],
  )
  asked_more p q saw saw' v retry vs f (inr (e, s)) (a, b, c) = (
    λ u x. elim (f u x) [ inl w ↦ inl w | inr y ↦ inr (a u y) ],
    inr (v, inl refl, e),
    λ u m d. elim m [ inl w ↦ (λ g. cc (ap answers w, e, g)) | inr m' ↦ c u m' d ],
  )
  asked_more p q saw saw' v empty vs f (inl (e, s)) (a, b, c) = (
    λ u x. elim (f u x) [ inl w ↦ inl w | inr y ↦ inr (a u y) ],
    sym s ∙ b,
    λ u m. elim m [ inl w ↦ ap answers w ∙ e | inr m' ↦ c u m' ],
  )
  asked_more p q saw saw' v empty vs f (inr (e, s)) (a, b, c) = absurd (cc (s, b))

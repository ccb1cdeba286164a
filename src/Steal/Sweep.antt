-- ===== src/Steal/Sweep.antt =====
-- What a sweep asks, and what its answer means.
use native.Mathlib.Nat.{mod-eq_of_lt, mod-lt}
use cmpth_rs.Prelude.{
  ℕ, zero, suc, ◌+◌, ◌%◌, ◌^◌, ◌≤◌, ◌<◌, ◌≡◌, ◌≢◌, refl, sym, ap, subst, ◌∙◌, ◌⊎◌, inl, inr, Bool,
  true, false, List, arith, ◌==◌, ℕ_discrete, Among, Distinct, Bool-cases,
}
use cmpth_rs.RunQueue.Contract.{Steal, success, empty, retry}
use cmpth_rs.Steal.{w64, wrapping_add, after, sweep_from, sweep, next, random_sweep_try_steal}
use cmpth_rs.Steal.Cycle.{around, around_injective, around_found}
use cmpth_rs.Steal.Means.{Means, passed, asked_more}

module _ {T : Type 0} (answers : ℕ → Steal T) where
  module _ (start me n : ℕ) (pos : 0 < n) (no_wrap : start + n ≤ w64) where
    victim : ℕ → ℕ
    victim i = wrapping_add start i % n

    victim-around : (i : ℕ) → i < n → wrapping_add start i % n ≡ around start n pos i
    victim-around i lt = ap (λ x. x % n) (mod-eq_of_lt (below lt))
      where
        below : i < n → start + i < w64
        below lt = omega arith

    -- The victims from the `i`-th on.
    abbrev Left : ℕ → ℕ → Type 0
    Left i v = (k : ℕ) × (i ≤ k) × (k < n) × (v ≡ wrapping_add start k % n) × (v ≢ me)

    abbrev Fate : ℕ → Bool → Steal T × List ℕ → Type 0
    Fate i saw out =
        Means answers (Left i) saw out.0 out.1
        × Distinct out.1
        × ((v : ℕ) → Among v out.1 → Left i v)

    later : (i v : ℕ) → Left (suc i) v → Left i v
    later i v (k, a, b, c, d) = (k, omega (arith, a), b, c, d)

    Left-cases : (i v : ℕ) → Left i v → (v ≡ wrapping_add start i % n) ⊎ Left (suc i) v
    Left-cases i v (k, a, b, c, d) = elim (ℕ_discrete i k) [
      | yes e ↦ inl (c ∙ ap (λ x. wrapping_add start x % n) (sym e))
      | no e ↦ inr (k, omega (arith, a, e), b, c, d)
    ]

    once : (i : ℕ) → i < n → ¬ Left (suc i) (wrapping_add start i % n)
    once i lt (k, a, b, c, d) =
        let e =
          around_injective start n pos i k lt b
            (sym (victim-around i lt) ∙ (c ∙ victim-around k b)) in
        omega (arith, a, e)

    after-Fate :
        (i : ℕ) (saw : Bool) (a : Steal T) (rest : Bool → Steal T × List ℕ)
        → i < n
        → wrapping_add start i % n ≢ me
        → answers (wrapping_add start i % n) ≡ a
        → ((s : Bool) → Fate (suc i) s (rest s))
        → Fate i saw (after (wrapping_add start i % n) a saw rest)
    after-Fate i saw (success c) rest lt ne e f = (
      (wrapping_add start i % n, inl refl, e),
      (λ m. m, tt),
      λ v m. elim m [ inl w ↦ (i, omega arith, lt, w, λ z. ne (sym w ∙ z)) | inr x ↦ absurd x ],
    )
    after-Fate i saw empty rest lt ne e f =
        let (m, d, o) = f saw in
        (
          asked_more answers (Left (suc i)) (Left i) saw saw _ _ _ (Left-cases i) (inl (e, refl)) m,
          (λ x. once i lt (o _ x), d),
          λ v x. elim x [
            | inl w ↦ (i, omega arith, lt, w, λ z. ne (sym w ∙ z))
            | inr y ↦ later i v (o v y)
          ],
        )
    after-Fate i saw retry rest lt ne e f =
        let (m, d, o) = f true in
        (
          asked_more answers (Left (suc i)) (Left i) saw true _ _ _ (Left-cases i) (inr (e, refl))
              m,
          (λ x. once i lt (o _ x), d),
          λ v x. elim x [
            | inl w ↦ (i, omega arith, lt, w, λ z. ne (sym w ∙ z))
            | inr y ↦ later i v (o v y)
          ],
        )

    sweep_from-Fate :
        (left i : ℕ) (saw : Bool)
        → left + i ≡ n
        → Fate i saw (sweep_from answers start me n left i saw)
    unfolding sweep_from
    sweep_from-Fate zero i true e = (
      (
        λ v x. let (k, a, b, c, d) = x in absurd (omega (arith, a, b, e)),
        inl refl,
        λ v m. elim m [ ],
      ),
      tt,
      λ v m. elim m [ ],
    )
    sweep_from-Fate zero i false e = (
      (λ v x. let (k, a, b, c, d) = x in absurd (omega (arith, a, b, e)), refl, λ v m. elim m [ ]),
      tt,
      λ v m. elim m [ ],
    )
    sweep_from-Fate (suc left) i saw e = elim (Bool-cases (wrapping_add start i % n == me)) [
      | inl own ↦ rw own (
          let (m, d, o) = sweep_from-Fate left (suc i) saw (omega (arith, e)) in
          (
            passed answers (Left (suc i)) (Left i) saw _ _ (λ v x. not_me i v own x) m,
            d,
            λ v x. later i v (o v x),
          ))
      | inr other ↦ rw other (
          after-Fate i saw _ (sweep_from answers start me n left (suc i)) (omega (arith, e))
            (λ z. differs _ _ other z) refl
            (λ s. sweep_from-Fate left (suc i) s (omega (arith, e))))
    ]
      where
        differs : (a b : ℕ) → (a == b) ≡ false → a ≢ b
        differs a b f z = ground (arith, f, z)

        equal : (a b : ℕ) → (a == b) ≡ true → a ≡ b
        equal a b f = ground arith

        not_me : (i v : ℕ) → (wrapping_add start i % n == me) ≡ true → Left i v → Left (suc i) v
        not_me i v own x = elim (Left-cases i v x) [
          | inl w ↦ absurd (x.4 (w ∙ equal _ _ own))
          | inr y ↦ y
        ]

    Left-other : (v : ℕ) → Left 0 v → (v < n) × (v ≢ me)
    Left-other v (k, a, b, c, d) =
        (subst (λ x. x < n) (sym c) (mod-lt (wrapping_add start k) pos), d)

    other-Left : (v : ℕ) → (v < n) × (v ≢ me) → Left 0 v
    other-Left v (lt, ne) =
        let (k, b, c) = around_found start n pos v lt in
        (k, omega arith, b, sym c ∙ sym (victim-around k b), ne)

    -- With at least one worker and no wrap-around of the start, a sweep asks workers other than
    -- oneself, each at most once. If it gives something, an asked victim gave it; if it says `retry`
    -- or `empty`, it asked every other worker and none gave anything, and it says `empty` only if
    -- each of them was empty.
    pub sweep-Means :
        Means answers
          (λ v. (v < n) × (v ≢ me))
          false
          (sweep answers start me n).0
          (sweep answers start me n).1
        × Distinct (sweep answers start me n).1
        × ((v : ℕ) → Among v (sweep answers start me n).1 → (v < n) × (v ≢ me))
    unfolding sweep
    sweep-Means =
        let (m, d, o) = sweep_from-Fate n 0 false (omega arith) in
        (
          passed answers (Left 0) (λ v. (v < n) × (v ≢ me)) false _ _ other-Left m,
          d,
          λ v x. Left-other v (o v x),
        )

  -- A sweep from a random start, of at least one worker and at most 2^63, does the same.
  pub random_sweep-Means :
      (state me n : ℕ)
      → 0 < n
      → n ≤ 2 ^ 63
      → Means answers
          (λ v. (v < n) × (v ≢ me))
          false
          (random_sweep_try_steal answers state me n).0.0
          (random_sweep_try_steal answers state me n).0.1
        × Distinct (random_sweep_try_steal answers state me n).0.1
  unfolding random_sweep_try_steal
  random_sweep-Means state me n pos few =
      let lt = mod-lt (next state).0 pos in
      let (m, d, o) = sweep-Means ((next state).0 % n) me n pos (omega (arith, few, lt)) in (m, d)

-- ===== src/Steal/Cycle.antt =====
-- `(start + i) % n` for `i` below `n` goes through the numbers below `n`.
use native.Mathlib.Nat.{mod-lt, mod-eq_of_lt, mod-add-mod, add-mod_left}
use cmpth_rs.Prelude.{ℕ, ◌+◌, ◌-◌, ◌%◌, ◌<◌, ◌≡◌, sym, ap, ◌∙◌, ◌⊎◌, inl, inr, arith, dec_lt}

module _ (start n : ℕ) (pos : 0 < n) where
  abbrev pub around : ℕ → ℕ
  around i = (start + i) % n

  pub around_lt : (i : ℕ) → around i < n
  around_lt i = mod-lt (start + i) pos

  around_cases : (i : ℕ) → i < n → (around i ≡ start % n + i) ⊎ (around i + n ≡ start % n + i)
  around_cases i lt =
      let e = sym (mod-add-mod start n i) in
      elim (dec_lt (start % n + i) n) [
        | yes below ↦ inl (e ∙ mod-eq_of_lt below)
        | no above ↦ inr (
            let s = mod-lt start pos in
            let k = start % n + i - n in
            let split =
              (e ∙ ap (λ x. x % n) (whole s above))
              ∙ (add-mod_left n k ∙ mod-eq_of_lt (small s above)) in
            omega (arith, split, above))
      ]
    where
      whole : start % n < n → ¬ (start % n + i < n) → start % n + i ≡ n + (start % n + i - n)
      whole s above = omega arith

      small : start % n < n → ¬ (start % n + i < n) → start % n + i - n < n
      small s above = omega arith

  pub around_injective : (i k : ℕ) → i < n → k < n → around i ≡ around k → i ≡ k
  around_injective i k lt lt' e =
      let s = mod-lt start pos in omega (arith, around_cases i lt, around_cases k lt', e, s)

  pub around_found : (j : ℕ) → j < n → (i : ℕ) × (i < n) × (around i ≡ j)
  around_found j lt =
      let s = mod-lt start pos in
      elim (dec_lt j (start % n)) [
        | yes before ↦ (
          j + n - start % n,
          omega (arith, s),
          omega (
            arith,
            s,
            around_cases (j + n - start % n) (omega (arith, s)),
            around_lt (j + n - start % n),
          ),
        )
        | no later ↦ (
          j - start % n,
          omega (arith, s),
          omega (
            arith,
            s,
            around_cases (j - start % n) (omega (arith, s)),
            around_lt (j - start % n),
          ),
        )
      ]

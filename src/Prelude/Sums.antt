-- ===== src/Prelude/Sums.antt =====
-- Sums over the threads below a bound, and how they follow a change of one thread.
use Prim.Native.Nat.{ℕ, zero, suc, ◌+◌, ◌≤◌, ◌<◌}
use mathlib.Core.Path.{◌≡◌, refl, sym, subst}
use mathlib.Core.Logic.{◌≢◌}
use native.Mathlib.Decide.{ℕ_discrete}
use native.Mathlib.Omega.{arith}
use cmpth_rs.Prelude.Family.{update, update_self, update_ne}

pub sum_below : (ℕ → ℕ) → ℕ → ℕ
sum_below g zero = 0
sum_below g (suc n) = g n + sum_below g n

pub sum_below_congr :
    (g k : ℕ → ℕ) (n : ℕ) → ((i : ℕ) → i < n → g i ≡ k i) → sum_below g n ≡ sum_below k n
unfolding sum_below
sum_below_congr g k zero e = refl
sum_below_congr g k (suc n) e =
    omega (arith, e n (omega arith), sum_below_congr g k n (λ i lt. e i (omega arith)))

-- Only the summand `i` differs.
sum_below_one :
    (g k : ℕ → ℕ) (i n : ℕ)
    → ((j : ℕ) → i ≢ j → k j ≡ g j)
    → i < n
    → g i + sum_below k n ≡ k i + sum_below g n
unfolding sum_below
sum_below_one g k i zero e lt = absurd (omega arith)
sum_below_one g k i (suc n) e lt = elim (ℕ_discrete i n) [
  | no other ↦ omega (arith, e n other, sum_below_one g k i n e (omega arith))
  | yes here ↦
      subst (λ m. g i + (k m + sum_below k n) ≡ k i + (g m + sum_below g n)) here
        (omega
          (arith, sum_below_congr k g n (λ j below. e j (λ w. absurd (omega (arith, w, here))))))
]

pub sum_below_ge : (g : ℕ → ℕ) (i n : ℕ) → i < n → g i ≤ sum_below g n
unfolding sum_below
sum_below_ge g i zero lt = absurd (omega arith)
sum_below_ge g i (suc n) lt = elim (ℕ_discrete i n) [
  | yes here ↦ subst (λ m. g i ≤ g m + sum_below g n) here (omega arith)
  | no other ↦ omega (arith, sum_below_ge g i n (omega arith))
]

-- What the threads below `n` weigh together.
abbrev pub total {ℓ} : {A : Type ℓ} → (A → ℕ) → ℕ → (ℕ → A) → ℕ
total w n f = sum_below (λ i. w (f i)) n

pub total-update {ℓ} :
    {A : Type ℓ} (w : A → ℕ) (n : ℕ) (f : ℕ → A) (i : ℕ) (a : A)
    → i < n
    → total w n (update f i a) + w (f i) ≡ total w n f + w a
total-update w n f i a lt =
    let moved =
      sum_below_one (λ j. w (f j)) (λ j. w (update f i a j)) i n
        (λ j ne. subst (λ x. w x ≡ w (f j)) (sym (update_ne f a ne)) refl) lt in
    omega (
      arith,
      subst (λ x. w (f i) + total w n (update f i a) ≡ w x + total w n f) (update_self f i a) moved,
    )

pub total-eq-zero {ℓ} :
    {A : Type ℓ} (w : A → ℕ) (n : ℕ) (f : ℕ → A) → ((i : ℕ) → w (f i) ≡ 0) → total w n f ≡ 0
unfolding sum_below
total-eq-zero w zero f light = refl
total-eq-zero w (suc n) f light = omega (arith, light n, total-eq-zero w n f light)

-- A smaller weight gives a smaller sum.
pub total-le {ℓ} :
    {A : Type ℓ} (w v : A → ℕ) (n : ℕ) (f : ℕ → A)
    → ((a : A) → w a ≤ v a)
    → total w n f ≤ total v n f
unfolding sum_below
total-le w v zero f le = omega arith
total-le w v (suc n) f le = omega (arith, le (f n), total-le w v n f le)

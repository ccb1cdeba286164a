-- ===== src/Steal/Random.antt =====
-- The victim drawn at random.
use native.Mathlib.Nat.{mod-eq_of_lt, mod-lt}
use cmpth_rs.Prelude.{ℕ, ◌-◌, ◌≤◌, ◌<◌, ◌≡◌, ◌≢◌, arith, dec_le}
use cmpth_rs.Steal.{random_victim}

-- With at least two workers, whatever number is drawn, the random victim is another worker, and
-- every other worker is the victim of some number.
random_victim_range :
    (me n : ℕ)
    → 2 ≤ n
    → me < n
    → ((drawn : ℕ) → (random_victim drawn me n < n) × (random_victim drawn me n ≢ me))
      × ((v : ℕ) → v < n → v ≢ me → (drawn : ℕ) × (random_victim drawn me n ≡ v))
unfolding random_victim
random_victim_range me n two lt = (
  λ drawn.
      let below = mod-lt drawn (more two) in (ground (arith, below, lt), ground (arith, below)),
  reached,
)
  where
    more : 2 ≤ n → 0 < n - 1
    more two = omega arith

    reached : (v : ℕ) → v < n → v ≢ me → (drawn : ℕ) × (random_victim drawn me n ≡ v)
    reached v vlt ne = elim (dec_le me v) [
      | yes above ↦ (v - 1, rw (mod-eq_of_lt (one_less above)) (ground (arith, above, ne)))
      | no below ↦ (v, rw (mod-eq_of_lt (fits below)) (ground (arith, below)))
    ]
      where
        one_less : me ≤ v → v - 1 < n - 1
        one_less above = ground (arith, ne, vlt, two)

        fits : ¬ (me ≤ v) → v < n - 1
        fits below = omega arith

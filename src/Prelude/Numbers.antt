-- ===== src/Prelude/Numbers.antt =====
-- `u64`'s `min`, `max` and `saturating_add`, and minima of lists.
use Prim.Native.Nat.{ℕ, ◌≤◌}
use mathlib.Core.Path.{◌≡◌}
use mathlib.Core.Logic.{◌⊎◌}
use native.Mathlib.Omega.{arith}
use cmpth_rs.Prelude.Tests.{leb, if◌then◌else◌}

unfoldable pub min : ℕ → ℕ → ℕ
min a b = if leb a b then a else b

unfoldable pub max : ℕ → ℕ → ℕ
max a b = if leb a b then b else a

pub min-le_left : (a b : ℕ) → min a b ≤ a
unfolding min
min-le_left a b = ground arith

pub min-le_right : (a b : ℕ) → min a b ≤ b
unfolding min
min-le_right a b = ground arith

pub le-min : (c a b : ℕ) → c ≤ a → c ≤ b → c ≤ min a b
unfolding min
le-min c a b h k = ground arith

pub min_cases : (a b : ℕ) → (min a b ≡ a) ⊎ (min a b ≡ b)
unfolding min
min_cases a b = ground arith

pub le-max_left : (a b : ℕ) → a ≤ max a b
unfolding max
le-max_left a b = ground arith

pub le-max_right : (a b : ℕ) → b ≤ max a b
unfolding max
le-max_right a b = ground arith

pub max-le : (a b c : ℕ) → a ≤ c → b ≤ c → max a b ≤ c
unfolding max
max-le a b c h k = ground arith

pub min_mono : (a b c d : ℕ) → a ≤ c → b ≤ d → min a b ≤ min c d
min_mono a b c d h k =
    le-min (min a b) c d (omega (arith, min-le_left a b)) (omega (arith, min-le_right a b))

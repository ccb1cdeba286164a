-- ===== src/Prelude/Lists.antt =====
-- Lists measured and indexed by native numbers, under the library's names.
use Prim.Native.Nat.{ℕ, zero, suc, ◌+◌}
use mathlib.Core.Path.{◌≡◌, refl, ap}
use mathlib.Core.Logic.{◌⊎◌, inl, inr}
use mathlib.Core.Bool.{Bool, true, false}
use mathlib.Core.List.{List, [], ◌∷◌, ◌++◌}
use mathlib.Core.Option.{Option, none, some}
use native.Mathlib.Omega.{arith}

module _ {ℓ} {A : Type ℓ} where
  abbrev pub length : List A → ℕ
  length [] = 0
  length (x ∷ xs) = suc (length xs)

  abbrev pub get_elem? : List A → ℕ → Option A
  get_elem? [] i = none
  get_elem? (x ∷ xs) zero = some x
  get_elem? (x ∷ xs) (suc i) = get_elem? xs i

  abbrev pub is_empty : List A → Bool
  is_empty [] = true
  is_empty (x ∷ xs) = false

  -- `VecDeque::pop_front`: the entry, and what is left.
  abbrev pub pop_front : List A → Option A × List A
  pop_front [] = (none, [])
  pop_front (x ∷ xs) = (some x, xs)

  abbrev pub keep_front : A → Option A × List A → Option A × List A
  keep_front x (none, rest) = (some x, [])
  keep_front x (some y, rest) = (some y, x ∷ rest)

  -- `VecDeque::pop_back`.
  abbrev pub pop_back : List A → Option A × List A
  pop_back [] = (none, [])
  pop_back (x ∷ xs) = keep_front x (pop_back xs)

  -- What `pop_back` returns: the last entry, if there is one.
  pub pop_back_cases :
      (xs : List A)
      → ((xs ≡ []) × (pop_back xs ≡ (none, [])))
        ⊎ ((y : A) × (rest : List A) × (xs ≡ rest ++ y ∷ []) × (pop_back xs ≡ (some y, rest)))
  pop_back_cases [] = inl (refl, refl)
  pop_back_cases (x ∷ xs) = elim (pop_back_cases xs) [
    | inl (e, q) ↦ inr (x, [], ap (◌∷◌ x) e, ap (keep_front x) q)
    | inr (y, rest, e, q) ↦ inr (y, x ∷ rest, ap (◌∷◌ x) e, ap (keep_front x) q)
  ]

  pub length-append : (xs ys : List A) → length (xs ++ ys) ≡ length xs + length ys
  length-append [] ys = omega arith
  length-append (x ∷ xs) ys = omega (arith, length-append xs ys)

  pub List-cases : (xs : List A) → (xs ≡ []) ⊎ ((x : A) × (rest : List A) × (xs ≡ x ∷ rest))
  List-cases [] = inl refl
  List-cases (x ∷ xs) = inr (x, xs, refl)

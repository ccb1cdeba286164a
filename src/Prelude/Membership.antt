-- ===== src/Prelude/Membership.antt =====
-- Membership and the absence of repetitions, by recursion on the list.
use mathlib.Core.Path.{◌≡◌, refl}
use mathlib.Core.Logic.{◌⊎◌, inl, inr}
use mathlib.Core.List.{List, [], ◌∷◌, ◌++◌}

module _ {A : Type 0} where
  abbrev pub Among : A → List A → Type 0
  Among i [] = ⊥
  Among i (x ∷ xs) = (i ≡ x) ⊎ Among i xs

  abbrev pub Distinct : List A → Type 0
  Distinct [] = Unit {0}
  Distinct (x ∷ xs) = (¬ Among x xs) × Distinct xs

  pub Among-append : (xs ys : List A) (x : A) → Among x (xs ++ ys) → Among x xs ⊎ Among x ys
  Among-append [] ys x a = inr a
  Among-append (y ∷ xs) ys x (inl e) = inl (inl e)
  Among-append (y ∷ xs) ys x (inr a) = elim (Among-append xs ys x a) [
    | inl b ↦ inl (inr b)
    | inr b ↦ inr b
  ]

  pub append-Among : (xs ys : List A) (x : A) → Among x xs ⊎ Among x ys → Among x (xs ++ ys)
  append-Among [] ys x (inl a) = elim a [ ]
  append-Among [] ys x (inr a) = a
  append-Among (y ∷ xs) ys x (inl (inl e)) = inl e
  append-Among (y ∷ xs) ys x (inl (inr a)) = inr (append-Among xs ys x (inl a))
  append-Among (y ∷ xs) ys x (inr a) = inr (append-Among xs ys x (inr a))

  pub Distinct-append :
      (xs ys : List A)
      → Distinct xs
      → Distinct ys
      → ((x : A) → Among x xs → ¬ Among x ys)
      → Distinct (xs ++ ys)
  Distinct-append [] ys d e apart = e
  Distinct-append (x ∷ xs) ys d e apart = (
    λ a. elim (Among-append xs ys x a) [ inl b ↦ d.0 b | inr b ↦ apart x (inl refl) b ],
    Distinct-append xs ys d.1 e (λ z a. apart z (inr a)),
  )

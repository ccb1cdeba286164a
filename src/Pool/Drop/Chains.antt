-- ===== src/Pool/Drop/Chains.antt =====
-- A chain of live, distinct nodes is freed as a whole, and only it.
use cmpth_rs.Prelude.{
  ◌+◌, ℕ, zero, suc, ◌≤◌, ◌≡◌, ◌≢◌, refl, sym, ap, subst, ◌∙◌, ◌⊎◌, inl, inr, Bool, true, false,
  Option, none, some, List, [], ◌∷◌, arith, if◌then◌else◌, update, update_self, update_ne,
  ℕ_discrete, length, Among, Distinct,
}
use cmpth_rs.Pool.View.{Place, Seg, Holds}
use cmpth_rs.Pool.Drop.{and_then, free_chain}

-- The live boxes without those of a chain.
abbrev freed : List ℕ → (ℕ → Bool) → ℕ → Bool
freed [] live = live
freed (x ∷ xs) live = freed xs (update live x false)

freed-cases :
    (xs : List ℕ) (live : ℕ → Bool) (y : ℕ)
    → (Among y xs × (freed xs live y ≡ false)) ⊎ ((¬ Among y xs) × (freed xs live y ≡ live y))
freed-cases [] live y = inr (λ a. a, refl)
freed-cases (x ∷ xs) live y = elim (freed-cases xs (update live x false) y) [
  | inl (a, e) ↦ inl (inr a, e)
  | inr (out, e) ↦ elim (ℕ_discrete x y) [
    | yes same ↦ inl (
      inl (sym same),
      e ∙ subst (λ z. update live x false z ≡ false) same (update_self live x false),
    )
    | no ne ↦ inr (λ a. elim a [ inl w ↦ ne (sym w) | inr b ↦ out b ], e ∙ update_ne live false ne)
  ]
]

free_chain_lem :
    (next : ℕ → Option ℕ) (fuel : ℕ) (h : Option ℕ) (xs : List ℕ) (live : ℕ → Bool)
    → Seg next h xs
    → Distinct xs
    → length xs ≤ fuel
    → ((x : ℕ) → Among x xs → live x ≡ true)
    → free_chain next fuel h live ≡ some (freed xs live)
unfolding free_chain
free_chain_lem next zero h [] live e d le alive = ap (λ k. free_chain next zero k live) e
free_chain_lem next (suc fuel) h [] live e d le alive =
    ap (λ k. free_chain next (suc fuel) k live) e
free_chain_lem next zero h (x ∷ xs) live (e, s) d le alive = absurd (omega (arith, le))
free_chain_lem next (suc fuel) h (x ∷ xs) live (e, s) d le alive =
    ap (λ k. free_chain next (suc fuel) k live) e
    ∙ (ap (λ b. if b then free_chain next fuel (next x) (update live x false) else none)
          (alive x (inl refl))
        ∙ free_chain_lem next fuel (next x) xs (update live x false) s d.1 (omega (arith, le))
            (λ y a.
              update_ne live false (λ w. d.0 (subst (λ z. Among z xs) (sym w) a))
              ∙ alive y (inr a)))

module _ (place : ℕ → Place) (live : ℕ → Bool) where
  -- The boxes that are left when those at the places `gone` were freed.
  abbrev pub Left : (Place → Bool) → (ℕ → Bool) → Type 0
  Left gone now = (x : ℕ) → now x ≡ (if gone (place x) then false else live x)

  -- With enough fuel, `act` frees the nodes at the places that `gone'` has, and `gone` has not.
  unfoldable pub Frees :
      (ℕ → (ℕ → Bool) → Option (ℕ → Bool)) → (Place → Bool) → (Place → Bool) → Type 0
  Frees act gone gone' =
      (bound : ℕ) × ((fuel : ℕ) (now : ℕ → Bool)
        → bound ≤ fuel
        → Left gone now
        → (after : ℕ → Bool) × (act fuel now ≡ some after) × Left gone' after)

  pub nothing-Frees : (gone : Place → Bool) → Frees (λ fuel now. some now) gone gone
  unfolding Frees
  nothing-Frees gone = (0, λ fuel now le l. (now, refl, l))

  pub Frees-same :
      (act : ℕ → (ℕ → Bool) → Option (ℕ → Bool)) (g g' g'' : Place → Bool)
      → ((x : ℕ) → g' (place x) ≡ g'' (place x))
      → Frees act g g'
      → Frees act g g''
  unfolding Frees
  Frees-same act g g' g'' same a = (
    a.0,
    λ fuel now le l.
        let (after, e, l') = a.1 fuel now le l in
        (after, e, λ x. l' x ∙ ap (λ b. if b then false else live x) (same x)),
  )

  pub and_then-Frees :
      (act act' : ℕ → (ℕ → Bool) → Option (ℕ → Bool)) (g g' g'' : Place → Bool)
      → Frees act g g'
      → Frees act' g' g''
      → Frees (λ fuel now. and_then (act fuel now) (act' fuel)) g g''
  unfolding Frees and_then
  and_then-Frees act act' g g' g'' a b = (
    a.0 + b.0,
    λ fuel now le l.
        let (mid, e, l') = a.1 fuel now (omega (arith, le)) l in
        let (after, e', l'') = b.1 fuel mid (omega (arith, le)) l' in
        (after, ap (λ o. and_then o (act' fuel)) e ∙ e', l''),
  )

  pub chain-Frees :
      (next : ℕ → Option ℕ) (h : Option ℕ) (xs : List ℕ) (at : Place) (gone gone' : Place → Bool)
      → Seg next h xs
      → Holds place at xs
      → ((x : ℕ) → place x ≡ at → live x ≡ true)
      → gone at ≡ false
      → gone' at ≡ true
      → ((x : ℕ) → place x ≢ at → gone (place x) ≡ gone' (place x))
      → Frees (λ fuel now. free_chain next fuel h now) gone gone'
  unfolding Frees
  chain-Frees next h xs at gone gone' s holds alive before after others = (
    length xs,
    λ fuel now le l. (
      freed xs now,
      free_chain_lem next fuel h xs now s holds.distinct le (λ x a.
          l x
          ∙ (ap (λ p. if gone p then false else live x) (holds.placed x a)
              ∙ (ap (λ b. if b then false else live x) before ∙ alive x (holds.placed x a)))),
      λ x. elim (freed-cases xs now x) [
        | inl (a, e) ↦
            e
            ∙ sym (
                ap (λ p. if gone' p then false else live x) (holds.placed x a)
                ∙ ap (λ b. if b then false else live x) after)
        | inr (out, e) ↦
            e
            ∙ (l x ∙ ap (λ b. if b then false else live x) (others x (λ w. out (holds.found x w))))
      ],
    ),
  )

-- ===== src/Pool/Chain.antt =====
-- Facts about chains of nodes, and about where nodes are.
use cmpth_rs.Prelude.{
  ℕ, ◌≡◌, ◌≢◌, refl, sym, ap, subst, ◌∙◌, inl, inr, Option, some, List, [], ◌∷◌, ◌++◌, Among,
  Distinct, ℕ_discrete,
}
use cmpth_rs.Pool.{ProList}
use cmpth_rs.Pool.View.{Place, Seg, last?, Batch, Holds}

pub Seg-frame :
    (next next' : ℕ → Option ℕ) (h : Option ℕ) (xs : List ℕ)
    → ((x : ℕ) → Among x xs → next' x ≡ next x)
    → Seg next h xs
    → Seg next' h xs
Seg-frame next next' h [] same s = s
Seg-frame next next' h (x ∷ xs) same (a, b) = (
  a,
  subst (λ k. Seg next' k xs) (sym (same x (inl refl)))
      (Seg-frame next next' (next x) xs (λ y m. same y (inr m)) b),
)

pub Batch-frame :
    (next next' : ℕ → Option ℕ) (p : ProList) (xs : List ℕ)
    → ((x : ℕ) → Among x xs → next' x ≡ next x)
    → Batch next p xs
    → Batch next' p xs
Batch-frame next next' p xs same b = record {
  chained = Seg-frame next next' p.first xs same b.chained;
  counted = b.counted;
  ended = b.ended;
}

pub last?-Among : (xs : List ℕ) (l : ℕ) → last? xs ≡ some l → Among l xs
last?-Among [] l e = cc
last?-Among (x ∷ []) l e = inl (cc)
last?-Among (x ∷ y ∷ xs) l e = inr (last?-Among (y ∷ xs) l e)

-- A chain whose last node is made to point to another chain is their concatenation.
pub Seg-splice :
    (next next' : ℕ → Option ℕ) (h r : Option ℕ) (xs ys : List ℕ) (l : ℕ)
    → last? xs ≡ some l
    → Distinct xs
    → next' l ≡ r
    → ((x : ℕ) → Among x xs → x ≢ l → next' x ≡ next x)
    → Seg next h xs
    → Seg next' r ys
    → Seg next' h (xs ++ ys)
Seg-splice next next' h r [] ys l e d at_last same s t = cc
Seg-splice next next' h r (x ∷ []) ys l e d at_last same (a, b) t =
    (a, subst (λ k. Seg next' k ys) (sym (ap next' (cc) ∙ at_last)) t)
Seg-splice next next' h r (x ∷ y ∷ xs) ys l e d at_last same (a, b) t = (
  a,
  subst (λ k. Seg next' k ((y ∷ xs) ++ ys))
      (sym (
        same x (inl refl)
          (λ w. d.0 (subst (λ k. Among k (y ∷ xs)) (sym w) (last?-Among (y ∷ xs) l e)))))
      (Seg-splice next next' (next x) r (y ∷ xs) ys l e d.1 at_last (λ z m. same z (inr m)) b t),
)

pub Holds-frame :
    (place place' : ℕ → Place) (at : Place) (xs : List ℕ)
    → ((x : ℕ) → place' x ≡ at → place x ≡ at)
    → ((x : ℕ) → place x ≡ at → place' x ≡ at)
    → Holds place at xs
    → Holds place' at xs
Holds-frame place place' at xs back forth h = record {
  placed = λ x m. forth x (h.placed x m);
  found = λ x e. h.found x (back x e);
  distinct = h.distinct;
}

pub Holds-cons :
    (place place' : ℕ → Place) (at : Place) (xs : List ℕ) (n : ℕ)
    → place n ≢ at
    → place' n ≡ at
    → ((x : ℕ) → n ≢ x → place' x ≡ place x)
    → Holds place at xs
    → Holds place' at (n ∷ xs)
Holds-cons place place' at xs n out new same h = record {
  placed = placed;
  found = λ x e. elim (ℕ_discrete n x) [
    | yes w ↦ inl (sym w)
    | no w ↦ inr (h.found x (sym (same x w) ∙ e))
  ];
  distinct = (λ m. out (h.placed n m), h.distinct);
}
  where
    placed : (x : ℕ) → Among x (n ∷ xs) → place' x ≡ at
    placed x (inl e) = ap place' e ∙ new
    placed x (inr m) = same x (λ w. out (ap place w ∙ h.placed x m)) ∙ h.placed x m

-- A list without its first node.
pub Holds-tail :
    (place place' : ℕ → Place) (at at' : Place) (x : ℕ) (xs : List ℕ)
    → Holds place at (x ∷ xs)
    → place' x ≢ at'
    → ((y : ℕ) → x ≢ y → place y ≡ at → place' y ≡ at')
    → ((y : ℕ) → x ≢ y → place' y ≡ at' → place y ≡ at)
    → Holds place' at' xs
Holds-tail place place' at at' x xs h gone forth back = record {
  placed =
      λ y m. forth y (λ w. h.distinct.0 (subst (λ k. Among k xs) (sym w) m)) (h.placed y (inr m));
  found = found;
  distinct = h.distinct.1;
}
  where
    found : (y : ℕ) → place' y ≡ at' → Among y xs
    found y e = elim (ℕ_discrete x y) [
      | yes w ↦ absurd (gone (ap place' w ∙ e))
      | no w ↦ elim (h.found y (back y w e)) [ inl z ↦ absurd (w (sym z)) | inr m ↦ m ]
    ]

-- ===== src/Pool/Simple/Sound.antt =====
-- `SimplePool` hands out no node twice, and its lists are bounded.
use cmpth_rs.Prelude.{
  ℕ, suc, ◌≤◌, ◌≡◌, ◌≢◌, refl, sym, ap, subst, ◌∙◌, inl, inr, Bool, true, false, List, [], ◌∷◌,
  arith, ltb, update, update_self, update_ne, update_each, update_both, length, Bool-cases,
  ℕ_discrete, ite,
}
use cmpth_rs.Pool.View.{Place, used, local, Holds}
use cmpth_rs.Pool.Chain.{Holds-frame, Holds-cons, Holds-tail}
use cmpth_rs.Pool.Simple.{
  SimplePool, new_simple, box_node, pop_or_box, simple_alloc, unbox, simple_dealloc,
}

abbrev pub IsFree : Bool → Bool → Bool → Place → Type 0
IsFree held live over (local w) = (held ≡ false) × (live ≡ true) × (over ≡ false)
IsFree held live over p = (held ≡ live) × (p ≡ used)

-- The lists hold each free node once, are not longer than `cap`, and every other live node is held.
pub record IsSimple (cap : ℕ) (held : ℕ → Bool) (p : SimplePool) : Type 0 where
  pub place : ℕ → Place
  pub holds : (w : ℕ) → Holds place (local w) (p.lists w)
  pub bounded : (w : ℕ) → length (p.lists w) ≤ cap
  pub free : (n : ℕ) → IsFree (held n) (p.live n) (p.oversized n) (place n)

elsewhere :
    (place : ℕ → Place) (x : ℕ) (old new at : Place) (xs : List ℕ)
    → place x ≡ old
    → old ≢ at
    → new ≢ at
    → Holds place at xs
    → Holds (update place x new) at xs
elsewhere place x old new at xs e ne ne' h =
    Holds-frame place (update place x new) at xs
      (update_each (λ y p. p ≡ at → place y ≡ at) place x (λ w. absurd (ne' w)) (λ y _ w. w))
      (λ y w. update_ne place new (λ z. ne (sym e ∙ (ap place z ∙ w))) ∙ w) h

module _ {cap : ℕ} {held : ℕ → Bool} {p : SimplePool} (ok : IsSimple cap held p) where
  open ok use {place, holds, bounded, free}

  dead : (h l o : Bool) (q : Place) → IsFree h l o q → l ≡ false → (h ≡ false) × (q ≡ used)
  dead h l o (local w) k e = cc (k.1, e)
  dead h l o used k e = (k.0 ∙ e, refl)
  dead h l o (Place.remote w) k e = cc (k.1)
  dead h l o (Place.staged w u) k e = cc (k.1)

  box_node-IsSimple :
      (over : Bool) (fresh : ℕ)
      → p.live fresh ≡ false
      → (held fresh ≡ false) × IsSimple cap (update held fresh true) (box_node over fresh p)
  box_node-IsSimple over fresh no_box =
      let (out, at) = dead _ _ _ (place fresh) (free fresh) no_box in
      (
        out,
        record {
          place = place;
          holds = holds;
          bounded = bounded;
          free = λ n.
              elim (ℕ_discrete fresh n)
                as (λ d.
                  IsFree (ite d true (held n)) (ite d true (p.live n)) (ite d over (p.oversized n))
                    (place n)) [
                      | yes e ↦
                          subst (λ m. IsFree true true over (place m)) e
                            (subst (λ q. IsFree true true over q) (sym at) (refl, refl))
                      | no e ↦ free n
                    ];
        },
      )

  popped-IsSimple :
      (wk x : ℕ) (xs : List ℕ)
      → p.lists wk ≡ x ∷ xs
      → (held x ≡ false)
        × IsSimple cap (update held x true) (record p { lists = update p.lists wk xs })
  popped-IsSimple wk x xs e = (
    state.0,
    record {
      place = update place x used;
      holds =
          update_each (λ w ys. Holds (update place x used) (local w) ys) p.lists wk
            (Holds-tail place (update place x used) (local wk) (local wk) x xs full
              (λ w. cc (update_self place x used, w)) (λ y ne w. update_ne place used ne ∙ w)
              (λ y ne w. sym (update_ne place used ne) ∙ w))
            (λ w ne.
              elsewhere place x (local wk) used (local w) _ at (λ z. ne (cc z)) (λ z. cc)
                (holds w));
      bounded =
          update_each (λ w ys. length ys ≤ cap) p.lists wk
            (omega (arith, subst (λ ys. length ys ≤ cap) e (bounded wk))) (λ w _. bounded w);
      free =
          update_both (λ n h q. IsFree h (p.live n) (p.oversized n) q) held place x
            (sym state.1, refl) (λ n _. free n);
    },
  )
    where
      full : Holds place (local wk) (x ∷ xs)
      full = subst (λ ys. Holds place (local wk) ys) e (holds wk)

      at : place x ≡ local wk
      at = full.placed x (inl refl)

      state : (held x ≡ false) × (p.live x ≡ true) × (p.oversized x ≡ false)
      state = subst (λ q. IsFree (held x) (p.live x) (p.oversized x) q) at (free x)

  pop_or_box-IsSimple :
      (wk fresh : ℕ) (xs : List ℕ)
      → p.live fresh ≡ false
      → p.lists wk ≡ xs
      → (held (pop_or_box wk fresh p xs).0 ≡ false)
        × IsSimple cap (update held (pop_or_box wk fresh p xs).0 true) (pop_or_box wk fresh p xs).1
  pop_or_box-IsSimple wk fresh [] no_box e = box_node-IsSimple false fresh no_box
  pop_or_box-IsSimple wk fresh (x ∷ xs) no_box e = popped-IsSimple wk x xs e

  -- In a sound `SimplePool`, if the allocator's address is not a live box, `alloc` hands out a node
  -- that nobody holds, and the pool stays sound with it held.
  pub simple_alloc-IsSimple :
      (stack_size wk size fresh : ℕ)
      → p.live fresh ≡ false
      → (held (simple_alloc stack_size wk size fresh p).0 ≡ false)
        × IsSimple cap
            (update held (simple_alloc stack_size wk size fresh p).0 true)
            (simple_alloc stack_size wk size fresh p).1
  unfolding simple_alloc
  simple_alloc-IsSimple stack_size wk size fresh no_box = elim (Bool-cases (ltb stack_size size)) [
    | inl large ↦ rw large (box_node-IsSimple true fresh no_box)
    | inr fits ↦ rw fits (pop_or_box-IsSimple wk fresh (p.lists wk) no_box refl)
  ]

  taken_out : (h l o : Bool) (q : Place) → IsFree h l o q → h ≡ true → (l ≡ true) × (q ≡ used)
  taken_out h l o (local w) k e = cc (k.0, e)
  taken_out h l o used k e = (sym k.0 ∙ e, refl)
  taken_out h l o (Place.remote w) k e = cc (k.1)
  taken_out h l o (Place.staged w u) k e = cc (k.1)

  module _ (wk node : ℕ) (mine : held node ≡ true) where
    state : (p.live node ≡ true) × (place node ≡ used)
    state = taken_out _ _ _ (place node) (free node) mine

    unbox-IsSimple : IsSimple cap (update held node false) (unbox node p)
    unbox-IsSimple = record {
      place = place;
      holds = holds;
      bounded = bounded;
      free =
          update_both (λ n h l. IsFree h l (p.oversized n) (place n)) held p.live node
            (subst (λ q. IsFree false false (p.oversized node) q) (sym state.1) (refl, refl))
            (λ n _. free n);
    }

    -- In a sound `SimplePool`, `dealloc` of a held node leaves a sound pool in which it is not held,
    -- and no list becomes longer than the cap.
    pub simple_dealloc-IsSimple :
        IsSimple cap (update held node false) (simple_dealloc cap wk node p)
    unfolding simple_dealloc
    simple_dealloc-IsSimple = elim (Bool-cases (p.oversized node)) [
      | inl over ↦ rw over unbox-IsSimple
      | inr ours ↦ elim (Bool-cases (ltb (length (p.lists wk)) cap)) [
        | inr full ↦ rw (ours, full) unbox-IsSimple
        | inl room ↦
            rw (ours, room)
              (record {
                place = update place node (local wk);
                holds =
                    update_each (λ w ys. Holds (update place node (local wk)) (local w) ys) p.lists
                      wk
                      (Holds-cons place _ (local wk) _ node (λ e. cc (state.1, e))
                        (update_self place node (local wk)) (λ x ne. update_ne place (local wk) ne)
                        (holds wk))
                      (λ w ne.
                        elsewhere place node used (local wk) (local w) _ state.1 (λ z. cc)
                          (λ z. ne (cc z)) (holds w));
                bounded =
                    update_each (λ w ys. length ys ≤ cap) p.lists wk (below room)
                      (λ w _. bounded w);
                free =
                    update_both (λ n h q. IsFree h (p.live n) (p.oversized n) q) held place node
                      (refl, state.0, ours) (λ n _. free n);
              })
      ]
    ]
      where
        below : ltb (length (p.lists wk)) cap ≡ true → suc (length (p.lists wk)) ≤ cap
        below room = ground (arith, room)

pub new_simple-IsSimple : (cap : ℕ) → IsSimple cap (λ _. false) new_simple
new_simple-IsSimple cap = record {
  place = λ _. used;
  holds = λ w. record { placed = λ x m. absurd m; found = λ x e. cc; distinct = tt };
  bounded = λ w. omega arith;
  free = λ n. (refl, refl);
}

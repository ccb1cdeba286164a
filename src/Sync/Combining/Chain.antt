-- ===== src/Sync/Combining/Chain.antt =====
-- The queue behind a node, from its successor to the tail, and what changes of other nodes leave of it.
use cmpth_rs.Prelude.{
  ℕ, ◌≡◌, refl, sym, ap, ◌∙◌, subst, ◌⊎◌, inl, inr, Bool, true, false, List, [], ◌∷◌, ◌++◌, Option,
  none, some, Among, Distinct, update, update_self, update_ne, subst₂, some-injective,
}
use cmpth_rs.Sync.Combining.{Pc, outside, linking, asleep, holding, done, deferred, fault}

abbrev pub waits : Pc → Bool
waits (linking prev lock) = true
waits (asleep lock) = true
waits outside = false
waits holding = false
waits done = false
waits deferred = false
waits fault = false

-- The thread `j`, at `x`, queues behind `p`, whose link is `l`: it has yet to tell `p`, or has told it.
abbrev pub Link : ℕ → ℕ → Pc → Option (ℕ × Bool) → Type 0
Link p j x l =
    (lock : Bool) × (((x ≡ linking p lock) × (l ≡ none))
      ⊎ ((x ≡ asleep lock) × (l ≡ some (j, lock))))

abbrev pub Chain : Option ℕ → (ℕ → Option (ℕ × Bool)) → (ℕ → Pc) → ℕ → List ℕ → Type 0
Chain tail next pc p [] = (tail ≡ some p) × (next p ≡ none)
Chain tail next pc p (j ∷ q) = Link p j (pc j) (next p) × Chain tail next pc j q

Link-waits : (p j : ℕ) (x : Pc) (l : Option (ℕ × Bool)) → Link p j x l → waits x ≡ true
Link-waits p j x l (lock, inl (e, n)) = ap waits e
Link-waits p j x l (lock, inr (e, n)) = ap waits e

pub Chain-waits :
    (tail : Option ℕ) (next : ℕ → Option (ℕ × Bool)) (pc : ℕ → Pc) (p : ℕ) (q : List ℕ)
    → Chain tail next pc p q
    → (j : ℕ) → Among j q
    → waits (pc j) ≡ true
Chain-waits tail next pc p [] c j a = elim a [ ]
Chain-waits tail next pc p (k ∷ q) (l, c) j (inl e) =
    subst (λ x. waits (pc x) ≡ true) (sym e) (Link-waits p k _ _ l)
Chain-waits tail next pc p (k ∷ q) (l, c) j (inr a) = Chain-waits tail next pc k q c j a

pub Chain-tail :
    (tail : Option ℕ) (next : ℕ → Option (ℕ × Bool)) (pc : ℕ → Pc) (p : ℕ) (q : List ℕ)
    → Chain tail next pc p q
    → (t : ℕ) × (tail ≡ some t) × Among t (p ∷ q)
Chain-tail tail next pc p [] (e, n) = (p, e, inl refl)
Chain-tail tail next pc p (k ∷ q) (l, c) =
    let (t, e, a) = Chain-tail tail next pc k q c in (t, e, inr a)

-- Only the last node is the tail.
pub Chain_last :
    (tail : Option ℕ) (next : ℕ → Option (ℕ × Bool)) (pc : ℕ → Pc) (p : ℕ) (q : List ℕ)
    → Chain tail next pc p q
    → ¬ Among p q
    → tail ≡ some p
    → q ≡ []
Chain_last tail next pc p [] c out e = refl
Chain_last tail next pc p (k ∷ q) (l, c) out e =
    let (t, e', a) = Chain-tail tail next pc k q c in
    absurd (out (subst (λ x. Among x (k ∷ q)) (some-injective t p (sym e' ∙ e)) a))

-- A thread that is not in it moves.
pub Chain-moves :
    (tail : Option ℕ) (next : ℕ → Option (ℕ × Bool)) (pc : ℕ → Pc) (p : ℕ) (q : List ℕ) (i : ℕ)
    (x : Pc)
    → ¬ Among i q
    → Chain tail next pc p q
    → Chain tail next (update pc i x) p q
Chain-moves tail next pc p [] i x out c = c
Chain-moves tail next pc p (j ∷ q) i x out (l, c) = (
  subst (λ y. Link p j y (next p)) (sym (update_ne pc x (λ e. out (inl e)))) l,
  Chain-moves tail next pc j q i x (λ a. out (inr a)) c,
)

-- A node that is not in it is written.
Chain-writes :
    (tail : Option ℕ) (next : ℕ → Option (ℕ × Bool)) (pc : ℕ → Pc) (p : ℕ) (q : List ℕ) (i : ℕ)
    (x : Option (ℕ × Bool))
    → ¬ Among i (p ∷ q)
    → Chain tail next pc p q
    → Chain tail (update next i x) pc p q
Chain-writes tail next pc p [] i x out (e, n) = (e, update_ne next x (λ w. out (inl w)) ∙ n)
Chain-writes tail next pc p (j ∷ q) i x out (l, c) = (
  subst (Link p j (pc j)) (sym (update_ne next x (λ w. out (inl w)))) l,
  Chain-writes tail next pc j q i x (λ a. out (inr a)) c,
)

-- A thread swaps itself in behind the tail.
pub Chain-enters :
    (tail : Option ℕ) (next : ℕ → Option (ℕ × Bool)) (pc : ℕ → Pc) (p : ℕ) (q : List ℕ) (i t : ℕ)
    (lock : Bool)
    → ¬ Among i (p ∷ q)
    → tail ≡ some t
    → Chain tail next pc p q
    → Chain (some i) (update next i none) (update pc i (linking t lock)) p (q ++ i ∷ [])
Chain-enters tail next pc p [] i t lock out e (e', n) = (
  (
    lock,
    inl (
      update_self pc i (linking t lock)
          ∙ ap (λ x. linking x lock) (some-injective t p (sym e ∙ e')),
      update_ne next none (λ w. out (inl w)) ∙ n,
    ),
  ),
  (refl, update_self next i none),
)
Chain-enters tail next pc p (j ∷ q) i t lock out e (l, c) = (
  subst₂ (Link p j) (sym (update_ne pc (linking t lock) (λ w. out (inr (inl w)))))
      (sym (update_ne next none (λ w. out (inl w)))) l,
  Chain-enters tail next pc j q i t lock (λ a. out (inr a)) e c,
)

-- A thread that has swapped itself in tells its predecessor.
pub Chain-links :
    (tail : Option ℕ) (next : ℕ → Option (ℕ × Bool)) (pc : ℕ → Pc) (p : ℕ) (q : List ℕ) (i t : ℕ)
    (lock : Bool)
    → Distinct (p ∷ q)
    → Among i q
    → pc i ≡ linking t lock
    → Chain tail next pc p q
    → Among t (p ∷ q) × Chain tail (update next t (some (i, lock))) (update pc i (asleep lock)) p q
Chain-links tail next pc p [] i t lock d a w c = elim a [ ]
Chain-links tail next pc p (j ∷ q) i t lock d (inl e) w ((k, inr (a, n)), c) =
    absurd (cc (a, w, ap pc e))
Chain-links tail next pc p (j ∷ q) i t lock d (inl e) w ((k, inl (a, n)), c) =
    let same = linking-injective t lock p k (sym w ∙ (ap pc e ∙ a)) in
    let new =
      subst₂ (λ x y. Chain tail (update next x (some (y, lock))) (update pc y (asleep lock)) j q)
        (sym same) (sym e)
        (Chain-moves tail (update next p (some (j, lock))) pc j q j (asleep lock) d.1.0
          (Chain-writes tail next pc j q p (some (j, lock)) d.0 c)) in
    (
      inl same,
      (
        (
          lock,
          inr (
            subst (λ x. update pc i (asleep lock) x ≡ asleep lock) e
                (update_self pc i (asleep lock)),
            subst (λ x. update next t (some (i, lock)) x ≡ some (j, lock)) same
                (update_self next t (some (i, lock)) ∙ ap (λ x. some (x, lock)) e),
          ),
        ),
        new,
      ),
    )
  where
    linking-injective : (a : ℕ) (l : Bool) (b : ℕ) (k : Bool) → linking a l ≡ linking b k → a ≡ b
    linking-injective a l b k e = cc
Chain-links tail next pc p (j ∷ q) i t lock d (inr a) w (l, c) =
    let (inside, c') = Chain-links tail next pc j q i t lock d.1 a w c in
    (
      inr inside,
      (
        subst₂ (Link p j)
            (sym (update_ne pc (asleep lock) (λ e. d.1.0 (subst (λ x. Among x q) e a))))
            (sym
              (update_ne next (some (i, lock)) (λ e. d.0 (subst (λ x. Among x (j ∷ q)) e inside))))
            l,
        c',
      ),
    )

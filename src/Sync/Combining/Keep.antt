-- ===== src/Sync/Combining/Keep.antt =====
-- The swaps of `tail` and the links keep the invariant.
use mathlib.Core.List.{append_assoc}
use cmpth_rs.Prelude.{
  ℕ, ◌≡◌, refl, sym, ap, ◌∙◌, subst, inl, inr, Bool, true, List, [], ◌∷◌, ◌++◌, Option, none, some,
  Among, Distinct, append-Among, Distinct-append, update, update_self, update_each,
}
use cmpth_rs.Sync.Combining.{
  Pc, outside, linking, asleep, holding, done, deferred, fault, is_alive, Holder, free, inside,
  draining, serving, clash, claim, System,
}
use cmpth_rs.Sync.Combining.Chain.{waits, Chain, Chain-tail, Chain-waits, Chain-enters, Chain-links}
use cmpth_rs.Sync.Combining.Inv.{
  owner, waker, is_quiet, queue, todo, Fits, Forms, Inv, Fits-moves, stays, stays-is_alive,
  not_queued, Served-waits, queue-waits, Forms-moves,
}

-- Without a tail there is no holder.
nobody :
    (hd : Holder) (tail : Option ℕ) (next : ℕ → Option (ℕ × Bool)) (pc : ℕ → Pc) (q : List ℕ)
    → Forms hd tail next pc q
    → tail ≡ none
    → (hd ≡ free) × (q ≡ [])
nobody free tail next pc q f e = (refl, f.1)
nobody (inside h lock) tail next pc q f e =
    let (t, e', a) = Chain-tail tail next pc h q f.1 in absurd (cc (e, e'))
nobody (draining h c w own stuck) tail next pc q f e =
    let (t, e', a) = Chain-tail tail next pc c q f.2 in absurd (cc (e, e'))
nobody (serving h n lock own) tail next pc q f e =
    let (t, e', a) = Chain-tail tail next pc n q f.2 in absurd (cc (e, e'))
nobody clash tail next pc q f e = elim f [ ]

-- The node that the holder is at.
front :
    (hd : Holder) (tail : Option ℕ) (next : ℕ → Option (ℕ × Bool)) (pc : ℕ → Pc) (q : List ℕ)
    → Forms hd tail next pc q
    → Distinct (queue hd q)
    → ¬ (q ≡ [])
    → (c : ℕ) × (stays (pc c) ≡ true) × Distinct (c ∷ q) × Chain tail next pc c q
front free tail next pc q f d some_queued = absurd (some_queued f.1)
front (inside h lock) tail next pc q f d some_queued =
    (h, ap stays f.0, (not_queued tail next pc h q f.1 h (ap waits f.0), d), f.1)
front (draining h c w own stuck) tail next pc q f d some_queued =
    let (still, here) = Served-waits pc h c w f.0 f.1 in
    (c, here, (not_queued tail next pc c q f.2 c still, d), f.2)
front (serving h n lock own) tail next pc q f d some_queued = (n, ap stays f.1, d, f.2)
front clash tail next pc q f d some_queued = elim f [ ]

queue-append : (hd : Holder) (q r : List ℕ) → queue hd (q ++ r) ≡ queue hd q ++ r
queue-append free q r = refl
queue-append (inside h lock) q r = refl
queue-append (draining h c w own stuck) q r = refl
queue-append (serving h n lock own) q r = refl
queue-append clash q r = refl

todo-append : (hd : Holder) (q r : List ℕ) → todo hd (q ++ r) ≡ todo hd q ++ r
todo-append free q r = refl
todo-append (inside h lock) q r = refl
todo-append (draining h c w own stuck) q r = refl
todo-append (serving h n lock own) q r = refl
todo-append clash q r = refl

-- A thread that has yet to link is behind the node that the holder is at.
linking_behind :
    (hd : Holder) (tail : Option ℕ) (next : ℕ → Option (ℕ × Bool)) (pc : ℕ → Pc) (q : List ℕ)
    (i t : ℕ) (lock : Bool)
    → Forms hd tail next pc q
    → pc i ≡ linking t lock
    → Among i (queue hd q)
    → Among i q
linking_behind free tail next pc q i t lock f e a = a
linking_behind (inside h l) tail next pc q i t lock f e a = a
linking_behind (draining h c w own stuck) tail next pc q i t lock f e a = a
linking_behind (serving h n l own) tail next pc q i t lock f e (inl same) =
    absurd (cc (e, ap pc same, f.1))
linking_behind (serving h n l own) tail next pc q i t lock f e (inr a) = a
linking_behind clash tail next pc q i t lock f e a = a

module _ {s : System} (q : List ℕ) (inv : Inv s q) where
  open inv use {forms, distinct, each, order}

  pub enter_free_keeps :
      (i : ℕ) (lock : Bool)
      → s.pc i ≡ outside
      → s.tail ≡ none
      → Inv
          (record s {
            tail = some i;
            next = update s.next i none;
            pc = update s.pc i holding;
            holder = claim s.holder i lock;
            arrived = s.arrived ++ i ∷ [];
          })
          []
  unfolding claim
  enter_free_keeps i lock out e =
      let (is_free, is_empty) = nobody s.holder s.tail s.next s.pc q forms e in
      subst
        (λ hd.
          Inv
            (record s {
              tail = some i;
              next = update s.next i none;
              pc = update s.pc i holding;
              holder = claim hd i lock;
              arrived = s.arrived ++ i ∷ [];
            })
            [])
        (sym is_free)
        (record {
          forms = (update_self s.pc i holding, (refl, update_self s.next i none));
          distinct = tt;
          each =
              update_each (λ j p. Fits (inside i lock) [] j p) s.pc i refl
                (λ j ne.
                  Fits-moves s.holder (inside i lock) q [] j (s.pc j)
                    (λ a.
                      subst (λ r. Among j r) is_empty
                        (subst (λ hd. Among j (queue hd q)) is_free a))
                    (λ o. absurd (cc (ap owner is_free, o)))
                    (λ w. absurd (cc (ap waker is_free, w)))
                    (λ x d. absurd (cc (ap is_quiet is_free, x))) (each j));
          order =
              ap (λ l. l ++ i ∷ [])
                (order ∙ ap (λ hd. s.ran ++ todo hd q) is_free ∙ ap (λ r. s.ran ++ r) is_empty)
              ∙ append_assoc s.ran [] (i ∷ []);
        })

  pub enter_busy_keeps :
      (i p : ℕ) (lock : Bool)
      → s.pc i ≡ outside
      → s.tail ≡ some p
      → Inv
          (record s {
            tail = some i;
            next = update s.next i none;
            pc = update s.pc i (linking p lock);
            arrived = s.arrived ++ i ∷ [];
          })
          (q ++ i ∷ [])
  enter_busy_keeps i p lock out e =
      let absent : ¬ Among i (queue s.holder q) =
        λ a. cc (queue-waits s.holder s.tail s.next s.pc q forms i a, out) in
      let now : queue s.holder (q ++ i ∷ []) ≡ queue s.holder q ++ i ∷ [] =
        queue-append s.holder q (i ∷ []) in
      record {
        forms =
            Forms-moves s.holder s.tail (some i) s.next (update s.next i none) s.pc q (q ++ i ∷ [])
              i (linking p lock) (ap stays out) distinct (λ n. cc (e, n.0))
              (λ c here d ch.
                Chain-enters s.tail s.next s.pc c q i p lock
                  (λ a. elim a [
                    | inl same ↦ cc (here, ap s.pc same, out)
                    | inr b ↦ not_queued s.tail s.next s.pc c q ch i (ap waits out) b
                  ])
                  e ch)
              forms;
        distinct = subst Distinct (sym now) (
            Distinct-append (queue s.holder q) (i ∷ []) distinct (λ b. b, tt)
              (λ x a b. elim b [
                | inl same ↦ absent (subst (λ y. Among y (queue s.holder q)) same a)
                | inr c ↦ c
              ]));
        each =
            update_each (λ j x. Fits s.holder (q ++ i ∷ []) j x) s.pc i
              (subst (Among i) (sym now)
                (append-Among (queue s.holder q) (i ∷ []) i (inr (inl refl))))
              (λ j ne.
                Fits-moves s.holder s.holder q (q ++ i ∷ []) j (s.pc j)
                  (λ a.
                    subst (Among j) (sym now) (append-Among (queue s.holder q) (i ∷ []) j (inl a)))
                  (λ o. o) (λ w. w) (λ x d. x) (each j));
        order =
            ap (λ l. l ++ i ∷ []) order
            ∙ append_assoc s.ran (todo s.holder q) (i ∷ [])
            ∙ ap (λ l. s.ran ++ l) (sym (todo-append s.holder q (i ∷ [])));
      }

  pub link_keeps :
      (i p : ℕ) (lock : Bool)
      → s.pc i ≡ linking p lock
      → Inv
          (record s { next = update s.next p (some (i, lock)); pc = update s.pc i (asleep lock) })
          q
  link_keeps i p lock e =
      let a : Among i (queue s.holder q) = subst (Fits s.holder q i) e (each i) in
      let b = linking_behind s.holder s.tail s.next s.pc q i p lock forms e a in
      record {
        forms =
            Forms-moves s.holder s.tail s.tail s.next (update s.next p (some (i, lock))) s.pc q q i
              (asleep lock) (ap stays e) distinct (λ n. subst (Among i) n.1 b)
              (λ c here d ch. (Chain-links s.tail s.next s.pc c q i p lock d b e ch).1) forms;
        distinct = distinct;
        each = update_each (λ j x. Fits s.holder q j x) s.pc i a (λ j ne. each j);
        order = order;
      }

  -- The predecessor's node is alive when its successor links.
  pub predecessor-is_alive :
      (i p : ℕ) (lock : Bool) → s.pc i ≡ linking p lock → is_alive (s.pc p) ≡ true
  unfolding is_alive
  predecessor-is_alive i p lock e =
      let a : Among i (queue s.holder q) = subst (Fits s.holder q i) e (each i) in
      let b = linking_behind s.holder s.tail s.next s.pc q i p lock forms e a in
      let (c, here, d, ch) =
        front s.holder s.tail s.next s.pc q forms distinct (λ n. subst (Among i) n b) in
      elim ((Chain-links s.tail s.next s.pc c q i p lock d b e ch).0) [
        | inl same ↦ stays-is_alive (s.pc p) (ap (λ x. stays (s.pc x)) same ∙ here)
        | inr w ↦ waits-is_alive (s.pc p) (Chain-waits s.tail s.next s.pc c q ch p w)
      ]
    where
      waits-is_alive : (x : Pc) → waits x ≡ true → is_alive x ≡ true
      waits-is_alive (linking prev l) w = refl
      waits-is_alive (asleep l) w = refl
      waits-is_alive outside w = absurd (cc w)
      waits-is_alive holding w = absurd (cc w)
      waits-is_alive done w = absurd (cc w)
      waits-is_alive deferred w = absurd (cc w)
      waits-is_alive fault w = absurd (cc w)

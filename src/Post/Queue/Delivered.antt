-- ===== src/Post/Queue/Delivered.antt =====
-- What the server has seen of a slot has been handed to the consumer, or is in the batch that it collects.
use cmpth_rs.Prelude.{
  ℕ, ◌≡◌, ◌≢◌, ◌⊎◌, inl, inr, refl, subst, List, [], ◌∷◌, Option, none, some, arith, ◌==◌,
  update_each, Bool-cases, Among, append-Among,
}
use cmpth_rs.Post.{Ticket}
use cmpth_rs.Post.Queue.{
  System, Server, free, lent, locked, walking, visiting, cleared, serve_batch, collect_batch, Step,
  bump, swap, aim, list, retry, ask, lock, lend, give_back, drain, visit, clear, collect, unlock,
  fire, glance, enter, give_up, look_again, Reach, here, next,
}

-- The consumer was handed a batch with the post `seq` of the slot `j`.
abbrev pub Handed : List (List Ticket) → ℕ → ℕ → Type 0
Handed served j seq =
    (batch : List Ticket) × Among batch served × Among (record { producer = j; seq = seq }) batch

abbrev IsWalking : Server → Type 0
IsWalking free = ⊥
IsWalking lent = ⊥
IsWalking locked = ⊥
IsWalking (walking p) = Unit {0}
IsWalking (visiting i p) = Unit {0}
IsWalking (cleared i p) = Unit {0}

abbrev Delivered : Server → List Ticket → List (List Ticket) → ℕ → ℕ → Type 0
Delivered server batch served j seen =
    (seen ≡ 0)
    ⊎ ((IsWalking server × Among (record { producer = j; seq = seen }) batch)
        ⊎ Handed served j seen)

-- The walk goes on, or none begins.
moved :
    (s s' : Server) (batch batch' : List Ticket) (served : List (List Ticket)) (j seen : ℕ)
    → (IsWalking s → IsWalking s')
    → (IsWalking s → (x : Ticket) → Among x batch → Among x batch')
    → Delivered s batch served j seen
    → Delivered s' batch' served j seen
moved s s' batch batch' served j seen f g (inl z) = inl z
moved s s' batch batch' served j seen f g (inr (inl (w, a))) = inr (inl (f w, g w _ a))
moved s s' batch batch' served j seen f g (inr (inr h)) = inr (inr h)

collected :
    (i mark seen : ℕ) (batch : List Ticket) (p p' : Option ℕ) (served : List (List Ticket))
    → Delivered (cleared i p) batch served i seen
    → Delivered (walking p') (collect_batch i mark seen batch) served i mark
unfolding collect_batch
collected i mark seen batch p p' served d = elim (Bool-cases (mark == seen)) [
  | inl same ↦
      let e : seen ≡ mark = ground (arith, same) in
      rw same (
        subst (Delivered (walking p') batch served i) e
          (moved (cleared i p) (walking p') batch batch served i seen (λ w. tt) (λ w x a. a) d))
  | inr new ↦ rw new (inr (inl (tt, append-Among batch _ _ (inr (inl refl)))))
]

kept :
    (i mark seen : ℕ) (batch : List Ticket) (x : Ticket)
    → Among x batch
    → Among x (collect_batch i mark seen batch)
unfolding collect_batch
kept i mark seen batch x a = elim (Bool-cases (mark == seen)) [
  | inl same ↦ rw same a
  | inr new ↦ rw new (append-Among batch _ x (inl a))
]

handed_over :
    (batch : List Ticket) (served : List (List Ticket)) (p : Option ℕ) (j seen : ℕ)
    → Delivered (walking p) batch served j seen
    → Delivered free batch (serve_batch batch served) j seen
unfolding serve_batch
handed_over batch served p j seen (inl z) = inl z
handed_over [] served p j seen (inr (inl (w, a))) = absurd a
handed_over (t ∷ batch) served p j seen (inr (inl (w, a))) = inr (inr (t ∷ batch, inl refl, a))
handed_over [] served p j seen (inr (inr h)) = inr (inr h)
handed_over (t ∷ batch) served p j seen (inr (inr (b, m, a))) = inr (inr (b, inr m, a))

abbrev AllDelivered : System → Type 0
AllDelivered t = (j : ℕ) → Delivered t.server t.batch t.served j (t.seen j)

to_server :
    (t : System) (s s' : Server)
    → t.server ≡ s
    → (IsWalking s → IsWalking s')
    → AllDelivered t
    → (j : ℕ) → Delivered s' t.batch t.served j (t.seen j)
to_server t s s' e f v j =
    moved s s' t.batch t.batch t.served j (t.seen j) f (λ w x a. a)
      (subst (λ z. Delivered z t.batch t.served j (t.seen j)) e (v j))

Step-AllDelivered : {t u : System} → Step t u → AllDelivered t → AllDelivered u
Step-AllDelivered {t} (bump i e) v = v
Step-AllDelivered {t} (swap i e) v = v
Step-AllDelivered {t} (aim i e) v = v
Step-AllDelivered {t} (list i h e s) v = v
Step-AllDelivered {t} (retry i h e) v = v
Step-AllDelivered {t} (ask i e) v = v
Step-AllDelivered {t} (lock e) v = to_server t free locked e (λ w. w) v
Step-AllDelivered {t} (lend e) v = to_server t free lent e (λ w. w) v
Step-AllDelivered {t} (give_back e) v = to_server t lent free e (λ w. w) v
Step-AllDelivered {t} (drain e) v = λ j.
    moved locked (walking t.head) t.batch [] t.served j (t.seen j) (λ w. absurd w) (λ w. absurd w)
      (subst (λ z. Delivered z t.batch t.served j (t.seen j)) e (v j))
Step-AllDelivered {t} (visit i e) v =
    to_server t (walking (some i)) (visiting i (t.link i)) e (λ w. w) v
Step-AllDelivered {t} (clear i p e) v = to_server t (visiting i p) (cleared i p) e (λ w. w) v
Step-AllDelivered {t} (collect i p e) v =
    update_each
      (λ j s. Delivered (walking p) (collect_batch i (t.mark i) (t.seen i) t.batch) t.served j s)
      t.seen i
      (collected i (t.mark i) (t.seen i) t.batch p p t.served
        (subst (λ z. Delivered z t.batch t.served i (t.seen i)) e (v i)))
      (λ j ne.
        moved (cleared i p) (walking p) t.batch (collect_batch i (t.mark i) (t.seen i) t.batch)
          t.served j (t.seen j) (λ w. w) (λ w x a. kept i (t.mark i) (t.seen i) t.batch x a)
          (subst (λ z. Delivered z t.batch t.served j (t.seen j)) e (v j)))
Step-AllDelivered {t} (unlock e) v = λ j.
    handed_over t.batch t.served none j (t.seen j)
      (subst (λ z. Delivered z t.batch t.served j (t.seen j)) e (v j))
Step-AllDelivered {t} (fire d e) v = v
Step-AllDelivered {t} (glance d) v = v
Step-AllDelivered {t} (enter d e) v = to_server t free locked e (λ w. w) v
Step-AllDelivered {t} (give_up d) v = v
Step-AllDelivered {t} (look_again d) v = v

Reach-AllDelivered : {t : System} → Reach t → AllDelivered t
Reach-AllDelivered here = λ j. inl refl
Reach-AllDelivered (next r st) = Step-AllDelivered st (Reach-AllDelivered r)

-- Without a walk, what was seen of a slot has been handed over.
pub seen-Handed :
    {t : System} (j : ℕ) → Reach t → t.server ≡ free → t.seen j ≢ 0 → Handed t.served j (t.seen j)
seen-Handed {t} j r e some_post =
    pick (subst (λ z. Delivered z t.batch t.served j (t.seen j)) e (Reach-AllDelivered r j))
  where
    pick : Delivered free t.batch t.served j (t.seen j) → Handed t.served j (t.seen j)
    pick (inl z) = absurd (some_post z)
    pick (inr (inl (w, a))) = absurd w
    pick (inr (inr h)) = h

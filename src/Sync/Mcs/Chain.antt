-- ===== src/Sync/Mcs/Chain.antt =====
-- Facts about the chain of nodes of an MCS lock.
use cmpth_rs.Prelude.{
  Among, Distinct, ℕ, ◌≡◌, ◌≢◌, refl, sym, ap, subst, ◌∙◌, ◌⊎◌, inl, inr, true, none, some, List,
  [], ◌∷◌, ◌++◌, arith, update, update_self, update_ne, ℕ_discrete,
}
use cmpth_rs.Sync.Mcs.{Shared, Pc, suspending, waiting, holding, handing}
use cmpth_rs.Sync.Mcs.Queue.{Link, Chain, Heads, Forms, queued}

-- The chain depends on the `next` of all its nodes, and on where all but its first thread stand.
pub Chain-frame :
    (m m' : Shared) (pc pc' : ℕ → Pc) (p : ℕ) (r : List ℕ)
    → m'.tail ≡ m.tail
    → ((x : ℕ) → Among x (p ∷ r) → m'.next x ≡ m.next x)
    → ((x : ℕ) → Among x r → pc' x ≡ pc x)
    → Chain m pc p r
    → Chain m' pc' p r
Chain-frame m m' pc pc' p [] t n e (a, b) = (t ∙ a, n p (inl refl) ∙ b)
Chain-frame m m' pc pc' p (j ∷ r) t n e (l, c) =
    (Link-frame l, Chain-frame m m' pc pc' j r t (λ x a. n x (inr a)) (λ x a. e x (inr a)) c)
  where
    Link-frame : Link m pc p j → Link m' pc' p j
    Link-frame (inl (a, b)) = inl (e j (inl refl) ∙ a, n p (inl refl) ∙ b)
    Link-frame (inr (a, b)) = inr (e j (inl refl) ∙ a, n p (inl refl) ∙ b)

-- Whoever stands behind the first of a chain is suspended or about to be.
pub Chain-behind :
    (m : Shared) (pc : ℕ → Pc) (p : ℕ) (r : List ℕ) (i : ℕ)
    → Chain m pc p r
    → Among i r
    → ((q : ℕ) × (pc i ≡ suspending q) × Among q (p ∷ r)) ⊎ (pc i ≡ waiting)
Chain-behind m pc p [] i c among = elim among [ ]
Chain-behind m pc p (j ∷ r) i (inl (a, b), c) (inl e) = inl (p, rw e a, inl refl)
Chain-behind m pc p (j ∷ r) i (inr (a, b), c) (inl e) = inr (rw e a)
Chain-behind m pc p (j ∷ r) i (l, c) (inr among) = elim (Chain-behind m pc j r i c among) [
  | inl (q, a, b) ↦ inl (q, a, inr b)
  | inr a ↦ inr a
]

-- The tail is in the chain.
pub Chain-tail :
    (m : Shared) (pc : ℕ → Pc) (p : ℕ) (r : List ℕ)
    → Chain m pc p r
    → (x : ℕ) × (m.tail ≡ some x) × Among x (p ∷ r)
Chain-tail m pc p [] (a, b) = (p, a, inl refl)
Chain-tail m pc p (j ∷ r) (l, c) = let (x, a, b) = Chain-tail m pc j r c in (x, a, inr b)

-- `swap_busy`: the newcomer is the last of the chain.
pub Chain-append :
    (m : Shared) (pc : ℕ → Pc) (p : ℕ) (r : List ℕ) (i prev : ℕ)
    → m.tail ≡ some prev
    → ¬ Among i (p ∷ r)
    → m.next i ≡ none
    → Chain m pc p r
    → Chain (record m { tail = some i }) (update pc i (suspending prev)) p (r ++ i ∷ [])
Chain-append m pc p [] i prev t out clean (a, b) =
    (inl (update_self pc i _ ∙ ap suspending (cc), b), (refl, clean))
Chain-append m pc p (j ∷ r) i prev t out clean (l, c) =
    (kept l, Chain-append m pc j r i prev t (λ a. out (inr a)) clean c)
  where
    other : update pc i (suspending prev) j ≡ pc j
    other = update_ne pc _ (λ e. out (inr (inl e)))

    kept : Link m pc p j → Link (record m { tail = some i }) (update pc i (suspending prev)) p j
    kept (inl (a, b)) = inl (other ∙ a, b)
    kept (inr (a, b)) = inr (other ∙ a, b)

-- `link`: the thread that was about to tell its predecessor has told it.
pub Chain-link :
    (m : Shared) (pc : ℕ → Pc) (p : ℕ) (r : List ℕ) (i prev : ℕ)
    → pc i ≡ suspending prev
    → Distinct (p ∷ r)
    → Among i r
    → Chain m pc p r
    → Chain (record m { next = update m.next prev (some i) }) (update pc i waiting) p r
Chain-link m pc p [] i prev e d among c = elim among [ ]
Chain-link m pc p (j ∷ r) i prev e d among (l, c) = elim (ℕ_discrete i j) [
  | yes here ↦ (inr (ground arith, ground arith), rest here (predecessor here l))
  | no there ↦ (
    kept (not_prev (later_on there among)) there l,
    Chain-link m pc j r i prev e d.1 (later_on there among) c,
  )
]
  where
    predecessor : i ≡ j → Link m pc p j → p ≡ prev
    predecessor x (inl (a, b)) = cc (ap pc x)
    predecessor x (inr (a, b)) = cc (ap pc x)

    later_on : i ≢ j → Among i (j ∷ r) → Among i r
    later_on x (inl y) = absurd (x y)
    later_on x (inr y) = y

    rest :
        i ≡ j
        → p ≡ prev
        → Chain (record m { next = update m.next prev (some i) }) (update pc i waiting) j r
    rest x y =
        Chain-frame m _ pc _ j r refl
          (λ z a. update_ne m.next _ (λ w. d.0 (subst (λ v. Among v (j ∷ r)) (sym (y ∙ w)) a)))
          (λ z a. update_ne pc _ (λ w. d.1.0 (subst (λ v. Among v r) (sym w ∙ x) a))) c

    not_prev : Among i r → prev ≢ p
    not_prev a w = elim (Chain-behind m pc j r i c a) [
      | inl (q, b, f) ↦ d.0 (subst (λ v. Among v (j ∷ r)) (cc) f)
      | inr b ↦ cc
    ]

    kept :
        prev ≢ p
        → i ≢ j
        → Link m pc p j
        → Link (record m { next = update m.next prev (some i) }) (update pc i waiting) p j
    kept x y (inl (a, b)) = inl (update_ne pc _ y ∙ a, update_ne m.next _ x ∙ b)
    kept x y (inr (a, b)) = inr (update_ne pc _ y ∙ a, update_ne m.next _ x ∙ b)

pub Forms-frame :
    (m m' : Shared) (pc pc' : ℕ → Pc) (q : List ℕ)
    → m'.tail ≡ m.tail
    → ((x : ℕ) → Among x q → m'.next x ≡ m.next x)
    → ((x : ℕ) → Among x q → pc' x ≡ pc x)
    → Forms m pc q
    → Forms m' pc' q
Forms-frame m m' pc pc' [] t n e f = t ∙ f
Forms-frame m m' pc pc' (h ∷ r) t n e (a, c) = (
  subst (λ p. Heads p r) (sym (e h (inl refl))) a,
  Chain-frame m m' pc pc' h r t n (λ x among. e x (inr among)) c,
)

pub Forms-queued :
    (m : Shared) (pc : ℕ → Pc) (q : List ℕ) (i : ℕ)
    → Forms m pc q
    → Among i q
    → queued (pc i) ≡ true
Forms-queued m pc [] i f among = elim among [ ]
Forms-queued m pc (h ∷ r) i (inl a, c) (inl e) = rw (e, a)
Forms-queued m pc (h ∷ r) i (inr (a, b), c) (inl e) = rw (e, a)
Forms-queued m pc (h ∷ r) i (a, c) (inr among) = elim (Chain-behind m pc h r i c among) [
  | inl (q, b, f) ↦ rw b
  | inr b ↦ rw b
]

-- The owner is the first of the queue.
pub Forms-owner :
    (m : Shared) (pc : ℕ → Pc) (h : ℕ) (r : List ℕ) (i : ℕ)
    → Forms m pc (h ∷ r)
    → Among i (h ∷ r)
    → (pc i ≡ holding) ⊎ (pc i ≡ handing)
    → i ≡ h
Forms-owner m pc h r i f (inl e) own = e
Forms-owner m pc h r i (a, c) (inr among) own = elim (Chain-behind m pc h r i c among) [
  | inl (q, b, f) ↦ absurd (grind arith)
  | inr b ↦ absurd (grind arith)
]

-- Whoever is about to tell a predecessor is not the first, and the predecessor is in the queue.
pub Forms-suspending :
    (m : Shared) (pc : ℕ → Pc) (h : ℕ) (r : List ℕ) (i prev : ℕ)
    → Forms m pc (h ∷ r)
    → Among i (h ∷ r)
    → pc i ≡ suspending prev
    → Among i r × Among prev (h ∷ r)
Forms-suspending m pc h r i prev (inl a, c) (inl e) s = cc (ap pc e)
Forms-suspending m pc h r i prev (inr (a, b), c) (inl e) s = cc (ap pc e)
Forms-suspending m pc h r i prev (a, c) (inr among) s = elim (Chain-behind m pc h r i c among) [
  | inl (q, b, f) ↦ (among, subst (λ v. Among v (h ∷ r)) (cc) f)
  | inr b ↦ cc
]

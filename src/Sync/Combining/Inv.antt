-- ===== src/Sync/Combining/Inv.antt =====
-- The invariant of the delegator: `q` is the queue behind the node that the holder is at.
use cmpth_rs.Prelude.{
  ℕ, ◌≡◌, ◌≢◌, refl, ap, ◌∙◌, subst, ◌⊎◌, inl, inr, Bool, true, false, List, [], ◌∷◌, ◌++◌, Option,
  none, some, Among, Distinct, update, update_ne,
}
use cmpth_rs.Sync.Combining.{
  Pc, outside, linking, asleep, holding, done, deferred, fault, is_alive, Holder, free, inside,
  draining, serving, clash, System,
}
use cmpth_rs.Sync.Combining.Chain.{waits, Chain, Chain-waits}

abbrev pub owner : Holder → Option ℕ
owner free = none
owner (inside h lock) = some h
owner (draining h c w own stuck) = some h
owner (serving h n lock own) = some h
owner clash = none

abbrev pub waker : Holder → Option ℕ
waker (draining h c w own stuck) = w
waker free = none
waker (inside h lock) = none
waker (serving h n lock own) = none
waker clash = none

-- No call is left with the consumer.
abbrev pub is_quiet : Holder → Bool
is_quiet free = true
is_quiet (draining h c w own stuck) = stuck
is_quiet (inside h lock) = false
is_quiet (serving h n lock own) = false
is_quiet clash = false

-- The threads that wait in the queue, and those that have swapped themselves in and have not run.
abbrev pub queue : Holder → List ℕ → List ℕ
queue (serving h n lock own) q = n ∷ q
queue free q = q
queue (inside h lock) q = q
queue (draining h c w own stuck) q = q
queue clash q = q

abbrev pub todo : Holder → List ℕ → List ℕ
todo (serving h n lock own) q = n ∷ q
todo (inside h lock) q = h ∷ q
todo free q = q
todo (draining h c w own stuck) q = q
todo clash q = q

-- What a thread's place says of the holder.
abbrev pub Fits : Holder → List ℕ → ℕ → Pc → Type 0
Fits hd q i outside = Unit {0}
Fits hd q i (linking prev lock) = Among i (queue hd q)
Fits hd q i (asleep lock) = Among i (queue hd q)
Fits hd q i holding = owner hd ≡ some i
Fits hd q i done = waker hd ≡ some i
Fits hd q i deferred = is_quiet hd ≡ false
Fits hd q i fault = ⊥

-- The node that a draining holder is at: its own, or one whose request has run.
abbrev pub Served : (ℕ → Pc) → ℕ → ℕ → Option ℕ → Type 0
Served pc h c w =
    ((c ≡ h) × (w ≡ none)) ⊎ ((pc c ≡ done) × (w ≡ some c)) ⊎ ((pc c ≡ deferred) × (w ≡ none))

abbrev pub Forms : Holder → Option ℕ → (ℕ → Option (ℕ × Bool)) → (ℕ → Pc) → List ℕ → Type 0
Forms free tail next pc q = (tail ≡ none) × (q ≡ [])
Forms (inside h lock) tail next pc q = (pc h ≡ holding) × Chain tail next pc h q
Forms (draining h c w own stuck) tail next pc q =
    (pc h ≡ holding) × Served pc h c w × Chain tail next pc c q
Forms (serving h n lock own) tail next pc q =
    (pc h ≡ holding) × (pc n ≡ asleep lock) × Chain tail next pc n q
Forms clash tail next pc q = ⊥

pub record Inv (s : System) (q : List ℕ) : Type 0 where
  pub forms : Forms s.holder s.tail s.next s.pc q
  pub distinct : Distinct (queue s.holder q)
  pub each : (i : ℕ) → Fits s.holder q i (s.pc i)
  pub order : s.arrived ≡ s.ran ++ todo s.holder q

-- A thread whose place does not change fits a holder that keeps what concerns it.
pub Fits-moves :
    (hd hd' : Holder) (q q' : List ℕ) (i : ℕ) (p : Pc)
    → (Among i (queue hd q) → Among i (queue hd' q'))
    → (owner hd ≡ some i → owner hd' ≡ some i)
    → (waker hd ≡ some i → waker hd' ≡ some i)
    → (is_quiet hd ≡ false → p ≡ deferred → is_quiet hd' ≡ false)
    → Fits hd q i p
    → Fits hd' q' i p
Fits-moves hd hd' q q' i outside a o w x f = tt
Fits-moves hd hd' q q' i (linking prev lock) a o w x f = a f
Fits-moves hd hd' q q' i (asleep lock) a o w x f = a f
Fits-moves hd hd' q q' i holding a o w x f = o f
Fits-moves hd hd' q q' i done a o w x f = w f
Fits-moves hd hd' q q' i deferred a o w x f = x f refl
Fits-moves hd hd' q q' i fault a o w x f = f

-- A thread whose node the holder may be at.
abbrev pub stays : Pc → Bool
stays holding = true
stays done = true
stays deferred = true
stays (asleep lock) = true
stays outside = false
stays (linking prev lock) = false
stays fault = false

pub stays-is_alive : (p : Pc) → stays p ≡ true → is_alive p ≡ true
unfolding is_alive
stays-is_alive holding e = refl
stays-is_alive done e = refl
stays-is_alive deferred e = refl
stays-is_alive (asleep lock) e = refl
stays-is_alive outside e = absurd (cc e)
stays-is_alive (linking prev lock) e = absurd (cc e)
stays-is_alive fault e = absurd (cc e)

-- Whoever does not wait is not in the queue.
pub not_queued :
    (tail : Option ℕ) (next : ℕ → Option (ℕ × Bool)) (pc : ℕ → Pc) (p : ℕ) (q : List ℕ)
    → Chain tail next pc p q
    → (i : ℕ) → waits (pc i) ≡ false
    → ¬ Among i q
not_queued tail next pc p q c i w a = cc (Chain-waits tail next pc p q c i a, w)

pub Served-waits :
    (pc : ℕ → Pc) (h c : ℕ) (w : Option ℕ)
    → pc h ≡ holding
    → Served pc h c w
    → (waits (pc c) ≡ false) × (stays (pc c) ≡ true)
Served-waits pc h c w own (inl (e, n)) =
    (ap (λ i. waits (pc i)) e ∙ ap waits own, ap (λ i. stays (pc i)) e ∙ ap stays own)
Served-waits pc h c w own (inr (inl (e, n))) = (ap waits e, ap stays e)
Served-waits pc h c w own (inr (inr (e, n))) = (ap waits e, ap stays e)

pub Served-moves :
    (pc : ℕ → Pc) (h c i : ℕ) (w : Option ℕ) (x : Pc)
    → i ≢ c
    → Served pc h c w
    → Served (update pc i x) h c w
Served-moves pc h c i w x ne (inl e) = inl e
Served-moves pc h c i w x ne (inr (inl (e, n))) = inr (inl (update_ne pc x ne ∙ e, n))
Served-moves pc h c i w x ne (inr (inr (e, n))) = inr (inr (update_ne pc x ne ∙ e, n))

-- The queue of the holder waits.
pub queue-waits :
    (hd : Holder) (tail : Option ℕ) (next : ℕ → Option (ℕ × Bool)) (pc : ℕ → Pc) (q : List ℕ)
    → Forms hd tail next pc q
    → (i : ℕ) → Among i (queue hd q)
    → waits (pc i) ≡ true
queue-waits free tail next pc q f i a = absurd (subst (Among i) f.1 a)
queue-waits (inside h lock) tail next pc q f i a = Chain-waits tail next pc h q f.1 i a
queue-waits (draining h c w own stuck) tail next pc q f i a = Chain-waits tail next pc c q f.2 i a
queue-waits (serving h n lock own) tail next pc q f i (inl e) =
    ap (λ k. waits (pc k)) e ∙ ap waits f.1
queue-waits (serving h n lock own) tail next pc q f i (inr a) = Chain-waits tail next pc n q f.2 i a
queue-waits clash tail next pc q f i a = elim f [ ]

-- A thread that is no holder's concern moves, and the queue follows.
pub Forms-moves :
    (hd : Holder) (tail tail' : Option ℕ) (next next' : ℕ → Option (ℕ × Bool)) (pc : ℕ → Pc)
    (q q' : List ℕ) (i : ℕ) (x : Pc)
    → stays (pc i) ≡ false
    → Distinct (queue hd q)
    → ¬ ((tail ≡ none) × (q ≡ []))
    → ((c : ℕ)
        → stays (pc c) ≡ true
        → Distinct (c ∷ q)
        → Chain tail next pc c q
        → Chain tail' next' (update pc i x) c q')
    → Forms hd tail next pc q
    → Forms hd tail' next' (update pc i x) q'
Forms-moves free tail tail' next next' pc q q' i x out d busy go f = absurd (busy f)
Forms-moves (inside h lock) tail tail' next next' pc q q' i x out d busy go f = (
  update_ne pc x (λ e. cc (out, ap pc e, f.0)) ∙ f.0,
  go h (ap stays f.0) (not_queued tail next pc h q f.1 h (ap waits f.0), d) f.1,
)
Forms-moves (draining h c w own stuck) tail tail' next next' pc q q' i x out d busy go f =
    let (still, here) = Served-waits pc h c w f.0 f.1 in
    (
      update_ne pc x (λ e. cc (out, ap pc e, f.0)) ∙ f.0,
      Served-moves pc h c i w x (λ e. cc (out, ap pc e, here)) f.1,
      go c here (not_queued tail next pc c q f.2 c still, d) f.2,
    )
Forms-moves (serving h n lock own) tail tail' next next' pc q q' i x out d busy go f = (
  update_ne pc x (λ e. cc (out, ap pc e, f.0)) ∙ f.0,
  update_ne pc x (λ e. cc (out, ap pc e, f.1)) ∙ f.1,
  go n (ap stays f.1) d f.2,
)
Forms-moves clash tail tail' next next' pc q q' i x out d busy go f = elim f [ ]

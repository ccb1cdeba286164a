-- ===== src/Sync/Combining/Safety.antt =====
-- What holds of the delegator in every reachable state.
use cmpth_rs.Prelude.{
  ℕ, ◌≡◌, ◌≢◌, refl, sym, ap, ◌∙◌, subst, ◌⊎◌, inl, inr, Bool, true, false, List, [], ◌∷◌, ◌++◌,
  Option, some, Among, Distinct, some-injective, update,
}
use cmpth_rs.Sync.Combining.{
  Pc, outside, linking, asleep, holding, done, deferred, fault, Holder, free, inside, draining,
  serving, clash, notified, System, Step, enter_free, enter_busy, link, link_freed, run_own,
  complete_own, complete_cur, complete_other, release, contended, follow, follow_freed, serve, hand,
  init, Reach, start, later,
}
use cmpth_rs.Sync.Combining.Chain.{waits, Chain}
use cmpth_rs.Sync.Combining.Inv.{queue, todo, Fits, Forms, Inv, queue-waits, not_queued}
use cmpth_rs.Sync.Combining.Keep.{
  enter_free_keeps, enter_busy_keeps, link_keeps, predecessor-is_alive,
}
use cmpth_rs.Sync.Combining.Complete.{
  at, run_own_keeps, complete_own_keeps, contended_keeps, complete_cur_keeps, complete_other_keeps,
  cur-is_alive,
}
use cmpth_rs.Sync.Combining.Drain.{release_keeps, follow_keeps, serve_keeps, hand_keeps}

at_holder : {s : System} {q : List ℕ} (hd : Holder) → s.holder ≡ hd → Inv s q → Inv (at s hd) q
at_holder {s} {q} hd e inv = subst (λ x. Inv (at s x) q) e inv

Step-Inv : {s t : System} (q : List ℕ) → Inv s q → Step s t → (r : List ℕ) × Inv t r
Step-Inv q inv (enter_free i lock e n) = ([], enter_free_keeps q inv i lock e n)
Step-Inv q inv (enter_busy i p lock e n) = (q ++ i ∷ [], enter_busy_keeps q inv i p lock e n)
Step-Inv q inv (link i p lock e a) = (q, link_keeps q inv i p lock e)
Step-Inv q inv (link_freed i p lock e a) = absurd (cc (predecessor-is_alive q inv i p lock e, a))
Step-Inv {s} q inv (run_own h lock pending e x) =
    (q, run_own_keeps s q h lock pending (at_holder _ e inv))
Step-Inv {s} q inv (complete_own h c w e) =
    (q, complete_own_keeps s q h c w true (at_holder _ e inv))
Step-Inv {s} q inv (complete_cur h c w own e ne d) =
    (q, complete_cur_keeps s q h c w own ne d (at_holder _ e inv))
Step-Inv {s} q inv (complete_other h c k w own e d apart) = (
  q,
  subst (λ x. Inv (record s { holder = x; pc = update s.pc k (notified deferred (s.pc k)) }) q)
      (sym e) (complete_other_keeps s q h c w own k d apart (at_holder _ e inv)),
)
Step-Inv {s} q inv (release h c w e quiet last) =
    ([], release_keeps s q h c w quiet last (at_holder _ e inv))
Step-Inv {s} q inv (contended h c w e quiet n) =
    (q, contended_keeps s q h c w false quiet (at_holder _ e inv))
Step-Inv {s} q inv (follow h c n w own stuck lock e a l) =
    follow_keeps s q h c n w own stuck lock l (at_holder _ e inv)
Step-Inv {s} q inv (follow_freed h c w own stuck e a) =
    absurd (cc (cur-is_alive s q h c w own stuck (at_holder _ e inv), a))
Step-Inv {s} q inv (serve h n own ready e) = (q, serve_keeps s q h n own ready (at_holder _ e inv))
Step-Inv {s} q inv (hand h n own e) = (q, hand_keeps s q h n own (at_holder _ e inv))

init-Inv : Inv init []
init-Inv = record { forms = (refl, refl); distinct = tt; each = λ i. tt; order = refl }

Reach-Inv : {s : System} → Reach s → (q : List ℕ) × Inv s q
Reach-Inv start = ([], init-Inv)
Reach-Inv (later r st) = let (q, inv) = Reach-Inv r in Step-Inv q inv st

-- In every reachable state: there is one holder at most, and no holder has read a node whose call has
-- returned; no caller has linked itself behind such a node, and none was run, notified or handed the
-- lock that did not wait for that.
pub delegation_sound :
    {s : System}
    → Reach s
    → ((i j : ℕ) → s.pc i ≡ holding → s.pc j ≡ holding → i ≡ j)
      × (s.holder ≢ clash)
      × ((i : ℕ) → s.pc i ≢ fault)
delegation_sound {s} r =
    let (q, inv) = Reach-Inv r in
    (
      λ i j a b. some-injective i j (
          sym (subst (Fits s.holder q i) a (inv.each i))
          ∙ subst (Fits s.holder q j) b (inv.each j)),
      λ e. subst (λ hd. Forms hd s.tail s.next s.pc q) e inv.forms,
      λ i e. subst (Fits s.holder q i) e (inv.each i),
    )

-- The callers that have swapped themselves in and have not run, the next one first.
pub record IsPending (s : System) (rest : List ℕ) : Type 0 where
  pub split : s.arrived ≡ s.ran ++ rest
  pub once : Distinct rest
  pub unserved : (i : ℕ) → Among i rest → (waits (s.pc i) ≡ true) ⊎ (s.pc i ≡ holding)
  pub complete : (i : ℕ) → waits (s.pc i) ≡ true → Among i rest

waiting_queued :
    (hd : Holder) (q : List ℕ) (i : ℕ) (p : Pc)
    → waits p ≡ true
    → Fits hd q i p
    → Among i (queue hd q)
waiting_queued hd q i (linking prev lock) w f = f
waiting_queued hd q i (asleep lock) w f = f
waiting_queued hd q i outside w f = absurd (cc w)
waiting_queued hd q i holding w f = absurd (cc w)
waiting_queued hd q i done w f = absurd (cc w)
waiting_queued hd q i deferred w f = absurd (cc w)
waiting_queued hd q i fault w f = absurd f

queue-IsPending :
    (s : System) (q : List ℕ)
    → Inv s q
    → s.arrived ≡ s.ran ++ queue s.holder q
    → IsPending s (queue s.holder q)
queue-IsPending s q inv e = record {
  split = e;
  once = inv.distinct;
  unserved = λ i a. inl (queue-waits s.holder s.tail s.next s.pc q inv.forms i a);
  complete = λ i w. waiting_queued s.holder q i (s.pc i) w (inv.each i);
}

todo-IsPending :
    (s : System) (hd : Holder) (q : List ℕ) → Inv (at s hd) q → IsPending (at s hd) (todo hd q)
todo-IsPending s free q inv = queue-IsPending (at s free) q inv inv.order
todo-IsPending s (draining h c w own stuck) q inv =
    queue-IsPending (at s (draining h c w own stuck)) q inv inv.order
todo-IsPending s (serving h n lock own) q inv =
    queue-IsPending (at s (serving h n lock own)) q inv inv.order
todo-IsPending s clash q inv = queue-IsPending (at s clash) q inv inv.order
todo-IsPending s (inside h lock) q inv = record {
  split = inv.order;
  once = (not_queued s.tail s.next s.pc h q inv.forms.1 h (ap waits inv.forms.0), inv.distinct);
  unserved = λ i a. elim a [
    | inl same ↦ inr (ap s.pc same ∙ inv.forms.0)
    | inr b ↦ inl (queue-waits (inside h lock) s.tail s.next s.pc q inv.forms i b)
  ];
  complete = λ i w. inr (waiting_queued (inside h lock) q i (s.pc i) w (inv.each i));
}

-- The delegator runs each request and closure once, in the order in which their callers swapped
-- themselves into the queue: in every reachable state what has run is a prefix of the arrivals; the rest
-- of them are different callers that wait or hold the lock before their own run, and no caller waits
-- that is not one of them.
pub ran-IsPending : {s : System} → Reach s → (rest : List ℕ) × IsPending s rest
ran-IsPending {s} r =
    let (q, inv) = Reach-Inv r in (todo s.holder q, todo-IsPending s s.holder q inv)

-- No caller is left behind: in every reachable state without a holder every call has returned, none
-- waits for its turn and none is left with the consumer; and whenever a holder with nothing deferred
-- drains, either the node that it is at is the tail, or the link that it waits for is there, or a thread is
-- about to store it.
pub delegation_progress :
    {s : System}
    → Reach s
    → (s.holder ≡ free → (i : ℕ) → s.pc i ≡ outside)
      × ((h c : ℕ) (w : Option ℕ) (stuck : Bool)
          → s.holder ≡ draining h c w false stuck
          → (s.tail ≡ some c)
            ⊎ ((n : ℕ) × (lock : Bool) × ((s.next c ≡ some (n, lock)) ⊎ (s.pc n ≡ linking c lock))))
delegation_progress {s} r =
    let (q, inv) = Reach-Inv r in
    (
      λ e i. nobody (at s free) q (at_holder free e inv) i (s.pc i) ((at_holder free e inv).each i),
      λ h c w stuck e. behind_cur c q ((at_holder (draining h c w false stuck) e inv).forms.2),
    )
  where
    nobody :
        (t : System) (q : List ℕ)
        → Inv (at t free) q
        → (i : ℕ) (p : Pc) → Fits free q i p
        → p ≡ outside
    nobody t q inv i outside f = refl
    nobody t q inv i (linking prev lock) f = absurd (subst (Among i) inv.forms.1 f)
    nobody t q inv i (asleep lock) f = absurd (subst (Among i) inv.forms.1 f)
    nobody t q inv i holding f = absurd (cc f)
    nobody t q inv i done f = absurd (cc f)
    nobody t q inv i deferred f = absurd (cc f)
    nobody t q inv i fault f = absurd f

    behind_cur :
        (c : ℕ) (q : List ℕ)
        → Chain s.tail s.next s.pc c q
        → (s.tail ≡ some c)
          ⊎ ((n : ℕ) × (lock : Bool) × ((s.next c ≡ some (n, lock)) ⊎ (s.pc n ≡ linking c lock)))
    behind_cur c [] ch = inl ch.0
    behind_cur c (k ∷ q) ((lock, inl (a, e)), ch) = inr (k, lock, inr a)
    behind_cur c (k ∷ q) ((lock, inr (a, e)), ch) = inr (k, lock, inl e)

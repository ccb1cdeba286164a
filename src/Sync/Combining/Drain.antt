-- ===== src/Sync/Combining/Drain.antt =====
-- The accesses of the holder keep the invariant.
use mathlib.Core.List.{append_assoc}
use cmpth_rs.Prelude.{
  ℕ, ◌≡◌, ◌≢◌, refl, sym, ap, ◌∙◌, subst, inl, inr, Bool, true, false, List, [], ◌∷◌, ◌++◌, Option,
  none, some, Among, Distinct, update, update_self, update_ne, update_each, some-injective,
  if◌then◌else◌,
}
use cmpth_rs.Sync.Combining.{
  Pc, outside, asleep, holding, done, deferred, free, inside, draining, serving, notified, wake_up,
  executed, handed, retires, IsQuiet, System,
}
use cmpth_rs.Sync.Combining.Chain.{waits, Chain, Chain_last, Chain-moves}
use cmpth_rs.Sync.Combining.Inv.{Fits, Served, Inv, Fits-moves, not_queued, Served-waits}
use cmpth_rs.Sync.Combining.Complete.{at}

-- What is left once the caller to wake, if there is one, has been woken and has returned.
record Awake (s : System) (q : List ℕ) (h c : ℕ) (own stuck : Bool) (pc : ℕ → Pc) : Type 0 where
  keeps : pc h ≡ holding
  chained : Chain s.tail s.next pc c q
  fits : (j : ℕ) → Fits (draining h c none own stuck) q j (pc j)
  calm : (j : ℕ) → pc j ≡ deferred → s.pc j ≡ deferred

wake_up-Awake :
    (s : System) (q : List ℕ) (h c : ℕ) (w : Option ℕ) (own stuck : Bool)
    → Inv (at s (draining h c w own stuck)) q
    → Awake s q h c own stuck (wake_up w s.pc)
unfolding wake_up notified
wake_up-Awake s q h c w own stuck inv = elim inv.forms.1 [
  | inl (same, e) ↦ nobody_woken e
  | inr (inl (at_done, e)) ↦
      subst (λ x. Awake s q h c own stuck (wake_up x s.pc)) (sym e)
        (subst (λ y. Awake s q h c own stuck (update s.pc c y)) (sym (ap (notified done) at_done))
          (record {
            keeps = update_ne s.pc outside (λ x. cc (at_done, x, inv.forms.0)) ∙ inv.forms.0;
            chained =
                Chain-moves s.tail s.next s.pc c q c outside
                  (not_queued s.tail s.next s.pc c q inv.forms.2 c (ap waits at_done)) inv.forms.2;
            fits =
                update_each (λ j x. Fits (draining h c none own stuck) q j x) s.pc c tt
                  (λ j other.
                    Fits-moves (draining h c w own stuck) (draining h c none own stuck) q q j
                      (s.pc j) (λ a. a) (λ o. o)
                      (λ x. absurd (other (some-injective c j (sym e ∙ x)))) (λ x d. x)
                      (inv.each j));
            calm =
                update_each (λ j x. x ≡ deferred → s.pc j ≡ deferred) s.pc c (λ x. absurd (cc x))
                  (λ j other x. x);
          }))
  | inr (inr (at_deferred, e)) ↦ nobody_woken e
]
  where
    nobody_woken : w ≡ none → Awake s q h c own stuck (wake_up w s.pc)
    nobody_woken e =
        subst (λ x. Awake s q h c own stuck (wake_up x s.pc)) (sym e)
          (record {
            keeps = inv.forms.0;
            chained = inv.forms.2;
            fits = λ j.
                Fits-moves (draining h c w own stuck) (draining h c none own stuck) q q j (s.pc j)
                  (λ a. a) (λ o. o) (λ x. absurd (cc (e, x))) (λ x d. x) (inv.each j);
            calm = λ j x. x;
          })

pub release_keeps :
    (s : System) (q : List ℕ) (h c : ℕ) (w : Option ℕ)
    → IsQuiet s.pc
    → s.tail ≡ some c
    → Inv (at s (draining h c w false false)) q
    → Inv (record s { tail = none; holder = free; pc = update (wake_up w s.pc) h outside }) []
release_keeps s q h c w quiet last inv =
    let v = wake_up-Awake s q h c w false false inv in
    let (still, here) = Served-waits s.pc h c w inv.forms.0 inv.forms.1 in
    let is_empty =
      Chain_last s.tail s.next s.pc c q inv.forms.2
        (not_queued s.tail s.next s.pc c q inv.forms.2 c still) last in
    record {
      forms = (refl, refl);
      distinct = tt;
      each =
          update_each (λ j x. Fits free [] j x) (wake_up w s.pc) h tt
            (λ j other.
              Fits-moves (draining h c none false false) free q [] j (wake_up w s.pc j)
                (λ a. subst (Among j) is_empty a) (λ o. absurd (other (some-injective h j o)))
                (λ x. x) (λ x d. absurd (quiet j (v.calm j d))) (v.fits j));
      order = inv.order ∙ ap (λ l. s.ran ++ l) is_empty;
    }

-- The link that the holder reads is that to the front of the queue.
next_in_queue :
    (tail : Option ℕ) (next : ℕ → Option (ℕ × Bool)) (pc : ℕ → Pc) (c : ℕ) (q : List ℕ) (n : ℕ)
    (lock : Bool)
    → Chain tail next pc c q
    → next c ≡ some (n, lock)
    → (r : List ℕ) × (q ≡ n ∷ r) × (pc n ≡ asleep lock) × Chain tail next pc n r
next_in_queue tail next pc c [] n lock (e, e') l = absurd (cc (e', l))
next_in_queue tail next pc c (k ∷ r) n lock ((l', inl (a, e)), ch) l = absurd (cc (e, l))
next_in_queue tail next pc c (k ∷ r) n lock ((l', inr (a, e)), ch) l =
    let same = some-injective (k, l') (n, lock) (sym e ∙ l) in
    (
      r,
      ap (λ x. x.0 ∷ r) same,
      subst (λ x. pc x.0 ≡ asleep x.1) same a,
      subst (λ x. Chain tail next pc x.0 r) same ch,
    )

pub follow_keeps :
    (s : System) (q : List ℕ) (h c n : ℕ) (w : Option ℕ) (own stuck lock : Bool)
    → s.next c ≡ some (n, lock)
    → Inv (at s (draining h c w own stuck)) q
    → (r : List ℕ) × Inv (record s { holder = serving h n lock own; pc = wake_up w s.pc }) r
follow_keeps s q h c n w own stuck lock l inv =
    let v = wake_up-Awake s q h c w own stuck inv in
    let (r, e, a, ch) = next_in_queue s.tail s.next (wake_up w s.pc) c q n lock v.chained l in
    (
      r,
      record {
        forms = (v.keeps, a, ch);
        distinct = subst Distinct e inv.distinct;
        each = λ j.
            Fits-moves (draining h c none own stuck) (serving h n lock own) q r j (wake_up w s.pc j)
              (λ x. subst (Among j) e x) (λ o. o) (λ x. x) (λ x d. refl) (v.fits j);
        order = inv.order ∙ ap (λ y. s.ran ++ y) e;
      },
    )

-- Somebody else in the queue is behind its front.
behind : (n : ℕ) (q : List ℕ) (j : ℕ) → n ≢ j → Among j (n ∷ q) → Among j q
behind n q j ne (inl same) = absurd (ne (sym same))
behind n q j ne (inr a) = a

pub serve_keeps :
    (s : System) (q : List ℕ) (h n : ℕ) (own ready : Bool)
    → Inv (at s (serving h n false own)) q
    → Inv
        (record s {
          holder = draining h n (if ready then some n else none) own false;
          pc = update s.pc n (executed ready (s.pc n));
          ran = s.ran ++ n ∷ [];
        })
        q
unfolding executed
serve_keeps s q h n own ready inv =
    subst
      (λ x.
        Inv
          (record s {
            holder = draining h n (if ready then some n else none) own false;
            pc = update s.pc n x;
            ran = s.ran ++ n ∷ [];
          })
          q)
      (sym (ap (executed ready) inv.forms.1))
      (record {
        forms = (
          update_ne s.pc _ (λ e. cc (inv.forms.1, e, inv.forms.0)) ∙ inv.forms.0,
          served ready,
          Chain-moves s.tail s.next s.pc n q n _ inv.distinct.0 inv.forms.2,
        );
        distinct = inv.distinct.1;
        each =
            update_each
              (λ j x. Fits (draining h n (if ready then some n else none) own false) q j x) s.pc n
              (fits ready)
              (λ j ne.
                Fits-moves (serving h n false own)
                  (draining h n (if ready then some n else none) own false) q q j (s.pc j)
                  (behind n q j ne) (λ o. o) (λ x. absurd (cc x)) (λ x d. refl) (inv.each j));
        order = inv.order ∙ sym (append_assoc s.ran (n ∷ []) q);
      })
  where
    served :
        (b : Bool)
        → Served (update s.pc n (if b then done else deferred)) h n (if b then some n else none)
    served true = inr (inl (update_self s.pc n done, refl))
    served false = inr (inr (update_self s.pc n deferred, refl))

    fits :
        (b : Bool)
        → Fits
            (draining h n (if b then some n else none) own false)
            q
            n
            (if b then done else deferred)
    fits true = refl
    fits false = refl

pub hand_keeps :
    (s : System) (q : List ℕ) (h n : ℕ) (own : Bool)
    → Inv (at s (serving h n true own)) q
    → Inv
        (record s {
          holder = inside n true;
          pc = update (update s.pc h (retires own)) n (handed (update s.pc h (retires own) n));
        })
        q
unfolding handed
hand_keeps s q h n own inv =
    let apart : h ≢ n = λ e. cc (inv.forms.0, e, inv.forms.1) in
    subst
      (λ x.
        Inv (record s { holder = inside n true; pc = update (update s.pc h (retires own)) n x }) q)
      (sym (ap handed (update_ne s.pc (retires own) apart ∙ inv.forms.1)))
      (record {
        forms = (
          update_self (update s.pc h (retires own)) n holding,
          Chain-moves s.tail s.next (update s.pc h (retires own)) n q n holding inv.distinct.0 (
              Chain-moves s.tail s.next s.pc n q h (retires own)
                (not_queued s.tail s.next s.pc n q inv.forms.2 h (ap waits inv.forms.0))
                inv.forms.2),
        );
        distinct = inv.distinct.1;
        each =
            update_each (λ j x. Fits (inside n true) q j x) (update s.pc h (retires own)) n refl
              (λ j ne.
                update_each (λ k x. n ≢ k → Fits (inside n true) q k x) s.pc h (λ x. retired own)
                  (λ k other x.
                    Fits-moves (serving h n true own) (inside n true) q q k (s.pc k)
                      (behind n q k x) (λ o. absurd (other (some-injective h k o))) (λ y. y)
                      (λ y d. refl) (inv.each k))
                  j ne);
        order = inv.order;
      })
  where
    retired : (b : Bool) → Fits (inside n true) q h (retires b)
    retired true = refl
    retired false = tt

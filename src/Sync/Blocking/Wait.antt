-- ===== src/Sync/Blocking/Wait.antt =====
-- Queueing behind a blocking mutex, and taking the next waiter, keep the queue in order.
use cmpth_rs.Prelude.{
  ℕ, ◌≡◌, ◌≢◌, refl, sym, ap, subst, ◌∙◌, ◌⊎◌, inl, inr, true, some, List, [], ◌∷◌, ◌++◌, update,
  update_self, update_ne, update_each, Among, Among-append, append-Among, Distinct-append,
}
use cmpth_rs.Sync.Mcs.Enter.{stay, join, leave}
use cmpth_rs.Sync.Blocking.{
  MutexState, outside, waiting, holding, notifying, fault, System, Step, lock_free, lock_busy,
  try_lock_busy, unlock_last, unlock_next, notify,
}
use cmpth_rs.Sync.Blocking.Order.{head?, Shapes, in_queue, IsOrder}
use cmpth_rs.Sync.Blocking.Keep.{Kept, NobodyNotifies, free-Kept, last-Kept, notify-Kept}

head-append : (q r : List ℕ) (h : ℕ) → head? q ≡ some h → head? (q ++ r) ≡ some h
head-append [] r h e = cc
head-append (x ∷ q) r h e = e

append-head :
    (q r : List ℕ) (h k : ℕ) → head? q ≡ some k → head? (q ++ r) ≡ some h → head? q ≡ some h
append-head [] r h k e f = cc
append-head (x ∷ q) r h k e f = f

Shapes-append :
    (m : MutexState) (q : List ℕ) (i : ℕ)
    → m.locked ≡ true
    → Shapes m q
    → Shapes (record m { waiters = m.waiters ++ i ∷ [] }) (q ++ i ∷ [])
Shapes-append m [] i e (a, b) = cc (a, e)
Shapes-append m (h ∷ r) i e (a, b) = (a, ap (λ w. w ++ i ∷ []) b)

locked_head :
    (m : MutexState) (q : List ℕ) → m.locked ≡ true → Shapes m q → (h : ℕ) × (head? q ≡ some h)
locked_head m [] e (a, b) = cc (a, e)
locked_head m (h ∷ r) e s = (h, refl)

pub busy-Kept :
    {s : System} (q : List ℕ)
    → IsOrder s q
    → (i : ℕ) → s.pc i ≡ outside
    → s.state.locked ≡ true
    → Kept
        (record {
          state = record s.state { waiters = s.state.waiters ++ i ∷ [] };
          pc = update s.pc i waiting;
        })
        q
busy-Kept {s} q v i out busy =
    let (h, first) = locked_head s.state q busy v.shapes in
    (
      q ++ i ∷ [],
      record {
        shapes = Shapes-append s.state q i busy v.shapes;
        distinct = Distinct-append q (i ∷ []) v.distinct (λ m. m, tt) apart;
        members =
            update_each
              (λ j p.
                Among j (q ++ i ∷ [])
                → (p ≡ waiting) ⊎ ((p ≡ holding) × (head? (q ++ i ∷ []) ≡ some j)))
              s.pc i (λ m. inl refl)
              (λ j ne m. elim (Among-append q (i ∷ []) j m) [
                | inl a ↦ elim (v.members j a) [
                  | inl w ↦ inl w
                  | inr (w, f) ↦ inr (w, head-append q (i ∷ []) j f)
                ]
                | inr b ↦ elim b [ inl e ↦ absurd (ne (sym e)) | inr x ↦ absurd x ]
              ]);
        inside =
            update_each (λ j p. in_queue p ≡ true → Among j (q ++ i ∷ [])) s.pc i
              (λ x. append-Among q (i ∷ []) i (inr (inl refl)))
              (λ j ne x. append-Among q (i ∷ []) j (inl (v.inside j x)));
        target =
            update_each
              (λ u p.
                (t : ℕ)
                → p ≡ notifying t
                → (head? (q ++ i ∷ []) ≡ some t) × (update s.pc i waiting t ≡ waiting))
              s.pc i (λ t e. cc)
              (λ u ne t e.
                let (a, b) = v.target u t e in
                (
                  head-append q (i ∷ []) t a,
                  update_ne s.pc waiting (λ w. cc (ap s.pc w, out, b)) ∙ b,
                ));
        one_notifier =
            update_each
              (λ u p.
                (u' t t' : ℕ) → p ≡ notifying t → update s.pc i waiting u' ≡ notifying t' → u ≡ u')
              s.pc i (λ u' t t' e e'. cc)
              (λ u ne u' t t' e.
                update_each (λ u' p. p ≡ notifying t' → u ≡ u') s.pc i (λ e'. cc)
                  (λ u' ne' e'. v.one_notifier u u' t t' e e') u');
        served = λ k e. elim (v.served k (append-head q (i ∷ []) k h first e)) [
          | inl holds ↦ inl (update_ne s.pc waiting (λ w. cc (ap s.pc w, out, holds)) ∙ holds)
          | inr (u, n) ↦ inr (u, update_ne s.pc waiting (λ w. cc (ap s.pc w, out, n)) ∙ n)
        ];
        sound = update_each (λ _ p. p ≢ fault) s.pc i (λ e. cc) (λ j _. v.sound j);
      },
      join i refl,
    )
  where
    apart : (x : ℕ) → Among x q → ¬ Among x (i ∷ [])
    apart x a (inl e) = elim (v.members x a) [
      | inl w ↦ cc (ap s.pc e, w, out)
      | inr w ↦ cc (ap s.pc e, w.0, out)
    ]
    apart x a (inr b) = b

pub next-Kept :
    {s : System} (q : List ℕ)
    → IsOrder s q
    → (i t : ℕ) (ts : List ℕ) → s.pc i ≡ holding
    → s.state.waiters ≡ t ∷ ts
    → Kept (record { state = record s.state { waiters = ts }; pc = update s.pc i (notifying t) }) q
next-Kept [] v i t ts mine more = absurd (v.inside i (rw mine refl))
next-Kept (h ∷ []) v i t ts mine more = absurd (cc (v.shapes.1, more))
next-Kept {s} (h ∷ x ∷ r) v i t ts mine more = (
  x ∷ r,
  record {
    shapes = (v.shapes.0, cc (sym more ∙ v.shapes.1));
    distinct = v.distinct.1;
    members = λ j m.
        inl (update_ne s.pc (notifying t) (λ w. cc (ap s.pc w, mine, behind j m)) ∙ behind j m);
    inside =
        update_each (λ j p. in_queue p ≡ true → Among j (x ∷ r)) s.pc i (λ e. cc)
          (λ j ne e. elim (v.inside j e) [ inl w ↦ absurd (ne (own ∙ sym w)) | inr y ↦ y ]);
    target =
        update_each
          (λ u p.
            (t' : ℕ)
            → p ≡ notifying t'
            → (some x ≡ some t') × (update s.pc i (notifying t) t' ≡ waiting))
          s.pc i
          (λ t' e. (
            cc (next, e),
            subst (λ k. update s.pc i (notifying t) k ≡ waiting) (next ∙ cc e)
                (update_ne s.pc (notifying t) (λ w. cc (ap s.pc w, mine, behind x (inl refl)))
                  ∙ behind x (inl refl)),
          ))
          (λ u ne t' e. absurd (quiet u t' e));
    one_notifier =
        update_each
          (λ u p.
            (u' k k' : ℕ)
            → p ≡ notifying k
            → update s.pc i (notifying t) u' ≡ notifying k'
            → u ≡ u')
          s.pc i
          (λ u' k k' e.
            update_each (λ u' p. p ≡ notifying k' → i ≡ u') s.pc i (λ e'. refl)
              (λ u' ne' e'. absurd (quiet u' k' e')) u')
          (λ u ne u' k k' e e'. absurd (quiet u k e));
    served = λ k e. inr (i, update_self s.pc i (notifying t) ∙ ap notifying (sym next ∙ cc e));
    sound = update_each (λ _ p. p ≢ fault) s.pc i (λ e. cc) (λ j _. v.sound j);
  },
  leave i (ap (λ k. k ∷ x ∷ r) (sym own)),
)
  where
    head_only : (j : ℕ) → s.pc j ≡ holding → j ≡ h
    head_only j e = elim (v.members j (v.inside j (rw e refl))) [
      | inl w ↦ cc (w, e)
      | inr w ↦ cc (w.1)
    ]

    own : i ≡ h
    own = head_only i mine

    next : x ≡ t
    next = cc (v.shapes.1, more)

    behind : (j : ℕ) → Among j (x ∷ r) → s.pc j ≡ waiting
    behind j m = elim (v.members j (inr m)) [
      | inl w ↦ w
      | inr w ↦ absurd (v.distinct.0 (subst (λ k. Among k (x ∷ r)) (head_only j w.0) m))
    ]

    quiet : NobodyNotifies s.pc
    quiet u k e = let (a, b) = v.target u k e in cc (a, b, own, mine)

pub Step-Kept : {s t : System} (q : List ℕ) → IsOrder s q → Step s t → Kept t q
Step-Kept q v (lock_free i out free) = free-Kept q v i out free
Step-Kept q v (lock_busy i out busy) = busy-Kept q v i out busy
Step-Kept q v (try_lock_busy i out busy) = (q, v, stay refl)
Step-Kept q v (unlock_last i mine last) = last-Kept q v i mine last
Step-Kept q v (unlock_next i t ts mine more) = next-Kept q v i t ts mine more
Step-Kept q v (notify i t e) = notify-Kept q v i t e

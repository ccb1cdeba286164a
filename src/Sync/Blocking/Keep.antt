-- ===== src/Sync/Blocking/Keep.antt =====
-- Steps of a blocking mutex after which nobody notifies keep the queue in order.
use cmpth_rs.Prelude.{
  ℕ, ◌≡◌, ◌≢◌, refl, sym, ap, subst, ◌∙◌, ◌⊎◌, inl, inr, true, false, some, List, [], ◌∷◌, update,
  update_self, update_each, Among,
}
use cmpth_rs.Sync.Mcs.Enter.{Change, stay, join, leave}
use cmpth_rs.Sync.Blocking.{Pc, outside, waiting, holding, notifying, fault, notified, System}
use cmpth_rs.Sync.Blocking.Order.{head?, in_queue, IsOrder}

abbrev pub Kept : System → List ℕ → Type 0
Kept t q = (q' : List ℕ) × IsOrder t q' × Change q q'

abbrev pub NobodyNotifies : (ℕ → Pc) → Type 0
NobodyNotifies pc = (u t : ℕ) → pc u ≢ notifying t

pub free-Kept :
    {s : System} (q : List ℕ)
    → IsOrder s q
    → (i : ℕ) → s.pc i ≡ outside
    → s.state.locked ≡ false
    → Kept (record { state = record s.state { locked = true }; pc = update s.pc i holding }) q
free-Kept (h ∷ r) v i out free = absurd (cc (v.shapes.0, free))
free-Kept {s} [] v i out free = (
  i ∷ [],
  record {
    shapes = (refl, v.shapes.1);
    distinct = (λ m. m, tt);
    members = λ j m. elim m [
      | inl e ↦
          subst
            (λ k.
              (update s.pc i holding k ≡ waiting)
              ⊎ ((update s.pc i holding k ≡ holding) × (some i ≡ some k)))
            (sym e) (inr (update_self s.pc i holding, refl))
      | inr x ↦ absurd x
    ];
    inside =
        update_each (λ j p. in_queue p ≡ true → Among j (i ∷ [])) s.pc i (λ _. inl refl)
          (λ j ne x. absurd (v.inside j x));
    target = λ u t e. absurd (quiet u t e);
    one_notifier = λ u u' t t' e e'. absurd (quiet u t e);
    served = λ h e.
        subst
          (λ k.
            (update s.pc i holding k ≡ holding)
            ⊎ ((u : ℕ) × (update s.pc i holding u ≡ notifying k)))
          (cc e) (inl (update_self s.pc i holding));
    sound = update_each (λ _ p. p ≢ fault) s.pc i (λ e. cc) (λ j _. v.sound j);
  },
  join i refl,
)
  where
    quiet : NobodyNotifies (update s.pc i holding)
    quiet =
        update_each (λ u p. (t : ℕ) → p ≢ notifying t) s.pc i (λ t e. cc)
          (λ u ne t e. cc ((v.target u t e).0))

pub last-Kept :
    {s : System} (q : List ℕ)
    → IsOrder s q
    → (i : ℕ) → s.pc i ≡ holding
    → s.state.waiters ≡ []
    → Kept (record { state = record s.state { locked = false }; pc = update s.pc i outside }) q
last-Kept [] v i mine last = absurd (v.inside i (rw mine refl))
last-Kept (h ∷ x ∷ r) v i mine last = absurd (cc (v.shapes.1, last))
last-Kept {s} (h ∷ []) v i mine last = (
  [],
  record {
    shapes = (refl, last);
    distinct = tt;
    members = λ j m. absurd m;
    inside =
        update_each (λ j p. in_queue p ≡ true → Among j []) s.pc i (λ e. cc)
          (λ j ne x. elim (v.inside j x) [ inl e ↦ ne (own ∙ sym e) | inr y ↦ y ]);
    target = λ u t e. absurd (quiet u t e);
    one_notifier = λ u u' t t' e e'. absurd (quiet u t e);
    served = λ k e. cc;
    sound = update_each (λ _ p. p ≢ fault) s.pc i (λ e. cc) (λ j _. v.sound j);
  },
  leave i (ap (λ k. k ∷ []) (sym own)),
)
  where
    own : i ≡ h
    own = elim (v.inside i (rw mine refl)) [ inl e ↦ e | inr y ↦ absurd y ]

    quiet : NobodyNotifies (update s.pc i outside)
    quiet =
        update_each (λ u p. (t : ℕ) → p ≢ notifying t) s.pc i (λ t e. cc)
          (λ u ne t e. let (a, b) = v.target u t e in cc (a, b, own, mine))

pub notify-Kept :
    {s : System} (q : List ℕ)
    → IsOrder s q
    → (i t : ℕ) → s.pc i ≡ notifying t
    → Kept (record s { pc = update (update s.pc i outside) t (notified (s.pc t)) }) q
notify-Kept {s} q v i t e =
    let (first, waits) = v.target i t e in
    (
      q,
      rw waits (record {
        shapes = v.shapes;
        distinct = v.distinct;
        members = λ j.
            both (λ j p. Among j q → (p ≡ waiting) ⊎ ((p ≡ holding) × (head? q ≡ some j)))
              (λ m. inr (refl, first))
              (λ m. elim (v.members i m) [ inl w ↦ cc (w, e) | inr w ↦ cc (w.0, e) ]) v.members j;
        inside =
            both (λ j p. in_queue p ≡ true → Among j q) (λ _. v.inside t (rw waits refl)) (λ x. cc)
              v.inside;
        target = λ u t' e'. absurd (quiet u t' e');
        one_notifier = λ u u' t' t'' e' e''. absurd (quiet u t' e');
        served = λ h e'.
            subst (λ k. (pc' k ≡ holding) ⊎ ((u : ℕ) × (pc' u ≡ notifying k))) (cc (first, e'))
              (inl (update_self (update s.pc i outside) t holding));
        sound = both (λ _ p. p ≢ fault) (λ e'. cc) (λ e'. cc) v.sound;
      }),
      stay refl,
    )
  where
    pc' : ℕ → Pc
    pc' = update (update s.pc i outside) t holding

    both :
        (P : ℕ → Pc → Type 0)
        → P t holding
        → P i outside
        → ((j : ℕ) → P j (s.pc j))
        → (j : ℕ) → P j (update (update s.pc i outside) t holding j)
    both P new gone old =
        update_each P (update s.pc i outside) t new
          (λ j _. update_each P s.pc i gone (λ k _. old k) j)

    quiet : NobodyNotifies (update (update s.pc i outside) t holding)
    quiet =
        update_each (λ u p. (t' : ℕ) → p ≢ notifying t') (update s.pc i outside) t (λ t' e'. cc)
          (λ j _.
            update_each (λ u p. (t' : ℕ) → p ≢ notifying t') s.pc i (λ t' e'. cc)
              (λ u ne t' e'. ne (v.one_notifier i u t t' e e')) j)

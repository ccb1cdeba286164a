-- ===== src/Sync/Mcs/Leave.antt =====
-- A thread leaves an MCS lock: its steps from the guard's drop on keep the queue or remove its
-- first thread.
use cmpth_rs.Prelude.{
  Among, ℕ, ◌≡◌, ◌≢◌, refl, sym, ap, subst, subst₂, ◌∙◌, ◌⊎◌, inl, inr, true, none, some, List, [],
  ◌∷◌, update, update_self, update_ne, update_each,
}
use cmpth_rs.Sync.Mcs.{idle, allocated, waiting, holding, handing, fault, notified, System}
use cmpth_rs.Sync.Mcs.Queue.{Link, Chain, queued, IsQueue}
use cmpth_rs.Sync.Mcs.Chain.{Chain-frame, Chain-tail, Forms-owner}
use cmpth_rs.Sync.Mcs.Enter.{stay, leave, Kept}

module _ {s : System} where
  owner-first :
      (h : ℕ) (r : List ℕ) (i : ℕ)
      → IsQueue s (h ∷ r)
      → (s.pc i ≡ holding) ⊎ (s.pc i ≡ handing)
      → i ≡ h
  owner-first h r i v own = Forms-owner s.mem s.pc h r i v.forms (v.complete i (busy own)) own
    where
      busy : (s.pc i ≡ holding) ⊎ (s.pc i ≡ handing) → queued (s.pc i) ≡ true
      busy (inl e) = rw e
      busy (inr e) = rw e

  -- What a step that takes the owner out leaves.
  pub emptied-Kept :
      (q : List ℕ) (i : ℕ)
      → IsQueue s q
      → s.pc i ≡ holding
      → s.mem.tail ≡ some i
      → Kept (record { mem = record s.mem { tail = none }; pc = update s.pc i idle }) q
  emptied-Kept [] i v e t = elim (v.complete i (rw e)) [ ]
  emptied-Kept (h ∷ j ∷ r) i v e t =
      let (x, y, z) = Chain-tail s.mem s.pc j r v.forms.1.1 in
      absurd
        (v.distinct.0 (subst (λ k. Among k (j ∷ r)) (cc (owner-first h (j ∷ r) i v (inl e))) z))
  emptied-Kept (h ∷ []) i v e t = (
    [],
    record {
      forms = refl;
      distinct = tt;
      complete =
          update_each (λ j p. queued p ≡ true → Among j []) s.pc i (λ x. cc)
            (λ j ne x. alone j ne (v.complete j x));
      clean =
          update_each (λ j p. p ≡ allocated → s.mem.next j ≡ none) s.pc i (λ x. cc)
            (λ j ne x. v.clean j x);
      sound = update_each (λ j p. p ≢ fault) s.pc i (λ x. cc) (λ j ne. v.sound j);
    },
    leave h refl,
  )
    where
      alone : (j : ℕ) → i ≢ j → Among j (h ∷ []) → ⊥
      alone j ne (inl w) = ne (owner-first h [] i v (inl e) ∙ sym w)
      alone j ne (inr w) = w

  pub contended-Kept :
      (q : List ℕ) (i : ℕ)
      → IsQueue s q
      → s.pc i ≡ holding
      → s.mem.tail ≢ some i
      → Kept (record s { pc = update s.pc i handing }) q
  contended-Kept [] i v e t = elim (v.complete i (rw e)) [ ]
  contended-Kept (h ∷ r) i v e t = (
    h ∷ r,
    record {
      forms = (
        inr (rw (← first) (update_self s.pc i _), more r v.forms.1),
        Chain-frame s.mem s.mem s.pc _ h r refl (λ x a. refl)
            (λ x a. update_ne s.pc _ (λ w. v.distinct.0 (subst (λ k. Among k r) (sym w ∙ first) a)))
            v.forms.1,
      );
      distinct = v.distinct;
      complete =
          update_each (λ j p. queued p ≡ true → Among j (h ∷ r)) s.pc i (λ x. inl first)
            (λ j ne x. v.complete j x);
      clean =
          update_each (λ j p. p ≡ allocated → s.mem.next j ≡ none) s.pc i (λ x. cc)
            (λ j ne x. v.clean j x);
      sound = update_each (λ j p. p ≢ fault) s.pc i (λ x. cc) (λ j ne. v.sound j);
    },
    stay refl,
  )
    where
      first : i ≡ h
      first = owner-first h r i v (inl e)

      more : (r' : List ℕ) → Chain s.mem s.pc h r' → r' ≢ []
      more [] c w = t (c.0 ∙ ap some (sym first))
      more (x ∷ r') c w = cc

  passed-Kept :
      (h j : ℕ) (r : List ℕ)
      → IsQueue s (h ∷ j ∷ r)
      → s.pc j ≡ waiting
      → Kept (record s { pc = update (update s.pc h idle) j (notified (s.pc j)) }) (h ∷ j ∷ r)
  passed-Kept h j r v e = (
    j ∷ r,
    record {
      forms = (
        inl (update_self (update s.pc h idle) j _ ∙ ap notified e),
        Chain-frame s.mem s.mem s.pc _ j r refl (λ x a. refl)
            (λ x a.
              update_ne (update s.pc h idle) _
                (λ w. v.distinct.1.0 (subst (λ k. Among k r) (sym w) a))
              ∙ update_ne s.pc idle (λ w. v.distinct.0 (inr (subst (λ k. Among k r) (sym w) a))))
            v.forms.1.1,
      );
      distinct = v.distinct.1;
      complete =
          update_each (λ k p. queued p ≡ true → Among k (j ∷ r)) _ j (λ x. inl refl)
            λ k ne.
              update_each (λ k p. queued p ≡ true → Among k (j ∷ r)) s.pc h (λ x. cc)
                (λ k ne x. others k ne (v.complete k x)) k;
      clean =
          update_each (λ k p. p ≡ allocated → s.mem.next k ≡ none) _ j (λ x. cc (ap notified e))
            λ k ne.
              update_each (λ k p. p ≡ allocated → s.mem.next k ≡ none) s.pc h (λ x. cc)
                (λ k ne x. v.clean k x) k;
      sound =
          update_each (λ k p. p ≢ fault) _ j (λ x. cc (ap notified e))
            λ k ne. update_each (λ k p. p ≢ fault) s.pc h (λ x. cc) (λ k ne. v.sound k) k;
    },
    leave h refl,
  )
    where
      others : (k : ℕ) → h ≢ k → Among k (h ∷ j ∷ r) → Among k (j ∷ r)
      others k ne (inl w) = absurd (ne (sym w))
      others k ne (inr w) = w

  pub hand_over-Kept :
      (q : List ℕ) (i j : ℕ)
      → IsQueue s q
      → s.pc i ≡ handing
      → s.mem.next i ≡ some j
      → Kept (record s { pc = update (update s.pc i idle) j (notified (s.pc j)) }) q
  hand_over-Kept [] i j v e n = elim (v.complete i (rw e)) [ ]
  hand_over-Kept (h ∷ []) i j v e n = cc (ap s.mem.next (owner-first h [] i v (inr e)), v.forms.1.1)
  hand_over-Kept (h ∷ x ∷ r) i j v e n = told v.forms.1.0
    where
      first : i ≡ h
      first = owner-first h (x ∷ r) i v (inr e)

      told :
          Link s.mem s.pc h x
          → Kept (record s { pc = update (update s.pc i idle) j (notified (s.pc j)) }) (h ∷ x ∷ r)
      told (inl (a, b)) = cc (ap s.mem.next first)
      told (inr (a, b)) =
          subst₂
            (λ i j.
              Kept (record s { pc = update (update s.pc i idle) j (notified (s.pc j)) })
                (h ∷ x ∷ r))
            (sym first) (cc (ap s.mem.next first)) (passed-Kept h x r v a)

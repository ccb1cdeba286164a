-- ===== src/Sync/Combining/Complete.antt =====
-- The requests of the holder itself, and completions: they keep the invariant.
use mathlib.Core.List.{append_assoc}
use cmpth_rs.Prelude.{
  ℕ, ◌≡◌, ◌≢◌, refl, sym, ap, ◌∙◌, subst, ◌⊎◌, inl, inr, Bool, true, false, List, [], ◌∷◌, ◌++◌,
  Option, none, some, update, update_self, update_ne, update_each,
}
use cmpth_rs.Sync.Combining.{
  outside, done, deferred, is_alive, Holder, inside, draining, notified, IsQuiet, System,
}
use cmpth_rs.Sync.Combining.Chain.{waits, Chain-moves}
use cmpth_rs.Sync.Combining.Inv.{
  Fits, Served, Inv, Fits-moves, stays-is_alive, not_queued, Served-waits, Served-moves,
}

abbrev pub at : System → Holder → System
at s hd = record s { holder = hd }

pub run_own_keeps :
    (s : System) (q : List ℕ) (h : ℕ) (lock pending : Bool)
    → Inv (at s (inside h lock)) q
    → Inv (record s { holder = draining h h none pending false; ran = s.ran ++ h ∷ [] }) q
run_own_keeps s q h lock pending inv = record {
  forms = (inv.forms.0, inl (refl, refl), inv.forms.1);
  distinct = inv.distinct;
  each = λ i.
      Fits-moves (inside h lock) (draining h h none pending false) q q i (s.pc i) (λ a. a) (λ o. o)
        (λ w. w) (λ x d. refl) (inv.each i);
  order = inv.order ∙ sym (append_assoc s.ran (h ∷ []) q);
}

module _ (s : System) (q : List ℕ) (h c : ℕ) (w : Option ℕ) (own : Bool) where
  pub complete_own_keeps :
      Inv (at s (draining h c w true false)) q → Inv (at s (draining h c w false false)) q
  complete_own_keeps inv = record {
    forms = inv.forms;
    distinct = inv.distinct;
    each = λ i.
        Fits-moves (draining h c w true false) (draining h c w false false) q q i (s.pc i) (λ a. a)
          (λ o. o) (λ x. x) (λ x d. refl) (inv.each i);
    order = inv.order;
  }

  pub contended_keeps :
      IsQuiet s.pc
      → Inv (at s (draining h c w false false)) q
      → Inv (at s (draining h c w false true)) q
  contended_keeps quiet inv = record {
    forms = inv.forms;
    distinct = inv.distinct;
    each = λ i.
        Fits-moves (draining h c w false false) (draining h c w false true) q q i (s.pc i) (λ a. a)
          (λ o. o) (λ x. x) (λ x d. absurd (quiet i d)) (inv.each i);
    order = inv.order;
  }

  pub complete_cur_keeps :
      c ≢ h
      → s.pc c ≡ deferred
      → Inv (at s (draining h c w own false)) q
      → Inv (record s { holder = draining h c (some c) own false; pc = update s.pc c done }) q
  complete_cur_keeps ne e inv = record {
    forms = (
      update_ne s.pc done ne ∙ inv.forms.0,
      inr (inl (update_self s.pc c done, refl)),
      Chain-moves s.tail s.next s.pc c q c done
          (not_queued s.tail s.next s.pc c q inv.forms.2 c (ap waits e)) inv.forms.2,
    );
    distinct = inv.distinct;
    each =
        update_each (λ j x. Fits (draining h c (some c) own false) q j x) s.pc c refl
          (λ j other.
            Fits-moves (draining h c w own false) (draining h c (some c) own false) q q j (s.pc j)
              (λ a. a) (λ o. o) (λ x. absurd (nobody_woken inv.forms.1 j x)) (λ x d. refl)
              (inv.each j));
    order = inv.order;
  }
    where
      nobody_woken : Served s.pc h c w → (j : ℕ) → w ≢ some j
      nobody_woken (inl (same, n)) j x = ne same
      nobody_woken (inr (inl (d, n))) j x = cc (d, e)
      nobody_woken (inr (inr (d, n))) j x = cc (n, x)

  pub complete_other_keeps :
      (k : ℕ)
      → s.pc k ≡ deferred
      → (c ≡ h) ⊎ (k ≢ c)
      → Inv (at s (draining h c w own false)) q
      → Inv
          (record s {
            holder = draining h c w own false;
            pc = update s.pc k (notified deferred (s.pc k));
          })
          q
  unfolding notified
  complete_other_keeps k e apart inv =
      let out_of_hold : k ≢ h = λ same. cc (e, ap s.pc same, inv.forms.0) in
      let out_of_cur : k ≢ c = elim apart [
        | inl same ↦ (λ x. out_of_hold (x ∙ same))
        | inr ne ↦ ne
      ] in
      subst (λ x. Inv (record s { holder = draining h c w own false; pc = update s.pc k x }) q)
        (sym (ap (notified deferred) e))
        (record {
          forms = (
            update_ne s.pc outside out_of_hold ∙ inv.forms.0,
            Served-moves s.pc h c k w outside out_of_cur inv.forms.1,
            Chain-moves s.tail s.next s.pc c q k outside
                (not_queued s.tail s.next s.pc c q inv.forms.2 k (ap waits e)) inv.forms.2,
          );
          distinct = inv.distinct;
          each =
              update_each (λ j x. Fits (draining h c w own false) q j x) s.pc k tt
                (λ j other. inv.each j);
          order = inv.order;
        })

  -- The node that the holder is at is alive.
  pub cur-is_alive :
      (stuck : Bool) → Inv (at s (draining h c w own stuck)) q → is_alive (s.pc c) ≡ true
  cur-is_alive stuck inv =
      stays-is_alive (s.pc c) (Served-waits s.pc h c w inv.forms.0 inv.forms.1).1

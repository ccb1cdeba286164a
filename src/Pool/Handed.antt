-- ===== src/Pool/Handed.antt =====
-- A fresh box and a node of a list keep the invariant.
use cmpth_rs.Prelude.{
  ite, ℕ, ◌≡◌, ◌≢◌, refl, sym, ap, subst, ◌∙◌, Bool, true, false, none, update, update_self,
  update_both, ℕ_discrete,
}
use cmpth_rs.Pool.{Lists}
use cmpth_rs.Pool.View.{Place, used, View, Reps}
use cmpth_rs.Pool.Stage.{relink-Reps}
use cmpth_rs.Pool.Return.{ReturnPool, wrap_fresh}
use cmpth_rs.Pool.Valid.{IsKept, IsValid, unheld, dead-used, Handed}

module _ {held : ℕ → Bool} {p : ReturnPool} (ok : IsValid held p) where
  open ok use {view, reps, kept}

  -- A box that the allocator makes anew.
  pub wrap_fresh-Handed :
      (wk : ℕ) (over : Bool) (fresh : ℕ)
      → p.live fresh ≡ false
      → Handed held wk (fresh, wrap_fresh wk over fresh p)
  unfolding wrap_fresh
  wrap_fresh-Handed wk over fresh dead = (
    free.0,
    update_self p.lists.alloc_wk fresh wk,
    record {
      view = view;
      reps = relink-Reps reps wk fresh free.1 none wk;
      kept = λ n.
          elim (ℕ_discrete fresh n)
            as (λ d.
              IsKept (ite d true (held n)) (ite d true (p.live n)) (ite d over (p.oversized n))
                (ite d wk (p.lists.alloc_wk n)) (view.place n)) [
                  | yes e ↦
                      subst (λ n. IsKept true true over wk (view.place n)) e
                        (subst (λ q. IsKept true true over wk q) (sym free.1) refl)
                  | no e ↦ kept n
                ];
    },
  )
    where
      free : (held fresh ≡ false) × (view.place fresh ≡ used)
      free = dead-used _ _ _ _ (view.place fresh) (kept fresh) dead

  -- A node from a list.
  pub popped-Handed :
      (wk x : ℕ) (lists : Lists) (f : ℕ → Place) (v : View)
      → view.place x ≢ used
      → p.lists.alloc_wk x ≡ wk
      → lists.alloc_wk ≡ p.lists.alloc_wk
      → ((h l o : Bool) (home : ℕ) (q : ℕ)
          → IsKept h l o home (view.place q)
          → IsKept h l o home (f q))
      → v.place ≡ update f x used
      → Reps lists v
      → Handed held wk (x, record p { lists = lists })
  popped-Handed wk x lists f v ne own homes keep places r = (
    out.0,
    ap (λ a. a x) homes ∙ own,
    record {
      view = v;
      reps = r;
      kept = λ n.
          subst (λ a. IsKept (update held x true n) (p.live n) (p.oversized n) (a n) (v.place n))
            (sym homes)
            (subst
              (λ g.
                IsKept (update held x true n) (p.live n) (p.oversized n) (p.lists.alloc_wk n) (g n))
              (sym places)
              (update_both (λ n h q. IsKept h (p.live n) (p.oversized n) (p.lists.alloc_wk n) q)
                held f x (sym out.1)
                (λ n _. keep (held n) (p.live n) (p.oversized n) (p.lists.alloc_wk n) n (kept n))
                n));
    },
  )
    where
      out : (held x ≡ false) × (p.live x ≡ true)
      out = unheld _ _ _ _ (view.place x) (kept x) ne

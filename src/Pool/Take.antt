-- ===== src/Pool/Take.antt =====
-- Taking a node: the heap follows the lists.
use cmpth_rs.Prelude.{
  ℕ, ◌≡◌, ◌≢◌, refl, sym, ap, subst, ◌∙◌, ◌⊎◌, inl, inr, Option, none, List, [], ◌∷◌, arith, update,
  update_self, update_ne, update_each, update_both, Among,
}
use cmpth_rs.Pool.{Lists, drain_remote, node_take}
use cmpth_rs.Pool.View.{
  Place, used, local, remote, staged, View, Seg, Holds, Reps, emptied, take_remote, take_local,
  taken,
}
use cmpth_rs.Pool.Chain.{Holds-frame, Holds-tail}

abbrev pub Follows : Option ℕ × Lists → Option ℕ × View → Type 0
Follows out spec = (out.0 ≡ spec.0) × Reps out.1 spec.1

emptied_self : (wk : ℕ) → emptied wk (remote wk) ≡ local wk
emptied_self wk = ground arith

emptied-local :
    (wk w : ℕ) (p : Place) → emptied wk p ≡ local w → (p ≡ local w) ⊎ ((p ≡ remote wk) × (w ≡ wk))
emptied-local wk w (remote u) e = ground arith
emptied-local wk w (local u) e = inl e
emptied-local wk w used e = cc
emptied-local wk w (staged u h) e = cc

emptied-remote : (wk w : ℕ) (p : Place) → emptied wk p ≡ remote w → (p ≡ remote w) × (w ≢ wk)
emptied-remote wk w (remote u) e = ground arith
emptied-remote wk w (local u) e = cc
emptied-remote wk w used e = cc
emptied-remote wk w (staged u h) e = cc

emptied-staged : (wk w h : ℕ) (p : Place) → emptied wk p ≡ staged w h → p ≡ staged w h
emptied-staged wk w h (remote u) e = ground arith
emptied-staged wk w h p e = e

module _ {s : Lists} {v : View} (r : Reps s v) (wk : ℕ) where
  open r use {local_seg, remote_seg, batch, local_holds, remote_holds, batch_holds}

  -- The first node of the own list leaves.
  elsewhere :
      (x : ℕ) (at' at : Place) (xs : List ℕ)
      → used ≢ at
      → v.place x ≡ at'
      → at' ≢ at
      → Holds v.place at xs
      → Holds (update v.place x used) at xs
  elsewhere x at' at xs ne e ne' h =
      Holds-frame v.place _ at xs
        (update_each (λ y p. p ≡ at → v.place y ≡ at) v.place x (λ e. absurd (ne e)) (λ y _ e. e))
        (λ y e'. update_ne v.place used (λ w. ne' (sym e ∙ (ap v.place w ∙ e'))) ∙ e') h

  local-Reps :
      (x : ℕ) (xs : List ℕ)
      → v.locals wk ≡ x ∷ xs
      → Seg s.next (s.next x) xs
      → Reps
          (record s { con_local = update s.con_local wk (s.next x) })
          (record v { locals = update v.locals wk xs; place = update v.place x used })
  local-Reps x xs e seg = record {
    local_seg =
        update_both (λ w h ys. Seg s.next h ys) s.con_local v.locals wk seg (λ w _. local_seg w);
    remote_seg = remote_seg;
    batch = batch;
    local_holds =
        update_each (λ w ys. Holds (update v.place x used) (local w) ys) v.locals wk
          (Holds-tail v.place _ (local wk) (local wk) x xs full
            (λ e'. cc (update_self v.place x used, e')) (λ y ne e'. update_ne v.place used ne ∙ e')
            (λ y ne e'. sym (update_ne v.place used ne) ∙ e'))
          (λ w ne.
            elsewhere x (local wk) (local w) _ (λ e. cc) first (λ e. ne (cc)) (local_holds w));
    remote_holds =
        λ w. elsewhere x (local wk) (remote w) _ (λ e. cc) first (λ e. cc) (remote_holds w);
    batch_holds =
        λ w h. elsewhere x (local wk) (staged w h) _ (λ e. cc) first (λ e. cc) (batch_holds w h);
  }
    where
      full : Holds v.place (local wk) (x ∷ xs)
      full = subst (λ ys. Holds v.place (local wk) ys) e (local_holds wk)

      first : v.place x ≡ local wk
      first = full.placed x (inl refl)

  module _ (x : ℕ) (xs : List ℕ) (e : v.remotes wk ≡ x ∷ xs) (nil : v.locals wk ≡ []) where
    abbrev place' : ℕ → Place
    place' = update (λ y. emptied wk (v.place y)) x used

    full : Holds v.place (remote wk) (x ∷ xs)
    full = subst (λ ys. Holds v.place (remote wk) ys) e (remote_holds wk)

    place'_ne : {y : ℕ} → x ≢ y → place' y ≡ emptied wk (v.place y)
    place'_ne ne = update_ne (λ y. emptied wk (v.place y)) used ne

    -- No node was in the own list.
    not_local : (y : ℕ) → v.place y ≢ local wk
    not_local y p = elim (subst (λ ys. Among y ys) nil ((local_holds wk).found y p)) [ ]

    kept :
        (at : Place) (ys : List ℕ)
        → at ≢ used
        → at ≢ remote wk
        → emptied wk at ≡ at
        → ((p : Place) → emptied wk p ≡ at → p ≡ at)
        → Holds v.place at ys
        → Holds place' at ys
    kept at ys ne ne' fix back h =
        Holds-frame v.place place' at ys
          (update_each (λ y p. p ≡ at → v.place y ≡ at) (λ y. emptied wk (v.place y)) x
            (λ e. absurd (ne (sym e))) (λ y _ e. back (v.place y) e))
          (λ y e.
            place'_ne (λ w. ne' (sym e ∙ (ap v.place (sym w) ∙ full.placed x (inl refl))))
            ∙ (ap (emptied wk) e ∙ fix))
          h

    remote-Reps :
        Seg s.next (s.next x) xs
        → Reps
            (record s {
              con_remote = update s.con_remote wk none;
              con_local = update s.con_local wk (s.next x);
            })
            (record v {
              locals = update v.locals wk xs;
              remotes = update v.remotes wk [];
              place = place';
            })
    remote-Reps seg = record {
      local_seg =
          update_both (λ w h ys. Seg s.next h ys) s.con_local v.locals wk seg (λ w _. local_seg w);
      remote_seg =
          update_both (λ w h ys. Seg s.next h ys) s.con_remote v.remotes wk refl
            (λ w _. remote_seg w);
      batch = batch;
      local_holds =
          update_each (λ w ys. Holds place' (local w) ys) v.locals wk
            (Holds-tail v.place _ (remote wk) (local wk) x xs full
              (λ e'. cc (update_self (λ y. emptied wk (v.place y)) x used, e'))
              (λ y ne e'. place'_ne ne ∙ (ap (emptied wk) e' ∙ emptied_self wk))
              (λ y ne e'. elim (emptied-local wk wk (v.place y) (sym (place'_ne ne) ∙ e')) [
                | inl p ↦ absurd (not_local y p)
                | inr p ↦ p.0
              ]))
            (λ w ne.
              kept (local w) _ (λ e. cc) (λ e. cc) refl
                (λ p e. elim (emptied-local wk w p e) [ inl q ↦ q | inr q ↦ absurd (ne (sym q.1)) ])
                (local_holds w));
      remote_holds =
          update_each (λ w ys. Holds place' (remote w) ys) v.remotes wk
            (record { placed = λ y m. elim m [ ]; found = none_left; distinct = tt })
            (λ w ne.
              kept (remote w) _ (λ e. cc) (λ e. ne (cc)) (stays w ne)
                (λ p e. (emptied-remote wk w p e).0) (remote_holds w));
      batch_holds = λ w h.
          kept (staged w h) _ (λ e. cc) (λ e. cc) refl (λ p e. emptied-staged wk w h p e)
            (batch_holds w h);
    }
      where
        stays : (w : ℕ) → wk ≢ w → emptied wk (remote w) ≡ remote w
        stays w ne = ground arith

        none_left : (y : ℕ) → place' y ≡ remote wk → Among y []
        none_left =
            update_each (λ y p. p ≡ remote wk → Among y []) (λ y. emptied wk (v.place y)) x
              (λ e. cc) (λ y _ e. absurd ((emptied-remote wk wk (v.place y) e).1 refl))

  drain-Follows :
      (xs : List ℕ)
      → v.remotes wk ≡ xs
      → v.locals wk ≡ []
      → Seg s.next (s.con_remote wk) xs
      → Follows (drain_remote wk s) (take_remote wk v xs)
  unfolding drain_remote
  drain-Follows [] e nil h =
      rw (h, drain_remote)
        (
          refl,
          record {
            local_seg = local_seg;
            remote_seg =
                update_each (λ w k. Seg s.next k (v.remotes w)) s.con_remote wk
                  (subst (λ ys. Seg s.next none ys) (sym e) refl) (λ w _. remote_seg w);
            batch = batch;
            local_holds = local_holds;
            remote_holds = remote_holds;
            batch_holds = batch_holds;
          },
        )
  drain-Follows (x ∷ xs) e nil (h, seg) = rw (h, drain_remote) (refl, remote-Reps x xs e nil seg)

  take_from-Follows :
      (xs : List ℕ)
      → v.locals wk ≡ xs
      → Seg s.next (s.con_local wk) xs
      → Follows (node_take wk s) (take_local wk v xs)
  unfolding node_take
  take_from-Follows [] e h = rw (h, node_take) (drain-Follows (v.remotes wk) refl e (remote_seg wk))
  take_from-Follows (x ∷ xs) e (h, seg) = rw (h, node_take) (refl, local-Reps x xs e seg)

  pub take-Follows : Follows (node_take wk s) (taken wk v)
  take-Follows = take_from-Follows (v.locals wk) refl (local_seg wk)

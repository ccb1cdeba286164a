-- ===== src/Pool/Safety.antt =====
-- What the pool promises its callers.
use cmpth_rs.Prelude.{
  length, Among, ℕ, ◌≤◌, ◌≡◌, ◌≢◌, refl, sym, subst, inl, inr, Bool, true, false, Option, none,
  some, List, [], ◌∷◌, arith, ltb, ◌==◌, update, update_both, Bool-cases,
}
use cmpth_rs.Pool.{Lists, node_take}
use cmpth_rs.Pool.View.{
  Place, used, local, remote, staged, Holds, take_remote, take_local, emptied, flushed, given,
}
use cmpth_rs.Pool.Give.{give-Reps}
use cmpth_rs.Pool.Take.{take-Follows}
use cmpth_rs.Pool.Return.{with_lists, ReturnPool, new_pool, pop_or_wrap, alloc, free_desc, dealloc}
use cmpth_rs.Pool.Valid.{
  IsKept, IsValid, emptied-IsKept, flushed-IsKept, held-used, node_take-alloc_wk, Handed,
}
use cmpth_rs.Pool.Handed.{wrap_fresh-Handed, popped-Handed}
use cmpth_rs.Pool.Take.{Follows}

module _ {held : ℕ → Bool} {p : ReturnPool} (ok : IsValid held p) (wk fresh : ℕ)
    (dead : p.live fresh ≡ false) where
  open ok use {view, reps, kept}

  remote_home : {x : ℕ} → view.place x ≡ remote wk → p.lists.alloc_wk x ≡ wk
  remote_home {x} at =
      sym
        (subst (λ q. IsKept (held x) (p.live x) (p.oversized x) (p.lists.alloc_wk x) q) at
          (kept x)).1.1.1

  local_home : {x : ℕ} → view.place x ≡ local wk → p.lists.alloc_wk x ≡ wk
  local_home {x} at =
      sym
        (subst (λ q. IsKept (held x) (p.live x) (p.oversized x) (p.lists.alloc_wk x) q) at
          (kept x)).1.1.1

  from_mail :
      (xs : List ℕ)
      → view.remotes wk ≡ xs
      → (out : Option ℕ × Lists) → out.1.alloc_wk ≡ p.lists.alloc_wk
      → Follows out (take_remote wk view xs)
      → Handed held wk (pop_or_wrap wk fresh p out)
  unfolding pop_or_wrap
  from_mail [] e (some y, lists) homes (g, r) = absurd (cc g)
  from_mail [] e (none, lists) homes (g, r) =
      wrap_fresh-Handed
        (record {
          view = view;
          reps = r;
          kept = λ n.
              subst (λ a. IsKept (held n) (p.live n) (p.oversized n) (a n) (view.place n))
                (sym homes) (kept n);
        })
        wk false fresh dead
  from_mail (x ∷ xs) e (none, lists) homes (g, r) = absurd (cc g)
  from_mail (x ∷ xs) e (some y, lists) homes (g, r) =
      let at = (reps.remote_holds wk).placed x (subst (λ ys. Among x ys) (sym e) (inl refl)) in
      subst (λ z. Handed held wk (z, record p { lists = lists })) (cc g)
        (popped-Handed ok wk x lists (λ q. emptied wk (view.place q)) _ (λ u. cc (u, at))
          (remote_home at) homes (λ h l o home q k. emptied-IsKept wk h l o home (view.place q) k)
          refl r)

  from_lists :
      (xs : List ℕ)
      → view.locals wk ≡ xs
      → (out : Option ℕ × Lists) → out.1.alloc_wk ≡ p.lists.alloc_wk
      → Follows out (take_local wk view xs)
      → Handed held wk (pop_or_wrap wk fresh p out)
  unfolding pop_or_wrap
  from_lists [] e out homes f = from_mail (view.remotes wk) refl out homes f
  from_lists (x ∷ xs) e (none, lists) homes (g, r) = absurd (cc g)
  from_lists (x ∷ xs) e (some y, lists) homes (g, r) =
      let at = (reps.local_holds wk).placed x (subst (λ ys. Among x ys) (sym e) (inl refl)) in
      subst (λ z. Handed held wk (z, record p { lists = lists })) (cc g)
        (popped-Handed ok wk x lists view.place _ (λ u. cc (u, at)) (local_home at) homes
          (λ h l o home q k. k) refl r)

  -- In a valid pool, if the allocator's address is not a live box, `alloc` on a worker hands out a
  -- node that no caller holds and whose home is that worker, and the pool stays valid.
  pub alloc-Handed : (stack_size size : ℕ) → Handed held wk (alloc stack_size wk size fresh p)
  unfolding alloc
  alloc-Handed stack_size size = elim (Bool-cases (ltb stack_size size)) [
    | inl large ↦ rw large (wrap_fresh-Handed ok wk true fresh dead)
    | inr fits ↦ rw fits (
        from_lists (view.locals wk) refl (node_take wk p.lists) (node_take-alloc_wk wk p.lists)
          (take-Follows reps wk))
  ]

module _ {held : ℕ → Bool} {p : ReturnPool} (ok : IsValid held p) (wk node : ℕ)
    (mine : held node ≡ true) where
  open ok use {view, reps, kept}

  freed : (p.live node ≡ true) × (view.place node ≡ used)
  freed = held-used _ _ _ _ (view.place node) (kept node) mine

  module _ (ours : p.oversized node ≡ false) where
    abbrev home : ℕ
    home = p.lists.alloc_wk node

    moved :
        (f : ℕ → Place) (at : Place)
        → IsKept false true false home at
        → ((h l o : Bool) (w : ℕ) (q : ℕ) → IsKept h l o w (view.place q) → IsKept h l o w (f q))
        → (n : ℕ)
        → IsKept
            (update held node false n)
            (p.live n)
            (p.oversized n)
            (p.lists.alloc_wk n)
            (update f node at n)
    moved f at new keep =
        update_both (λ n h q. IsKept h (p.live n) (p.oversized n) (p.lists.alloc_wk n) q) held f
          node
          (subst (λ l. IsKept false l (p.oversized node) home at) (sym freed.0)
            (subst (λ o. IsKept false true o home at) (sym ours) new))
          (λ n _. keep (held n) (p.live n) (p.oversized n) (p.lists.alloc_wk n) n (kept n))

    given-IsKept :
        (threshold n : ℕ)
        → IsKept
            (update held node false n)
            (p.live n)
            (p.oversized n)
            (p.lists.alloc_wk n)
            ((given threshold wk home node view).place n)
    given-IsKept threshold n = elim (Bool-cases (home == wk)) [
      | inl own ↦
          rw own
            (moved view.place (local wk) (refl, (refl, (refl, ground arith))) (λ h l o w q k. k) n)
      | inr away ↦ elim (Bool-cases (ltb (length (view.batches wk home)) threshold)) [
        | inl few ↦
            rw (away, few)
              (moved view.place (staged wk home) (refl, (refl, (refl, refl))) (λ h l o w q k. k) n)
        | inr many ↦
            rw (away, many)
              (moved (λ y. flushed wk home (view.place y)) (staged wk home)
                (refl, (refl, (refl, refl)))
                (λ h l o w q k. flushed-IsKept wk home h l o w (view.place q) k) n)
      ]
    ]

  -- In a valid pool with a threshold of at least 1, `dealloc` of a held node dereferences no null
  -- pointer, and the pool is valid with that node no longer held.
  pub dealloc-IsValid :
      (threshold : ℕ)
      → 1 ≤ threshold
      → (p' : ReturnPool) × (dealloc threshold wk node p ≡ some p')
        × IsValid (update held node false) p'
  unfolding dealloc with_lists free_desc
  dealloc-IsValid threshold pos = elim (Bool-cases (p.oversized node)) [
    | inl over ↦ (
      free_desc node p,
      rw over refl,
      record {
        view = view;
        reps = reps;
        kept =
            update_both (λ n h l. IsKept h l (p.oversized n) (p.lists.alloc_wk n) (view.place n))
              held p.live node
              (subst (λ q. IsKept false false (p.oversized node) (p.lists.alloc_wk node) q)
                (sym freed.1) refl)
              (λ n _. kept n);
      },
    )
    | inr ours ↦
        let g = give-Reps threshold pos reps wk node freed.1 in
        (
          record p { lists = g.0 },
          rw (ours, g.1) refl,
          record {
            view = given threshold wk (p.lists.alloc_wk node) node view;
            reps = g.3;
            kept = λ n.
                subst
                  (λ a.
                    IsKept (update held node false n) (p.live n) (p.oversized n) (a n)
                      ((given threshold wk (p.lists.alloc_wk node) node view).place n))
                  (sym g.2) (given-IsKept ours threshold n);
          },
        )
  ]

-- A new pool is valid, and no node is held.
pub new_pool-IsValid : IsValid (λ _. false) new_pool
new_pool-IsValid = record {
  view = record { locals = λ _. []; remotes = λ _. []; batches = λ _ _. []; place = λ _. used };
  reps = record {
    local_seg = λ w. refl;
    remote_seg = λ w. refl;
    batch = λ w h. record { chained = refl; counted = refl; ended = refl };
    local_holds = λ w. nowhere (local w) (λ e. cc);
    remote_holds = λ w. nowhere (remote w) (λ e. cc);
    batch_holds = λ w h. nowhere (staged w h) (λ e. cc);
  };
  kept = λ n. refl;
}
  where
    nowhere : (at : Place) → used ≢ at → Holds (λ _. used) at []
    nowhere at ne = record {
      placed = λ x m. elim m [ ];
      found = λ x e. absurd (ne e);
      distinct = tt;
    }

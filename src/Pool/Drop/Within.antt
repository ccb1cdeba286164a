-- ===== src/Pool/Drop/Within.antt =====
-- Runs whose workers are those of the pool leave the lists of other workers empty.
use cmpth_rs.Prelude.{
  ℕ, ◌≤◌, ◌<◌, ◌≡◌, refl, sym, subst, ◌⊎◌, inl, inr, Bool, true, false, Option, none, some, arith,
  ltb, ◌==◌, if◌then◌else◌, update, update_all, update_each, Bool-cases, Option-cases,
}
use cmpth_rs.Pool.{
  Lists, drain_remote, node_take, give_local, accumulate, flush, give_away, node_give,
}
use cmpth_rs.Pool.Return.{
  ReturnPool, wrap_fresh, pop_or_wrap, alloc, free_desc, with_lists, dealloc,
}
use cmpth_rs.Pool.Runs.{Run, created, allocated, returned}

-- The allocating and the returning workers are among the first `n`.
abbrev pub ByWorkers :
    {threshold stack_size : ℕ} (n : ℕ) {held : ℕ → Bool} {p : ReturnPool}
    → Run threshold stack_size held p
    → Type 0
ByWorkers n created = Unit {0}
ByWorkers n (allocated run wk size fresh dead) = (wk < n) × ByWorkers n run
ByWorkers n (returned run wk node mine e) = (wk < n) × ByWorkers n run

pub record IsOfPool (n : ℕ) (s : Lists) : Type 0 where
  pub locals : (w : ℕ) → n ≤ w → s.con_local w ≡ none
  pub remotes : (w : ℕ) → n ≤ w → s.con_remote w ≡ none
  pub batches : (w h : ℕ) → (n ≤ w) ⊎ (n ≤ h) → (s.pro w h).first ≡ none
  pub homes : (x : ℕ) → s.alloc_wk x < n

-- An operation that went through left the lists so.
abbrev IfGiven : ℕ → Option Lists → Type 0
IfGiven n none = Unit {0}
IfGiven n (some t) = IsOfPool n t

abbrev IfListed : ℕ → Option ReturnPool → Type 0
IfListed n none = Unit {0}
IfListed n (some p) = IsOfPool n p.lists

module _ {n : ℕ} {s : Lists} (ok : IsOfPool n s) (wk : ℕ) (lt : wk < n) where
  open ok use {locals, remotes, batches, homes}

  set_local : (h : Option ℕ) (w : ℕ) → n ≤ w → update s.con_local wk h w ≡ none
  set_local h =
      update_each (λ w o. n ≤ w → o ≡ none) s.con_local wk (λ le. absurd (omega (arith, lt, le)))
        (λ w ne. locals w)

  set_remote :
      (home : ℕ) (h : Option ℕ) → home < n → (w : ℕ) → n ≤ w → update s.con_remote home h w ≡ none
  set_remote home h below =
      update_each (λ w o. n ≤ w → o ≡ none) s.con_remote home
        (λ le. absurd (omega (arith, below, le))) (λ w ne. remotes w)

  node_take-IsOfPool : IsOfPool n (node_take wk s).1
  unfolding node_take drain_remote
  node_take-IsOfPool = elim (Option-cases (s.con_local wk)) [
    | inr (node, e) ↦
        rw (e, node_take)
          (record {
            locals = set_local (s.next node);
            remotes = remotes;
            batches = batches;
            homes = homes;
          })
    | inl e ↦ elim (Option-cases (s.con_remote wk)) [
      | inr (head, e') ↦
          rw (e, e', node_take, drain_remote)
            (record {
              locals = set_local (s.next head);
              remotes = set_remote wk none lt;
              batches = batches;
              homes = homes;
            })
      | inl e' ↦
          rw (e, e', node_take, drain_remote)
            (record {
              locals = locals;
              remotes = set_remote wk none lt;
              batches = batches;
              homes = homes;
            })
    ]
  ]

  set_batch :
      (home : ℕ) (q : _)
      → home < n
      → (w h : ℕ) → (n ≤ w) ⊎ (n ≤ h)
      → (update s.pro wk (update (s.pro wk) home q) w h).first ≡ none
  set_batch home q below =
      update_each (λ w f. (h : ℕ) → (n ≤ w) ⊎ (n ≤ h) → (f h).first ≡ none) s.pro wk
        (update_each (λ h x. (n ≤ wk) ⊎ (n ≤ h) → x.first ≡ none) (s.pro wk) home
          (λ far. elim far [
            | inl le ↦ absurd (omega (arith, lt, le))
            | inr le ↦ absurd (omega (arith, below, le))
          ])
          (λ h ne. batches wk h))
        (λ w ne. batches w)

  flush-IsOfPool : (home node last : ℕ) → home < n → IsOfPool n (flush wk home node last s)
  unfolding flush
  flush-IsOfPool home node last below = record {
    locals = locals;
    remotes = set_remote home _ below;
    batches = set_batch home _ below;
    homes = homes;
  }

  away-IfGiven :
      (threshold home node : ℕ) → home < n → IfGiven n (give_away threshold wk home node s)
  unfolding give_away accumulate
  away-IfGiven threshold home node below = elim (Bool-cases (ltb (s.pro wk home).num threshold)) [
    | inl room ↦
        rw (room, give_away)
          (record {
            locals = locals;
            remotes = remotes;
            batches = set_batch home _ below;
            homes = homes;
          })
    | inr full ↦ rw (full, give_away) (flushed (s.pro wk home).last)
  ]
    where
      flushed :
          (o : Option ℕ)
          → IfGiven n
              (elim o [ none ↦ none | some old_last ↦ some (flush wk home node old_last s) ])
      flushed none = tt
      flushed (some last) = flush-IsOfPool home node last below

  node_give-IfGiven : (threshold node : ℕ) → IfGiven n (node_give threshold wk node s)
  unfolding node_give give_local
  node_give-IfGiven threshold node = elim (Bool-cases (s.alloc_wk node == wk)) [
    | inl own ↦
        rw (own, node_give)
          (record {
            locals = set_local (some node);
            remotes = remotes;
            batches = batches;
            homes = homes;
          })
    | inr other ↦ rw (other, node_give) (away-IfGiven threshold (s.alloc_wk node) node (homes node))
  ]

  wrap-IsOfPool :
      (oversized : Bool) (node : ℕ) (p : ReturnPool)
      → p.lists ≡ s
      → IsOfPool n (wrap_fresh wk oversized node p).lists
  unfolding wrap_fresh
  wrap-IsOfPool oversized node p e =
      subst
        (λ l.
          IsOfPool n
            (record l { next = update l.next node none; alloc_wk = update l.alloc_wk node wk }))
        (sym e)
        (record {
          locals = locals;
          remotes = remotes;
          batches = batches;
          homes = update_all (λ w. w < n) s.alloc_wk node lt homes;
        })

module _ {n : ℕ} where
  popped-IsOfPool :
      (wk fresh : ℕ) (p : ReturnPool) (x : Option ℕ × Lists)
      → wk < n
      → IsOfPool n x.1
      → IsOfPool n (pop_or_wrap wk fresh p x).1.lists
  unfolding pop_or_wrap
  popped-IsOfPool wk fresh p (some node, lists) lt ok = ok
  popped-IsOfPool wk fresh p (none, lists) lt ok =
      wrap-IsOfPool ok wk lt false fresh (record p { lists = lists }) refl

  alloc-IsOfPool :
      (stack_size wk size fresh : ℕ) (p : ReturnPool)
      → wk < n
      → IsOfPool n p.lists
      → IsOfPool n (alloc stack_size wk size fresh p).1.lists
  unfolding alloc
  alloc-IsOfPool stack_size wk size fresh p lt ok = elim (Bool-cases (ltb stack_size size)) [
    | inl large ↦ rw (large, alloc) (wrap-IsOfPool ok wk lt true fresh p refl)
    | inr fits ↦
        rw (fits, alloc)
          (popped-IsOfPool wk fresh p (node_take wk p.lists) lt (node_take-IsOfPool ok wk lt))
  ]

  dealloc-IsOfPool :
      (threshold wk node : ℕ) (p p' : ReturnPool)
      → wk < n
      → IsOfPool n p.lists
      → dealloc threshold wk node p ≡ some p'
      → IsOfPool n p'.lists
  unfolding dealloc free_desc with_lists
  dealloc-IsOfPool threshold wk node p p' lt ok e =
      subst (IfListed n) e (by_size (p.oversized node))
    where
      given : (o : Option Lists) → IfGiven n o → IfListed n (with_lists p o)
      given none k = tt
      given (some lists) k = k

      by_size :
          (b : Bool)
          → IfListed n (
              if b
              then some (free_desc node p)
              else with_lists p (node_give threshold wk node p.lists))
      by_size true = ok
      by_size false =
          given (node_give threshold wk node p.lists) (node_give-IfGiven ok wk lt threshold node)

  pub Run-IsOfPool :
      {threshold stack_size : ℕ} {held : ℕ → Bool} {p : ReturnPool}
      (run : Run threshold stack_size held p)
      → 0 < n
      → ByWorkers n run
      → IsOfPool n p.lists
  Run-IsOfPool created pos by = record {
    locals = λ w le. refl;
    remotes = λ w le. refl;
    batches = λ w h far. refl;
    homes = λ x. pos;
  }
  Run-IsOfPool (allocated {held} {p} run wk size fresh dead) pos (lt, by) =
      alloc-IsOfPool _ wk size fresh p lt (Run-IsOfPool run pos by)
  Run-IsOfPool (returned {held} {p} {p'} run wk node mine e) pos (lt, by) =
      dealloc-IsOfPool _ wk node p p' lt (Run-IsOfPool run pos by) e

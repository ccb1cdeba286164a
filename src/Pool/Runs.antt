-- ===== src/Pool/Runs.antt =====
-- Runs of the pool from its creation.
use cmpth_rs.Prelude.{ℕ, ◌≤◌, ◌≡◌, Bool, true, false, some, subst, update}
use cmpth_rs.Pool.Return.{ReturnPool, new_pool, alloc, dealloc}
use cmpth_rs.Pool.Valid.{IsValid}
use cmpth_rs.Pool.Safety.{alloc-Handed, dealloc-IsValid, new_pool-IsValid}

-- A run: callers allocate, the allocator answering with an address that is not a live box, and
-- return what they hold. The set of held nodes is kept along.
pub data Run (threshold stack_size : ℕ) : (ℕ → Bool) → ReturnPool → Type 0 where
  created : Run threshold stack_size (λ _. false) new_pool
  allocated :
      {held : ℕ → Bool} {p : ReturnPool}
      → Run threshold stack_size held p
      → (wk size fresh : ℕ) → p.live fresh ≡ false
      → Run threshold stack_size
          (update held (alloc stack_size wk size fresh p).0 true)
          (alloc stack_size wk size fresh p).1
  returned :
      {held : ℕ → Bool} {p p' : ReturnPool}
      → Run threshold stack_size held p
      → (wk node : ℕ) → held node ≡ true
      → dealloc threshold wk node p ≡ some p'
      → Run threshold stack_size (update held node false) p'

module _ (threshold stack_size : ℕ) (pos : 1 ≤ threshold) where
  -- After any run with a threshold of at least 1 the free lists are well formed: each is a chain
  -- of distinct live nodes that no caller holds and that belong to the list's worker, each node is
  -- in one list at most, and every other live node is held.
  pub Run-IsValid :
      {held : ℕ → Bool} {p : ReturnPool} → Run threshold stack_size held p → IsValid held p
  Run-IsValid created = new_pool-IsValid
  Run-IsValid (allocated run wk size fresh dead) =
      (alloc-Handed (Run-IsValid run) wk fresh dead stack_size size).2
  Run-IsValid (returned {held} run wk node mine e) =
      let d = dealloc-IsValid (Run-IsValid run) wk node mine threshold pos in
      subst (λ q. IsValid (update held node false) q) (cc (d.1, e)) d.2

  module _ {held : ℕ → Bool} {p : ReturnPool} (run : Run threshold stack_size held p) (wk : ℕ) where
    -- After any run with a threshold of at least 1, `alloc` hands out a node that no caller
    -- holds and whose home is the allocating worker, if the allocator's answer is not live.
    pub alloc_exclusive :
        (size fresh : ℕ)
        → p.live fresh ≡ false
        → (held (alloc stack_size wk size fresh p).0 ≡ false)
          × ((alloc stack_size wk size fresh p).1.lists.alloc_wk
                (alloc stack_size wk size fresh p).0
              ≡ wk)
    alloc_exclusive size fresh dead =
        let h = alloc-Handed (Run-IsValid run) wk fresh dead stack_size size in (h.0, h.1)

    -- After any run with a threshold of at least 1, `dealloc` of a held node on any worker
    -- succeeds: it dereferences no null pointer.
    dealloc_succeeds :
        (node : ℕ) → held node ≡ true → (p' : ReturnPool) × (dealloc threshold wk node p ≡ some p')
    dealloc_succeeds node mine =
        let d = dealloc-IsValid (Run-IsValid run) wk node mine threshold pos in (d.0, d.1)

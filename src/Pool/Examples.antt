-- ===== src/Pool/Examples.antt =====
-- Tests and instances for the pool.
use cmpth_rs.Prelude.{
  ℕ, ◌≤◌, Bool, Option, none, some, ◌≡◌, refl, true, false, arith, ℕ_discrete, update,
}
use cmpth_rs.Pool.{node_take, node_give, give_away, accumulate}
use cmpth_rs.Pool.Return.{ReturnPool, new_pool, alloc, dealloc, with_lists}
use cmpth_rs.Pool.Drop.{drop}
use cmpth_rs.Pool.Drop.Freed.{drop_frees}
use cmpth_rs.Pool.Valid.{IsValid}
use cmpth_rs.Pool.Runs.{Run, created, allocated, returned, Run-IsValid, alloc_exclusive}

-- Worker 0 allocates node 5.
one : Run 1 64 (update (λ _. false) (alloc 64 0 8 5 new_pool).0 true) (alloc 64 0 8 5 new_pool).1
one = allocated created 0 8 5 refl

abbrev after_one : ReturnPool
after_one = (alloc 64 0 8 5 new_pool).1

-- Worker 1 allocates node 6 while node 5 is held.
alloc_exclusive_example :
    (update (λ _. false) (alloc 64 0 8 5 new_pool).0 true (alloc 64 1 8 6 after_one).0 ≡ false)
    × ((alloc 64 1 8 6 after_one).1.lists.alloc_wk (alloc 64 1 8 6 after_one).0 ≡ 1)
unfolding alloc ℕ_discrete node_take
alloc_exclusive_example = alloc_exclusive 1 64 (omega arith) one 1 8 6 refl

Run-IsValid_example : IsValid (update (λ _. false) (alloc 64 0 8 5 new_pool).0 true) after_one
Run-IsValid_example = Run-IsValid 1 64 (omega arith) one

-- Worker 1 returns node 5, which it stages for worker 0.
abbrev pool_or_new : Option ReturnPool → ReturnPool
pool_or_new none = new_pool
pool_or_new (some p) = p

abbrev after_return : ReturnPool
after_return = pool_or_new (dealloc 1 1 5 after_one)

abbrev none_held : ℕ → Bool
none_held = update (update (λ _. false) (alloc 64 0 8 5 new_pool).0 true) 5 false

back : Run 1 64 none_held after_return
unfolding alloc dealloc with_lists node_take node_give give_away accumulate ℕ_discrete
back = returned one 1 5 refl refl

drop_frees_example :
    (bound : ℕ) × ((fuel : ℕ)
      → bound ≤ fuel
      → (live : ℕ → Bool) × (drop fuel 2 after_return ≡ some live)
        × ((x : ℕ) → live x ≡ none_held x))
unfolding back one
drop_frees_example =
    drop_frees 1 64 2 (omega arith) (omega arith) back (omega arith, (omega arith, tt))

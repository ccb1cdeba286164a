-- ===== src/Pool/Checks.antt =====
-- Tests and instances for `SimplePool`, `BlockPool` and `ThresholdPool`.
use cmpth_rs.Prelude.{◌<◌, ◌⊎◌, ◌≤◌, ◌≡◌, refl, true, false, update}
use cmpth_rs.Pool.{new_lists}
use cmpth_rs.Pool.Return.{ReturnPool, new_pool, alloc}
use cmpth_rs.Pool.Block.{Layout, blocks, threshold_alloc, threshold_alloc-alloc}
use cmpth_rs.Pool.Simple.{SimplePool, new_simple, simple_alloc}
use cmpth_rs.Pool.Simple.Sound.{IsSimple, new_simple-IsSimple, simple_alloc-IsSimple}

-- Worker 0 allocates node 5, and worker 1 returns it.
abbrev one_node : SimplePool
one_node = (simple_alloc 64 0 8 5 new_simple).1

held_one : IsSimple 1 (update (λ _. false) (simple_alloc 64 0 8 5 new_simple).0 true) one_node
held_one = (simple_alloc-IsSimple (new_simple-IsSimple 1) 64 0 8 5 refl).1

abbrev limit : Layout
limit = record { size = 64; align = 16 }

-- Small enough, but of too strict an alignment.
abbrev strict : Layout
strict = record { size = 24; align = 32 }

threshold_alloc-alloc_example :
    (24 ≤ 64
      → 32 ≤ 16
      → threshold_alloc limit 0 5 strict (blocks new_pool)
        ≡ ((alloc 64 0 24 5 new_pool).0, blocks (alloc 64 0 24 5 new_pool).1))
    × ((64 < 24) ⊎ (16 < 32)
        → threshold_alloc limit 0 5 strict (blocks new_pool)
          ≡ (5, record { lists = new_pool.lists; live = update new_pool.live 5 true }))
threshold_alloc-alloc_example = threshold_alloc-alloc limit 0 5 strict new_pool

-- A pool with one oversized node.
abbrev with_large : ReturnPool
with_large = record { lists = new_lists; oversized = λ _. true; live = λ _. true }

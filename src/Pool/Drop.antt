-- ===== src/Pool/Drop.antt =====
-- `drop_all_nodes` of src/resumable/common/pool.rs, and the drop of `ReturnPool`: which boxes it frees.
mod Chains
mod Within
mod Everything
pub mod Freed
use cmpth_rs.Prelude.{ℕ, zero, suc, Bool, true, false, Option, none, some, if◌then◌else◌, update}
use cmpth_rs.Pool.{Lists}
use cmpth_rs.Pool.Return.{ReturnPool}

unfoldable pub and_then : {A : Type 0} → Option A → (A → Option A) → Option A
and_then none f = none
and_then (some a) f = f a

-- The boxes that are live after a chain was freed; `none` if `fuel` nodes were not enough, or if a node is
-- touched that is not live.
unfoldable pub free_chain : (ℕ → Option ℕ) → ℕ → Option ℕ → (ℕ → Bool) → Option (ℕ → Bool)
free_chain next zero none live = some live
free_chain next (suc fuel) none live = some live
free_chain next zero (some node) live = none
free_chain next (suc fuel) (some node) live =
    let others = free_chain next fuel (next node) (update live node false) in
    if live node then others else none

module _ (s : Lists) (fuel : ℕ) where
  unfoldable pub free_batches : (wk homes : ℕ) → (ℕ → Bool) → Option (ℕ → Bool)
  unfolding and_then free_chain
  free_batches wk zero live = some live
  free_batches wk (suc h) live =
      and_then (free_batches wk h live) (free_chain s.next fuel (s.pro wk h).first)

  -- A turn of the loop over the workers.
  unfoldable pub free_worker : (num_workers wk : ℕ) → (ℕ → Bool) → Option (ℕ → Bool)
  unfolding and_then free_chain free_batches
  free_worker num_workers wk live =
      and_then (free_chain s.next fuel (s.con_local wk) live) (λ after_local.
        and_then (free_chain s.next fuel (s.con_remote wk) after_local)
          (free_batches wk num_workers))

  unfoldable pub drop_all_nodes : (num_workers done : ℕ) → (ℕ → Bool) → Option (ℕ → Bool)
  unfolding and_then free_worker
  drop_all_nodes num_workers zero live = some live
  drop_all_nodes num_workers (suc wk) live =
      and_then (drop_all_nodes num_workers wk live) (free_worker num_workers wk)

unfoldable pub drop : (fuel num_workers : ℕ) → ReturnPool → Option (ℕ → Bool)
unfolding drop_all_nodes
drop fuel num_workers p = drop_all_nodes p.lists fuel num_workers num_workers p.live

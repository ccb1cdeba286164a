-- ===== src/Pool/Return.antt =====
-- `ReturnPool` of src/resumable/common/pool.rs: allocation and return of descriptors.
use cmpth_rs.Prelude.{ℕ, Bool, true, false, Option, none, some, ltb, if◌then◌else◌, update}
use cmpth_rs.Pool.{Lists, new_lists, node_take, node_give}

-- The pool, each node's `oversized`, and which nodes are boxes that were not freed.
pub record ReturnPool : Type 0 where
  pub lists : Lists
  pub oversized : ℕ → Bool
  pub live : ℕ → Bool

-- `new_pool` asserts that the threshold is at least 1.
abbrev pub new_pool : ReturnPool
new_pool = record { lists = new_lists; oversized = λ _. false; live = λ _. false }

-- The box is at an address of the allocator's choice.
unfoldable pub wrap_fresh : ℕ → Bool → ℕ → ReturnPool → ReturnPool
wrap_fresh alloc_wk oversized node p = record {
  lists = record p.lists {
    next = update p.lists.next node none;
    alloc_wk = update p.lists.alloc_wk node alloc_wk;
  };
  oversized = update p.oversized node oversized;
  live = update p.live node true;
}

unfoldable pub pop_or_wrap : ℕ → ℕ → ReturnPool → Option ℕ × Lists → ℕ × ReturnPool
unfolding wrap_fresh
pop_or_wrap wk fresh p (some node, lists) = (node, record p { lists = lists })
pop_or_wrap wk fresh p (none, lists) =
    (fresh, wrap_fresh wk false fresh (record p { lists = lists }))

unfoldable pub alloc : ℕ → ℕ → ℕ → ℕ → ReturnPool → ℕ × ReturnPool
unfolding pop_or_wrap
alloc stack_size wk size fresh p =
    if ltb stack_size size
    then (fresh, wrap_fresh wk true fresh p)
    else pop_or_wrap wk fresh p (node_take wk p.lists)

unfoldable pub free_desc : ℕ → ReturnPool → ReturnPool
free_desc node p = record p { live = update p.live node false }

unfoldable pub with_lists : ReturnPool → Option Lists → Option ReturnPool
with_lists p none = none
with_lists p (some lists) = some (record p { lists = lists })

unfoldable pub dealloc : ℕ → ℕ → ℕ → ReturnPool → Option ReturnPool
unfolding free_desc with_lists
dealloc threshold cur_wk node p =
    if p.oversized node
    then some (free_desc node p)
    else with_lists p (node_give threshold cur_wk node p.lists)

-- ===== src/Pool.antt =====
-- src/resumable/common/pool.rs: the free lists of `ReturnPool` and `BlockPool` on a heap of nodes,
-- and the two pools on them. A node is a number; a worker's index is not checked, as in the source.
mod View
mod Chain
mod Stage
mod Flush
mod Give
mod Take
mod Return
mod Block
mod Simple
mod Valid
mod Handed
mod Safety
mod Runs
mod Drop
mod Examples
mod Checks
use cmpth_rs.Prelude.{
  ℕ, suc, ◌+◌, ◌<◌, ◌≡◌, Bool, true, false, Option, none, some, ltb, ◌==◌, if◌then◌else◌, update,
}

-- `ProList`
pub record ProList : Type 0 where
  pub first : Option ℕ
  pub last : Option ℕ
  pub num : ℕ

abbrev pub no_nodes : ProList
no_nodes = record { first = none; last = none; num = 0 }

-- The nodes' `next` and `alloc_wk`, the `WorkerEntry` of each worker, and `pro_arrays`.
pub record Lists : Type 0 where
  pub next : ℕ → Option ℕ
  pub alloc_wk : ℕ → ℕ
  pub con_local : ℕ → Option ℕ
  pub con_remote : ℕ → Option ℕ
  pub pro : ℕ → ℕ → ProList

-- `new_workers_and_pro_arrays`
abbrev pub new_lists : Lists
new_lists = record {
  next = λ _. none;
  alloc_wk = λ _. 0;
  con_local = λ _. none;
  con_remote = λ _. none;
  pro = λ _ _. no_nodes;
}

-- The mailbox is emptied under its lock, and all but its first node become the local list.
pub drain_remote : ℕ → Lists → Option ℕ × Lists
drain_remote wk s = elim (s.con_remote wk) [
  | some head ↦ (
    some head,
    record s {
      con_remote = update s.con_remote wk none;
      con_local = update s.con_local wk (s.next head);
    },
  )
  | none ↦ (none, record s { con_remote = update s.con_remote wk none })
]

pub node_take : ℕ → Lists → Option ℕ × Lists
unfolding drain_remote
node_take wk s = elim (s.con_local wk) [
  | some node ↦ (some node, record s { con_local = update s.con_local wk (s.next node) })
  | none ↦ drain_remote wk s
]

abbrev pub set_pro : Lists → ℕ → ℕ → ProList → ℕ → ℕ → ProList
set_pro s wk home p = update s.pro wk (update (s.pro wk) home p)

pub give_local : ℕ → ℕ → Lists → Lists
give_local wk node s = record s {
  next = update s.next node (s.con_local wk);
  con_local = update s.con_local wk (some node);
}

pub accumulate : ℕ → ℕ → ℕ → Lists → Lists
accumulate wk home node s =
    let old = s.pro wk home in
    record s {
      next = update s.next node old.first;
      pro = set_pro s wk home (record {
        first = some node;
        last = if old.num == 0 then some node else old.last;
        num = old.num + 1;
      });
    }

-- The batch goes in front of the mailbox, under its lock; the node starts the next batch.
pub flush : ℕ → ℕ → ℕ → ℕ → Lists → Lists
flush wk home node old_last s = record s {
  next = update (update s.next old_last (s.con_remote home)) node none;
  con_remote = update s.con_remote home (s.pro wk home).first;
  pro = set_pro s wk home (record { first = some node; last = some node; num = 1 });
}

-- `none`: the null pointer `old_last` is dereferenced.
pub give_away : ℕ → ℕ → ℕ → ℕ → Lists → Option Lists
unfolding accumulate flush
give_away threshold wk home node s =
    if ltb (s.pro wk home).num threshold
    then some (accumulate wk home node s)
    else elim (s.pro wk home).last [
      | none ↦ none
      | some old_last ↦ some (flush wk home node old_last s)
    ]

pub node_give : ℕ → ℕ → ℕ → Lists → Option Lists
unfolding give_local give_away
node_give threshold wk node s =
    if s.alloc_wk node == wk
    then some (give_local wk node s)
    else give_away threshold wk (s.alloc_wk node) node s

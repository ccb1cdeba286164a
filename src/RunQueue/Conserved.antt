-- ===== src/RunQueue/Conserved.antt =====
-- src/resumable/common/deque.rs: no history of calls loses, duplicates or makes up an item.
use mathlib.Core.List.{Perm, append-nil}
use cmpth_rs.Prelude.{List, [], ◌++◌, subst, ap, ◌∙◌}
use cmpth_rs.RunQueue.Contract.{LifoDeque}
use cmpth_rs.RunQueue.Hybrid.{hybrid, contents, default-IsFlagged, contents-default}
use cmpth_rs.RunQueue.Spin.{spin}
use cmpth_rs.RunQueue.History.{Call, added, run, run-perm}

-- In any sequence of pushes, defers, pops and thefts on a new `HybridRunQueue`, over a deque that
-- keeps the laws of `LifoDeque`, what was put in is what was taken with what is left.
pub hybrid_conserves :
    {T : Type 0} (L : LifoDeque T) (cs : List (Call T))
    → let (taken, left) = run (hybrid L) (hybrid L).new cs in
      Perm (taken ++ contents L left) (added cs)
hybrid_conserves L cs =
    subst (Perm _) (ap (◌++◌ (added cs)) (contents-default L) ∙ append-nil (added cs))
      (run-perm (hybrid L) _ cs (default-IsFlagged L))

-- The same of a new `SpinRunQueue`.
pub spin_conserves :
    {T : Type 0} (cs : List (Call T))
    → let (taken, left) = run (spin T) [] cs in Perm (taken ++ left) (added cs)
spin_conserves {T} cs = subst (Perm _) (append-nil (added cs)) (run-perm (spin T) [] cs tt)

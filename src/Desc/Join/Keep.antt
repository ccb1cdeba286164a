-- ===== src/Desc/Join/Keep.antt =====
-- Every step of the join protocol keeps the invariant.
use cmpth_rs.Prelude.{ℕ, Bool}
use cmpth_rs.Desc.Join.{
  System, spawned, Step, hand, check, commit, free, keep, ready, swap, look, call, try, resumed,
  take, Reach, here, next,
}
use cmpth_rs.Desc.Join.Inv.{IsJoin, spawned-IsJoin}
use cmpth_rs.Desc.Join.Exits.{
  hand_keeps, check_keeps, commit_keeps, free_keeps, keep_keeps, ready_keeps, swap_keeps,
}
use cmpth_rs.Desc.Join.Calls.{look_keeps, call_keeps, try_keeps, resumed_keeps, take_keeps}

Step-IsJoin :
    {claims : ℕ → Bool} {t u : System} → Step claims t u → IsJoin claims t → IsJoin claims u
Step-IsJoin {claims} (hand w j h l e) i = hand_keeps claims w h l j e i
Step-IsJoin {claims} (check w h l e) i = check_keeps claims w h l i
Step-IsJoin {claims} (commit w j h l) i = commit_keeps claims w h l j i
Step-IsJoin {claims} (free w h l e) i = free_keeps claims w h l e i
Step-IsJoin {claims} (keep w h l e) i = keep_keeps claims w h l i
Step-IsJoin {claims} (ready w h l) i = ready_keeps claims w h l i
Step-IsJoin {claims} (swap w h l e se) i = swap_keeps claims w h l e se i
Step-IsJoin {claims} (look w x v l e) i = look_keeps claims w x l v e i
Step-IsJoin {claims} (call w x v l c p) i = call_keeps claims w x l v c p i
Step-IsJoin {claims} (try w x v l c cur spurious) i = try_keeps claims w x l v c cur spurious i
Step-IsJoin {claims} (resumed w x j l n) i = resumed_keeps claims w x l j n i
Step-IsJoin {claims} (take w x l) i = take_keeps claims w x l i

pub Reach-IsJoin :
    {claims : ℕ → Bool} (has_handle : Bool) {t : System}
    → Reach claims (spawned has_handle) t
    → IsJoin claims t
Reach-IsJoin {claims} has_handle here = spawned-IsJoin claims has_handle
Reach-IsJoin has_handle (next r st) = Step-IsJoin st (Reach-IsJoin has_handle r)

-- ===== src/Sync/Mcs/Keep.antt =====
-- Every step of the MCS lock leaves the queue as it is, appends a newcomer or removes the owner.
use cmpth_rs.Prelude.{ℕ, refl, List}
use cmpth_rs.Sync.Mcs.{
  System, Step, allocate, swap_free, swap_busy, link, link_freed, release, contended, spin,
  hand_over,
}
use cmpth_rs.Sync.Mcs.Queue.{IsQueue}
use cmpth_rs.Sync.Mcs.Enter.{
  stay, Kept, allocate-Kept, swap_free-Kept, swap_busy-Kept, link-Kept, prev-is_alive,
}
use cmpth_rs.Sync.Mcs.Leave.{emptied-Kept, contended-Kept, hand_over-Kept}

module _ {s : System} where
  pub Step-Kept : (q : List ℕ) → IsQueue s q → {t : System} → Step s t → Kept t q
  Step-Kept q v (allocate i e) = allocate-Kept q i v e
  Step-Kept q v (swap_free i e t) = swap_free-Kept q i v e t
  Step-Kept q v (swap_busy i p e t) = swap_busy-Kept q i p v e t
  Step-Kept q v (link i p e a) = link-Kept q i p v e
  Step-Kept q v (link_freed i p e a) = cc (prev-is_alive q i p v e)
  Step-Kept q v (release i e t) = emptied-Kept q i v e t
  Step-Kept q v (contended i e t) = contended-Kept q i v e t
  Step-Kept q v (spin i e n) = (q, v, stay refl)
  Step-Kept q v (hand_over i j e n) = hand_over-Kept q i j v e n

-- ===== src/RunQueue.antt =====
-- src/resumable/common/deque.rs and src/traits/component/run_queue.rs: the two worker run queues,
-- each call taken whole. crossbeam's deque is the parameter `LifoDeque`; a `VecDeque` is a list.
pub mod Contract
pub mod Hybrid
pub mod Spin
pub mod History
pub mod Conserved
pub mod Flag
mod Examples
use cmpth_rs.Prelude.{
  Bool, true, false, Option, none, some, List, [], ◌∷◌, ◌++◌, is_empty, pop_front, pop_back,
  if◌then◌else◌,
}
use Contract.{Steal, success, empty, retry, LifoDeque}

-- `Deferred`: the queue of `defer`, with its flag in front of the lock.
pub record Deferred (T : Type 0) : Type 0 where
  pub non_empty : Bool
  pub q : List T

module _ {T : Type 0} where
  pub Deferred_push : T → Deferred T → Deferred T
  Deferred_push v d = record { non_empty = true; q = d.q ++ v ∷ [] }

  -- The part of `try_take` under the lock: the flag is cleared if nothing is left.
  take_locked : Deferred T → Option T × List T → Option T × Deferred T
  take_locked d (item, rest) =
      (item, record { non_empty = if is_empty rest then false else d.non_empty; q = rest })

  pub try_take : Deferred T → Option T × Deferred T
  unfolding take_locked
  try_take d = if d.non_empty then take_locked d (pop_front d.q) else (none, d)

module _ {T : Type 0} (L : LifoDeque T) where
  pub record HybridRunQueue : Type 0 where
    pub main : L.Deque
    pub deferred : Deferred T

  pub default : HybridRunQueue
  default = record { main = L.new; deferred = record { non_empty = false; q = [] } }

  pub push : T → HybridRunQueue → HybridRunQueue
  push v h = record h { main = L.push v h.main }

  pub defer : T → HybridRunQueue → HybridRunQueue
  unfolding Deferred_push
  defer v h = record h { deferred = Deferred_push v h.deferred }

  -- After the own deque was asked: what it gave, else a deferred item.
  pop_or_take : HybridRunQueue → Option T × L.Deque → Option T × HybridRunQueue
  pop_or_take h (some v, main) = (some v, record h { main = main })
  pop_or_take h (none, main) =
      let (item, rest) = try_take h.deferred in (item, record { main = main; deferred = rest })

  pub try_pop : HybridRunQueue → Option T × HybridRunQueue
  unfolding pop_or_take
  try_pop h = pop_or_take h (L.pop h.main)

  -- After the deferred queue was asked: what it gave, else what the deque's thief's end gives.
  take_or_steal : HybridRunQueue → Option T × Deferred T → Steal T × HybridRunQueue
  take_or_steal h (some v, rest) = (success v, record h { deferred = rest })
  take_or_steal h (none, rest) =
      let (got, main) = L.steal h.main in (got, record { main = main; deferred = rest })

  pub try_steal : HybridRunQueue → Steal T × HybridRunQueue
  unfolding take_or_steal
  try_steal h = take_or_steal h (try_take h.deferred)

-- `SpinRunQueue`: one list behind one lock.
module _ {T : Type 0} where
  unfoldable pub spin_push : T → List T → List T
  spin_push v q = v ∷ q

  unfoldable pub spin_defer : T → List T → List T
  spin_defer v q = q ++ v ∷ []

  unfoldable pub spin_pop : List T → Option T × List T
  spin_pop q = pop_front q

  unfoldable stolen : Option T × List T → Steal T × List T
  stolen (some v, rest) = (success v, rest)
  stolen (none, rest) = (empty, rest)

  unfoldable pub spin_steal : List T → Steal T × List T
  unfolding stolen
  spin_steal q = stolen (pop_back q)

-- ===== src/RunQueue/Contract.antt =====
-- src/traits/component/run_queue.rs: what a run queue promises, and what crossbeam's deque does.
use cmpth_rs.Prelude.{◌≡◌, Option, none, some, List, [], ◌∷◌, ◌++◌}
use mathlib.Core.List.{Perm}

-- `Steal<T>`
pub data Steal (T : Type 0) : Type 0 where
  success : T → Steal T
  empty : Steal T
  retry : Steal T

-- A deque with an owner's end and a thief's end; `items` lists it from the owner's end on. Its
-- calls are taken one at a time. `steal` may fail on a deque that holds something.
pub record LifoDeque (T : Type 0) : Type 1 where
  pub Deque : Type 0
  pub new : Deque
  pub push : T → Deque → Deque
  pub pop : Deque → Option T × Deque
  pub steal : Deque → Steal T × Deque
  pub items : Deque → List T
  pub items-new : items new ≡ []
  pub items-push : (v : T) (d : Deque) → items (push v d) ≡ v ∷ items d
  pub pop_none : (d : Deque) → (pop d).0 ≡ none → (items d ≡ []) × (items (pop d).1 ≡ [])
  pub pop_some : (d : Deque) (v : T) → (pop d).0 ≡ some v → items d ≡ v ∷ items (pop d).1
  pub steal_success :
      (d : Deque) (v : T) → (steal d).0 ≡ success v → items d ≡ items (steal d).1 ++ v ∷ []
  pub steal_empty : (d : Deque) → (steal d).0 ≡ empty → (items d ≡ []) × (items (steal d).1 ≡ [])
  pub steal_retry : (d : Deque) → (steal d).0 ≡ retry → items (steal d).1 ≡ items d

-- One item taken out of `l` leaves `r`; nothing taken means that `l` was empty.
abbrev pub Takes : {T : Type 0} → List T → Option T → List T → Type 0
Takes l (some v) r = Perm l (v ∷ r)
Takes l none r = (l ≡ []) × (r ≡ [])

abbrev pub Steals : {T : Type 0} → List T → Steal T → List T → Type 0
Steals l (success v) r = Perm l (v ∷ r)
Steals l empty r = (l ≡ []) × (r ≡ [])
Steals l retry r = Perm l r

-- The contract of `WorkerRunQueue` and `RunQueueStealer`: nothing is lost, duplicated or made up,
-- and a queue is found empty only when it is.
pub record WorkerRunQueue (T : Type 0) : Type 1 where
  pub Queue : Type 0
  pub new : Queue
  pub push : T → Queue → Queue
  pub defer : T → Queue → Queue
  pub try_pop : Queue → Option T × Queue
  pub try_steal : Queue → Steal T × Queue
  pub IsValid : Queue → Type 0
  pub contents : Queue → List T
  pub new-IsValid : IsValid new
  pub push-IsValid : (v : T) (q : Queue) → IsValid q → IsValid (push v q)
  pub defer-IsValid : (v : T) (q : Queue) → IsValid q → IsValid (defer v q)
  pub try_pop-IsValid : (q : Queue) → IsValid q → IsValid (try_pop q).1
  pub try_steal-IsValid : (q : Queue) → IsValid q → IsValid (try_steal q).1
  pub contents-new : contents new ≡ []
  pub contents-push : (v : T) (q : Queue) → Perm (contents (push v q)) (v ∷ contents q)
  pub contents-defer : (v : T) (q : Queue) → Perm (contents (defer v q)) (v ∷ contents q)
  pub try_pop-Takes :
      (q : Queue) → IsValid q → Takes (contents q) (try_pop q).0 (contents (try_pop q).1)
  pub try_steal-Steals :
      (q : Queue) → IsValid q → Steals (contents q) (try_steal q).0 (contents (try_steal q).1)

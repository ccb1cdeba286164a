-- ===== src/RunQueue/Flag.antt =====
-- src/resumable/common/deque.rs, `Deferred`, with src/spin.rs: the owner and the thieves interleave
-- at each access to the flag, the lock and the queue. Accesses are sequentially consistent.
pub mod Safety
use cmpth_rs.Prelude.{
  ℕ, ◌≡◌, Bool, true, false, Option, List, [], ◌∷◌, ◌++◌, is_empty, pop_front, update,
}

-- The fields of `Deferred`, with the `locked` of its spin lock.
pub record Shared (T : Type 0) : Type 0 where
  pub non_empty : Bool
  pub locked : Bool
  pub q : List T

-- Where a thread stands, with the local variables that are live there.
pub data Pc (T : Type 0) : Type 0 where
  idle : Pc T
  push_wait : T → Pc T  -- `push`, before its compare-exchange on the lock
  push_locked : T → Pc T
  pushed : Pc T  -- the guard is still held
  storing : Pc T  -- before `non_empty.store(true)`
  take_wait : Pc T  -- `try_take` saw the flag set
  take_locked : Pc T
  popped : Option T → Pc T  -- before `is_empty`
  clearing : Option T → Pc T  -- before `non_empty.store(false)`
  returning : Option T → Pc T  -- before the guard is dropped

pub data Move {T : Type 0} (m : Shared T) : Pc T → Shared T → Pc T → Type 0 where
  push_call : (v : T) → Move m idle m (push_wait v)
  push_lock :
      {v : T} → m.locked ≡ false → Move m (push_wait v) (record m { locked = true }) (push_locked v)
  push_back : {v : T} → Move m (push_locked v) (record m { q = m.q ++ v ∷ [] }) pushed
  push_unlock : Move m pushed (record m { locked = false }) storing
  store_true : Move m storing (record m { non_empty = true }) idle
  load_false : m.non_empty ≡ false → Move m idle m idle
  load_true : m.non_empty ≡ true → Move m idle m take_wait
  take_lock : m.locked ≡ false → Move m take_wait (record m { locked = true }) take_locked
  take_front : Move m take_locked (record m { q = (pop_front m.q).1 }) (popped (pop_front m.q).0)
  see_empty : {item : Option T} → is_empty m.q ≡ true → Move m (popped item) m (clearing item)
  see_more : {item : Option T} → is_empty m.q ≡ false → Move m (popped item) m (returning item)
  store_false :
      {item : Option T} → Move m (clearing item) (record m { non_empty = false }) (returning item)
  take_unlock : {item : Option T} → Move m (returning item) (record m { locked = false }) idle

pub record System (T : Type 0) : Type 0 where
  pub mem : Shared T
  pub pc : ℕ → Pc T

pub data Step {T : Type 0} (s : System T) : System T → Type 0 where
  pick :
      (i : ℕ) {m : Shared T} {p : Pc T}
      → Move s.mem (s.pc i) m p
      → Step s (record { mem = m; pc = update s.pc i p })

abbrev pub init : (T : Type 0) → System T
init T = record { mem = record { non_empty = false; locked = false; q = [] }; pc = λ _. idle }

pub data Reach {T : Type 0} : System T → Type 0 where
  start : Reach (init T)
  later : {s t : System T} → Reach s → Step s t → Reach t

-- ===== src/External.antt =====
-- src/resumable/common/external_queue.rs, `StealPathQueue`: any number of threads interleave at
-- each access to the flag and the list. `lock` is the holder of the list's mutex between two steps.
mod Safety
mod Examples
use cmpth_rs.Prelude.{
  ℕ, suc, ◌≡◌, ◌≢◌, Bool, true, false, Option, none, some, List, [], ◌∷◌, is_empty, if◌then◌else◌,
  update,
}

-- `inner` is the `Vec` from its last entry on; `wakes` counts the calls of the hook, if it is set.
pub record StealPathQueue : Type 0 where
  pub non_empty : Bool
  pub inner : List ℕ
  pub lock : Option ℕ
  pub hook : Bool
  pub wakes : ℕ

pub data Pc : Type 0 where
  idle : Pc
  pushed : Pc  -- in `push`, before the flag is set
  flagged : Pc  -- in `push`, before the hook
  checked : Pc  -- in `try_pop`, past the flag
  clearing : (item : Option ℕ) → Pc  -- in `try_pop`, with the lock and an empty list

pub record System : Type 0 where
  pub queue : StealPathQueue
  pub pc : ℕ → Pc

abbrev pub init : System
init = record {
  queue = record { non_empty = false; inner = []; lock = none; hook = false; wakes = 0 };
  pc = λ _. idle;
}

pub data Step (s : System) : System → Type 0 where
  push :
      (i v : ℕ)
      → s.pc i ≡ idle
      → s.queue.lock ≡ none
      → Step s (record {
        queue = record s.queue { inner = v ∷ s.queue.inner };
        pc = update s.pc i pushed;
      })
  set_flag :
      (i : ℕ)
      → s.pc i ≡ pushed
      → Step s (record { queue = record s.queue { non_empty = true }; pc = update s.pc i flagged })
  fire :
      (i : ℕ)
      → s.pc i ≡ flagged
      → Step s (record {
        queue = record s.queue {
          wakes = if s.queue.hook then suc s.queue.wakes else s.queue.wakes;
        };
        pc = update s.pc i idle;
      })
  set_wake_hook : Step s (record s { queue = record s.queue { hook = true } })
  see_empty : (i : ℕ) → s.pc i ≡ idle → s.queue.non_empty ≡ false → Step s s
  see_flag :
      (i : ℕ)
      → s.pc i ≡ idle
      → s.queue.non_empty ≡ true
      → Step s (record s { pc = update s.pc i checked })
  pop_none :
      (i : ℕ)
      → s.pc i ≡ checked
      → s.queue.lock ≡ none
      → s.queue.inner ≡ []
      → Step s
          (record { queue = record s.queue { lock = some i }; pc = update s.pc i (clearing none) })
  pop_last :
      (i v : ℕ)
      → s.pc i ≡ checked
      → s.queue.lock ≡ none
      → s.queue.inner ≡ v ∷ []
      → Step s (record {
        queue = record s.queue { inner = []; lock = some i };
        pc = update s.pc i (clearing (some v));
      })
  pop_some :
      (i v w : ℕ) (rest : List ℕ)
      → s.pc i ≡ checked
      → s.queue.lock ≡ none
      → s.queue.inner ≡ v ∷ w ∷ rest
      → Step s (record { queue = record s.queue { inner = w ∷ rest }; pc = update s.pc i idle })
  clear_flag :
      (i : ℕ) (item : Option ℕ)
      → s.pc i ≡ clearing item
      → Step s (record {
        queue = record s.queue { non_empty = false; lock = none };
        pc = update s.pc i idle;
      })

pub data Reach : System → Type 0 where
  start : Reach init
  later : {s t : System} → Reach s → Step s t → Reach t

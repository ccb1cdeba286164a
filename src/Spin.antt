-- ===== src/Spin.antt =====
-- src/spin.rs: the spin lock, any number of threads at each access to `locked`.
pub mod Safety
mod Examples
use cmpth_rs.Prelude.{ℕ, ◌≡◌, Bool, true, false, update}

-- A thread: outside, before the exchange, in the inner loop, with the guard.
pub data Pc : Type 0 where
  outside trying spinning holding : Pc

pub record System : Type 0 where
  pub locked : Bool
  pub pc : ℕ → Pc

pub data Step (s : System) : System → Type 0 where
  call : (i : ℕ) → s.pc i ≡ outside → Step s (record s { pc = update s.pc i trying })
  acquire :
      (i : ℕ)
      → s.pc i ≡ trying
      → s.locked ≡ false
      → Step s (record { locked = true; pc = update s.pc i holding })
  -- `compare_exchange_weak` fails, because of the lock or for no reason.
  fail : (i : ℕ) → s.pc i ≡ trying → Step s (record s { pc = update s.pc i spinning })
  spin : (i : ℕ) → s.pc i ≡ spinning → s.locked ≡ true → Step s s
  retry :
      (i : ℕ)
      → s.pc i ≡ spinning
      → s.locked ≡ false
      → Step s (record s { pc = update s.pc i trying })
  -- The guard's drop.
  release :
      (i : ℕ) → s.pc i ≡ holding → Step s (record { locked = false; pc = update s.pc i outside })

abbrev pub new : System
new = record { locked = false; pc = λ _. outside }

pub data Reach : System → Type 0 where
  start : Reach new
  later : {s t : System} → Reach s → Step s t → Reach t

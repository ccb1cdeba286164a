-- ===== src/Spin/Examples.antt =====
-- The spin lock at work: thread 3 has it.
use cmpth_rs.Prelude.{ℕ, ◌≡◌, refl, true, update, ℕ_discrete}
use cmpth_rs.Spin.{outside, trying, holding, System, call, acquire, Reach, start, later}
use cmpth_rs.Spin.Safety.{spin_exclusion}

abbrev taken : System
taken = record { locked = true; pc = update (update (λ _. outside) 3 trying) 3 holding }

taken-Reach : Reach taken
unfolding ℕ_discrete
taken-Reach = later (later start (call 3 refl)) (acquire 3 refl refl)

spin_exclusion_example :
    ((i j : ℕ) → taken.pc i ≡ holding → taken.pc j ≡ holding → i ≡ j)
    × ((i : ℕ) → taken.pc i ≡ holding → taken.locked ≡ true)
    × (taken.locked ≡ true → (i : ℕ) × (taken.pc i ≡ holding))
spin_exclusion_example = spin_exclusion taken-Reach

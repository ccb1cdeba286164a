-- ===== src/Steal/Examples.antt =====
-- Tests and instances for the steal policies.
use cmpth_rs.Prelude.{
  ◌==◌, if◌then◌else◌, ℕ, ◌<◌, ◌≡◌, ◌≢◌, refl, [], ◌∷◌, false, arith, Among, Distinct,
}
use cmpth_rs.RunQueue.Contract.{Steal, success, empty, retry}
use cmpth_rs.Steal.{sweep_from, sweep, sweep_try_steal}
use cmpth_rs.Steal.Means.{Means}
use cmpth_rs.Steal.Sweep.{sweep-Means}

abbrev nobody : ℕ → Steal ℕ
nobody v = empty

abbrev only_third : ℕ → Steal ℕ
only_third v = if v == 3 then success 7 else retry

-- Five workers, worker 2 sweeps from 3 on.
test_nobody : sweep nobody 3 2 5 ≡ (empty, 3 ∷ 4 ∷ 0 ∷ 1 ∷ [])
unfolding sweep sweep_from
test_nobody = refl

test_found : sweep only_third 1 2 5 ≡ (success 7, 1 ∷ 3 ∷ [])
unfolding sweep sweep_from
test_found = refl

test_moves_on : (sweep_try_steal nobody 3 2 5).1 ≡ 4
unfolding sweep_try_steal
test_moves_on = refl

sweep-Means_example :
    Means nobody (λ v. (v < 5) × (v ≢ 2)) false (sweep nobody 3 2 5).0 (sweep nobody 3 2 5).1
    × Distinct (sweep nobody 3 2 5).1
    × ((v : ℕ) → Among v (sweep nobody 3 2 5).1 → (v < 5) × (v ≢ 2))
sweep-Means_example = sweep-Means nobody 3 2 5 (omega arith) (omega arith)

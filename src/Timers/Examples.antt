-- ===== src/Timers/Examples.antt =====
-- Tests and instances for the timers.
use cmpth_rs.Prelude.{ℕ, ◌≤◌, ◌<◌, ◌≡◌, refl, ◌⊎◌, true, false, [], ◌∷◌, Among, ℕ_discrete}
use cmpth_rs.Timers.{
  Timers, init, start_sleep, fire_loop, fire_timers, Reach, begin, later, started,
}
use cmpth_rs.Timers.Fire.{Unchanged, Fires, IsDue}
use cmpth_rs.Timers.Armed.{Covers, sleeper-Covers, fire_timers-Fires}

-- Task 7 sleeps until 30, then task 8 until 20.
abbrev two_sleepers : Timers
two_sleepers = start_sleep 20 8 (start_sleep 30 7 init)

two_sleepers-Reach : Reach two_sleepers
two_sleepers-Reach = later (later begin (started 30 7)) (started 20 8)

test_order : two_sleepers.heap ≡ (20, 1) ∷ (30, 0) ∷ []
test_order = refl

test_fire : (fire_timers 25 two_sleepers).1 ≡ 8 ∷ []
unfolding fire_timers fire_loop ℕ_discrete
test_fire = refl

sleeper-Covers_example : Among (30, 0) two_sleepers.heap × Covers two_sleepers 30
unfolding ℕ_discrete
sleeper-Covers_example = sleeper-Covers two_sleepers-Reach 0 refl

fire_timers-Fires_example :
    ((at id : ℕ)
      → Among (at, id) two_sleepers.heap
      → at ≤ 25
      → two_sleepers.slots id ≡ true
      → Fires id two_sleepers (fire_timers 25 two_sleepers))
    × ((id : ℕ)
        → (two_sleepers.slots id ≡ false) ⊎ ((at : ℕ) → Among (at, id) two_sleepers.heap → 25 < at)
        → Unchanged id two_sleepers (fire_timers 25 two_sleepers).0)
    × ((task : ℕ)
        → Among task (fire_timers 25 two_sleepers).1
        → IsDue 25 two_sleepers.heap two_sleepers task)
fire_timers-Fires_example = fire_timers-Fires two_sleepers-Reach 25

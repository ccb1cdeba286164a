-- ===== src/Duty/Examples.antt =====
-- Tests and instances for the duties.
use cmpth_rs.Prelude.{ℕ, ◌≡◌, refl, ◌∷◌, [], true, false, some, arith, min, Among, Distinct, ◌≢◌}
use cmpth_rs.Duty.Park.{KeepsTime, Taken, park_timeout-KeepsTime}
use cmpth_rs.Duty.Registry.{park_timeout}
use cmpth_rs.Duty.{anywhere, Inner, never, due, half_due, new_inner, effective_period}
use cmpth_rs.Duty.Range.{IsTuned}
use cmpth_rs.Duty.Registry.{Registry, Answers, idle_slow, set_period}
use cmpth_rs.Duty.Polls.{PolledIfHalfDue}
use cmpth_rs.Duty.Plan.{Watched}
use cmpth_rs.Duty.Schedule.{period_set, Rescheduled-Watched}
use cmpth_rs.Duty.Idle.{Looks, idle_slow-polls}

-- A duty of 1 ms that may back off to 8 ms.
abbrev progress : Inner
progress = new_inner 0 1000000 8000000 1000000 anywhere

progress-IsTuned : IsTuned progress
progress-IsTuned = record {
  low = omega arith;
  above = omega arith;
  below = omega arith;
  high = omega arith;
  wait = omega arith;
  idle = omega arith;
}

test_due : due progress ≡ 1000000
unfolding due effective_period min
test_due = refl

test_half_due : half_due progress ≡ 500000
unfolding half_due effective_period min
test_half_due = refl

abbrev registry : Registry
registry = record {
  inner = λ _. progress;
  reg = 0 ∷ [];
  started = true;
  token = false;
  active = 1;
  waiters = 0;
  half_due_at = 500000;
  planned = 1000000;
  timed = false;
  timed_until = never;
}

abbrev answers : Answers
answers = record { did = λ _. true; rearmed = λ _. never; clock = λ _. 2000000 }

only_duty : Distinct {A = ℕ} (0 ∷ [])
only_duty = (λ m. m, tt)

Rescheduled-Watched_example :
    Watched 0 (set_period 0 (some (2000, 4000)) registry)
    × ((j : ℕ) → 0 ≢ j → Watched j registry → Watched j (set_period 0 (some (2000, 4000)) registry))
Rescheduled-Watched_example = Rescheduled-Watched (period_set registry (some (2000, 4000))) refl

looks : Looks registry
unfolding half_due effective_period min
looks j m any = omega arith

idle_slow-polls_example :
    ((j : ℕ)
      → Among j (0 ∷ [])
      → PolledIfHalfDue answers j progress 700000
          ((idle_slow 700000 true answers registry).inner j))
    × Looks (idle_slow 700000 true answers registry)
idle_slow-polls_example = idle_slow-polls 700000 answers registry only_duty looks

-- A worker that is about to park takes the role.
park_timeout-KeepsTime_example :
    KeepsTime 100 registry (park_timeout false true 100 registry)
    × (false ≡ false → Taken 100 registry → (park_timeout false true 100 registry).0.1 ≡ false)
park_timeout-KeepsTime_example = park_timeout-KeepsTime false 100 registry refl

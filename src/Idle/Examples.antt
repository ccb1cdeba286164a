-- ===== src/Idle/Examples.antt =====
-- The idle policies at work: tests, and the theorems at concrete inputs.
use cmpth_rs.Prelude.{ℕ, ◌<◌, ◌≡◌, refl, true, false, arith, update, ℕ_discrete}
use cmpth_rs.Idle.Park.{
  System, init, ready, published, closed, is_blocked, produce, publish, nobody, finish, close_bump,
  wake_all, Reach, start, later,
}
use cmpth_rs.Idle.Park.Inv.{active}
use cmpth_rs.Idle.Park.Safety.{no_lost_wakeup, shutdown_wakes}

-- One worker, which has not looked yet, and one item, whose producer saw nobody registered.
abbrev offered : System
offered = record init {
  mem = record init.mem { work = 1 };
  producer = update (update init.producer 0 published) 0 ready;
}

offered-Reach : Reach 1 offered
unfolding ℕ_discrete
offered-Reach = later (later start (produce 0 publish)) (produce 0 (nobody refl))

offered-ready : (k : ℕ) → offered.producer k ≡ ready
offered-ready k = ground arith

no_lost_wakeup_example : (i : ℕ) × (i < 1) × (active 0 (offered.worker i) ≡ true)
no_lost_wakeup_example =
    no_lost_wakeup (omega arith) offered-Reach (omega arith) offered-ready refl (omega arith)

abbrev stopped : System
stopped = record init {
  mem = record init.mem { epoch = 1; bumps = 1; finished = true };
  closer = closed;
}

stopped-Reach : Reach 1 stopped
stopped-Reach = later (later (later start (finish refl)) (close_bump refl)) (wake_all refl)

shutdown_wakes_example : is_blocked (stopped.worker 0) ≡ false
shutdown_wakes_example = shutdown_wakes (omega arith) stopped-Reach (omega arith) refl 0

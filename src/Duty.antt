-- ===== src/Duty.antt =====
-- src/duty.rs: a duty, its due times, and what a poll or a touch does to them. Times are
-- nanoseconds as `u64`; what `now_ns` and `poll` answer are arguments.
mod Registry
mod Range
mod Backoff
mod Polls
mod Pass
mod Plan
mod Schedule
mod Park
mod Idle
mod Examples
use cmpth_rs.Prelude.{
  ℕ, suc, ◌+◌, ◌-◌, ◌*◌, ◌/◌, ◌%◌, ◌^◌, ◌≤◌, Bool, true, false, Option, none, some, ltb, leb, ◌==◌,
  ◌&&◌, not, if◌then◌else◌, min, max,
}

abbrev pub idle_polls_max : ℕ
idle_polls_max = 50

-- `NEVER`, `u64::MAX`
abbrev pub never : ℕ
never = 18446744073709551615

abbrev pub eager_ns : ℕ
eager_ns = 1000

pub data DutyPlace : Type 0 where
  anywhere : DutyPlace
  keeper : DutyPlace

pub record Inner : Type 0 where
  pub place : DutyPlace
  pub last : ℕ
  pub period : ℕ
  pub min_period : ℕ
  pub max_period : ℕ
  pub wait_period : ℕ
  pub waiters : ℕ
  pub deadline : ℕ
  pub idle_polls : ℕ
  pub keeper_polls : ℕ
  pub worker_polls : ℕ

abbrev pub saturating_add : ℕ → ℕ → ℕ
saturating_add a b = min (a + b) never

abbrev pub wrapping_sub : ℕ → ℕ → ℕ
wrapping_sub a b = (a + 2 ^ 64 - b) % 2 ^ 64

pub effective_period : Inner → ℕ
effective_period d = if d.waiters == 0 then d.period else min d.period d.wait_period

pub due : Inner → ℕ
unfolding effective_period
due d = min (saturating_add d.last (effective_period d)) d.deadline

pub half_due : Inner → ℕ
unfolding effective_period
half_due d =
    let gap = if d.waiters == 0 then effective_period d / 2 else eager_ns in
    min (saturating_add d.last gap) d.deadline

-- The grain below which a touch is not stored.
pub grain : Inner → ℕ
grain d = min d.min_period d.wait_period / 4

pub touch : ℕ → Inner → Inner
unfolding grain
touch now d =
    if ltb (grain d) (wrapping_sub now d.last)
    then if d.period == d.min_period
      then record d { last = now }
      else record d { last = now; period = d.min_period; idle_polls = 0 }
    else d

-- After a poll that did nothing, if the period may grow.
pub back_off : Inner → Inner
back_off d =
    if leb idle_polls_max (d.idle_polls + 1)
    then record d { period = min (min (d.period * 2) never) d.max_period; idle_polls = 0 }
    else record d { idle_polls = d.idle_polls + 1 }

abbrev pub count_poll : Bool → Inner → Inner
count_poll true d = record d { keeper_polls = d.keeper_polls + 1 }
count_poll false d = record d { worker_polls = d.worker_polls + 1 }

-- `did` is the answer of `poll`, `rearmed` the deadline that it leaves, which is `never` before it and
-- which only the duty's own poll sets meanwhile, `now` the time after it.
pub run : Bool → ℕ → ℕ → Bool → Inner → Inner
unfolding back_off
run did rearmed now by_keeper d =
    let polled = record d { deadline = rearmed; last = now } in
    count_poll by_keeper (
      if did
      then record polled { period = d.min_period; idle_polls = 0 }
      else if ltb d.min_period d.max_period
      then back_off polled
      else polled)

-- `ns` of a duration in nanoseconds.
abbrev pub ns : ℕ → ℕ
ns d = min d (never - 1)

-- `min` and `max` of `duty` and `set_period`.
abbrev pub bounds : ℕ → ℕ → ℕ × ℕ
bounds period max_period = let low = max (ns period) 1000 in (low, max (ns max_period) low)

abbrev pub period_bounds : Option (ℕ × ℕ) → ℕ × ℕ
period_bounds none = (never, never)
period_bounds (some (p, m)) = bounds p m

-- `register`'s new `Inner`
abbrev pub new_inner : ℕ → ℕ → ℕ → ℕ → DutyPlace → Inner
new_inner now low high wait place = record {
  place = place;
  last = now;
  period = low;
  min_period = low;
  max_period = high;
  wait_period = wait;
  waiters = 0;
  deadline = never;
  idle_polls = 0;
  keeper_polls = 0;
  worker_polls = 0;
}

-- The stores of `set_period`, `set_wait_period` and `set_deadline`, each before `replan`.
abbrev pub store_period : Option (ℕ × ℕ) → Inner → Inner
store_period o d = record d {
  min_period = (period_bounds o).0;
  max_period = (period_bounds o).1;
  period = (period_bounds o).0;
  idle_polls = 0;
}

abbrev pub store_wait_period : ℕ → Inner → Inner
store_wait_period wait d = record d { wait_period = max (ns wait) 1000 }

-- `at`: the time since the process's first use of the clock, 0 before it.
abbrev pub deadline_ns : Option ℕ → ℕ
deadline_ns none = never
deadline_ns (some at) = ns at

abbrev pub store_deadline : Option ℕ → Inner → Inner
store_deadline at d = record d { deadline = deadline_ns at }

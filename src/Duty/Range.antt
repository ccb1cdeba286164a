-- ===== src/Duty/Range.antt =====
-- The ranges of a duty's fields, and its two due times.
use cmpth_rs.Prelude.{
  ℕ, ◌+◌, ◌-◌, ◌*◌, ◌/◌, ◌≤◌, ◌<◌, inl, inr, Bool, true, false, Option, none, some, arith, ltb, leb,
  ◌==◌, min, max, min-le_right, le-min, le-max_right, max-le, min_mono, Bool-cases,
}
use cmpth_rs.Duty.{
  idle_polls_max, never, eager_ns, DutyPlace, Inner, effective_period, due, half_due, grain, touch,
  back_off, count_poll, run, ns, bounds, new_inner, store_period, store_wait_period, store_deadline,
  wrapping_sub,
}

pub record Ranges (min_period period max_period wait_period idle_polls : ℕ) : Type 0 where
  pub low : 1000 ≤ min_period
  pub above : min_period ≤ period
  pub below : period ≤ max_period
  pub high : max_period ≤ never
  pub wait : 1000 ≤ wait_period
  pub idle : idle_polls < idle_polls_max

abbrev pub IsTuned : Inner → Type 0
IsTuned d = Ranges d.min_period d.period d.max_period d.wait_period d.idle_polls

-- All that is ever done to a duty's `Inner`.
pub data Change : Inner → Inner → Type 0 where
  touched : (d : Inner) (now : ℕ) → Change d (touch now d)
  polled :
      (d : Inner) (did : Bool) (rearmed now : ℕ) (by_keeper : Bool)
      → Change d (run did rearmed now by_keeper d)
  set_period : (d : Inner) (o : Option (ℕ × ℕ)) → Change d (store_period o d)
  set_wait_period : (d : Inner) (wait : ℕ) → Change d (store_wait_period wait d)
  set_deadline : (d : Inner) (at : Option ℕ) → Change d (store_deadline at d)
  new_waiter : (d : Inner) → Change d (record d { waiters = d.waiters + 1 })
  drop_waiter : (d : Inner) → Change d (record d { waiters = d.waiters - 1 })

bounds-low : (p m : ℕ) → 1000 ≤ (bounds p m).0
bounds-low p m = le-max_right (ns p) 1000

bounds-ordered : (p m : ℕ) → (bounds p m).0 ≤ (bounds p m).1
bounds-ordered p m = le-max_right (ns m) _

bounds-high : (p m : ℕ) → (bounds p m).1 ≤ never
bounds-high p m =
    max-le (ns m) (max (ns p) 1000) never (omega (arith, min-le_right m (never - 1)))
      (max-le (ns p) 1000 never (omega (arith, min-le_right p (never - 1))) (omega arith))

touch-IsTuned : (now : ℕ) (d : Inner) → IsTuned d → IsTuned (touch now d)
unfolding touch
touch-IsTuned now d h = elim (Bool-cases (ltb (grain d) (wrapping_sub now d.last))) [
  | inr fresh ↦ rw fresh h
  | inl stale ↦ elim (Bool-cases (d.period == d.min_period)) [
    | inl short ↦ rw (stale, short) h
    | inr long ↦
        rw (stale, long)
          (record {
            low = h.low;
            above = omega arith;
            below = omega (arith, h.above, h.below);
            high = h.high;
            wait = h.wait;
            idle = omega arith;
          })
  ]
]

back_off-IsTuned : (d : Inner) → IsTuned d → IsTuned (back_off d)
unfolding back_off
back_off-IsTuned d h = elim (Bool-cases (leb idle_polls_max (d.idle_polls + 1))) [
  | inl idle_long ↦ rw idle_long (record {
    low = h.low;
    above =
        le-min d.min_period (min (d.period * 2) never) d.max_period
          (le-min d.min_period (d.period * 2) never (omega (arith, h.above))
            (omega (arith, h.above, h.below, h.high)))
          (omega (arith, h.above, h.below));
    below = min-le_right (min (d.period * 2) never) d.max_period;
    high = h.high;
    wait = h.wait;
    idle = omega arith;
  })
  | inr idle_short ↦ rw idle_short (record {
    low = h.low;
    above = h.above;
    below = h.below;
    high = h.high;
    wait = h.wait;
    idle = ground (arith, idle_short);
  })
]

count_poll-IsTuned : (by_keeper : Bool) (d : Inner) → IsTuned d → IsTuned (count_poll by_keeper d)
count_poll-IsTuned true d h = h
count_poll-IsTuned false d h = h

run-IsTuned :
    (did : Bool) (rearmed now : ℕ) (by_keeper : Bool) (d : Inner)
    → IsTuned d
    → IsTuned (run did rearmed now by_keeper d)
unfolding run
run-IsTuned true rearmed now by_keeper d h = count_poll-IsTuned by_keeper _ (record {
  low = h.low;
  above = omega arith;
  below = omega (arith, h.above, h.below);
  high = h.high;
  wait = h.wait;
  idle = omega arith;
})
run-IsTuned false rearmed now by_keeper d h =
    count_poll-IsTuned by_keeper _ (elim (Bool-cases (ltb d.min_period d.max_period)) [
      | inl grows ↦ rw grows (back_off-IsTuned _ h)
      | inr fixed ↦ rw fixed h
    ])

-- Any two bounds in order, with the period at the lower.
module _ (b : ℕ × ℕ) (low : 1000 ≤ b.0) (ordered : b.0 ≤ b.1) (high : b.1 ≤ never) where
  restarted :
      (d : Inner)
      → IsTuned d
      → IsTuned (record d { min_period = b.0; max_period = b.1; period = b.0; idle_polls = 0 })
  restarted d h = record {
    low = low;
    above = omega arith;
    below = ordered;
    high = high;
    wait = h.wait;
    idle = omega arith;
  }

  new_inner-IsTuned :
      (now wait : ℕ) (place : DutyPlace) → 1000 ≤ wait → IsTuned (new_inner now b.0 b.1 wait place)
  new_inner-IsTuned now wait place w = record {
    low = low;
    above = omega arith;
    below = ordered;
    high = high;
    wait = w;
    idle = omega arith;
  }

-- The minimal and the maximal period, and the number of fruitless polls, stay in their ranges:
-- every change to a duty keeps 1 µs ≤ minimal period ≤ period ≤ maximal period ≤ `u64::MAX`, a
-- waiting period of at least 1 µs, and fewer than `IDLE_POLLS` fruitless polls counted.
pub Change-IsTuned : {d d' : Inner} → Change d d' → IsTuned d → IsTuned d'
Change-IsTuned (touched d now) h = touch-IsTuned now d h
Change-IsTuned (polled d did rearmed now by_keeper) h = run-IsTuned did rearmed now by_keeper d h
Change-IsTuned (set_period d none) h =
    restarted (never, never) (omega arith) (omega arith) (omega arith) d h
Change-IsTuned (set_period d (some (p, m))) h =
    restarted (bounds p m) (bounds-low p m) (bounds-ordered p m) (bounds-high p m) d h
Change-IsTuned (set_wait_period d wait) h = record {
  low = h.low;
  above = h.above;
  below = h.below;
  high = h.high;
  wait = le-max_right (ns wait) 1000;
  idle = h.idle;
}
Change-IsTuned (set_deadline d at) h = h
Change-IsTuned (new_waiter d) h = h
Change-IsTuned (drop_waiter d) h = h

-- A duty whose fields are in their ranges is half due no later than it is due: an idle worker may
-- run it before the keeper must.
pub half_due-le-due : (d : Inner) → IsTuned d → half_due d ≤ due d
unfolding half_due due effective_period
half_due-le-due d h = elim (Bool-cases (d.waiters == 0)) [
  | inl alone ↦ rw alone (sooner (d.period / 2) d.period (omega arith))
  | inr waited ↦ rw waited (
      sooner eager_ns (min d.period d.wait_period) (
        le-min eager_ns d.period d.wait_period (omega (arith, h.low, h.above))
          (omega (arith, h.wait))))
]
  where
    sooner :
        (a b : ℕ)
        → a ≤ b
        → min (min (d.last + a) never) d.deadline ≤ min (min (d.last + b) never) d.deadline
    sooner a b le =
        min_mono (min (d.last + a) never) d.deadline (min (d.last + b) never) d.deadline
          (min_mono (d.last + a) never (d.last + b) never (omega arith) (omega arith)) (omega arith)

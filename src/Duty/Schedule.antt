-- ===== src/Duty/Schedule.antt =====
-- What may bring a duty's due time forward, and who is told.
use cmpth_rs.Prelude.{
  ℕ, ◌+◌, ◌≤◌, ◌<◌, ◌≡◌, ◌≢◌, refl, sym, subst, inl, inr, true, Option, arith, ltb, ◌==◌, update,
  update_ne, Bool-cases, min, min_cases, min-le_left, ◌/◌,
}
use cmpth_rs.Duty.{
  DutyPlace, Inner, never, due, half_due, store_period, store_wait_period, store_deadline,
  new_inner, grain, touch, wrapping_sub, effective_period,
}
use cmpth_rs.Duty.Registry.{
  Registry, with_inner, register, set_period, set_wait_period, set_deadline, waiter, add_waiter,
  entered, counted,
}
use cmpth_rs.Duty.Plan.{Seen, Watched, replan-Watched, replan-others}

-- The operations that bring the due time of `id` forward and `replan` it. (A touch, which may bring it
-- forward too, does not.)
pub data Rescheduled (id : ℕ) : Registry → Registry → Type 0 where
  registered :
      (r : Registry) (now low high wait : ℕ) (place : DutyPlace)
      → Rescheduled id r (register id now low high wait place r)
  period_set : (r : Registry) (o : Option (ℕ × ℕ)) → Rescheduled id r (set_period id o r)
  wait_period_set : (r : Registry) (wait : ℕ) → Rescheduled id r (set_wait_period id wait r)
  deadline_set : (r : Registry) (at : Option ℕ) → Rescheduled id r (set_deadline id at r)
  first_waiter : (r : Registry) → (r.inner id).waiters ≡ 0 → Rescheduled id r (waiter id r)

-- Another duty is seen as before.
unseen :
    (id j : ℕ) (d : Inner) (r : Registry)
    → id ≢ j
    → Watched j r
    → Seen r.planned r.token r.half_due_at (update r.inner id d j)
unseen id j d r ne w =
    subst (λ x. Seen r.planned r.token r.half_due_at x) (sym (update_ne r.inner d ne)) w

no_waiter : {id : ℕ} (r : Registry) → (r.inner id).waiters ≡ 0 → ((r.inner id).waiters == 0) ≡ true
no_waiter r e = ground (arith, e)

-- With the keeper started, after the registration of a duty, a `set_period`, `set_wait_period` or
-- `set_deadline` of it, or its first waiter, the keeper wakes up by its due time or has been woken, and
-- idle workers look by the time it is half due if it may run anywhere; the other duties of which this was
-- true are still so.
pub Rescheduled-Watched :
    {id : ℕ} {r r' : Registry}
    → Rescheduled id r r'
    → r.started ≡ true
    → Watched id r' × ((j : ℕ) → id ≢ j → Watched j r → Watched j r')
unfolding register set_period set_wait_period set_deadline waiter
Rescheduled-Watched {id} (registered r now low high wait place) on = (
  replan-Watched id (entered id (new_inner now low high wait place) r) refl,
  λ j ne w.
      replan-others id j (entered id (new_inner now low high wait place) r)
        (unseen id j (new_inner now low high wait place) r ne w),
)
Rescheduled-Watched {id} (period_set r o) on = (
  replan-Watched id (with_inner id (store_period o) r) on,
  λ j ne w.
      replan-others id j (with_inner id (store_period o) r)
        (unseen id j (store_period o (r.inner id)) r ne w),
)
Rescheduled-Watched {id} (wait_period_set r wait) on = (
  replan-Watched id (with_inner id (store_wait_period wait) r) on,
  λ j ne w.
      replan-others id j (with_inner id (store_wait_period wait) r)
        (unseen id j (store_wait_period wait (r.inner id)) r ne w),
)
Rescheduled-Watched {id} (deadline_set r at) on = (
  replan-Watched id (with_inner id (store_deadline at) r) on,
  λ j ne w.
      replan-others id j (with_inner id (store_deadline at) r)
        (unseen id j (store_deadline at (r.inner id)) r ne w),
)
Rescheduled-Watched {id} (first_waiter r none_yet) on = rw (no_waiter r none_yet) (
  replan-Watched id (counted id r) on,
  λ j ne w. replan-others id j (counted id r) (unseen id j (add_waiter (r.inner id)) r ne w),
)

-- A touch brings both due times of a duty without waiters and deadline forward, if it is stored,
-- the minimal period and its half end, from now, before the old period and its half do, and the old
-- due time does not exceed `u64`.
touch-due_earlier :
    (now : ℕ) (d : Inner)
    → d.waiters ≡ 0
    → d.deadline ≡ never
    → grain d < wrapping_sub now d.last
    → now + d.min_period < d.last + d.period
    → now + d.min_period / 2 < d.last + d.period / 2
    → d.last + d.period ≤ never
    → (due (touch now d) < due d) × (half_due (touch now d) < half_due d)
unfolding touch due half_due effective_period
touch-due_earlier now d alone no_deadline stored earlier half_earlier fits =
    elim (Bool-cases (d.period == d.min_period)) [
      | inl short ↦
          rw (flag, short, alone, no_deadline)
            (
              sooner _ _ (omega (arith, equal _ _ short)) fits,
              sooner _ _ (omega (arith, equal _ _ short)) (omega arith),
            )
      | inr long ↦
          rw (flag, long, alone, no_deadline)
            (sooner _ _ earlier fits, sooner _ _ half_earlier (omega arith))
    ]
  where
    equal : (a b : ℕ) → (a == b) ≡ true → a ≡ b
    equal a b e = ground arith

    flag : ltb (grain d) (wrapping_sub now d.last) ≡ true
    flag = ground arith

    sooner : (a b : ℕ) → a < b → b ≤ never → min (min a never) never < min (min b never) never
    sooner a b lt le = ground (
      arith,
      min_cases a never,
      min_cases b never,
      min_cases (min a never) never,
      min_cases (min b never) never,
      min-le_left a never,
    )

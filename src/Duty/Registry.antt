-- ===== src/Duty/Registry.antt =====
-- `DutyRegistry`: the registered duties, the plan of the keeper and the role of the timed worker.
-- A duty is a number; handles name duties that are registered.
use cmpth_rs.Prelude.{
  ℕ, ◌+◌, ◌-◌, Bool, true, false, not, ◌&&◌, ◌||◌, Option, none, some, List, [], ◌∷◌, ltb, leb,
  ◌==◌, if◌then◌else◌, min, max, update,
}
use cmpth_rs.Duty.{
  DutyPlace, anywhere, keeper, Inner, never, due, half_due, run, ns, bounds, new_inner,
  store_period, store_wait_period, store_deadline, saturating_add,
}

-- The keeper thread, once started, has a token that `unpark` sets and `park` takes.
pub record Registry : Type 0 where
  pub inner : ℕ → Inner
  pub reg : List ℕ
  pub started : Bool
  pub token : Bool
  pub active : ℕ
  pub waiters : ℕ
  pub half_due_at : ℕ
  pub planned : ℕ
  pub timed : Bool
  pub timed_until : ℕ

abbrev pub timed_slack : ℕ
timed_slack = 1000000

abbrev pub is_anywhere : DutyPlace → Bool
is_anywhere anywhere = true
is_anywhere keeper = false

abbrev pub unpark : Registry → Registry
unpark r = record r { token = if r.started then true else r.token }

abbrev pub lower_half_due : Inner → Registry → Registry
lower_half_due d r = record r {
  half_due_at = if is_anywhere d.place then min r.half_due_at (half_due d) else r.half_due_at;
}

unfoldable pub replan : ℕ → Registry → Registry
replan id r =
    let lowered = lower_half_due (r.inner id) r in
    if ltb (due (r.inner id)) r.planned then unpark lowered else lowered

abbrev pub with_inner : ℕ → (Inner → Inner) → Registry → Registry
with_inner id f r = record r { inner = update r.inner id (f (r.inner id)) }

abbrev pub push_back : List ℕ → ℕ → List ℕ
push_back [] id = id ∷ []
push_back (x ∷ xs) id = x ∷ push_back xs id

-- The push, and the keeper's start with the first registration.
abbrev pub entered : ℕ → Inner → Registry → Registry
entered id d r = record r {
  inner = update r.inner id d;
  reg = push_back r.reg id;
  active = r.active + 1;
  started = true;
}

-- `id` is the address of the new `Inner`.
unfoldable pub register : ℕ → ℕ → ℕ → ℕ → ℕ → DutyPlace → Registry → Registry
unfolding replan
register id now low high wait place r = replan id (entered id (new_inner now low high wait place) r)

unfoldable pub duty : ℕ → ℕ → ℕ → ℕ → DutyPlace → Registry → Registry
unfolding register
duty id now period max_period place =
    register id now (bounds period max_period).0 (bounds period max_period).1
      (bounds period max_period).0 place

unfoldable pub on_demand : ℕ → ℕ → ℕ → DutyPlace → Registry → Registry
unfolding register
on_demand id now wait_period place = register id now never never (max (ns wait_period) 1000) place

unfoldable pub set_period : ℕ → Option (ℕ × ℕ) → Registry → Registry
unfolding replan
set_period id o r = replan id (with_inner id (store_period o) r)

unfoldable pub set_wait_period : ℕ → ℕ → Registry → Registry
unfolding replan
set_wait_period id wait r = replan id (with_inner id (store_wait_period wait) r)

unfoldable pub set_deadline : ℕ → Option ℕ → Registry → Registry
unfolding replan
set_deadline id at r = replan id (with_inner id (store_deadline at) r)

abbrev pub add_waiter : Inner → Inner
add_waiter d = record d { waiters = d.waiters + 1 }

abbrev pub counted : ℕ → Registry → Registry
counted id r = with_inner id add_waiter (record r { waiters = r.waiters + 1 })

-- `DutyWaiter::new`
unfoldable pub waiter : ℕ → Registry → Registry
unfolding replan
waiter id r = if (r.inner id).waiters == 0 then replan id (counted id r) else counted id r

-- `DutyWaiter::drop`
pub drop_waiter : ℕ → Registry → Registry
drop_waiter id r =
    with_inner id (λ d. record d { waiters = d.waiters - 1 }) (record r { waiters = r.waiters - 1 })

abbrev pub retain_others : ℕ → List ℕ → List ℕ
retain_others id [] = []
retain_others id (x ∷ xs) = let rest = retain_others id xs in if x == id then rest else x ∷ rest

-- `Duty::drop`
pub drop_duty : ℕ → Registry → Registry
drop_duty id r = record r { reg = retain_others id r.reg; active = r.active - 1 }

-- The least `f` of the duties that may run anywhere, `never` without one.
abbrev pub earliest : (Inner → ℕ) → (ℕ → Inner) → List ℕ → ℕ
earliest f inner [] = never
earliest f inner (x ∷ xs) =
    let rest = earliest f inner xs in
    if is_anywhere (inner x).place then min (f (inner x)) rest else rest

unfoldable pub update_half_due : Registry → Registry
update_half_due r = record r { half_due_at = earliest half_due r.inner r.reg }

-- What the polls of a pass answer, the deadline that each leaves, as `fire_timers` stores it without a
-- `replan`, and the time after each.
pub record Answers : Type 0 where
  pub did : ℕ → Bool
  pub rearmed : ℕ → ℕ
  pub clock : ℕ → ℕ

abbrev pub polled : Answers → Bool → ℕ → Inner → Inner
polled ans by_keeper id d = run (ans.did id) (ans.rearmed id) (ans.clock id) by_keeper d

abbrev pub polled_if_due : ℕ → Answers → ℕ → Inner → Inner
polled_if_due now ans id d = if leb (due d) now then polled ans true id d else d

abbrev pub polled_if_half_due : ℕ → Answers → ℕ → Inner → Inner
polled_if_half_due now ans id d =
    if is_anywhere d.place && leb (half_due d) now then polled ans false id d else d

-- The loop of `keep`: the due duties are polled, and `mine` and `any` are the earliest due times.
unfoldable pub keep_pass : ℕ → Answers → List ℕ → (ℕ → Inner) → ℕ → ℕ → (ℕ → Inner) × ℕ × ℕ
keep_pass now ans [] inner mine any = (inner, mine, any)
keep_pass now ans (id ∷ ids) inner mine any =
    let d = polled_if_due now ans id (inner id) in
    keep_pass now ans ids (update inner id d)
      (if is_anywhere d.place then mine else min mine (due d))
      (if is_anywhere d.place then min any (due d) else any)

abbrev pub covered : Registry → ℕ → ℕ
covered r any =
    if (r.timed && leb r.timed_until any) && not (r.timed_until == never)
    then saturating_add r.timed_until timed_slack
    else any

-- One round of `keep` up to its park: the token was taken when it woke up.
unfoldable pub keep_round : ℕ → Answers → Registry → Registry
unfolding keep_pass update_half_due
keep_round now ans r =
    let pass = keep_pass now ans r.reg r.inner never never in
    let refreshed = update_half_due (record r { inner = pass.0; token = false; planned = never }) in
    record refreshed { planned = min pass.1 (covered r pass.2) }

-- The loop of `idle_slow`.
unfoldable pub idle_pass : ℕ → Answers → List ℕ → (ℕ → Inner) → ℕ → Inner
idle_pass now ans [] inner = inner
idle_pass now ans (id ∷ ids) inner =
    idle_pass now ans ids (update inner id (polled_if_half_due now ans id (inner id)))

-- `free`: `try_lock` got the registry's lock.
unfoldable pub idle_slow : ℕ → Bool → Answers → Registry → Registry
unfolding idle_pass update_half_due
idle_slow now free ans r =
    if ltb now r.half_due_at
    then r
    else if free
    then update_half_due (record r { inner = idle_pass now ans r.reg r.inner })
    else r

unfoldable pub run_idle : ℕ → Bool → Answers → Registry → Registry
unfolding idle_slow
run_idle now free ans r = if r.active == 0 then r else idle_slow now free ans r

unfoldable pub release_timed : Registry → Registry
release_timed r = unpark (record r { timed_until = never; timed = false })

-- `idle_done`, with the caller's `timed`
unfoldable pub idle_done : Bool → Registry → Bool × Registry
unfolding release_timed
idle_done timed r = (false, release_timed r)

abbrev pub sleep_ns : ℕ → ℕ → ℕ
sleep_ns until now = max (until - now) 1000

-- `park_timeout` of a worker that keeps the due times or not: how long it may sleep, whether it
-- keeps them now, and the registry. `until` is the load before the swap.
unfoldable pub park_timeout : Bool → Bool → ℕ → Registry → (Option ℕ × Bool) × Registry
unfolding idle_done
park_timeout timed free now r =
    let next = earliest due r.inner r.reg in
    if r.active == 0
    then ((none, timed), r)
    else if not free
    then if timed then ((some (sleep_ns r.timed_until now), true), r) else ((none, false), r)
    else if next == never
    then if timed
      then ((none, (idle_done timed r).0), (idle_done timed r).1)
      else ((none, false), r)
    else if not timed
        && (r.timed
            && (r.timed_until == never || ltb now (saturating_add r.timed_until timed_slack)))
    then ((none, false), record r { timed = true })
    else ((some (sleep_ns next now), true), record r { timed = true; timed_until = next })

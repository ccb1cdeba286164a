-- ===== src/Duty/Polls.antt =====
-- A poll of a duty (`run` of src/duty.rs), told apart from no poll by what it leaves.
use cmpth_rs.Prelude.{ℕ, ◌+◌, ◌≤◌, ◌<◌, ◌≡◌, refl, true, false, arith, leb, ◌&&◌}
use cmpth_rs.Duty.{anywhere, keeper, Inner, due, half_due, run, back_off}
use cmpth_rs.Duty.Registry.{Answers, is_anywhere, polled, polled_if_due, polled_if_half_due}

-- `e` is `d` after one poll, by the keeper or by a worker: one of the two numbers is 1, the other 0.
pub record IsPolled (ans : Answers) (id by_keeper by_worker : ℕ) (d e : Inner) : Type 0 where
  pub last : e.last ≡ ans.clock id
  pub deadline : e.deadline ≡ ans.rearmed id
  pub keeper_polls : e.keeper_polls ≡ d.keeper_polls + by_keeper
  pub worker_polls : e.worker_polls ≡ d.worker_polls + by_worker
  pub place : e.place ≡ d.place
  pub eager : ans.did id ≡ true → (e.period ≡ d.min_period) × (e.idle_polls ≡ 0)

module _ (ans : Answers) (id : ℕ) (d : Inner) where
  polled-IsPolled : IsPolled ans id 1 0 d (polled ans true id d)
  unfolding run back_off
  polled-IsPolled = record {
    last = ground arith;
    deadline = ground arith;
    keeper_polls = ground arith;
    worker_polls = ground arith;
    place = ground arith;
    eager = λ e. (ground (arith, e), ground (arith, e));
  }

  idle_polled-IsPolled : IsPolled ans id 0 1 d (polled ans false id d)
  unfolding run back_off
  idle_polled-IsPolled = record {
    last = ground arith;
    deadline = ground arith;
    keeper_polls = ground arith;
    worker_polls = ground arith;
    place = ground arith;
    eager = λ e. (ground (arith, e), ground (arith, e));
  }

  -- The keeper polls what is due at `now`, and leaves the rest alone.
  abbrev pub PolledIfDue : ℕ → Inner → Type 0
  PolledIfDue now e = (due d ≤ now → IsPolled ans id 1 0 d e) × (now < due d → e ≡ d)

  pub polled_if_due_lem : (now : ℕ) → PolledIfDue now (polled_if_due now ans id d)
  polled_if_due_lem now = (
    λ le. let e : leb (due d) now ≡ true = ground (arith, le) in rw e polled-IsPolled,
    λ lt. let e : leb (due d) now ≡ false = ground (arith, lt) in rw e refl,
  )

  -- A worker polls what may run anywhere and is half due at `now`, and leaves the rest alone.
  abbrev pub PolledIfHalfDue : ℕ → Inner → Type 0
  PolledIfHalfDue now e =
      ((d.place ≡ anywhere) → half_due d ≤ now → IsPolled ans id 0 1 d e)
      × ((d.place ≡ keeper) → e ≡ d)
      × (now < half_due d → e ≡ d)

  pub polled_if_half_due_lem : (now : ℕ) → PolledIfHalfDue now (polled_if_half_due now ans id d)
  polled_if_half_due_lem now = (
    λ any le.
        let e : (is_anywhere d.place && leb (half_due d) now) ≡ true = ground (arith, any, le) in
        rw e idle_polled-IsPolled,
    λ mine.
        let e : (is_anywhere d.place && leb (half_due d) now) ≡ false = ground (arith, mine) in
        rw e refl,
    λ lt.
        let e : (is_anywhere d.place && leb (half_due d) now) ≡ false = ground (arith, lt) in
        rw e refl,
  )

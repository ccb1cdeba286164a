-- ===== src/Duty/Backoff.antt =====
-- How the period of a duty that never does anything grows.
use cmpth_rs.Prelude.{ℕ, zero, suc, ◌+◌, ◌*◌, ◌<◌, ◌≡◌, refl, Bool, true, false, arith, min}
use cmpth_rs.Duty.{idle_polls_max, never, Inner, back_off, run}

-- `n` polls in a row that do nothing but leave the deadlines of `rearmed`, at the times of `clock`.
abbrev pub idle_runs : ℕ → (ℕ → ℕ) → (ℕ → ℕ) → Bool → Inner → Inner
idle_runs zero rearmed clock by_keeper d = d
idle_runs (suc n) rearmed clock by_keeper d =
    run false (rearmed n) (clock n) by_keeper (idle_runs n rearmed clock by_keeper d)

-- The period after `k` doublings.
abbrev pub doubled : ℕ → Inner → ℕ
doubled zero d = d.period
doubled (suc k) d = min (min (doubled k d * 2) never) d.max_period

abbrev pub Backed : (k m : ℕ) → Inner → Inner → Type 0
Backed k m d e =
    (e.period ≡ doubled k d)
    × (e.idle_polls ≡ m)
    × (e.min_period ≡ d.min_period)
    × (e.max_period ≡ d.max_period)

one_more :
    (k m : ℕ) (rearmed now : ℕ) (by_keeper : Bool) (d e : Inner)
    → d.min_period < d.max_period
    → suc m < idle_polls_max
    → Backed k m d e
    → Backed k (suc m) d (run false rearmed now by_keeper e)
unfolding run back_off
one_more k m rearmed now true d e grows few (a, b, c, f) = ground (arith, a, b, c, f)
one_more k m rearmed now false d e grows few (a, b, c, f) = ground (arith, a, b, c, f)

last_one :
    (k m : ℕ) (rearmed now : ℕ) (by_keeper : Bool) (d e : Inner)
    → d.min_period < d.max_period
    → suc m ≡ idle_polls_max
    → Backed k m d e
    → Backed (suc k) 0 d (run false rearmed now by_keeper e)
unfolding run back_off
last_one k m rearmed now true d e grows few (a, b, c, f) = ground (arith, a, b, c, f)
last_one k m rearmed now false d e grows few (a, b, c, f) = ground (arith, a, b, c, f)

module _ (rearmed clock : ℕ → ℕ) (by_keeper : Bool) (d : Inner)
    (grows : d.min_period < d.max_period) (fresh : d.idle_polls ≡ 0) where
  -- If the period of a duty may grow and no fruitless poll is counted, then after `k` times
  -- `IDLE_POLLS` and `m < IDLE_POLLS` polls that do nothing the period has doubled `k` times, up to
  -- the maximal period, and `m` fruitless polls are counted; its bounds are unchanged.
  pub idle_runs-Backed :
      (n k m : ℕ)
      → n ≡ m + k * idle_polls_max
      → m < idle_polls_max
      → Backed k m d (idle_runs n rearmed clock by_keeper d)
  idle_runs-Backed zero zero zero e few = (refl, fresh, refl, refl)
  idle_runs-Backed zero zero (suc m) e few = absurd (omega (arith, e))
  idle_runs-Backed zero (suc k) m e few = absurd (omega (arith, e))
  idle_runs-Backed (suc n) k (suc m) e few =
      one_more k m (rearmed n) (clock n) by_keeper d _ grows few
        (idle_runs-Backed n k m (omega (arith, e)) (omega (arith, few)))
  idle_runs-Backed (suc n) (suc k) zero e few =
      last_one k 49 (rearmed n) (clock n) by_keeper d _ grows refl
        (idle_runs-Backed n k 49 (omega (arith, e)) (omega arith))
  idle_runs-Backed (suc n) zero zero e few = absurd (omega (arith, e))

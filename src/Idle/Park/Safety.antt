-- ===== src/Idle/Park/Safety.antt =====
-- No lost wakeup, and a shutdown that leaves nobody asleep.
use cmpth_rs.Prelude.{
  ℕ, ◌^◌, ◌≤◌, ◌<◌, ◌≡◌, refl, inl, inr, true, false, arith, total, total-eq-zero,
}
use cmpth_rs.Idle.Park.{
  System, Work, Produce, publish, find, Step, work, produce, close_bump, Reach, start, later,
  Producer, ready, closed, is_blocked, Shared, Worker, init, head, fresh,
}
use cmpth_rs.Idle.Park.Inv.{registers, active, Attended, Inv}
use cmpth_rs.Idle.Park.Keep.{Step-Inv}

Work-bumps : {m m' : Shared} {p p' : Worker} → Work m p m' p' → m'.bumps ≡ m.bumps
Work-bumps (find h) = refl
Work-bumps w = refl

Produce-bumps : {m m' : Shared} {p p' : Producer} → Produce m p m' p' → m.bumps ≤ m'.bumps
Produce-bumps publish = omega arith
Produce-bumps p = omega arith

Step-bumps : {n : ℕ} {s t : System} → Step n s t → s.mem.bumps ≤ t.mem.bumps
Step-bumps (work i lt w) = omega (arith, Work-bumps w)
Step-bumps (produce k p) = Produce-bumps p
Step-bumps (close_bump e) = omega arith
Step-bumps st = omega arith

init-Inv : (n : ℕ) → Inv n init
init-Inv n = record {
  counted = omega (arith, total-eq-zero registers n (λ _. head fresh) (λ _. refl));
  unwrapped = refl;
  past = λ i. omega arith;
  staying = λ on i. refl;
  attended = λ on pos. absurd (omega arith);
  stopped = λ ne. absurd (ne refl);
  leaves = λ i b. cc;
  gone = λ c i. cc;
}

Reach-Inv : {n : ℕ} {s : System} → 0 < n → Reach n s → s.mem.bumps < 2 ^ 32 → Inv n s
Reach-Inv {n} some_worker start small = init-Inv n
Reach-Inv some_worker (later r st) small =
    Step-Inv (Reach-Inv some_worker r (omega (arith, Step-bumps st))) some_worker st small

-- `sleepers` counts the workers between `register` and `unregister`, so that the subtraction in
-- `unregister` never wraps, as long as the epoch has not wrapped.
pub sleepers-counts :
    {n : ℕ} {s : System}
    → 0 < n
    → Reach n s
    → s.mem.bumps < 2 ^ 32
    → s.mem.sleepers ≡ total registers n s.worker
sleepers-counts some_worker r small = (Reach-Inv some_worker r small).counted

-- No lost wakeup: in a pool with a worker that was not told to finish, and whose epoch was bumped fewer
-- than 2 ^ 32 times, if an item is available and no producer is inside `new_work`, then some worker has
-- yet to make its last search or has an outdated ticket, so that it searches again before it can sleep,
-- unless the pool is told to finish by then.
pub no_lost_wakeup :
    {n : ℕ} {s : System}
    → 0 < n
    → Reach n s
    → s.mem.bumps < 2 ^ 32
    → ((k : ℕ) → s.producer k ≡ ready)
    → s.mem.finished ≡ false
    → 0 < s.mem.work
    → (i : ℕ) × (i < n) × (active s.mem.epoch (s.worker i) ≡ true)
no_lost_wakeup {n} {s} some_worker r small quiet on pos = seen (inv.attended on pos)
  where
    inv : Inv n s
    inv = Reach-Inv some_worker r small

    seen :
        Attended n s.mem.epoch s.worker s.producer s.closer
        → (i : ℕ) × (i < n) × (active s.mem.epoch (s.worker i) ≡ true)
    seen (inl (k, owed)) = cc (quiet k)
    seen (inr (inl a)) = a
    seen (inr (inr (inl (k, w), _))) = cc (quiet k)
    seen (inr (inr (inr c, _))) = absurd (let x = inv.stopped (λ e. cc) in cc)

-- In a pool with a worker, in every reachable state in which `shutdown` has returned and the epoch was
-- bumped fewer than 2 ^ 32 times, no worker of the pool is asleep.
pub shutdown_wakes :
    {n : ℕ} {s : System}
    → 0 < n
    → Reach n s
    → s.mem.bumps < 2 ^ 32
    → s.closer ≡ closed
    → (i : ℕ) → is_blocked (s.worker i) ≡ false
shutdown_wakes some_worker r small c = (Reach-Inv some_worker r small).gone c

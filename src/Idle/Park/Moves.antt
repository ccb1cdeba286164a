-- ===== src/Idle/Park/Moves.antt =====
-- What one move of a worker, or a wake, does to what the invariant says of it.
use cmpth_rs.Prelude.{
  ℕ, ◌+◌, ◌≤◌, ◌<◌, ◌≡◌, ◌≢◌, refl, ap, ◌⊎◌, inl, inr, true, false, arith, ◌==◌, Bool-cases,
}
use cmpth_rs.Idle.Park.{
  head, left, leave, unfinished, Shared, Worker, look, found, idle, blocked, Work, find,
  find_nothing, park, same, block, Closer, running, is_blocked, wake,
}
use cmpth_rs.Idle.Park.Inv.{
  registers, active, stale, kept_snapshot, bumped_to_close, Leaves, is_left,
}

module _ {m : Shared} where
  pub Work-frame :
      {p p' : Worker} {m' : Shared}
      → Work m p m' p'
      → (m'.epoch ≡ m.epoch) × (m'.bumps ≡ m.bumps) × (m'.finished ≡ m.finished)
  Work-frame (find h) = (refl, refl, refl)
  Work-frame w = (refl, refl, refl)

  pub Work-counts :
      {p p' : Worker} {m' : Shared}
      → Work m p m' p'
      → registers p ≤ m.sleepers
      → m'.sleepers + registers p ≡ m.sleepers + registers p'
  Work-counts (find h) le = refl
  Work-counts w le = omega arith

  pub Work-past :
      {p p' : Worker} {m' : Shared}
      → Work m p m' p'
      → kept_snapshot p ≤ m.epoch
      → kept_snapshot p' ≤ m.epoch
  Work-past (find h) le = le
  Work-past w le = omega arith

  -- A worker that moves will search again, or it had already given up.
  pub Work-active :
      {p p' : Worker} {m' : Shared}
      → Work m p m' p'
      → m.finished ≡ false
      → 0 < m'.work
      → (active m.epoch p' ≡ true)
        ⊎ ((active m.epoch p ≡ false) × (stale m.epoch p ≡ false) × (0 < m.work))
  Work-active (find h) on le = inl refl
  Work-active (leave h) on le = cc
  Work-active (park {seen = seen}) on le = elim (Bool-cases (seen == m.epoch)) [
    | inl e ↦ inr (rw e, refl, le)
    | inr e ↦ inl (rw e)
  ]
  Work-active (find_nothing h) on le = absurd (omega arith)
  Work-active (same g) on le = inr (ground arith, refl, le)
  Work-active (unfinished {seen = seen} f) on le = elim (Bool-cases (seen == m.epoch)) [
    | inl e ↦ inr (rw e, refl, le)
    | inr e ↦ inl (rw e)
  ]
  Work-active (block g) on le = inr (ground arith, refl, le)
  Work-active w on le = inl refl

  pub Work-stays :
      {p p' : Worker} {m' : Shared} → Work m p m' p' → m.finished ≡ false → is_left p' ≡ false
  Work-stays (leave h) on = cc
  Work-stays (find h) on = refl
  Work-stays w on = refl

  pub Work-Leaves :
      {p p' : Worker} {m' : Shared}
      → Work m p m' p'
      → m.finished ≡ true
      → Leaves m.epoch p
      → Leaves m.epoch p' × (is_blocked p ≡ false → is_blocked p' ≡ false)
  Work-Leaves (find h) x l = (tt, λ b. refl)
  Work-Leaves (unfinished f) x l = cc
  Work-Leaves (block g) x l = absurd (omega arith)
  Work-Leaves w x l = (tt, λ b. refl)

pub not_running : {c : Closer} → bumped_to_close c ≡ true → c ≢ running
not_running b e = cc (ap bumped_to_close e)

pub blocked-registers : (q : Worker) → is_blocked q ≡ true → registers q ≡ 1
blocked-registers (blocked seen) b = refl
blocked-registers q b = cc

pub not_stale : (e : ℕ) (q : Worker) → is_blocked q ≡ false → stale e q ≢ true
not_stale e (blocked seen) b x = cc
not_stale e q b x = cc

pub wake-active : (e : ℕ) (q : Worker) → active e q ≡ true → active e (wake q) ≡ true
wake-active e (blocked seen) a = refl
wake-active e q a = a

pub wake-stale : (e : ℕ) (q : Worker) → stale e q ≡ true → active e (wake q) ≡ true
wake-stale e (blocked seen) a = refl
wake-stale e q a = cc

pub wake-facts :
    (e : ℕ) (q : Worker)
    → (registers (wake q) ≡ registers q)
      × (kept_snapshot q ≤ e → kept_snapshot (wake q) ≤ e)
      × (Leaves e q → Leaves e (wake q))
      × (is_blocked (wake q) ≡ false)
      × (is_left (wake q) ≡ is_left q)
wake-facts e (blocked seen) = (refl, λ h. omega arith, λ l. tt, refl, refl)
wake-facts e (head ep) = (refl, λ h. h, λ l. l, refl, refl)
wake-facts e (look ep) = (refl, λ h. h, λ l. l, refl, refl)
wake-facts e (found ep) = (refl, λ h. h, λ l. l, refl, refl)
wake-facts e (idle ep) = (refl, λ h. h, λ l. l, refl, refl)
wake-facts e (left ep) = (refl, λ h. h, λ l. l, refl, refl)
wake-facts e q = (refl, λ h. h, λ l. l, refl, refl)

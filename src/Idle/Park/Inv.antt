-- ===== src/Idle/Park/Inv.antt =====
-- The invariant of the sleep protocol: who counts as a sleeper, and who will see published work.
use cmpth_rs.Prelude.{ℕ, ◌≤◌, ◌<◌, ◌≡◌, ◌≢◌, ◌⊎◌, Bool, true, false, not, none, some, total, ◌==◌}
use cmpth_rs.Idle.Park.{
  head, left, confirming, Episode, Worker, look, found, idle, checking, entering, blocked, Producer,
  published, bumping, waking, Closer, running, waking_all, closed, System, is_blocked,
}

-- Counts in `sleepers`.
abbrev episode_registers : Episode → ℕ
episode_registers e = elim e.ticket [ none ↦ 0 | some seen ↦ 1 ]

abbrev pub registers : Worker → ℕ
registers (head e) = episode_registers e
registers (left e) = episode_registers e
registers (look e) = episode_registers e
registers (found e) = episode_registers e
registers (idle e) = episode_registers e
registers _ = 1

-- Will search again before it can sleep, unless the pool stops: it has not yet made its last search, or
-- its ticket is out of date.
abbrev pub active : (epoch : ℕ) → Worker → Bool
active epoch (idle e) = elim e.ticket [ none ↦ true | some seen ↦ not (seen == epoch) ]
active epoch (checking seen) = not (seen == epoch)
active epoch (confirming seen) = not (seen == epoch)
active epoch (entering seen) = not (seen == epoch)
active epoch (left e) = false
active epoch (blocked seen) = false
active epoch _ = true

-- Sleeps since before the last bump.
abbrev pub stale : (epoch : ℕ) → Worker → Bool
stale epoch (blocked seen) = not (seen == epoch)
stale epoch _ = false

-- The snapshot that a worker keeps, or 0.
abbrev episode_snapshot : Episode → ℕ
episode_snapshot e = elim e.ticket [ none ↦ 0 | some seen ↦ seen ]

abbrev pub kept_snapshot : Worker → ℕ
kept_snapshot (head e) = episode_snapshot e
kept_snapshot (look e) = episode_snapshot e
kept_snapshot (found e) = episode_snapshot e
kept_snapshot (idle e) = episode_snapshot e
kept_snapshot (checking seen) = seen
kept_snapshot (confirming seen) = seen
kept_snapshot (entering seen) = seen
kept_snapshot (blocked seen) = seen
kept_snapshot _ = 0

-- Has published, and has yet to bump the epoch or to find nobody registered.
abbrev pub owes_wake : Producer → Bool
owes_wake published = true
owes_wake bumping = true
owes_wake _ = false

-- Somebody is between a bump and its wake.
abbrev pub Waking : (ℕ → Producer) → Closer → Type 0
Waking producer closer = ((k : ℕ) × (producer k ≡ waking)) ⊎ (closer ≡ waking_all)

-- Somebody is going to look for what is published.
abbrev pub Attended : ℕ → ℕ → (ℕ → Worker) → (ℕ → Producer) → Closer → Type 0
Attended n epoch worker producer closer =
    ((k : ℕ) × (owes_wake (producer k) ≡ true))
    ⊎ (((i : ℕ) × (i < n) × (active epoch (worker i) ≡ true))
        ⊎ (Waking producer closer × ((i : ℕ) × (i < n) × (stale epoch (worker i) ≡ true))))

abbrev pub bumped_to_close : Closer → Bool
bumped_to_close waking_all = true
bumped_to_close closed = true
bumped_to_close _ = false

-- After the bump of `shutdown`, whoever is past the check of `finished` has an old ticket.
abbrev pub Leaves : ℕ → Worker → Type 0
Leaves epoch (entering seen) = seen < epoch
Leaves epoch (blocked seen) = seen < epoch
Leaves epoch _ = Unit {0}

abbrev pub is_left : Worker → Bool
is_left (left e) = true
is_left _ = false

pub record Inv (n : ℕ) (s : System) : Type 0 where
  pub counted : s.mem.sleepers ≡ total registers n s.worker
  pub unwrapped : s.mem.epoch ≡ s.mem.bumps
  pub past : (i : ℕ) → kept_snapshot (s.worker i) ≤ s.mem.epoch
  pub staying : s.mem.finished ≡ false → (i : ℕ) → is_left (s.worker i) ≡ false
  pub attended :
      s.mem.finished ≡ false → 0 < s.mem.work → Attended n s.mem.epoch s.worker s.producer s.closer
  pub stopped : s.closer ≢ running → s.mem.finished ≡ true
  pub leaves : (i : ℕ) → bumped_to_close s.closer ≡ true → Leaves s.mem.epoch (s.worker i)
  pub gone : s.closer ≡ closed → (i : ℕ) → is_blocked (s.worker i) ≡ false

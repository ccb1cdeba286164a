-- ===== src/Idle/Park.antt =====
-- src/resumable/common/idle.rs, `ParkIdle` with `FutexWait`: `n` workers, any number of producers
-- and the one caller of `shutdown`, interleaved at each access to the shared words.
pub mod Inv
mod Moves
mod Keep
pub mod Safety
use cmpth_rs.Prelude.{
  ℕ, suc, ◌+◌, ◌-◌, ◌%◌, ◌^◌, ◌≤◌, ◌<◌, ◌≡◌, ◌≢◌, ◌⊎◌, Bool, true, false, Option, none, some,
  update,
}

abbrev pub spin_rounds : ℕ
spin_rounds = 64

abbrev pub yield_rounds : ℕ
yield_rounds = 64

-- `ParkEpisode`, but for `timed`, which only bounds how long a wait lasts.
pub record Episode : Type 0 where
  pub rounds : ℕ
  pub ticket : Option ℕ

abbrev pub fresh : Episode
fresh = record { rounds = 0; ticket = none }

-- `work` counts the published items that nobody has taken, `bumps` the additions to `epoch`.
pub record Shared : Type 0 where
  pub sleepers : ℕ  -- usize
  pub epoch : ℕ  -- u32
  pub finished : Bool
  pub work : ℕ
  pub bumps : ℕ

abbrev pub bumped : Shared → Shared
bumped m = record m { epoch = (m.epoch + 1) % 2 ^ 32; bumps = suc m.bumps }

pub data Worker : Type 0 where
  head : Episode → Worker  -- at the load of `finished` in `idle_loop`
  look : Episode → Worker  -- about to search everywhere
  found : Episode → Worker  -- at `work_found`
  idle : Episode → Worker  -- at `no_work_found`, `retry` false
  registered : (rounds : ℕ) → Worker  -- before `epoch.load`
  checking : (seen : ℕ) → Worker  -- at `FutexWait::wait`
  confirming : (seen : ℕ) → Worker  -- `epoch` was as seen, before the load of `finished`
  entering : (seen : ℕ) → Worker  -- before the kernel compares `epoch`
  blocked : (seen : ℕ) → Worker
  woken : Worker  -- before `unregister`
  left : Episode → Worker  -- out of the loop; a registration stays counted

-- A move of one worker. What the kernel does is the documented behaviour of a futex: it compares
-- and queues in one step, and a wait may end at any time.
pub data Work (m : Shared) : Worker → Shared → Worker → Type 0 where
  go_on : {e : Episode} → m.finished ≡ false → Work m (head e) m (look e)
  leave : {e : Episode} → m.finished ≡ true → Work m (head e) m (left e)
  find : {e : Episode} → 0 < m.work → Work m (look e) (record m { work = m.work - 1 }) (found e)
  find_nothing : {e : Episode} → m.work ≡ 0 → Work m (look e) m (idle e)
  find_retry : {e : Episode} → Work m (look e) m (head e)
  take_unregistered : {r : ℕ} → Work m (found (record { rounds = r; ticket = none })) m (head fresh)
  take_registered :
      {r seen : ℕ}
      → Work m
          (found (record { rounds = r; ticket = some seen }))
          (record m { sleepers = m.sleepers - 1 })
          (head fresh)
  spin :
      {r : ℕ}
      → r + 1 ≤ spin_rounds + yield_rounds
      → Work m
          (idle (record { rounds = r; ticket = none }))
          m
          (head (record { rounds = r + 1; ticket = none }))
  register :
      {r : ℕ}
      → spin_rounds + yield_rounds < r + 1
      → Work m
          (idle (record { rounds = r; ticket = none }))
          (record m { sleepers = m.sleepers + 1 })
          (registered (r + 1))
  snapshot : {r : ℕ} → Work m (registered r) m (head (record { rounds = r; ticket = some m.epoch }))
  park : {r seen : ℕ} → Work m (idle (record { rounds = r; ticket = some seen })) m (checking seen)
  same : {seen : ℕ} → m.epoch ≡ seen → Work m (checking seen) m (confirming seen)
  changed : {seen : ℕ} → m.epoch ≢ seen → Work m (checking seen) m woken
  unfinished : {seen : ℕ} → m.finished ≡ false → Work m (confirming seen) m (entering seen)
  stopped : {seen : ℕ} → m.finished ≡ true → Work m (confirming seen) m woken
  block : {seen : ℕ} → m.epoch ≡ seen → Work m (entering seen) m (blocked seen)
  again : {seen : ℕ} → m.epoch ≢ seen → Work m (entering seen) m woken
  return : {seen : ℕ} → Work m (blocked seen) m woken
  unregister : Work m woken (record m { sleepers = m.sleepers - 1 }) (head fresh)

pub data Producer : Type 0 where
  ready : Producer
  published : Producer  -- in `new_work`, before it loads `sleepers`
  bumping : Producer
  waking : Producer  -- before `wait.wake_one`

-- A move of one producer that concerns no worker.
pub data Produce (m : Shared) : Producer → Shared → Producer → Type 0 where
  publish : Produce m ready (record m { work = m.work + 1 }) published
  nobody : m.sleepers ≡ 0 → Produce m published m ready
  somebody : m.sleepers ≢ 0 → Produce m published m bumping
  bump : Produce m bumping (bumped m) waking

-- The pool's stop, and `shutdown`.
pub data Closer : Type 0 where
  running : Closer
  finishing : Closer
  waking_all : Closer
  closed : Closer

abbrev pub wake : Worker → Worker
wake (blocked seen) = woken
wake p = p

abbrev pub is_blocked : Worker → Bool
is_blocked (blocked seen) = true
is_blocked p = false

pub record System : Type 0 where
  pub mem : Shared
  pub worker : ℕ → Worker
  pub producer : ℕ → Producer
  pub closer : Closer

pub data Step (n : ℕ) (s : System) : System → Type 0 where
  work :
      (i : ℕ) {m : Shared} {p : Worker}
      → i < n
      → Work s.mem (s.worker i) m p
      → Step n s (record s { mem = m; worker = update s.worker i p })
  produce :
      (k : ℕ) {m : Shared} {p : Producer}
      → Produce s.mem (s.producer k) m p
      → Step n s (record s { mem = m; producer = update s.producer k p })
  wake_one :
      (k i : ℕ)
      → s.producer k ≡ waking
      → i < n
      → is_blocked (s.worker i) ≡ true
      → Step n s
          (record s { worker = update s.worker i woken; producer = update s.producer k ready })
  wake_none :
      (k : ℕ)
      → s.producer k ≡ waking
      → ((i : ℕ) → i < n → is_blocked (s.worker i) ≡ false)
      → Step n s (record s { producer = update s.producer k ready })
  finish :
      s.closer ≡ running
      → Step n s (record s { mem = record s.mem { finished = true }; closer = finishing })
  close_bump :
      s.closer ≡ finishing → Step n s (record s { mem = bumped s.mem; closer = waking_all })
  wake_all :
      s.closer ≡ waking_all
      → Step n s (record s { worker = λ i. wake (s.worker i); closer = closed })

abbrev pub init : System
init = record {
  mem = record { sleepers = 0; epoch = 0; finished = false; work = 0; bumps = 0 };
  worker = λ _. head fresh;
  producer = λ _. ready;
  closer = running;
}

pub data Reach (n : ℕ) : System → Type 0 where
  start : Reach n init
  later : {s t : System} → Reach n s → Step n s t → Reach n t

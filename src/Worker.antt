-- ===== src/Worker.antt =====
-- src/resumable/common/worker_core.rs and src/resumable/common/dispatch.rs: the order in which a worker looks
-- for its next task, and the loop of the workers of a pool, a round at a time.
mod Sweeps
mod Steals
mod Dispatch
mod Rounds
mod Runs
mod Examples
use cmpth_rs.Prelude.{
  ℕ, ◌+◌, ◌%◌, ◌^◌, Bool, true, false, List, [], ◌∷◌, Option, none, some, leb, if◌then◌else◌,
  update, pop_front,
}
use cmpth_rs.RunQueue.Contract.{Steal, success, empty, retry, WorkerRunQueue}
use cmpth_rs.Steal.{random_sweep_try_steal}

pub data Site : Type 0 where
  loop switch wait : Site

-- `TaskSources`, with the state that they draw from.
pub record TaskSources (T : Type 0) (S : Type 0) : Type 0 where
  pub local : S → Option T × S
  pub steal : S → Steal T × S
  pub external : S → Option T × S

module _ {T S : Type 0} (q : TaskSources T S) where
  open q use {local, steal, external}

  unfoldable pub or_answer : Steal T → Option T × S → Steal T × S
  or_answer s (some c, t) = (success c, t)
  or_answer s (none, t) = (s, t)

  unfoldable pub or_external : Steal T × S → Steal T × S
  unfolding or_answer
  or_external (success c, t) = (success c, t)
  or_external (empty, t) = or_answer empty (external t)
  or_external (retry, t) = or_answer retry (external t)

  unfoldable pub or_steal : Option T × S → Steal T × S
  unfolding or_external
  or_steal (some c, t) = (success c, t)
  or_steal (none, t) = or_external (steal t)

  unfoldable pub or_local : Option T × S → Steal T × S
  unfolding or_answer
  or_local (some c, t) = (success c, t)
  or_local (none, t) = or_answer empty (local t)

  -- `StandardDispatch::next`
  unfoldable pub next : Site → S → Steal T × S
  unfolding or_steal or_local
  next loop t = or_steal (local t)
  next wait t = or_steal (local t)
  next switch t = or_local (external t)

-- `IdlePolicy` to one worker, but for what it does to the others: the episode, which a found task and an
-- empty round change; the flag is `retry`.
pub record IdlePolicy : Type 1 where
  pub Episode : Type 0
  pub fresh : Episode
  pub work_found : Episode → Episode
  pub no_work_found : Bool → Episode → Episode

-- `SpinIdle`, whose duties and yields are left out.
abbrev pub spin_idle : IdlePolicy
spin_idle = record {
  Episode = ℕ;
  fresh = 0;
  work_found = λ _. 0;
  no_work_found = λ saw_retry ep. if saw_retry then ep else (ep + 1) % 2 ^ 32;
}

module _ {T : Type 0} (W : WorkerRunQueue T) where
  -- The queues after the thefts from the victims asked, each of which is asked once.
  unfoldable pub visited : List ℕ → (ℕ → W.Queue) → ℕ → W.Queue
  visited [] qs = qs
  visited (v ∷ vs) qs = update (visited vs qs) v (W.try_steal (qs v)).1

module _ {T : Type 0} (W : WorkerRunQueue T) (I : IdlePolicy) (n : ℕ) where
  -- `WorkerCore` of each worker and `PoolCore`. `external` is the list of the external queue from the end
  -- on that it pops, `told` counts the calls of `new_work`.
  pub record Workers : Type 0 where
    pub queues : ℕ → W.Queue
    pub steals : ℕ → ℕ
    pub episodes : ℕ → I.Episode
    pub outside : List T
    pub told : ℕ
    pub finished : Bool

  abbrev pub new_workers : (ℕ → ℕ) → Workers
  new_workers seeds = record {
    queues = λ _. W.new;
    steals = seeds;
    episodes = λ _. I.fresh;
    outside = [];
    told = 0;
    finished = false;
  }

  unfoldable pub push : ℕ → T → Workers → Workers
  push i c p = record p { queues = update p.queues i (W.push c (p.queues i)); told = p.told + 1 }

  unfoldable pub defer : ℕ → T → Workers → Workers
  defer i c p = record p { queues = update p.queues i (W.defer c (p.queues i)); told = p.told + 1 }

  unfoldable pub try_pop : ℕ → Workers → Option T × Workers
  try_pop i p =
      let (got, q) = W.try_pop (p.queues i) in (got, record p { queues = update p.queues i q })

  -- `try_steal`, with the policy `RandomSweepSteal`.
  unfoldable pub try_steal : ℕ → Workers → Steal T × Workers
  unfolding visited
  try_steal i p =
      if leb n 1
      then (empty, p)
      else (let ((got, asked), s) =
            random_sweep_try_steal (λ v. (W.try_steal (p.queues v)).0) (p.steals i) i n in
          (got, record p { steals = update p.steals i s; queues = visited W asked p.queues }))

  -- `try_pop` of the external queue; its flag only says whether the list is empty.
  unfoldable pub pop_external : Workers → Option T × Workers
  pop_external p = let (got, rest) = pop_front p.outside in (got, record p { outside = rest })

  -- `Sources` of a worker.
  abbrev pub sources : ℕ → TaskSources T Workers
  sources i = record { local = try_pop i; steal = try_steal i; external = pop_external }

  -- `Sources` with `|| None` for the external queue.
  abbrev pub inner_sources : ℕ → TaskSources T Workers
  inner_sources i = record { local = try_pop i; steal = try_steal i; external = λ p. (none, p) }

  -- `PoolCore::finish`, but for what it tells the idle policy.
  unfoldable pub finish : Workers → Workers
  finish p = record p { finished = true }

  -- A push of the external queue, from outside the pool, and what its wake hook tells the idle policy.
  unfoldable pub submit : T → Workers → Workers
  submit c p = record p { outside = c ∷ p.outside; told = p.told + 1 }

  -- What a task does to its worker's queue while it runs: the tasks that it spawns and those that it
  -- defers.
  module _ (spawns defers : T → List T) where
    unfoldable pub push_each : ℕ → List T → Workers → Workers
    unfolding push
    push_each i [] p = p
    push_each i (c ∷ cs) p = push_each i cs (push i c p)

    unfoldable pub defer_each : ℕ → List T → Workers → Workers
    unfolding defer
    defer_each i [] p = p
    defer_each i (c ∷ cs) p = defer_each i cs (defer i c p)

    abbrev pub rest : Bool → ℕ → Workers → Workers
    rest saw_retry i p = record p {
      episodes = update p.episodes i (I.no_work_found saw_retry (p.episodes i));
    }

    unfoldable pub run_on : ℕ → T → Workers → Workers
    unfolding push_each defer_each
    run_on i c p = defer_each i (defers c) (push_each i (spawns c) p)

    -- A task that waits for a join draws another one, and runs it.
    unfoldable pub run_found : ℕ → Steal T × Workers → Option T × Workers
    unfolding run_on
    run_found i (success c, p) = (some c, run_on i c p)
    run_found i (empty, p) = (none, p)
    run_found i (retry, p) = (none, p)

    unfoldable pub try_run_one : ℕ → Workers → Option T × Workers
    unfolding next run_found
    try_run_one i p = run_found i (next (inner_sources i) wait p)

    -- A round of `idle_loop`: the task that was run, if there was one.
    unfoldable pub after_next : ℕ → Steal T × Workers → Option T × Workers
    unfolding run_on
    after_next i (success c, p) = (
      some c,
      run_on i c (record p { episodes = update p.episodes i (I.work_found (p.episodes i)) }),
    )
    after_next i (empty, p) = (none, rest false i p)
    after_next i (retry, p) = (none, rest true i p)

    unfoldable pub round : ℕ → Workers → Option T × Workers
    unfolding next after_next
    round i p = if p.finished then (none, p) else after_next i (next (sources i) loop p)

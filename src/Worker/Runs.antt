-- ===== src/Worker/Runs.antt =====
-- src/resumable/common/worker_core.rs: the workers of a pool take turns at their loops, a round at a time,
-- and at the draws of tasks that wait for a join, while tasks arrive from outside.
use mathlib.Core.List.{Perm, append-nil}
use mathlib.Core.List.Perm
use cmpth_rs.Prelude.{
  ℕ, ◌≤◌, ◌<◌, ◌^◌, ◌≡◌, ◌≢◌, refl, sym, ap, ◌∙◌, subst, inl, inr, false, Option, none, List, [],
  ◌∷◌, ◌++◌, arith, leb, update_ne, update_each, ℕ_discrete, Bool-cases, pop_front, leb_iff,
}
use cmpth_rs.RunQueue.Contract.{empty, Takes, Steals, WorkerRunQueue}
use cmpth_rs.RunQueue.History.{taken?, swap_front, regroup}
use cmpth_rs.Steal.{sweep}
use cmpth_rs.Steal.Means.{Means}
use cmpth_rs.Worker.{
  try_run_one, finish, IdlePolicy, Workers, new_workers, loop, next, sources, try_pop, try_steal,
  pop_external, submit, round,
}
use cmpth_rs.Worker.Dispatch.{next_empty}
use cmpth_rs.Worker.Steals.{
  all, AllValid, tasks, answers, asked, try_steal_alone, try_steal_swept, asked-Means,
}
use cmpth_rs.Worker.Rounds.{all_empty, offspring, Turns, round-Turns, try_run_one-Turns}

pub data Event (T : Type 0) : Type 0 where
  turn : (worker : ℕ) → Event T
  waits : (worker : ℕ) → Event T  -- the task on it, for a join
  finishes : Event T
  arrives : T → Event T

-- The turns and the waits are those of the pool's workers.
abbrev pub OfPool : {T : Type 0} → ℕ → List (Event T) → Type 0
OfPool n [] = Unit {0}
OfPool n (turn i ∷ es) = (i < n) × OfPool n es
OfPool n (waits i ∷ es) = (i < n) × OfPool n es
OfPool n (finishes ∷ es) = OfPool n es
OfPool n (arrives c ∷ es) = OfPool n es

module _ {T : Type 0} (W : WorkerRunQueue T) (I : IdlePolicy) (n : ℕ)
    (spawns defers : T → List T) where
  open W use {Queue, contents, IsValid}

  unfoldable pub step : Event T → Workers W I n → Option T × Workers W I n
  step (turn i) p = round W I n spawns defers i p
  step (waits i) p = try_run_one W I n spawns defers i p
  step finishes p = (none, finish W I n p)
  step (arrives c) p = (none, submit W I n c p)

  -- The tasks that have run, and the pool that is left.
  unfoldable pub run : List (Event T) → Workers W I n → List T × Workers W I n
  unfolding step
  run [] p = ([], p)
  run (e ∷ es) p =
      let (got, q) = step e p in let (more, left) = run es q in (taken? got ++ more, left)

  -- The tasks that come in at an event, and in a run: those that arrive and those that the tasks make that
  -- have run.
  abbrev pub comes_in : Event T → Option T → List T
  comes_in (turn i) got = offspring W I n spawns defers got
  comes_in (waits i) got = offspring W I n spawns defers got
  comes_in finishes got = []
  comes_in (arrives c) got = c ∷ []

  unfoldable pub entered : List (Event T) → Workers W I n → List T
  unfolding step
  entered [] p = []
  entered (e ∷ es) p = let (got, q) = step e p in comes_in e got ++ entered es q

  module _ (few : n ≤ 2 ^ 63) where
    step-perm :
        (e : Event T) (p : Workers W I n)
        → OfPool n (e ∷ [])
        → AllValid W I n p
        → AllValid W I n (step e p).1
          × Perm
              (comes_in e (step e p).0 ++ tasks W I n p)
              (taken? (step e p).0 ++ tasks W I n (step e p).1)
    unfolding step Turns submit finish
    step-perm (turn i) p (lt, u) valid = round-Turns W I n spawns defers few i lt p valid
    step-perm (waits i) p (lt, u) valid = try_run_one-Turns W I n spawns defers few i lt p valid
    step-perm finishes p u valid = (valid, Perm.refl _)
    step-perm (arrives c) p of_pool valid =
        (valid, Perm.symm (perm_middle (all W n p.queues) p.outside c))
      where
        perm_middle : (l r : List T) (x : T) → Perm (l ++ x ∷ r) (x ∷ (l ++ r))
        perm_middle l r x = swap_front l (x ∷ []) r

    run-perm :
        (es : List (Event T)) (p : Workers W I n)
        → OfPool n es
        → AllValid W I n p
        → Perm ((run es p).0 ++ tasks W I n (run es p).1) (entered es p ++ tasks W I n p)
    unfolding run entered
    run-perm [] p of_pool valid = Perm.refl _
    run-perm (e ∷ es) p of_pool valid =
        let (first, others) = split e of_pool in
        let (still, k) = step-perm e p first valid in
        regroup (taken? (step e p).0) _ _ (comes_in e (step e p).0) (entered es (step e p).1)
          (tasks W I n p) (tasks W I n (step e p).1) (run-perm es (step e p).1 others still) k
      where
        split : (e : Event T) → OfPool n (e ∷ es) → OfPool n (e ∷ []) × OfPool n es
        split (turn i) (lt, o) = ((lt, tt), o)
        split (waits i) (lt, o) = ((lt, tt), o)
        split finishes o = (tt, o)
        split (arrives c) o = (tt, o)

    -- Every task runs once: for a new pool of at most 2 ^ 63 workers, over run queues that keep their
    -- contract and with any idle policy, and for rounds of its workers, draws of tasks that wait for a join,
    -- arrivals and the pool's end in any order, the tasks that have run and those that are left in the pool
    -- are, but for their order, those that arrived and those that the tasks that ran spawned or deferred.
    pub pool_conserves :
        (es : List (Event T)) (seeds : ℕ → ℕ)
        → OfPool n es
        → let start = new_workers W I n seeds in
          Perm ((run es start).0 ++ tasks W I n (run es start).1) (entered es start)
    pool_conserves es seeds of_pool =
        subst (Perm _) (ap (λ l. entered es (new_workers W I n seeds) ++ l) nothing ∙ append-nil _)
          (run-perm es (new_workers W I n seeds) of_pool (λ v. W.new-IsValid))
      where
        nothing : tasks W I n (new_workers W I n seeds) ≡ []
        nothing = append-nil _ ∙ all_empty W I n n (λ v. W.new) (λ v lt. W.contents-new)

    popped_other :
        (i : ℕ) (p : Workers W I n) (v : ℕ) → i ≢ v → (try_pop W I n i p).1.queues v ≡ p.queues v
    unfolding try_pop
    popped_other i p v ne = update_ne p.queues _ ne

    popped_outside : (i : ℕ) (p : Workers W I n) → (try_pop W I n i p).1.outside ≡ p.outside
    unfolding try_pop
    popped_outside i p = refl

    popped-AllValid :
        (i : ℕ) (p : Workers W I n) → AllValid W I n p → AllValid W I n (try_pop W I n i p).1
    unfolding try_pop
    popped-AllValid i p valid =
        update_each (λ v q. IsValid q) p.queues i (W.try_pop-IsValid (p.queues i) (valid i))
          (λ v ne. valid v)

    -- What the sources say of the queues.
    popped_nothing :
        (i : ℕ) (p : Workers W I n)
        → AllValid W I n p
        → (try_pop W I n i p).0 ≡ none
        → contents (p.queues i) ≡ []
    unfolding try_pop
    popped_nothing i p valid e =
        (subst (λ x. Takes (contents (p.queues i)) x (contents (W.try_pop (p.queues i)).1)) e
          (W.try_pop-Takes (p.queues i) (valid i))).0

    stole_nothing :
        (i : ℕ) (p : Workers W I n)
        → i < n
        → AllValid W I n p
        → (try_steal W I n i p).0 ≡ empty
        → (v : ℕ) → v < n
        → i ≢ v
        → contents (p.queues v) ≡ []
    unfolding sweep
    stole_nothing i p lt valid e v below ne = elim (Bool-cases (leb n 1)) [
      | inl alone ↦ absurd (ne (omega (arith, lt, below, (leb_iff n 1).0 alone)))
      | inr others ↦ none_left (
          subst (λ x. Means (answers W I n i p) (λ u. (u < n) × (u ≢ i)) false x (asked W I n i p))
            (subst (λ x. x.0 ≡ empty) (try_steal_swept W I n i p others) e)
            (asked-Means W I n i p lt few).0)
    ]
      where
        none_left :
            Means (answers W I n i p) (λ u. (u < n) × (u ≢ i)) false empty (asked W I n i p)
            → contents (p.queues v) ≡ []
        none_left (reached, b, said) =
            (subst (λ x. Steals (contents (p.queues v)) x (contents (W.try_steal (p.queues v)).1))
              (said v (reached v (below, λ same. ne (sym same))))
              (W.try_steal-Steals (p.queues v) (valid v))).0

    outside_kept : (i : ℕ) (p : Workers W I n) → (try_steal W I n i p).1.outside ≡ p.outside
    outside_kept i p = elim (Bool-cases (leb n 1)) [
      | inl alone ↦ ap (λ x. x.1.outside) (try_steal_alone W I n i p alone)
      | inr others ↦ ap (λ x. x.1.outside) (try_steal_swept W I n i p others)
    ]

    popped_none : (l : List T) → (pop_front l).0 ≡ none → l ≡ []
    popped_none [] e = refl
    popped_none (c ∷ l) e = absurd (cc e)

    -- In a pool of at most 2 ^ 63 workers whose run queues keep their contract, `next` in a worker's loop says
    -- `empty`, at which its idle policy backs off, only if no task was left when it looked: none in a
    -- worker's run queue and none in the external queue.
    pub empty-tasks :
        (i : ℕ) (p : Workers W I n)
        → i < n
        → AllValid W I n p
        → (next (sources W I n i) loop p).0 ≡ empty
        → tasks W I n p ≡ []
    unfolding pop_external
    empty-tasks i p lt valid e =
        let (a, b, c) = next_empty (sources W I n i) p e in
        let q = (try_pop W I n i p).1 in
        let stolen = stole_nothing i q lt (popped-AllValid i p valid) b in
        let out = popped_none ((try_steal W I n i q).1.outside) c in
        ap (λ l. l ++ p.outside)
          (all_empty W I n n p.queues (λ v below. elim (ℕ_discrete i v) [
            | yes same ↦ subst (λ x. contents (p.queues x) ≡ []) same (popped_nothing i p valid a)
            | no ne ↦ ap contents (sym (popped_other i p v ne)) ∙ stolen v below ne
          ]))
        ∙ (sym (popped_outside i p) ∙ (sym (outside_kept i q) ∙ out))

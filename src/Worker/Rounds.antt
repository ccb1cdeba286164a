-- ===== src/Worker/Rounds.antt =====
-- A round of a worker: the task that it runs goes out of the pool, and those that the task makes come in.
use mathlib.Core.List.{Perm, append_assoc, append-nil}
use mathlib.Core.List.Perm
use cmpth_rs.Prelude.{
  Bool, true, false, if◌then◌else◌, ℕ, zero, suc, ◌≤◌, ◌<◌, ◌^◌, ◌≡◌, refl, sym, ap, ◌∙◌, subst,
  Option, none, some, List, [], ◌∷◌, ◌++◌, arith, update, update_self, update_ne, update_each,
}
use cmpth_rs.RunQueue.Contract.{Steal, success, empty, retry, WorkerRunQueue}
use cmpth_rs.RunQueue.History.{taken?, stolen?, swap_front}
use cmpth_rs.Worker.{
  IdlePolicy, Workers, loop, next, sources, push, defer, push_each, defer_each, run_on, after_next,
  round, run_found, try_run_one, inner_sources, wait,
}
use cmpth_rs.Worker.Dispatch.{Keeps, next-Keeps}
use cmpth_rs.Worker.Steals.{
  all, all-update, AllValid, tasks, try_pop-Keeps, try_steal-Keeps, pop_external-Keeps,
}

module _ {T : Type 0} (W : WorkerRunQueue T) (I : IdlePolicy) (n : ℕ) where
  open W use {Queue, contents, IsValid}

  pub all-cong : (m : ℕ) (qs qs' : ℕ → Queue) → ((v : ℕ) → qs v ≡ qs' v) → all W m qs ≡ all W m qs'
  all-cong zero qs qs' e = refl
  all-cong (suc m) qs qs' e =
      ap (λ q. contents q ++ all W m qs) (e m)
      ∙ ap (λ l. contents (qs' m) ++ l) (all-cong m qs qs' e)

  pub all_empty :
      (m : ℕ) (qs : ℕ → Queue) → ((v : ℕ) → v < m → contents (qs v) ≡ []) → all W m qs ≡ []
  all_empty zero qs e = refl
  all_empty (suc m) qs e =
      ap (λ l. l ++ all W m qs) (e m (omega arith))
      ∙ all_empty m qs (λ v lt. e v (omega (arith, lt)))

  -- The tasks `cs` come in.
  pub Enters : Workers W I n → List T → Workers W I n → Type 0
  Enters p cs t = AllValid W I n p → AllValid W I n t × Perm (tasks W I n t) (cs ++ tasks W I n p)

  -- One queue takes a task in.
  entered-Enters :
      (p : Workers W I n) (i : ℕ) (c : T) (q : Queue)
      → i < n
      → (IsValid (p.queues i) → IsValid q)
      → Perm (contents q) (c ∷ contents (p.queues i))
      → (told : ℕ) → Enters p (c ∷ []) (record p { queues = update p.queues i q; told = told })
  unfolding Enters
  entered-Enters p i c q lt keeps k told valid = (
    update_each (λ v x. IsValid x) p.queues i (keeps (valid i)) (λ v ne. valid v),
    Perm.append_right p.outside (
        subst (λ l. Perm (all W n (update p.queues i q)) (c ∷ l))
          (all-cong n (update (update p.queues i q) i (p.queues i)) p.queues (
            update_each (λ v x. x ≡ p.queues v) (update p.queues i q) i refl
              (λ v ne. update_ne p.queues q ne)))
          (all-update W n (update p.queues i q) i (p.queues i) (c ∷ []) lt (
            subst (λ x. Perm (contents x) (c ∷ contents (p.queues i)))
              (sym (update_self p.queues i q)) k))),
  )

  Enters-trans :
      (p t u : Workers W I n) (cs ds : List T)
      → Enters p cs t
      → Enters t ds u
      → Enters p (ds ++ cs) u
  unfolding Enters
  Enters-trans p t u cs ds a b valid =
      let (x, k) = a valid in
      let (y, l) = b x in
      (y, subst (Perm _) (sym (append_assoc ds cs _)) (Perm.trans l (Perm.append_left ds k)))

  push-Enters : (i : ℕ) (c : T) (p : Workers W I n) → i < n → Enters p (c ∷ []) (push W I n i c p)
  unfolding push
  push-Enters i c p lt =
      entered-Enters p i c _ lt (W.push-IsValid c (p.queues i)) (W.contents-push c (p.queues i)) _

  defer-Enters : (i : ℕ) (c : T) (p : Workers W I n) → i < n → Enters p (c ∷ []) (defer W I n i c p)
  unfolding defer
  defer-Enters i c p lt =
      entered-Enters p i c _ lt (W.defer-IsValid c (p.queues i)) (W.contents-defer c (p.queues i)) _

  module _ (spawns defers : T → List T) where
    -- The tasks that a task makes.
    abbrev pub offspring : Option T → List T
    offspring none = []
    offspring (some c) = defers c ++ spawns c

    later_first :
        (p t : Workers W I n) (c : T) (cs : List T)
        → Enters p (cs ++ c ∷ []) t
        → Enters p (c ∷ cs) t
    unfolding Enters
    later_first p t c cs h valid =
        let (x, k) = h valid in (x, Perm.trans k (Perm.append_right (tasks W I n p) (swap_end cs)))
      where
        swap_end : (l : List T) → Perm (l ++ c ∷ []) (c ∷ l)
        swap_end l =
            subst (λ r. Perm (l ++ c ∷ []) (c ∷ r)) (append-nil l) (swap_front l (c ∷ []) [])

    push_each-Enters :
        (i : ℕ) (cs : List T) (p : Workers W I n)
        → i < n
        → Enters p cs (push_each W I n spawns defers i cs p)
    unfolding push_each Enters
    push_each-Enters i [] p lt = λ valid. (valid, Perm.refl _)
    push_each-Enters i (c ∷ cs) p lt =
        later_first p (push_each W I n spawns defers i cs (push W I n i c p)) c cs (
          Enters-trans p (push W I n i c p) (push_each W I n spawns defers i cs (push W I n i c p))
            (c ∷ []) cs (push-Enters i c p lt) (push_each-Enters i cs (push W I n i c p) lt))

    defer_each-Enters :
        (i : ℕ) (cs : List T) (p : Workers W I n)
        → i < n
        → Enters p cs (defer_each W I n spawns defers i cs p)
    unfolding defer_each Enters
    defer_each-Enters i [] p lt = λ valid. (valid, Perm.refl _)
    defer_each-Enters i (c ∷ cs) p lt =
        later_first p (defer_each W I n spawns defers i cs (defer W I n i c p)) c cs (
          Enters-trans p (defer W I n i c p)
            (defer_each W I n spawns defers i cs (defer W I n i c p)) (c ∷ []) cs
            (defer-Enters i c p lt) (defer_each-Enters i cs (defer W I n i c p) lt))

    run_on-Enters :
        (i : ℕ) (c : T) (p : Workers W I n)
        → i < n
        → Enters p (defers c ++ spawns c) (run_on W I n spawns defers i c p)
    unfolding run_on
    run_on-Enters i c p lt =
        let t = push_each W I n spawns defers i (spawns c) p in
        Enters-trans p t (defer_each W I n spawns defers i (defers c) t) (spawns c) (defers c)
          (push_each-Enters i (spawns c) p lt) (defer_each-Enters i (defers c) t lt)

    -- What `got` made came in, and `got` went out.
    unfoldable pub Turns : Workers W I n → Option T → Workers W I n → Type 0
    Turns p got t =
        AllValid W I n p
        → AllValid W I n t × Perm (offspring got ++ tasks W I n p) (taken? got ++ tasks W I n t)

    -- A task that a worker has got, is run.
    ran-Turns :
        (i : ℕ)
        → i < n
        → (p : Workers W I n) (c : T) (t : Workers W I n)
        → Keeps (AllValid W I n) (tasks W I n) p (c ∷ []) t
        → Turns p (some c) (run_on W I n spawns defers i c t)
    unfolding Turns Enters
    ran-Turns i lt p c t k valid =
        let (x, l) = k valid in
        let (y, m) = run_on-Enters i c t lt x in
        (
          y,
          Perm.trans (Perm.append_left (offspring (some c)) l) (
              Perm.trans (swap_front (offspring (some c)) (c ∷ []) (tasks W I n t))
                (Perm.append_left (c ∷ []) (Perm.symm m))),
        )

    after_next-Turns :
        (i : ℕ)
        → i < n
        → (p : Workers W I n) (x : Steal T × Workers W I n)
        → Keeps (AllValid W I n) (tasks W I n) p (stolen? x.0) x.1
        → Turns p (after_next W I n spawns defers i x).0 (after_next W I n spawns defers i x).1
    unfolding after_next Turns Enters
    after_next-Turns i lt p (empty, t) k valid = k valid
    after_next-Turns i lt p (retry, t) k valid = k valid
    after_next-Turns i lt p (success c, t) k valid =
        ran-Turns i lt p c (record t { episodes = _ }) k valid

    run_found-Turns :
        (i : ℕ)
        → i < n
        → (p : Workers W I n) (x : Steal T × Workers W I n)
        → Keeps (AllValid W I n) (tasks W I n) p (stolen? x.0) x.1
        → Turns p (run_found W I n spawns defers i x).0 (run_found W I n spawns defers i x).1
    unfolding run_found Turns
    run_found-Turns i lt p (empty, t) k = k
    run_found-Turns i lt p (retry, t) k = k
    run_found-Turns i lt p (success c, t) k = ran-Turns i lt p c t k

    unless_finished :
        (p : Workers W I n) (x : Option T × Workers W I n) (b : Bool)
        → Turns p x.0 x.1
        → Turns p (if b then (none, p) else x).0 (if b then (none, p) else x).1
    unfolding Turns
    unless_finished p x true k valid = (valid, Perm.refl _)
    unless_finished p x false k valid = k valid

    module _ (few : n ≤ 2 ^ 63) where
      pub round-Turns :
          (i : ℕ)
          → i < n
          → (p : Workers W I n)
          → Turns p (round W I n spawns defers i p).0 (round W I n spawns defers i p).1
      unfolding round
      round-Turns i lt p =
          unless_finished p (after_next W I n spawns defers i (next (sources W I n i) loop p))
            p.finished
            (after_next-Turns i lt p (next (sources W I n i) loop p) (
              next-Keeps (sources W I n i) (AllValid W I n) (tasks W I n) (try_pop-Keeps W I n i lt)
                (try_steal-Keeps W I n i lt few) (pop_external-Keeps W I n) loop p))

      pub try_run_one-Turns :
          (i : ℕ)
          → i < n
          → (p : Workers W I n)
          → Turns p (try_run_one W I n spawns defers i p).0 (try_run_one W I n spawns defers i p).1
      unfolding try_run_one
      try_run_one-Turns i lt p = run_found-Turns i lt p (next (inner_sources W I n i) wait p) (
          next-Keeps (inner_sources W I n i) (AllValid W I n) (tasks W I n)
            (try_pop-Keeps W I n i lt) (try_steal-Keeps W I n i lt few)
            (λ s valid. (valid, Perm.refl _)) wait p)

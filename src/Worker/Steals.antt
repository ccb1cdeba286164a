-- ===== src/Worker/Steals.antt =====
-- A worker's sources keep the tasks of the pool: its own queue, a steal round, and the external queue.
use mathlib.Core.List.{Perm, append_assoc}
use mathlib.Core.List.Perm
use cmpth_rs.Prelude.{
  ℕ, zero, suc, ◌≤◌, ◌<◌, ◌^◌, ◌%◌, ◌≡◌, ◌≢◌, refl, sym, ap, ◌∙◌, subst, inl, inr, true, false,
  List, [], ◌∷◌, ◌++◌, arith, leb, if◌then◌else◌, Among, Distinct, update, update_self, update_ne,
  update_each, ℕ_discrete, Bool-cases, pop_front,
}
use cmpth_rs.RunQueue.Contract.{Steal, empty, WorkerRunQueue}
use cmpth_rs.RunQueue.History.{taken?, stolen?, Takes-perm, Steals-perm, swap_front}
use native.Mathlib.Nat.{mod-lt}
use cmpth_rs.Steal.{sweep, random_sweep_try_steal}
use cmpth_rs.Steal.{next as draw}
use cmpth_rs.Steal.Means.{Means}
use cmpth_rs.Steal.Sweep.{sweep-Means}
use cmpth_rs.Worker.{IdlePolicy, Workers, try_pop, visited, try_steal, pop_external}
use cmpth_rs.Worker.Dispatch.{Keeps}
use cmpth_rs.Worker.Sweeps.{Sweep, gave, over, passed, sweep_from-Sweep}

module _ {T : Type 0} (W : WorkerRunQueue T) where
  open W use {
    Queue, IsValid, contents, try_pop-IsValid, try_steal-IsValid, try_pop-Takes, try_steal-Steals,
  }

  -- The tasks in the first `n` queues.
  abbrev pub all : ℕ → (ℕ → Queue) → List T
  all zero qs = []
  all (suc n) qs = contents (qs n) ++ all n qs

  all-update_out :
      (n : ℕ) (qs : ℕ → Queue) (i : ℕ) (q : Queue) → n ≤ i → all n (update qs i q) ≡ all n qs
  all-update_out zero qs i q le = refl
  all-update_out (suc n) qs i q le =
      ap (λ x. contents x ++ all n (update qs i q))
        (update_ne qs q (λ e. absurd (omega (arith, e, le))))
      ∙ ap (λ l. contents (qs n) ++ l) (all-update_out n qs i q (omega (arith, le)))

  -- One queue changes, and gives `got`.
  pub all-update :
      (n : ℕ) (qs : ℕ → Queue) (i : ℕ) (q : Queue) (got : List T)
      → i < n
      → Perm (contents (qs i)) (got ++ contents q)
      → Perm (all n qs) (got ++ all n (update qs i q))
  all-update zero qs i q got lt k = absurd (omega (arith, lt))
  all-update (suc n) qs i q got lt k = elim (ℕ_discrete i n) [
    | yes e ↦
        subst (λ l. Perm (contents (qs n) ++ all n qs) (got ++ l))
          (sym (
            ap (λ x. contents x ++ all n (update qs i q))
              (subst (λ j. update qs i q j ≡ q) e (update_self qs i q))
            ∙ ap (λ l. contents q ++ l) (all-update_out n qs i q (omega (arith, e)))))
          (subst (Perm _) (append_assoc got (contents q) (all n qs)) (
            Perm.append_right (all n qs)
              (subst (λ j. Perm (contents (qs j)) (got ++ contents q)) e k)))
    | no ne ↦
        subst
          (λ x. Perm (contents (qs n) ++ all n qs) (got ++ (contents x ++ all n (update qs i q))))
          (sym (update_ne qs q ne))
          (Perm.trans
            (Perm.append_left (contents (qs n)) (all-update n qs i q got (omega (arith, lt, ne)) k))
            (swap_front (contents (qs n)) got (all n (update qs i q))))
  ]

  visited_out : (vs : List ℕ) (qs : ℕ → Queue) (v : ℕ) → ¬ Among v vs → visited W vs qs v ≡ qs v
  unfolding visited
  visited_out [] qs v out = refl
  visited_out (u ∷ vs) qs v out =
      update_ne (visited W vs qs) _ (λ e. out (inl (sym e)))
      ∙ visited_out vs qs v (λ a. out (inr a))

  visited-IsValid :
      (vs : List ℕ) (qs : ℕ → Queue)
      → ((v : ℕ) → IsValid (qs v))
      → (v : ℕ) → IsValid (visited W vs qs v)
  unfolding visited
  visited-IsValid [] qs valid = valid
  visited-IsValid (u ∷ vs) qs valid =
      update_each (λ v q. IsValid q) (visited W vs qs) u (try_steal-IsValid (qs u) (valid u))
        (λ v ne. visited-IsValid vs qs valid v)

  -- The thefts of a sweep lose nothing but what it gave.
  visited-perm :
      (n : ℕ) (qs : ℕ → Queue) (r : Steal T) (vs : List ℕ)
      → ((v : ℕ) → IsValid (qs v))
      → Sweep (λ v. (W.try_steal (qs v)).0) r vs
      → Distinct vs
      → ((v : ℕ) → Among v vs → v < n)
      → Perm (all n qs) (stolen? r ++ all n (visited W vs qs))
  unfolding visited
  visited-perm n qs r vs valid (over _ e) d few =
      subst (λ l. Perm (all n qs) (l ++ all n qs)) (sym e) (Perm.refl _)
  visited-perm n qs r vs valid (gave v c e) d few =
      all-update n qs v (W.try_steal (qs v)).1 (c ∷ []) (few v (inl refl)) (
        subst (λ a. Perm (contents (qs v)) (stolen? a ++ contents (W.try_steal (qs v)).1)) e
          (Steals-perm _ _ _ (try_steal-Steals (qs v) (valid v))))
  visited-perm n qs r _ valid (passed v _ vs e sw) d few =
      Perm.trans (visited-perm n qs r vs valid sw d.1 (λ u a. few u (inr a))) (
        Perm.append_left (stolen? r) (
          all-update n (visited W vs qs) v (W.try_steal (qs v)).1 [] (few v (inl refl)) (
            subst (λ q. Perm (contents q) (contents (W.try_steal (qs v)).1))
              (sym (visited_out vs qs v d.0))
              (subst (λ l. Perm (contents (qs v)) (l ++ contents (W.try_steal (qs v)).1)) e
                (Steals-perm _ _ _ (try_steal-Steals (qs v) (valid v)))))))

  module _ (I : IdlePolicy) (n : ℕ) where
    -- All queues of the pool keep their contract.
    abbrev pub AllValid : Workers W I n → Type 0
    AllValid p = (v : ℕ) → IsValid (p.queues v)

    abbrev pub tasks : Workers W I n → List T
    tasks p = all n p.queues ++ p.outside

    pub try_pop-Keeps :
        (i : ℕ)
        → i < n
        → (p : Workers W I n)
        → Keeps AllValid tasks p (taken? (try_pop W I n i p).0) (try_pop W I n i p).1
    unfolding try_pop
    try_pop-Keeps i lt p valid = (
      update_each (λ v q. IsValid q) p.queues i (try_pop-IsValid (p.queues i) (valid i))
          (λ v ne. valid v),
      subst (Perm _) (append_assoc _ _ p.outside) (
          Perm.append_right p.outside (
            all-update n p.queues i _ _ lt
              (Takes-perm _ _ _ (try_pop-Takes (p.queues i) (valid i))))),
    )

    module _ (i : ℕ) (p : Workers W I n) where
      abbrev pub answers : ℕ → Steal T
      answers v = (W.try_steal (p.queues v)).0

      -- The sweep of the worker `i`.
      abbrev pub from : ℕ
      from = (draw (p.steals i)).0 % n

      abbrev pub asked : List ℕ
      asked = (sweep answers from i n).1

      abbrev pub swept : Steal T × Workers W I n
      swept = (
        (sweep answers from i n).0,
        record p {
          steals = update p.steals i (draw (p.steals i)).1;
          queues = visited W asked p.queues;
        },
      )

      pub try_steal_alone : leb n 1 ≡ true → try_steal W I n i p ≡ (empty, p)
      unfolding try_steal random_sweep_try_steal
      try_steal_alone e = ap (λ b. if b then (empty, p) else swept) e

      pub try_steal_swept : leb n 1 ≡ false → try_steal W I n i p ≡ swept
      unfolding try_steal random_sweep_try_steal
      try_steal_swept e = ap (λ b. if b then (empty, p) else swept) e

      pub asked-Means :
          i < n
          → n ≤ 2 ^ 63
          → Means answers (λ v. (v < n) × (v ≢ i)) false (sweep answers from i n).0 asked
            × Distinct asked
            × ((v : ℕ) → Among v asked → (v < n) × (v ≢ i))
      asked-Means lt few =
          let some_worker : 0 < n = omega (arith, lt) in
          let small = mod-lt (draw (p.steals i)).0 some_worker in
          sweep-Means answers from i n some_worker (omega (arith, few, small))

    pub try_steal-Keeps :
        (i : ℕ)
        → i < n
        → n ≤ 2 ^ 63
        → (p : Workers W I n)
        → Keeps AllValid tasks p (stolen? (try_steal W I n i p).0) (try_steal W I n i p).1
    unfolding sweep
    try_steal-Keeps i lt few p valid = elim (Bool-cases (leb n 1)) [
      | inl alone ↦ subst stays (sym (try_steal_alone i p alone)) (valid, Perm.refl _)
      | inr others ↦
          let means = asked-Means i p lt few in
          subst stays (sym (try_steal_swept i p others)) (
            visited-IsValid (asked i p) p.queues valid,
            subst (Perm _) (append_assoc _ _ p.outside) (
                Perm.append_right p.outside (
                  visited-perm n p.queues _ (asked i p) valid
                    (sweep_from-Sweep (answers i p) (from i p) i n n 0 false) means.1
                    (λ v a. (means.2 v a).0))),
          )
    ]
      where
        stays : Steal T × Workers W I n → Type 0
        stays x = AllValid x.1 × Perm (tasks p) (stolen? x.0 ++ tasks x.1)

    pub pop_external-Keeps :
        (p : Workers W I n)
        → Keeps AllValid tasks p (taken? (pop_external W I n p).0) (pop_external W I n p).1
    unfolding pop_external
    pop_external-Keeps p valid = go p.outside refl
      where
        go :
            (l : List T)
            → p.outside ≡ l
            → (AllValid p)
              × Perm (tasks p) (taken? (pop_front l).0 ++ (all n p.queues ++ (pop_front l).1))
        go [] e = (
          valid,
          subst (λ x. Perm (all n p.queues ++ x) (all n p.queues ++ [])) (sym e) (Perm.refl _),
        )
        go (c ∷ l) e = (
          valid,
          subst (λ x. Perm (all n p.queues ++ x) (c ∷ (all n p.queues ++ l))) (sym e)
              (swap_front (all n p.queues) (c ∷ []) l),
        )

-- ===== src/Timers/Armed.antt =====
-- The timer duty's deadline covers every sleeper.
use cmpth_rs.Prelude.{
  sym, subst, ◌∙◌, update, update_self, update_ne, ℕ, ◌≤◌, ◌<◌, ◌≡◌, refl, ap, ◌⊎◌, inl, inr, true,
  false, arith, min-le_left, min-le_right, update_each, Among, Bool-cases, dec_le,
}
use cmpth_rs.Timers.{
  Timers, heap_push, fire_timers, start_sleep, poll_again, Step, started, polled, dropped, cleared,
  fired_at, Reach, begin, later,
}
use cmpth_rs.Timers.Heap.{Sorted, Among-heap_push, heap_push-Among, heap_push-Sorted, rearm-le}
use cmpth_rs.Timers.Fire.{
  fire_loop-until, IsDue, fire_loop-IsDue, Unchanged, Fires, fire_loop-Leaves, fire_loop-Unchanged,
  fire_loop-Fires,
}

-- The duty is being run, or its deadline is not later than `at`.
abbrev pub Covers : Timers → ℕ → Type 0
Covers t at = (t.running ≡ true) ⊎ (t.deadline ≤ at)

pub record IsArmed (t : Timers) : Type 0 where
  pub sorted : Sorted t.heap
  pub named : (at id : ℕ) → Among (at, id) t.heap → (at ≡ t.until id) × (id < t.seq)
  pub armed : (at id : ℕ) → Among (at, id) t.heap → Covers t at
  pub entered : (id : ℕ) → t.slots id ≡ true → (at : ℕ) × Among (at, id) t.heap

started-IsArmed : (t : Timers) (at task : ℕ) → IsArmed t → IsArmed (start_sleep at task t)
started-IsArmed t at task h = record {
  sorted = heap_push-Sorted (at, t.seq) t.heap h.sorted;
  named = λ a i m. elim (Among-heap_push (at, t.seq) (a, i) t.heap m) [
    | inl w ↦ (
      ap (λ p. p.0) w
          ∙ sym (
              subst (λ k. update t.until t.seq at k ≡ at) (sym (ap (λ p. p.1) w))
                (update_self t.until t.seq at)),
      omega (arith, ap (λ p. p.1) w),
    )
    | inr m' ↦
        let (e, lt) = h.named a i m' in
        (
          e ∙ sym (update_ne t.until at (λ same. absurd (omega (arith, same, lt)))),
          omega (arith, lt),
        )
  ];
  armed = λ a i m. elim (Among-heap_push (at, t.seq) (a, i) t.heap m) [
    | inl w ↦ inr (omega (arith, min-le_right t.deadline at, ap (λ p. p.0) w))
    | inr m' ↦ elim (h.armed a i m') [
      | inl run ↦ inl run
      | inr le ↦ inr (omega (arith, min-le_left t.deadline at, le))
    ]
  ];
  entered =
      update_each (λ i b. b ≡ true → (a : ℕ) × Among (a, i) (heap_push (at, t.seq) t.heap)) t.slots
        t.seq (λ _. (at, heap_push-Among (at, t.seq) (at, t.seq) t.heap (inl refl)))
        (λ i _ e.
          let (a, m) = h.entered i e in (a, heap_push-Among (at, t.seq) (a, i) t.heap (inr m)));
}

polled-IsArmed : (t : Timers) (id task : ℕ) → IsArmed t → IsArmed (poll_again id task t).1
polled-IsArmed t id task h = elim (Bool-cases (t.fired id)) [
  | inl done ↦ rw done h
  | inr not_yet ↦
      rw not_yet
        (record { sorted = h.sorted; named = h.named; armed = h.armed; entered = h.entered })
]

fired-IsArmed : (t : Timers) (now : ℕ) → IsArmed t → IsArmed (fire_timers now t).0
unfolding fire_timers
fired-IsArmed t now h =
    let (s, f, g) = fire_loop-Leaves now t.heap t h.sorted in
    record {
      sorted = s;
      named = λ at id m.
          let (e, lt) = h.named at id (f at id m).1 in
          let (u, q) = fire_loop-until now t.heap t in
          (e ∙ sym (ap (λ g. g id) u), omega (arith, lt, q));
      armed = λ at id m. inr (rearm-le _ _ at id s m);
      entered = λ id e. elim (Bool-cases (t.slots id)) [
        | inr gone ↦
            let (a, b, c) = fire_loop-Unchanged now t.heap t id (inl gone) in cc (a, gone, e)
        | inl on ↦
            let (at, m) = h.entered id on in
            elim (dec_le at now) [
              | yes due ↦
                  let (a, b, c) = fire_loop-Fires now t.heap t at id h.sorted m due on in cc (b, e)
              | no later_on ↦ (at, g at id m (omega arith))
            ]
      ];
    }

Step-IsArmed : {s t : Timers} → IsArmed s → Step s t → IsArmed t
Step-IsArmed {s} h (started at task) = started-IsArmed s at task h
Step-IsArmed {s} h (polled id task) = polled-IsArmed s id task h
Step-IsArmed {s} h (dropped id) = record {
  sorted = h.sorted;
  named = h.named;
  armed = h.armed;
  entered =
      update_each (λ i b. b ≡ true → (a : ℕ) × Among (a, i) s.heap) s.slots id (λ e. cc)
        (λ i _ e. h.entered i e);
}
Step-IsArmed {s} h (cleared idle) = record {
  sorted = h.sorted;
  named = h.named;
  armed = λ at id m. inl refl;
  entered = h.entered;
}
Step-IsArmed {s} h (fired_at now run) = fired-IsArmed s now h

Reach-IsArmed : {t : Timers} → Reach t → IsArmed t
Reach-IsArmed begin = record {
  sorted = tt;
  named = λ at id m. absurd m;
  armed = λ at id m. absurd m;
  entered = λ id e. cc;
}
Reach-IsArmed (later r st) = Step-IsArmed (Reach-IsArmed r) st

-- No sleeper is forgotten: in every reachable state, a sleeper that neither fired nor was dropped
-- has an entry in the heap at the time that it sleeps until, and the timer duty is being run or has a
-- deadline no later than that.
pub sleeper-Covers :
    {t : Timers}
    → Reach t
    → (id : ℕ) → t.slots id ≡ true
    → Among (t.until id, id) t.heap × Covers t (t.until id)
sleeper-Covers {t} r id on =
    let h = Reach-IsArmed r in
    let (at, m) = h.entered id on in
    subst (λ u. Among (u, id) t.heap × Covers t u) (h.named at id m).0 (m, h.armed at id m)

-- In every reachable state `fire_timers` fires each waiting sleeper that has an entry not later
-- than `now` and wakes the task whose waker it left, it leaves alone the sleepers that are gone or whose
-- entries are all later, and it wakes no other task.
pub fire_timers-Fires :
    {t : Timers}
    → Reach t
    → (now : ℕ)
    → ((at id : ℕ)
        → Among (at, id) t.heap
        → at ≤ now
        → t.slots id ≡ true
        → Fires id t (fire_timers now t))
      × ((id : ℕ)
          → (t.slots id ≡ false) ⊎ ((at : ℕ) → Among (at, id) t.heap → now < at)
          → Unchanged id t (fire_timers now t).0)
      × ((task : ℕ) → Among task (fire_timers now t).1 → IsDue now t.heap t task)
unfolding fire_timers
fire_timers-Fires {t} r now =
    let h = Reach-IsArmed r in
    (
      λ at id m le on. fire_loop-Fires now t.heap t at id h.sorted m le on,
      λ id gone. fire_loop-Unchanged now t.heap t id gone,
      λ task m. fire_loop-IsDue now t.heap t task m,
    )

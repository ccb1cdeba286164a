-- ===== src/Timers/Fire.antt =====
-- What `fire_timers` fires.
use cmpth_rs.Prelude.{
  ℕ, ◌≤◌, ◌<◌, ◌≡◌, ◌≢◌, refl, sym, ap, subst, ◌∙◌, ◌⊎◌, inl, inr, true, false, Option, none, some,
  List, [], ◌∷◌, arith, leb, update, update_self, update_ne, Among, Bool-cases, ℕ_discrete,
}
use cmpth_rs.Timers.{Timers, fire_slot, fire_loop, woken_by}
use cmpth_rs.Timers.Heap.{Sorted}

-- What is left in the heap is in order and later than `now`, and was there before.
abbrev Leaves : ℕ → List (ℕ × ℕ) → List (ℕ × ℕ) → Type 0
Leaves now xs left =
    Sorted left
    × ((at id : ℕ) → Among (at, id) left → (now < at) × Among (at, id) xs)
    × ((at id : ℕ) → Among (at, id) xs → now < at → Among (at, id) left)

pub fire_loop-Leaves :
    (now : ℕ) (xs : List (ℕ × ℕ)) (t : Timers)
    → Sorted xs
    → Leaves now xs (fire_loop now xs t).0.heap
unfolding fire_loop
fire_loop-Leaves now [] t s = (tt, (λ at id m. absurd m), λ at id m lt. m)
fire_loop-Leaves now ((a, k) ∷ xs) t (least, s) = elim (Bool-cases (leb a now)) [
  | inr late ↦ rw late (
    (least, s),
    (λ at id m. (
      elim m [
        | inl w ↦ subst (λ z. now < z) (sym (ap (λ p. p.0) w)) (after late)
        | inr m' ↦ omega (arith, after late, least at id m')
      ],
      m,
    )),
    λ at id m lt. m,
  )
  | inl due ↦ elim (Bool-cases (t.slots k)) [
    | inl here ↦ rw (due, here) (more _ due (fire_loop-Leaves now xs (fire_slot k t) s))
    | inr gone ↦ rw (due, gone) (more _ due (fire_loop-Leaves now xs t s))
  ]
]
  where
    after : leb a now ≡ false → now < a
    after late = ground arith

    more :
        (left : List (ℕ × ℕ))
        → leb a now ≡ true
        → Leaves now xs left
        → Leaves now ((a, k) ∷ xs) left
    more left due (o, f, g) = (
      o,
      (λ at id m. let (lt, m') = f at id m in (lt, inr m')),
      λ at id m lt. elim m [
        | inl w ↦ absurd (not_after due (subst (λ z. now < z) (ap (λ p. p.0) w) lt))
        | inr m' ↦ g at id m' lt
      ],
    )
      where
        not_after : leb a now ≡ true → ¬ (now < a)
        not_after due lt = ground (arith, due, lt)

abbrev pub Unchanged : ℕ → Timers → Timers → Type 0
Unchanged id t t' =
    (t'.slots id ≡ t.slots id) × (t'.fired id ≡ t.fired id) × (t'.waker id ≡ t.waker id)

fire_slot-Unchanged : (k id : ℕ) (t : Timers) → k ≢ id → Unchanged id t (fire_slot k t)
fire_slot-Unchanged k id t ne =
    (update_ne t.slots false ne, update_ne t.fired true ne, update_ne t.waker none ne)

-- A sleeper that is gone, or whose entries are all later, is left alone.
pub fire_loop-Unchanged :
    (now : ℕ) (xs : List (ℕ × ℕ)) (t : Timers) (id : ℕ)
    → (t.slots id ≡ false) ⊎ ((at : ℕ) → Among (at, id) xs → now < at)
    → Unchanged id t (fire_loop now xs t).0
unfolding fire_loop
fire_loop-Unchanged now [] t id h = (refl, refl, refl)
fire_loop-Unchanged now ((a, k) ∷ xs) t id h = elim (Bool-cases (leb a now)) [
  | inr late ↦ rw late (refl, refl, refl)
  | inl due ↦ elim (Bool-cases (t.slots k)) [
    | inr gone ↦
        rw (due, gone)
          (fire_loop-Unchanged now xs t id
            (elim h [ inl e ↦ inl e | inr f ↦ inr (λ at m. f at (inr m)) ]))
    | inl here ↦
        rw (due, here)
          (let other = apart due here h in
            let (a1, a2, a3) = fire_slot-Unchanged k id t other in
            let (b1, b2, b3) =
              fire_loop-Unchanged now xs (fire_slot k t) id
                (elim h [ inl e ↦ inl (a1 ∙ e) | inr f ↦ inr (λ at m. f at (inr m)) ]) in
            (b1 ∙ a1, b2 ∙ a2, b3 ∙ a3))
  ]
]
  where
    not_after : leb a now ≡ true → ¬ (now < a)
    not_after due lt = ground (arith, due, lt)

    apart :
        leb a now ≡ true
        → t.slots k ≡ true
        → (t.slots id ≡ false) ⊎ ((at : ℕ) → Among (at, id) ((a, k) ∷ xs) → now < at)
        → k ≢ id
    apart due here (inl e) w = cc (ap t.slots w, here, e)
    apart due here (inr f) w = not_after due (f a (inl (ap (λ z. (a, z)) (sym w))))

-- The sleepers' own times stay.
pub fire_loop-until :
    (now : ℕ) (xs : List (ℕ × ℕ)) (t : Timers)
    → ((fire_loop now xs t).0.until ≡ t.until) × ((fire_loop now xs t).0.seq ≡ t.seq)
unfolding fire_loop
fire_loop-until now [] t = (refl, refl)
fire_loop-until now ((a, k) ∷ xs) t = elim (Bool-cases (leb a now)) [
  | inr late ↦ rw late (refl, refl)
  | inl due ↦ elim (Bool-cases (t.slots k)) [
    | inr gone ↦ rw (due, gone) (fire_loop-until now xs t)
    | inl here ↦ rw (due, here) (fire_loop-until now xs (fire_slot k t))
  ]
]

-- A waiting sleeper whose time has come.
abbrev pub IsDue : ℕ → List (ℕ × ℕ) → Timers → ℕ → Type 0
IsDue now xs t task =
    (at id : ℕ) × Among (at, id) xs × (at ≤ now) × (t.slots id ≡ true) × (t.waker id ≡ some task)

woken_by-Among :
    (w : Option ℕ) (task : ℕ) (xs : List ℕ)
    → Among task (woken_by w xs)
    → (w ≡ some task) ⊎ Among task xs
woken_by-Among none task xs m = inr m
woken_by-Among (some x) task xs (inl e) = inl (ap some (sym e))
woken_by-Among (some x) task xs (inr m) = inr m

-- Nobody else is woken.
pub fire_loop-IsDue :
    (now : ℕ) (xs : List (ℕ × ℕ)) (t : Timers) (task : ℕ)
    → Among task (fire_loop now xs t).1
    → IsDue now xs t task
unfolding fire_loop
fire_loop-IsDue now [] t task = λ m. absurd m
fire_loop-IsDue now ((a, k) ∷ xs) t task = elim (Bool-cases (leb a now)) [
  | inr late ↦ rw late (λ m. absurd m)
  | inl due ↦ elim (Bool-cases (t.slots k)) [
    | inr gone ↦
        rw (due, gone)
          (λ m.
            let (at, id, m', le, on, w) = fire_loop-IsDue now xs t task m in
            (at, id, inr m', le, on, w))
    | inl here ↦
        rw (due, here)
          (λ m. elim (woken_by-Among (t.waker k) task (fire_loop now xs (fire_slot k t)).1 m) [
            | inl w ↦ (a, k, inl refl, ground (arith, due), here, w)
            | inr m' ↦
                let (at, id, among, le, on, w) = fire_loop-IsDue now xs (fire_slot k t) task m' in
                elim (ℕ_discrete k id) [
                  | yes same ↦ absurd (
                      let off =
                        subst (λ z. update t.slots k false z ≡ false) same
                          (update_self t.slots k false) in
                      cc (on, off))
                  | no ne ↦ (
                    at,
                    id,
                    inr among,
                    le,
                    sym (update_ne t.slots false ne) ∙ on,
                    sym (update_ne t.waker none ne) ∙ w,
                  )
                ]
          ])
  ]
]

abbrev pub Fires : ℕ → Timers → Timers × List ℕ → Type 0
Fires id t out =
    (out.0.fired id ≡ true)
    × (out.0.slots id ≡ false)
    × ((task : ℕ) → t.waker id ≡ some task → Among task out.1)

Among-woken_by :
    (w : Option ℕ) (task : ℕ) (xs : List ℕ) → Among task xs → Among task (woken_by w xs)
Among-woken_by none task xs m = m
Among-woken_by (some x) task xs m = inr m

woken_by_self : (w : Option ℕ) (task : ℕ) (xs : List ℕ) → w ≡ some task → Among task (woken_by w xs)
woken_by_self none task xs e = cc
woken_by_self (some x) task xs e = inl (cc e)

-- A sleeper whose time has come is fired, and its task is woken.
pub fire_loop-Fires :
    (now : ℕ) (xs : List (ℕ × ℕ)) (t : Timers) (at id : ℕ)
    → Sorted xs
    → Among (at, id) xs
    → at ≤ now
    → t.slots id ≡ true
    → Fires id t (fire_loop now xs t)
unfolding fire_loop
fire_loop-Fires now [] t at id s m le on = absurd m
fire_loop-Fires now ((a, k) ∷ xs) t at id (least, s) m le on = elim (Bool-cases (leb a now)) [
  | inr late ↦ absurd (elim m [
    | inl w ↦ too_late late (subst (λ z. z ≤ now) (ap (λ p. p.0) w) le)
    | inr m' ↦ too_late late (omega (arith, least at id m'))
  ])
  | inl due ↦ elim (Bool-cases (t.slots k)) [
    | inr gone ↦
        rw (due, gone)
          (elim m [
            | inl w ↦ cc (ap t.slots (ap (λ p. p.1) w), gone, on)
            | inr m' ↦ fire_loop-Fires now xs t at id s m' le on
          ])
    | inl here ↦
        rw (due, here)
          (elim (ℕ_discrete k id) [
            | yes w ↦
                let (b1, b2, b3) = fire_loop-Unchanged now xs (fire_slot k t) id (
                  inl (
                    subst (λ z. update t.slots k false z ≡ false) w
                      (update_self t.slots k false))) in
                (
                  b2 ∙ subst (λ z. update t.fired k true z ≡ true) w (update_self t.fired k true),
                  b1
                      ∙ subst (λ z. update t.slots k false z ≡ false) w
                          (update_self t.slots k false),
                  λ task e. woken_by_self (t.waker k) task _ (ap t.waker w ∙ e),
                )
            | no ne ↦ elim m [
              | inl w ↦ absurd (ne (sym (ap (λ p. p.1) w)))
              | inr m' ↦
                  let (a1, a2, a3) = fire_slot-Unchanged k id t ne in
                  let (f, o, g) = fire_loop-Fires now xs (fire_slot k t) at id s m' le (a1 ∙ on) in
                  (f, o, λ task e. Among-woken_by (t.waker k) task _ (g task (a3 ∙ e)))
            ]
          ])
  ]
]
  where
    too_late : leb a now ≡ false → ¬ (a ≤ now)
    too_late late lt = ground (arith, late, lt)

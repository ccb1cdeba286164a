-- ===== src/Duty/Plan.antt =====
-- When the keeper plans to wake up, and from when idle workers look at the duties.
use cmpth_rs.Prelude.{
  ℕ, ◌≤◌, ◌≡◌, refl, ◌⊎◌, inl, inr, Bool, true, arith, ltb, if◌then◌else◌, min, min-le_left,
  min-le_right, Bool-cases,
}
use cmpth_rs.Duty.{DutyPlace, anywhere, Inner, due, half_due, saturating_add}
use cmpth_rs.Duty.Registry.{Registry, is_anywhere, timed_slack, replan}

-- The keeper wakes up by the due time `t` of a duty at `p`, or a timed worker covers it.
abbrev pub Covered : DutyPlace → Registry → ℕ → Type 0
Covered p r t =
    (r.planned ≤ t)
    ⊎ ((p ≡ anywhere) × (r.timed ≡ true) × (r.planned ≤ saturating_add r.timed_until timed_slack))

-- The keeper wakes up by the duty's due time or has been woken, and idle workers look by the time
-- it is half due.
abbrev pub Seen : ℕ → Bool → ℕ → Inner → Type 0
Seen planned token half_due_at d =
    ((planned ≤ due d) ⊎ (token ≡ true)) × (is_anywhere d.place ≡ true → half_due_at ≤ half_due d)

abbrev pub Watched : ℕ → Registry → Type 0
Watched id r = Seen r.planned r.token r.half_due_at (r.inner id)

pub replan-Watched : (id : ℕ) (r : Registry) → r.started ≡ true → Watched id (replan id r)
unfolding replan
replan-Watched id r on = elim (Bool-cases (ltb (due (r.inner id)) r.planned)) [
  | inl late ↦ rw late (inr (rw on refl), looks)
  | inr early ↦ rw early (inl (ground arith), looks)
]
  where
    looks :
        is_anywhere (r.inner id).place ≡ true
        → (if is_anywhere (r.inner id).place
            then min r.half_due_at (half_due (r.inner id))
            else r.half_due_at)
          ≤ half_due (r.inner id)
    looks any = rw any (min-le_right r.half_due_at (half_due (r.inner id)))

pub replan-others : (id j : ℕ) (r : Registry) → Watched j r → Watched j (replan id r)
unfolding replan
replan-others id j r (w, h) = elim (Bool-cases (ltb (due (r.inner id)) r.planned)) [
  | inl late ↦ rw late (elim w [ inl e ↦ inl e | inr e ↦ inr (rw e (ground arith)) ], looks)
  | inr early ↦ rw early (w, looks)
]
  where
    looks :
        is_anywhere (r.inner j).place ≡ true
        → (if is_anywhere (r.inner id).place
            then min r.half_due_at (half_due (r.inner id))
            else r.half_due_at)
          ≤ half_due (r.inner j)
    looks any = elim (Bool-cases (is_anywhere (r.inner id).place)) [
      | inl here ↦ rw here (omega (arith, min-le_left r.half_due_at (half_due (r.inner id)), h any))
      | inr not_here ↦ rw not_here (h any)
    ]

-- ===== src/Duty/Park.antt =====
-- The role of the timed worker: who keeps the due times while workers are parked.
use cmpth_rs.Prelude.{
  ◌+◌, max, true, ℕ, ◌≤◌, ◌≡◌, refl, ap, ◌∙◌, inl, inr, Bool, true, false, ◌&&◌, ◌||◌, Option, some,
  ltb, ◌==◌, arith, Among, Bool-cases,
}
use cmpth_rs.Duty.{never, due, saturating_add}
use cmpth_rs.Duty.Registry.{
  Registry, is_anywhere, earliest, timed_slack, sleep_ns, park_timeout, idle_done,
}
use cmpth_rs.Duty.Pass.{earliest-le, earliest-reached}

-- If the worker keeps the due times afterwards, the registry says so, and the worker sleeps until the
-- recorded time, but for at least 1 µs; that time is not after any due time of the duties that may run
-- anywhere, and is one of them.
abbrev pub KeepsTime : ℕ → Registry → (Option ℕ × Bool) × Registry → Type 0
KeepsTime now r out =
    out.0.1 ≡ true
    → (out.1.timed ≡ true)
      × ((t : ℕ) × (out.0.0 ≡ some t) × (now + t ≡ max out.1.timed_until (now + 1000)))
      × ((j : ℕ)
          → Among j r.reg
          → is_anywhere (r.inner j).place ≡ true
          → out.1.timed_until ≤ due (r.inner j))
      × ((j : ℕ) × Among j r.reg
          × (is_anywhere (r.inner j).place ≡ true)
          × (out.1.timed_until ≡ due (r.inner j)))

slept : (until now : ℕ) → now + sleep_ns until now ≡ max until (now + 1000)
unfolding max
slept until now = ground arith

keeping :
    (now : ℕ) (r : Registry)
    → (earliest due r.inner r.reg == never) ≡ false
    → KeepsTime now r (
      (some (sleep_ns (earliest due r.inner r.reg) now), true),
      record r { timed = true; timed_until = earliest due r.inner r.reg },
    )
keeping now r some_due e = (
  refl,
  (sleep_ns (earliest due r.inner r.reg) now, refl, slept (earliest due r.inner r.reg) now),
  λ j m any. earliest-le due r.inner r.reg j m any,
  earliest-reached due r.inner r.reg (λ x. ground (arith, some_due, x)),
)

-- The time that another worker sleeps until, or a little later, is yet to come.
abbrev pub Taken : ℕ → Registry → Type 0
Taken now r =
    (r.timed ≡ true)
    × ((r.timed_until == never || ltb now (saturating_add r.timed_until timed_slack)) ≡ true)

-- A worker that gets the registry's lock, while a duty is registered, keeps the due times after
-- `park_timeout` only with the role marked as taken and the earliest due time of the duties that may run
-- anywhere recorded, and with a timeout that ends then, or 1 µs from now if that is later; a worker that
-- did not keep them does not take the role while another worker's claim on it holds.
pub park_timeout-KeepsTime :
    (timed : Bool) (now : ℕ) (r : Registry)
    → (r.active == 0) ≡ false
    → KeepsTime now r (park_timeout timed true now r)
      × (timed ≡ false → Taken now r → (park_timeout timed true now r).0.1 ≡ false)
unfolding park_timeout idle_done
park_timeout-KeepsTime true now r busy = elim (Bool-cases (earliest due r.inner r.reg == never)) [
  | inl nothing ↦ rw (busy, nothing) ((λ e. cc), λ e. cc)
  | inr something ↦ rw (busy, something) (keeping now r something, λ e. cc)
]
park_timeout-KeepsTime false now r busy = elim (Bool-cases (earliest due r.inner r.reg == never)) [
  | inl nothing ↦ rw (busy, nothing) ((λ e. cc), λ _ _. refl)
  | inr something ↦
      elim (Bool-cases (
        r.timed
        && (r.timed_until == never || ltb now (saturating_add r.timed_until timed_slack)))) [
          | inl held ↦ rw (busy, something, held) ((λ e. cc), λ _ _. refl)
          | inr expired ↦
              rw (busy, something, expired)
                (keeping now r something, λ _ t. cc (claimed t, expired))
        ]
]
  where
    claimed :
        Taken now r
        → (r.timed
            && (r.timed_until == never || ltb now (saturating_add r.timed_until timed_slack)))
          ≡ true
    claimed (a, b) =
        ap
          (λ x. x && (r.timed_until == never || ltb now (saturating_add r.timed_until timed_slack)))
          a
        ∙ b

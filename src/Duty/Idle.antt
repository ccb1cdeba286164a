-- ===== src/Duty/Idle.antt =====
-- What idle workers run.
use cmpth_rs.Prelude.{
  ℕ, ◌≤◌, ◌<◌, ◌≡◌, refl, sym, subst, inl, inr, true, false, arith, ltb, leb, Among, Distinct,
  Bool-cases,
}
use cmpth_rs.Duty.{Inner, half_due}
use cmpth_rs.Duty.Registry.{
  Registry, is_anywhere, Answers, polled_if_half_due, idle_slow, update_half_due,
}
use cmpth_rs.Duty.Polls.{PolledIfHalfDue, polled_if_half_due_lem}
use cmpth_rs.Duty.Pass.{idle_pass-polls, earliest-le}

-- No duty that may run anywhere is half due before the time from which idle workers look.
abbrev pub Looks : Registry → Type 0
Looks r =
    (j : ℕ)
    → Among j r.reg
    → is_anywhere (r.inner j).place ≡ true
    → r.half_due_at ≤ half_due (r.inner j)

too_early :
    (now : ℕ) (ans : Answers) (id : ℕ) (d : Inner)
    → (is_anywhere d.place ≡ true → now < half_due d)
    → polled_if_half_due now ans id d ≡ d
too_early now ans id d early = elim (Bool-cases (is_anywhere d.place)) [
  | inr keepers ↦ rw keepers refl
  | inl any ↦ rw (any, not_yet (early any)) refl
]
  where
    not_yet : now < half_due d → leb (half_due d) now ≡ false
    not_yet lt = ground arith

-- Over distinct duties, if idle workers look early enough and the lock is free, `idle_slow`, whether it
-- returns early or not, polls once each registered duty that may run anywhere and is half due, by what its
-- poll counter, the time of its last poll, its deadline and, if the poll did something, its period say, and
-- leaves every other one unchanged; afterwards idle workers look early enough.
pub idle_slow-polls :
    (now : ℕ) (ans : Answers) (r : Registry)
    → Distinct r.reg
    → Looks r
    → ((j : ℕ)
        → Among j r.reg
        → PolledIfHalfDue ans j (r.inner j) now ((idle_slow now true ans r).inner j))
      × Looks (idle_slow now true ans r)
unfolding idle_slow update_half_due
idle_slow-polls now ans r dist looks = elim (Bool-cases (ltb now r.half_due_at)) [
  | inl early ↦ rw early (
    λ j m.
        as_polled j (r.inner j)
          (sym (too_early now ans j (r.inner j) (λ any. ground (arith, early, looks j m any)))),
    looks,
  )
  | inr look ↦ rw look (
    λ j m. as_polled j _ (idle_pass-polls now ans r.reg r.inner dist j m),
    λ j m any. earliest-le half_due _ r.reg j m any,
  )
]
  where
    as_polled :
        (j : ℕ) (e : Inner)
        → e ≡ polled_if_half_due now ans j (r.inner j)
        → PolledIfHalfDue ans j (r.inner j) now e
    as_polled j e same =
        subst (PolledIfHalfDue ans j (r.inner j) now) (sym same)
          (polled_if_half_due_lem ans j (r.inner j) now)

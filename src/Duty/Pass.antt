-- ===== src/Duty/Pass.antt =====
-- The keeper's pass over the duties: what it polls, and the due times it collects.
use cmpth_rs.Prelude.{
  ◌≢◌, min_cases, ℕ, ◌≤◌, ◌≡◌, refl, sym, subst, ◌∙◌, inl, inr, true, List, [], ◌∷◌, arith,
  if◌then◌else◌, min, min-le_left, min-le_right, update, update_self, update_ne, Among, Distinct,
  Bool-cases,
}
use cmpth_rs.Duty.{DutyPlace, anywhere, keeper, Inner, due, never}
use cmpth_rs.Duty.Registry.{
  is_anywhere, Answers, polled_if_due, polled_if_half_due, keep_pass, idle_pass, earliest,
}

-- `m` and `a`, the collected due times, are not later than `t`, that of a duty at `p`.
abbrev pub Collected : DutyPlace → ℕ → ℕ → ℕ → Type 0
Collected anywhere m a t = a ≤ t
Collected keeper m a t = m ≤ t

abbrev later_mine : DutyPlace → ℕ → ℕ → ℕ
later_mine p m t = if is_anywhere p then m else min m t

abbrev later_any : DutyPlace → ℕ → ℕ → ℕ
later_any p a t = if is_anywhere p then min a t else a

later-Collected :
    (p : DutyPlace) (m a m' a' t : ℕ)
    → m' ≤ later_mine p m t
    → a' ≤ later_any p a t
    → (m' ≤ m) × (a' ≤ a) × Collected p m' a' t
later-Collected anywhere m a m' a' t h k =
    (h, omega (arith, min-le_left a t), omega (arith, min-le_right a t))
later-Collected keeper m a m' a' t h k =
    (omega (arith, min-le_left m t), k, omega (arith, min-le_right m t))

module _ (now : ℕ) (ans : Answers) where
  keep_pass_le :
      (ids : List ℕ) (inner : ℕ → Inner) (mine any : ℕ)
      → ((keep_pass now ans ids inner mine any).1 ≤ mine)
        × ((keep_pass now ans ids inner mine any).2 ≤ any)
  unfolding keep_pass
  keep_pass_le [] inner mine any = (omega arith, omega arith)
  keep_pass_le (id ∷ ids) inner mine any =
      let d = polled_if_due now ans id (inner id) in
      let rest =
        keep_pass_le ids (update inner id d) (later_mine d.place mine (due d))
          (later_any d.place any (due d)) in
      let c = later-Collected d.place mine any _ _ (due d) rest.0 rest.1 in (c.0, c.1)

  keep_pass_other :
      (ids : List ℕ) (inner : ℕ → Inner) (mine any : ℕ) (j : ℕ)
      → ¬ Among j ids
      → (keep_pass now ans ids inner mine any).0 j ≡ inner j
  unfolding keep_pass
  keep_pass_other [] inner mine any j out = refl
  keep_pass_other (id ∷ ids) inner mine any j out =
      keep_pass_other ids _ _ _ j (λ m. out (inr m))
      ∙ update_ne inner (polled_if_due now ans id (inner id)) (λ e. out (inl (sym e)))

  -- Every duty of the list is polled if it is due, and its due time afterwards is collected.
  pub keep_pass-Collected :
      (ids : List ℕ) (inner : ℕ → Inner) (mine any : ℕ)
      → Distinct ids
      → (j : ℕ) → Among j ids
      → ((keep_pass now ans ids inner mine any).0 j ≡ polled_if_due now ans j (inner j))
        × Collected
            (polled_if_due now ans j (inner j)).place
            (keep_pass now ans ids inner mine any).1
            (keep_pass now ans ids inner mine any).2
            (due (polled_if_due now ans j (inner j)))
  unfolding keep_pass
  keep_pass-Collected [] inner mine any dist j m = elim m [ ]
  keep_pass-Collected (id ∷ ids) inner mine any dist j (inl e) =
      let d = polled_if_due now ans id (inner id) in
      let le =
        keep_pass_le ids (update inner id d) (later_mine d.place mine (due d))
          (later_any d.place any (due d)) in
      subst
        (λ k.
          (keep_pass now ans (id ∷ ids) inner mine any).0 k ≡ polled_if_due now ans k (inner k)
          × Collected (polled_if_due now ans k (inner k)).place
              (keep_pass now ans (id ∷ ids) inner mine any).1
              (keep_pass now ans (id ∷ ids) inner mine any).2
              (due (polled_if_due now ans k (inner k))))
        (sym e)
        (
          keep_pass_other ids _ _ _ id dist.0 ∙ update_self inner id d,
          (later-Collected d.place mine any _ _ (due d) le.0 le.1).2,
        )
  keep_pass-Collected (id ∷ ids) inner mine any dist j (inr m) =
      let d = polled_if_due now ans id (inner id) in
      subst
        (λ x.
          (keep_pass now ans (id ∷ ids) inner mine any).0 j ≡ polled_if_due now ans j x
          × Collected (polled_if_due now ans j x).place
              (keep_pass now ans (id ∷ ids) inner mine any).1
              (keep_pass now ans (id ∷ ids) inner mine any).2 (due (polled_if_due now ans j x)))
        (update_ne inner d (λ e. dist.0 (subst (λ k. Among k ids) (sym e) m)))
        (keep_pass-Collected ids _ _ _ dist.1 j m)

  idle_pass_other :
      (ids : List ℕ) (inner : ℕ → Inner) (j : ℕ)
      → ¬ Among j ids
      → idle_pass now ans ids inner j ≡ inner j
  unfolding idle_pass
  idle_pass_other [] inner j out = refl
  idle_pass_other (id ∷ ids) inner j out =
      idle_pass_other ids _ j (λ m. out (inr m))
      ∙ update_ne inner (polled_if_half_due now ans id (inner id)) (λ e. out (inl (sym e)))

  -- An idle worker polls every duty of the list that may run anywhere and is half due, once.
  pub idle_pass-polls :
      (ids : List ℕ) (inner : ℕ → Inner)
      → Distinct ids
      → (j : ℕ) → Among j ids
      → idle_pass now ans ids inner j ≡ polled_if_half_due now ans j (inner j)
  unfolding idle_pass
  idle_pass-polls [] inner dist j m = elim m [ ]
  idle_pass-polls (id ∷ ids) inner dist j (inl e) =
      let d = polled_if_half_due now ans id (inner id) in
      subst
        (λ k. idle_pass now ans ids (update inner id d) k ≡ polled_if_half_due now ans k (inner k))
        (sym e) (idle_pass_other ids _ id dist.0 ∙ update_self inner id d)
  idle_pass-polls (id ∷ ids) inner dist j (inr m) =
      let d = polled_if_half_due now ans id (inner id) in
      subst (λ x. idle_pass now ans ids (update inner id d) j ≡ polled_if_half_due now ans j x)
        (update_ne inner d (λ e. dist.0 (subst (λ k. Among k ids) (sym e) m)))
        (idle_pass-polls ids _ dist.1 j m)

-- The earliest half-due time is not later than any of them.
pub earliest-le :
    (f : Inner → ℕ) (inner : ℕ → Inner) (ids : List ℕ) (j : ℕ)
    → Among j ids
    → is_anywhere (inner j).place ≡ true
    → earliest f inner ids ≤ f (inner j)
earliest-le f inner (id ∷ ids) j (inl e) any =
    subst (λ k. is_anywhere (inner k).place ≡ true → earliest f inner (id ∷ ids) ≤ f (inner k))
      (sym e) (λ here. rw here (min-le_left (f (inner id)) (earliest f inner ids))) any
earliest-le f inner (id ∷ ids) j (inr m) any = elim (Bool-cases (is_anywhere (inner id).place)) [
  | inl here ↦ rw here (
      omega (
        arith,
        min-le_right (f (inner id)) (earliest f inner ids),
        earliest-le f inner ids j m any,
      ))
  | inr not_here ↦ rw not_here (earliest-le f inner ids j m any)
]
earliest-le f inner [] j m any = elim m [ ]

-- An earliest due time that is not `never` is that of some duty.
pub earliest-reached :
    (f : Inner → ℕ) (inner : ℕ → Inner) (ids : List ℕ)
    → earliest f inner ids ≢ never
    → (j : ℕ) × Among j ids
      × (is_anywhere (inner j).place ≡ true)
      × (earliest f inner ids ≡ f (inner j))
earliest-reached f inner [] ne = absurd (ne refl)
earliest-reached f inner (id ∷ ids) ne = elim (Bool-cases (is_anywhere (inner id).place)) [
  | inl here ↦ elim (min_cases (f (inner id)) (earliest f inner ids)) [
    | inl first ↦ (id, inl refl, here, rw here first)
    | inr other ↦
        let (j, m, any, e) = earliest-reached f inner ids (λ e. ne (rw here (other ∙ e))) in
        (j, inr m, any, rw here (other ∙ e))
  ]
  | inr not_here ↦
      let (j, m, any, e) = earliest-reached f inner ids (λ e. ne (rw not_here e)) in
      (j, inr m, any, rw not_here e)
]

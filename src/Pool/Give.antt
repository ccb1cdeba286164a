-- ===== src/Pool/Give.antt =====
-- `give` as a whole.
use cmpth_rs.Prelude.{
  ℕ, ◌≤◌, ◌≡◌, refl, ◌∙◌, inl, inr, Option, some, List, [], ◌∷◌, ◌++◌, arith, ltb, ◌==◌,
  if◌then◌else◌, update, length, Bool-cases,
}
use cmpth_rs.Pool.{ProList, Lists, give_local, accumulate, flush, give_away, node_give}
use cmpth_rs.Pool.View.{used, staged, View, last?, Batch, Reps, given, set_batch, flushed}
use cmpth_rs.Pool.Stage.{give_local-Reps, accumulate-Reps}
use cmpth_rs.Pool.Flush.{flush-Reps}

last-some : (x : ℕ) (xs : List ℕ) → (l : ℕ) × (last? (x ∷ xs) ≡ some l)
last-some x [] = (x, refl)
last-some x (y ∷ xs) = last-some y xs

Batch-last :
    (next : ℕ → Option ℕ) (p : ProList) (xs : List ℕ)
    → Batch next p xs
    → 1 ≤ p.num
    → (l : ℕ) × (p.last ≡ some l)
Batch-last next p [] b pos = absurd (ground (arith, b.counted))
Batch-last next p (x ∷ xs) b pos = let e = last-some x xs in (e.0, b.ended ∙ e.1)

module _ (threshold : ℕ) (pos : 1 ≤ threshold) {s : Lists} {v : View} (r : Reps s v) (wk node : ℕ)
    (free : v.place node ≡ used) where
  open r use {batch}

  SentOff : ℕ → Type 0
  SentOff home =
      (s' : Lists) × (give_away threshold wk home node s ≡ some s')
      × (s'.alloc_wk ≡ s.alloc_wk)
      × Reps s' (
          if ltb (length (v.batches wk home)) threshold
          then record v {
            batches = set_batch v wk home (node ∷ v.batches wk home);
            place = update v.place node (staged wk home);
          }
          else record v {
            batches = set_batch v wk home (node ∷ []);
            remotes = update v.remotes home (v.batches wk home ++ v.remotes home);
            place = update (λ y. flushed wk home (v.place y)) node (staged wk home);
          })

  give_away-Reps : (home : ℕ) → SentOff home
  unfolding give_away SentOff
  give_away-Reps home =
      let c = (batch wk home).counted in
      elim (Bool-cases (ltb (s.pro wk home).num threshold)) [
        | inl few ↦ (
          accumulate wk home node s,
          rw few refl,
          refl,
          rw (← c, few) (accumulate-Reps r wk node free home),
        )
        | inr many ↦
            let l = Batch-last s.next _ _ (batch wk home) (ground (arith, many, pos)) in
            (
              flush wk home node l.0 s,
              rw (many, l.1) refl,
              refl,
              rw (← c, many) (flush-Reps r wk home node l.0 free l.1),
            )
      ]

  pub give-Reps :
      (s' : Lists) × (node_give threshold wk node s ≡ some s')
      × (s'.alloc_wk ≡ s.alloc_wk)
      × Reps s' (given threshold wk (s.alloc_wk node) node v)
  unfolding node_give SentOff
  give-Reps = elim (Bool-cases (s.alloc_wk node == wk)) [
    | inl home ↦
        (give_local wk node s, rw home refl, refl, rw home (give_local-Reps r wk node free))
    | inr away ↦ let g = give_away-Reps (s.alloc_wk node) in (g.0, rw away g.1, g.2, rw away g.3)
  ]

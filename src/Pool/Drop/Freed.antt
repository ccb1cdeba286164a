-- ===== src/Pool/Drop/Freed.antt =====
-- The drop of `ReturnPool` frees what is in the lists, and leaves what the callers hold.
use cmpth_rs.Prelude.{
  ℕ, ◌≤◌, ◌<◌, ◌≡◌, refl, sym, ap, ◌∙◌, inl, inr, ◌⊎◌, Bool, true, false, Option, none, some, arith,
  List, [], ◌∷◌, leb, if◌then◌else◌, Among, Bool-cases,
}
use cmpth_rs.Pool.{Lists}
use cmpth_rs.Pool.View.{Place, used, local, remote, staged, View, Seg, Reps}
use cmpth_rs.Pool.Return.{ReturnPool}
use cmpth_rs.Pool.Valid.{IsKept, unheld}
use cmpth_rs.Pool.Runs.{Run, Run-IsValid}
use cmpth_rs.Pool.Drop.{drop}
use cmpth_rs.Pool.Drop.Chains.{Frees}
use cmpth_rs.Pool.Drop.Within.{ByWorkers, IsOfPool, Run-IsOfPool}
use cmpth_rs.Pool.Drop.Everything.{gone, IsWithin, all-Frees}

nobody :
    (next : ℕ → Option ℕ) (h : Option ℕ) (xs : List ℕ)
    → Seg next h xs
    → h ≡ none
    → (x : ℕ) → ¬ Among x xs
nobody next h [] s e x a = a
nobody next h (y ∷ xs) (e', s) e x a = cc (e, e')

module _ {n : ℕ} {s : Lists} {v : View} (reps : Reps s v) (ok : IsOfPool n s) where
  open reps use {local_seg, remote_seg, batch, local_holds, remote_holds, batch_holds}
  open ok use {locals, remotes, batches}

  place-IsWithin : (x : ℕ) (p : Place) → v.place x ≡ p → IsWithin n p
  place-IsWithin x used e = tt
  place-IsWithin x (local w) e = elim (Bool-cases (leb n w)) [
    | inl far ↦ absurd (
        nobody s.next _ (v.locals w) (local_seg w) (locals w (ground (arith, far))) x
          ((local_holds w).found x e))
    | inr near ↦ ground (arith, near)
  ]
  place-IsWithin x (remote w) e = elim (Bool-cases (leb n w)) [
    | inl far ↦ absurd (
        nobody s.next _ (v.remotes w) (remote_seg w) (remotes w (ground (arith, far))) x
          ((remote_holds w).found x e))
    | inr near ↦ ground (arith, near)
  ]
  place-IsWithin x (staged w h) e = elim (Bool-cases (leb n w)) [
    | inl far ↦ absurd (no_batch (inl (ground (arith, far))))
    | inr near ↦ elim (Bool-cases (leb n h)) [
      | inl far ↦ absurd (no_batch (inr (ground (arith, far))))
      | inr near' ↦ (ground (arith, near), ground (arith, near'))
    ]
  ]
    where
      no_batch : ¬ ((n ≤ w) ⊎ (n ≤ h))
      no_batch far =
          nobody s.next _ (v.batches w h) (batch w h).chained (batches w h far) x
            ((batch_holds w h).found x e)

untouched : (p : Place) → gone 0 0 p ≡ false
untouched used = refl
untouched (local w) = ground arith
untouched (remote w) = ground arith
untouched (staged w h) = ground arith

freed_one : (h l b : Bool) → h ≡ false → b ≡ true → (if b then false else l) ≡ h
freed_one h l b e e' = ap (λ c. if c then false else l) e' ∙ sym e

left_over :
    (n : ℕ) (h l o : Bool) (home : ℕ) (p : Place)
    → IsKept h l o home p
    → IsWithin n p
    → (if gone n 0 p then false else l) ≡ h
left_over n h l o home used k within = sym k
left_over n h l o home (local w) k lt = freed_one h l (gone n 0 (local w)) k.0 (ground (arith, lt))
left_over n h l o home (remote w) k lt =
    freed_one h l (gone n 0 (remote w)) k.0 (ground (arith, lt))
left_over n h l o home (staged w u) k (lt, lt') =
    freed_one h l (gone n 0 (staged w u)) k.0 (ground (arith, lt))

-- The pool's drop leaks nothing and frees nothing twice: after any run with a threshold of at least 1 and
-- at least one worker, whose allocations and returns are by the pool's workers, the walk over all lists
-- reaches its end for every large enough bound on the length of a list and touches no node that is not
-- live, and the boxes that are live after it are those that callers still hold.
pub drop_frees :
    (threshold stack_size n : ℕ)
    → 1 ≤ threshold
    → 0 < n
    → {held : ℕ → Bool} {p : ReturnPool} (run : Run threshold stack_size held p) → ByWorkers n run
    → (bound : ℕ) × ((fuel : ℕ)
        → bound ≤ fuel
        → (live : ℕ → Bool) × (drop fuel n p ≡ some live) × ((x : ℕ) → live x ≡ held x))
unfolding drop Frees
drop_frees threshold stack_size n one some_worker {held} {p} run by =
    let ok = Run-IsValid threshold stack_size one run in
    let within : (x : ℕ) → IsWithin n (ok.view.place x) =
      λ x. place-IsWithin ok.reps (Run-IsOfPool run some_worker by) x (ok.view.place x) refl in
    let (bound, frees) =
      all-Frees ok.reps p.live n (λ x ne. (unheld _ _ _ _ (ok.view.place x) (ok.kept x) ne).1)
        within n in
    (
      bound,
      λ fuel le.
          let (live, e, left) =
            frees fuel p.live le
              (λ x. sym (ap (λ b. if b then false else p.live x) (untouched (ok.view.place x)))) in
          (live, e, λ x. left x ∙ left_over n _ _ _ _ (ok.view.place x) (ok.kept x) (within x)),
    )

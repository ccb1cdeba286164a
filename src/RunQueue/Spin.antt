-- ===== src/RunQueue/Spin.antt =====
-- src/resumable/common/deque.rs: `SpinRunQueue`, against the contract of `WorkerRunQueue`.
use mathlib.Core.List.{Perm, append-nil, perm_middle}
use mathlib.Core.List.Perm
use cmpth_rs.Prelude.{◌≡◌, refl, ◌⊎◌, inl, inr, List, [], ◌∷◌, ◌++◌, pop_back_cases}
use cmpth_rs.RunQueue.{spin_push, spin_defer, spin_pop, spin_steal, stolen}
use cmpth_rs.RunQueue.Contract.{success, empty, Takes, Steals, WorkerRunQueue}

module _ {T : Type 0} where
  pub spin_push-perm : (v : T) (q : List T) → Perm (spin_push v q) (v ∷ q)
  unfolding spin_push
  spin_push-perm v q = Perm.refl _

  pub spin_defer-perm : (v : T) (q : List T) → Perm (spin_defer v q) (v ∷ q)
  unfolding spin_defer
  spin_defer-perm v q = Perm.trans (perm_middle q []) (rw append-nil (Perm.refl _))

  pub spin_pop-Takes : (q : List T) → Takes q (spin_pop q).0 (spin_pop q).1
  unfolding spin_pop
  spin_pop-Takes [] = (refl, refl)
  spin_pop-Takes (v ∷ q) = Perm.refl _

  -- A thief gets the last entry, and finds the queue empty only if it is.
  pub spin_steal-last :
      (q : List T)
      → ((q ≡ []) × (spin_steal q ≡ (empty, [])))
        ⊎ ((v : T) × (rest : List T) × (q ≡ rest ++ v ∷ []) × (spin_steal q ≡ (success v, rest)))
  unfolding spin_steal
  spin_steal-last q = elim (pop_back_cases q) [
    | inl (e, r) ↦ inl (e, rw (r, stolen))
    | inr (v, rest, e, r) ↦ inr (v, rest, e, rw (r, stolen))
  ]

  pub spin_steal-Steals : (q : List T) → Steals q (spin_steal q).0 (spin_steal q).1
  spin_steal-Steals q = elim (spin_steal-last q) [
    | inl (e, r) ↦ rw r (e, refl)
    | inr (v, rest, e, r) ↦
        rw r (rw e (Perm.trans (perm_middle rest []) (rw append-nil (Perm.refl _))))
  ]

-- `SpinRunQueue` keeps the contract of `WorkerRunQueue` too.
abbrev pub spin : (T : Type 0) → WorkerRunQueue T
spin T = record {
  Queue = List T;
  new = [];
  push = spin_push;
  defer = spin_defer;
  try_pop = spin_pop;
  try_steal = spin_steal;
  IsValid = λ q. Unit {0};
  contents = λ q. q;
  new-IsValid = tt;
  push-IsValid = λ v q f. tt;
  defer-IsValid = λ v q f. tt;
  try_pop-IsValid = λ q f. tt;
  try_steal-IsValid = λ q f. tt;
  contents-new = refl;
  contents-push = spin_push-perm;
  contents-defer = spin_defer-perm;
  try_pop-Takes = λ q f. spin_pop-Takes q;
  try_steal-Steals = λ q f. spin_steal-Steals q;
}

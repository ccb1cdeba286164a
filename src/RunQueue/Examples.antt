-- ===== src/RunQueue/Examples.antt =====
-- The run queues at work: tests, and the theorems at concrete inputs.
use mathlib.Core.List.{Perm}
use cmpth_rs.Prelude.{
  ℕ, ◌≡◌, refl, ap, ◌∙◌, inl, inr, true, false, Option, none, some, List, [], ◌∷◌, ◌++◌, pop_front,
  pop_back, pop_back_cases, update, ℕ_discrete,
}
use cmpth_rs.RunQueue.{HybridRunQueue, try_pop, try_steal, try_take}
use cmpth_rs.RunQueue.Contract.{Steal, success, empty, retry, LifoDeque}
use cmpth_rs.RunQueue.Hybrid.{hybrid, contents}
use cmpth_rs.RunQueue.History.{Call, pushes, defers, pops, steals, added, run}
use cmpth_rs.RunQueue.Conserved.{hybrid_conserves}
use cmpth_rs.RunQueue.Flag.{
  idle, push_wait, push_locked, pushed, System, pick, Reach, start, later, push_call, push_lock,
  push_back,
}

-- A deque that keeps the laws of `LifoDeque`: a list, the thief's end last.
abbrev from_back : Option ℕ × List ℕ → Steal ℕ × List ℕ
from_back (some v, rest) = (success v, rest)
from_back (none, rest) = (empty, rest)

pop_none_law : (d : List ℕ) → (pop_front d).0 ≡ none → (d ≡ []) × ((pop_front d).1 ≡ [])
pop_none_law [] e = (refl, refl)
pop_none_law (x ∷ d) e = cc

pop_some_law : (d : List ℕ) (v : ℕ) → (pop_front d).0 ≡ some v → d ≡ v ∷ (pop_front d).1
pop_some_law [] v e = cc
pop_some_law (x ∷ d) v e = cc

steal_success_law :
    (d : List ℕ) (v : ℕ)
    → (from_back (pop_back d)).0 ≡ success v
    → d ≡ (from_back (pop_back d)).1 ++ v ∷ []
steal_success_law d v e = elim (pop_back_cases d) [
  | inl (a, b) ↦ cc (ap (λ z. (from_back z).0) b)
  | inr (y, rest, a, b) ↦ rw (b) (a ∙ ap (λ z. rest ++ z ∷ []) (cc (ap (λ z. (from_back z).0) b)))
]

steal_empty_law :
    (d : List ℕ) → (from_back (pop_back d)).0 ≡ empty → (d ≡ []) × ((from_back (pop_back d)).1 ≡ [])
steal_empty_law d e = elim (pop_back_cases d) [
  | inl (a, b) ↦ (a, rw b)
  | inr (y, rest, a, b) ↦ cc (ap (λ z. (from_back z).0) b)
]

steal_retry_law : (d : List ℕ) → (from_back (pop_back d)).0 ≡ retry → (from_back (pop_back d)).1 ≡ d
steal_retry_law d e = elim (pop_back_cases d) [
  | inl (a, b) ↦ cc (ap (λ z. (from_back z).0) b)
  | inr (y, rest, a, b) ↦ cc (ap (λ z. (from_back z).0) b)
]

abbrev plain : LifoDeque ℕ
plain = record {
  Deque = List ℕ;
  new = [];
  push = λ v d. v ∷ d;
  pop = pop_front;
  steal = λ d. from_back (pop_back d);
  items = λ d. d;
  items-new = refl;
  items-push = λ v d. refl;
  pop_none = pop_none_law;
  pop_some = pop_some_law;
  steal_success = steal_success_law;
  steal_empty = steal_empty_law;
  steal_retry = steal_retry_law;
}

abbrev busy : HybridRunQueue plain
busy = record { main = 2 ∷ 1 ∷ []; deferred = record { non_empty = true; q = 7 ∷ 8 ∷ [] } }

pops_newest : (try_pop plain busy).0 ≡ some 2
unfolding try_pop
pops_newest = refl

steals_deferred : (try_steal plain busy).0 ≡ success 7
unfolding try_steal try_take
steals_deferred = refl

abbrev calls : List (Call ℕ)
calls = pushes 1 ∷ defers 7 ∷ steals ∷ pushes 2 ∷ pops ∷ pops ∷ pops ∷ []

hybrid_conserves_example :
    let (taken, left) = run (hybrid plain) (hybrid plain).new calls in
    Perm (taken ++ contents plain left) (added calls)
hybrid_conserves_example = hybrid_conserves plain calls

-- Thread 0 has put 5 in and not yet set the flag.
abbrev owing : System ℕ
owing = record {
  mem = record { non_empty = false; locked = true; q = 5 ∷ [] };
  pc = update (update (update (λ _. idle) 0 (push_wait 5)) 0 (push_locked 5)) 0 pushed;
}

owing-Reach : Reach owing
unfolding ℕ_discrete
owing-Reach =
    later (later (later start (pick 0 (push_call 5))) (pick 0 (push_lock refl))) (pick 0 push_back)

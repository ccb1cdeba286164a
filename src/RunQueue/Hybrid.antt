-- ===== src/RunQueue/Hybrid.antt =====
-- src/resumable/common/deque.rs: `HybridRunQueue` and its stealer, against their order.
use mathlib.Core.List.{Perm, append-nil, append_assoc, perm_middle}
use mathlib.Core.List.Perm
use cmpth_rs.Prelude.{
  ◌≡◌, refl, sym, ap, subst, false, Option, none, some, List, [], ◌∷◌, ◌++◌, arith, pop_front,
}
use cmpth_rs.RunQueue.{
  Deferred, try_take, HybridRunQueue, default, push, defer, try_pop, try_steal, pop_or_take,
  take_or_steal,
}
use cmpth_rs.RunQueue.Contract.{
  Steal, success, empty, retry, LifoDeque, Takes, Steals, WorkerRunQueue,
}

-- A clear flag tells the truth: `try_take` gives up on it without the lock.
abbrev pub IsFlagged : {T : Type 0} → Deferred T → Type 0
IsFlagged d = d.non_empty ≡ false → d.q ≡ []

module _ {T : Type 0} where
  try_take_lem :
      (q : List T) (d : Deferred T)
      → d.q ≡ q
      → IsFlagged d
      → ((try_take d).0 ≡ (pop_front q).0)
        × ((try_take d).1.q ≡ (pop_front q).1)
        × IsFlagged (try_take d).1
  unfolding try_take
  try_take_lem [] d e f = ground arith
  try_take_lem (v ∷ []) d e f = ground arith
  try_take_lem (v ∷ w ∷ r) d e f = ground arith

  -- What the owner takes: the item pushed last, else the oldest deferred one.
  abbrev pub pop_order : List T → List T → Option T × List T × List T
  pop_order (v ∷ ms) ds = (some v, ms, ds)
  pop_order [] ds = ((pop_front ds).0, [], (pop_front ds).1)

  -- What a thief takes: the oldest deferred item, else the item pushed first.
  abbrev pub StealOrder : List T → List T → Steal T → List T → List T → Type 0
  StealOrder ms (d ∷ ds) got ms' ds' = (got ≡ success d) × (ms' ≡ ms) × (ds' ≡ ds)
  StealOrder ms [] (success v) ms' ds' = (ms ≡ ms' ++ v ∷ []) × (ds' ≡ [])
  StealOrder ms [] empty ms' ds' = (ms ≡ []) × (ms' ≡ []) × (ds' ≡ [])
  StealOrder ms [] retry ms' ds' = (ms' ≡ ms) × (ds' ≡ [])

module _ {T : Type 0} (L : LifoDeque T) where
  pop_or_take_lem :
      (h : HybridRunQueue L) (got : Option T) (main : L.Deque)
      → L.pop h.main ≡ (got, main)
      → IsFlagged h.deferred
      → let r = pop_or_take L h (got, main) in
        ((r.0, L.items r.1.main, r.1.deferred.q) ≡ pop_order (L.items h.main) h.deferred.q)
        × IsFlagged r.1.deferred
  unfolding pop_or_take
  pop_or_take_lem h (some v) main e f = ground (arith, L.pop_some h.main v)
  pop_or_take_lem h none main e f =
      let (drained, left) = L.pop_none h.main (ap (λ r. r.0) e) in
      ground (arith, try_take_lem h.deferred.q h.deferred refl f, ap (λ r. L.items r.1) e)

  -- `try_pop` takes in the promised order and leaves the rest as it was.
  pub try_pop-order :
      (h : HybridRunQueue L)
      → IsFlagged h.deferred
      → let r = try_pop L h in
        ((r.0, L.items r.1.main, r.1.deferred.q) ≡ pop_order (L.items h.main) h.deferred.q)
        × IsFlagged r.1.deferred
  unfolding try_pop
  try_pop-order h f = pop_or_take_lem h _ _ refl f

  take_or_steal_lem :
      (h : HybridRunQueue L) (q : List T) (got : Option T) (rest : Deferred T) (stolen : Steal T)
      → h.deferred.q ≡ q
      → got ≡ (pop_front q).0
      → rest.q ≡ (pop_front q).1
      → (L.steal h.main).0 ≡ stolen
      → let r = take_or_steal L h (got, rest) in
        StealOrder (L.items h.main) q r.0 (L.items r.1.main) r.1.deferred.q × (r.1.deferred ≡ rest)
  unfolding take_or_steal
  take_or_steal_lem h (d ∷ ds) (some v) rest stolen e g k x = ground arith
  take_or_steal_lem h (d ∷ ds) none rest stolen e g k x = cc
  take_or_steal_lem h [] (some v) rest stolen e g k x = cc
  take_or_steal_lem h [] none rest (success v) e g k x =
      rw x (ground (arith, L.steal_success h.main v x))
  take_or_steal_lem h [] none rest empty e g k x = rw x (ground (arith, L.steal_empty h.main x))
  take_or_steal_lem h [] none rest retry e g k x = rw x (ground (arith, L.steal_retry h.main x))

  -- `try_steal` takes at the other end of both.
  pub try_steal-order :
      (h : HybridRunQueue L)
      → IsFlagged h.deferred
      → let r = try_steal L h in
        StealOrder (L.items h.main) h.deferred.q r.0 (L.items r.1.main) r.1.deferred.q
        × IsFlagged r.1.deferred
  unfolding try_steal
  try_steal-order h f =
      let (a, b, c) = try_take_lem h.deferred.q h.deferred refl f in
      let (order, same) = take_or_steal_lem h h.deferred.q _ _ _ refl a b refl in
      (order, subst IsFlagged (sym same) c)

module _ {T : Type 0} where
  Takes-pop_order : (ms ds : List T) → let r = pop_order ms ds in Takes (ms ++ ds) r.0 (r.1 ++ r.2)
  Takes-pop_order (v ∷ ms) ds = Perm.refl _
  Takes-pop_order [] [] = (refl, refl)
  Takes-pop_order [] (d ∷ ds) = Perm.refl _

  pub StealOrder-Steals :
      (ms ds : List T) (got : Steal T) (ms' ds' : List T)
      → StealOrder ms ds got ms' ds'
      → Steals (ms ++ ds) got (ms' ++ ds')
  StealOrder-Steals ms (d ∷ ds) got ms' ds' (a, b, c) = rw (a, b, c) (perm_middle ms ds)
  StealOrder-Steals ms [] (success v) ms' ds' (a, b) =
      rw (a, b)
        (rw (append-nil, append-nil)
          (Perm.trans (perm_middle ms' []) (rw append-nil (Perm.refl _))))
  StealOrder-Steals ms [] empty ms' ds' (a, b, c) = rw (a, b, c) (refl, refl)
  StealOrder-Steals ms [] retry ms' ds' (a, b) = rw (a, b) (Perm.refl _)

module _ {T : Type 0} (L : LifoDeque T) where
  abbrev pub contents : HybridRunQueue L → List T
  contents h = L.items h.main ++ h.deferred.q

  pub contents-defer :
      (v : T) (h : HybridRunQueue L) → Perm (contents (defer L v h)) (v ∷ contents h)
  unfolding defer
  contents-defer v h =
      rw (← append_assoc) (Perm.trans (perm_middle (contents h) []) (rw append-nil (Perm.refl _)))

  pub contents-push : (v : T) (h : HybridRunQueue L) → Perm (contents (push L v h)) (v ∷ contents h)
  unfolding push
  contents-push v h = rw (L.items-push v h.main) (Perm.refl _)

  pub contents-default : contents (default L) ≡ []
  unfolding default
  contents-default = rw L.items-new

  pub default-IsFlagged : IsFlagged (default L).deferred
  unfolding default
  default-IsFlagged e = refl

  pub defer-IsFlagged : (v : T) (h : HybridRunQueue L) → IsFlagged (defer L v h).deferred
  unfolding defer
  defer-IsFlagged v h e = cc

  pub push-IsFlagged :
      (v : T) (h : HybridRunQueue L) → IsFlagged h.deferred → IsFlagged (push L v h).deferred
  unfolding push
  push-IsFlagged v h f = f

  pub try_pop-Takes :
      (h : HybridRunQueue L)
      → IsFlagged h.deferred
      → Takes (contents h) (try_pop L h).0 (contents (try_pop L h).1)
  try_pop-Takes h f =
      subst (λ (r : Option T × List T × List T). Takes (contents h) r.0 (r.1 ++ r.2))
        (sym (try_pop-order L h f).0) (Takes-pop_order (L.items h.main) h.deferred.q)

  -- `HybridRunQueue` keeps the contract of `WorkerRunQueue`.
  abbrev pub hybrid : WorkerRunQueue T
  hybrid = record {
    Queue = HybridRunQueue L;
    new = default L;
    push = push L;
    defer = defer L;
    try_pop = try_pop L;
    try_steal = try_steal L;
    IsValid = λ h. IsFlagged h.deferred;
    contents = contents;
    new-IsValid = default-IsFlagged;
    push-IsValid = push-IsFlagged;
    defer-IsValid = λ v h f. defer-IsFlagged v h;
    try_pop-IsValid = λ h f. (try_pop-order L h f).1;
    try_steal-IsValid = λ h f. (try_steal-order L h f).1;
    contents-new = contents-default;
    contents-push = contents-push;
    contents-defer = contents-defer;
    try_pop-Takes = try_pop-Takes;
    try_steal-Steals = λ h f. StealOrder-Steals _ _ _ _ _ (try_steal-order L h f).0;
  }

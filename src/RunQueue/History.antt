-- ===== src/RunQueue/History.antt =====
-- Any sequence of calls on a run queue that keeps the contract, by its owner and by thieves.
use mathlib.Core.List.{Perm, append_assoc, perm_append_comm}
use mathlib.Core.List.Perm
use cmpth_rs.Prelude.{◌≡◌, refl, sym, subst, Option, none, some, List, [], ◌∷◌, ◌++◌}
use cmpth_rs.RunQueue.Contract.{Steal, success, empty, retry, Takes, Steals, WorkerRunQueue}

pub data Call (T : Type 0) : Type 0 where
  pushes : T → Call T
  defers : T → Call T
  pops : Call T
  steals : Call T

module _ {T : Type 0} where
  abbrev pub taken? : Option T → List T
  taken? none = []
  taken? (some v) = v ∷ []

  abbrev pub stolen? : Steal T → List T
  stolen? (success v) = v ∷ []
  stolen? empty = []
  stolen? retry = []

  -- The items that the calls put in.
  pub added : List (Call T) → List T
  added [] = []
  added (pushes v ∷ cs) = v ∷ added cs
  added (defers v ∷ cs) = v ∷ added cs
  added (pops ∷ cs) = added cs
  added (steals ∷ cs) = added cs

  pub Takes-perm :
      (l : List T) (got : Option T) (r : List T) → Takes l got r → Perm l (taken? got ++ r)
  Takes-perm l (some v) r h = h
  Takes-perm l none r (e, e') = rw (e, e') (Perm.refl _)

  pub Steals-perm :
      (l : List T) (got : Steal T) (r : List T) → Steals l got r → Perm l (stolen? got ++ r)
  Steals-perm l (success v) r h = h
  Steals-perm l empty r (e, e') = rw (e, e') (Perm.refl _)
  Steals-perm l retry r h = h

  pub swap_front : (xs ys zs : List T) → Perm (xs ++ (ys ++ zs)) (ys ++ (xs ++ zs))
  swap_front xs ys zs = subst (Perm _) (append_assoc ys xs zs) (
      subst (λ l. Perm l ((ys ++ xs) ++ zs)) (append_assoc xs ys zs)
        (Perm.append_right zs (perm_append_comm xs ys)))

  -- `got` was taken at the first call, `more` later.
  pub regroup :
      (got more left one new old middle : List T)
      → Perm (more ++ left) (new ++ middle)
      → Perm (one ++ old) (got ++ middle)
      → Perm ((got ++ more) ++ left) ((one ++ new) ++ old)
  regroup got more left one new old middle h k = subst (Perm _) (sym (append_assoc one new old)) (
      subst (λ l. Perm l (one ++ (new ++ old))) (sym (append_assoc got more left))
        (Perm.trans (Perm.append_left got h) (
          Perm.trans (swap_front got new middle)
            (Perm.trans (Perm.append_left new (Perm.symm k)) (swap_front new one old)))))

module _ {T : Type 0} (W : WorkerRunQueue T) where
  open W use {
    Queue, push, defer, try_pop, try_steal, IsValid, contents, push-IsValid, defer-IsValid,
    try_pop-IsValid, try_steal-IsValid, contents-push, contents-defer, try_pop-Takes,
    try_steal-Steals,
  }

  pub call : Queue → Call T → List T × Queue
  call q (pushes v) = ([], push v q)
  call q (defers v) = ([], defer v q)
  call q pops = (taken? (try_pop q).0, (try_pop q).1)
  call q steals = (stolen? (try_steal q).0, (try_steal q).1)

  -- All that was taken, and the queue that is left.
  pub run : Queue → List (Call T) → List T × Queue
  run q [] = ([], q)
  run q (c ∷ cs) = let (got, q') = call q c in let (more, last) = run q' cs in (got ++ more, last)

  call-IsValid : (q : Queue) (c : Call T) → IsValid q → IsValid (call q c).1
  unfolding call
  call-IsValid q (pushes v) f = push-IsValid v q f
  call-IsValid q (defers v) f = defer-IsValid v q f
  call-IsValid q pops f = try_pop-IsValid q f
  call-IsValid q steals f = try_steal-IsValid q f

  call-perm :
      (q : Queue) (c : Call T)
      → IsValid q
      → Perm (added (c ∷ []) ++ contents q) ((call q c).0 ++ contents (call q c).1)
  unfolding call added
  call-perm q (pushes v) f = Perm.symm (contents-push v q)
  call-perm q (defers v) f = Perm.symm (contents-defer v q)
  call-perm q pops f = Takes-perm _ _ _ (try_pop-Takes q f)
  call-perm q steals f = Steals-perm _ _ _ (try_steal-Steals q f)

  added-cons : (c : Call T) (cs : List (Call T)) → added (c ∷ cs) ≡ added (c ∷ []) ++ added cs
  unfolding added
  added-cons (pushes v) cs = refl
  added-cons (defers v) cs = refl
  added-cons pops cs = refl
  added-cons steals cs = refl

  run-IsValid : (q : Queue) (cs : List (Call T)) → IsValid q → IsValid (run q cs).1
  unfolding run
  run-IsValid q [] f = f
  run-IsValid q (c ∷ cs) f = run-IsValid (call q c).1 cs (call-IsValid q c f)

  -- Whatever the owner and the thieves do, an item that was in the queue or was put in has been
  -- taken exactly once or is still there, and nothing else was taken.
  pub run-perm :
      (q : Queue) (cs : List (Call T))
      → IsValid q
      → Perm ((run q cs).0 ++ contents (run q cs).1) (added cs ++ contents q)
  unfolding run added
  run-perm q [] f = Perm.refl _
  run-perm q (c ∷ cs) f = rw (added-cons c cs) (
      regroup (call q c).0 _ _ (added (c ∷ [])) (added cs) (contents q) (contents (call q c).1)
        (run-perm (call q c).1 cs (call-IsValid q c f)) (call-perm q c f))

-- ===== src/Worker/Dispatch.antt =====
-- src/resumable/common/dispatch.rs: whatever order `next` looks at its sources in, it loses and makes up
-- nothing if they do not, and it says `empty` only if all said so.
use mathlib.Core.List.{Perm}
use mathlib.Core.List.Perm
use cmpth_rs.Prelude.{◌≡◌, refl, sym, subst, Option, none, some, List, [], ◌++◌}
use cmpth_rs.RunQueue.Contract.{Steal, success, empty, retry}
use cmpth_rs.RunQueue.History.{taken?, stolen?}
use cmpth_rs.Worker.{
  Site, loop, switch, wait, TaskSources, or_answer, or_external, or_steal, or_local, next,
}

-- From `s`, `got` was taken, and `t` is left.
abbrev pub Keeps : {T S : Type 0} → (S → Type 0) → (S → List T) → S → List T → S → Type 0
Keeps IsValid contents s got t = IsValid s → IsValid t × Perm (contents s) (got ++ contents t)

module _ {T S : Type 0} (q : TaskSources T S) (IsValid : S → Type 0) (contents : S → List T) where
  open q use {local, steal, external}

  Keeps-trans :
      (s t u : S) (got : List T)
      → Keeps IsValid contents s [] t
      → Keeps IsValid contents t got u
      → Keeps IsValid contents s got u
  Keeps-trans s t u got a b v = let (x, k) = a v in let (y, l) = b x in (y, Perm.trans k l)

  module _ (local-Keeps : (s : S) → Keeps IsValid contents s (taken? (local s).0) (local s).1)
      (steal-Keeps : (s : S) → Keeps IsValid contents s (stolen? (steal s).0) (steal s).1)
      (external-Keeps : (s : S)
        → Keeps IsValid contents s (taken? (external s).0) (external s).1) where
    or_answer-Keeps :
        (s : S) (r : Steal T) (x : Option T × S)
        → stolen? r ≡ []
        → Keeps IsValid contents s (taken? x.0) x.1
        → Keeps IsValid contents s (stolen? (or_answer q r x).0) (or_answer q r x).1
    unfolding or_answer
    or_answer-Keeps s r (some c, t) e k = k
    or_answer-Keeps s r (none, t) e k = subst (λ l. Keeps IsValid contents s l t) (sym e) k

    or_external-Keeps :
        (s : S) (x : Steal T × S)
        → Keeps IsValid contents s (stolen? x.0) x.1
        → Keeps IsValid contents s (stolen? (or_external q x).0) (or_external q x).1
    unfolding or_external
    or_external-Keeps s (success c, t) k = k
    or_external-Keeps s (empty, t) k =
        or_answer-Keeps s empty (external t) refl (Keeps-trans s t _ _ k (external-Keeps t))
    or_external-Keeps s (retry, t) k =
        or_answer-Keeps s retry (external t) refl (Keeps-trans s t _ _ k (external-Keeps t))

    or_steal-Keeps :
        (s : S) (x : Option T × S)
        → Keeps IsValid contents s (taken? x.0) x.1
        → Keeps IsValid contents s (stolen? (or_steal q x).0) (or_steal q x).1
    unfolding or_steal
    or_steal-Keeps s (some c, t) k = k
    or_steal-Keeps s (none, t) k =
        or_external-Keeps s (steal t) (Keeps-trans s t _ _ k (steal-Keeps t))

    or_local-Keeps :
        (s : S) (x : Option T × S)
        → Keeps IsValid contents s (taken? x.0) x.1
        → Keeps IsValid contents s (stolen? (or_local q x).0) (or_local q x).1
    unfolding or_local
    or_local-Keeps s (some c, t) k = k
    or_local-Keeps s (none, t) k =
        or_answer-Keeps s empty (local t) refl (Keeps-trans s t _ _ k (local-Keeps t))

    pub next-Keeps :
        (site : Site) (s : S)
        → Keeps IsValid contents s (stolen? (next q site s).0) (next q site s).1
    unfolding next
    next-Keeps loop s = or_steal-Keeps s (local s) (local-Keeps s)
    next-Keeps wait s = or_steal-Keeps s (local s) (local-Keeps s)
    next-Keeps switch s = or_local-Keeps s (external s) (external-Keeps s)

module _ {T S : Type 0} (q : TaskSources T S) where
  open q use {local, steal, external}

  -- What the sources said when the loop found nothing.
  pub next_empty :
      (s : S)
      → (next q loop s).0 ≡ empty
      → ((local s).0 ≡ none)
        × ((steal (local s).1).0 ≡ empty)
        × ((external (steal (local s).1).1).0 ≡ none)
  unfolding next or_steal or_external or_answer
  next_empty s e = at_local (local s) e
    where
      at_external : (x : Option T × S) → (or_answer q empty x).0 ≡ empty → x.0 ≡ none
      at_external (some c, t) e = absurd (cc e)
      at_external (none, t) e = refl

      no_retry : (x : Option T × S) → ¬ ((or_answer q retry x).0 ≡ empty)
      no_retry (some c, t) e = cc e
      no_retry (none, t) e = cc e

      at_steal :
          (x : Steal T × S)
          → (or_external q x).0 ≡ empty
          → (x.0 ≡ empty) × ((external x.1).0 ≡ none)
      at_steal (success c, t) e = absurd (cc e)
      at_steal (empty, t) e = (refl, at_external (external t) e)
      at_steal (retry, t) e = absurd (no_retry (external t) e)

      at_local :
          (x : Option T × S)
          → (or_steal q x).0 ≡ empty
          → (x.0 ≡ none) × ((steal x.1).0 ≡ empty) × ((external (steal x.1).1).0 ≡ none)
      at_local (some c, t) e = absurd (cc e)
      at_local (none, t) e = let (a, b) = at_steal (steal t) e in (refl, a, b)

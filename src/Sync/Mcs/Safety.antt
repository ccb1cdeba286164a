-- ===== src/Sync/Mcs/Safety.antt =====
-- What holds of an MCS lock in every reachable state.
use cmpth_rs.Prelude.{ℕ, ◌≡◌, ◌≢◌, refl, sym, ◌∙◌, ◌⊎◌, inl, inr, true, some, List, [], ◌∷◌}
use cmpth_rs.Sync.Mcs.{
  Pc, suspending, waiting, holding, handing, fault, System, Step, init, Reach, start, later,
}
use cmpth_rs.Sync.Mcs.Queue.{Chain, queued, IsQueue}
use cmpth_rs.Sync.Mcs.Chain.{Forms-owner}
use cmpth_rs.Sync.Mcs.Enter.{Change}
use cmpth_rs.Sync.Mcs.Keep.{Step-Kept}

init-IsQueue : IsQueue init []
init-IsQueue = record {
  forms = refl;
  distinct = tt;
  complete = λ i x. cc;
  clean = λ i x. cc;
  sound = λ i x. cc;
}

pub Reach-IsQueue : {s : System} → Reach s → (q : List ℕ) × IsQueue s q
Reach-IsQueue start = ([], init-IsQueue)
Reach-IsQueue (later r st) =
    let (q, v) = Reach-IsQueue r in let (q', v', c) = Step-Kept q v st in (q', v')

-- The lock is a first-in, first-out queue of threads: in every reachable state the threads inside
-- it form a queue from the owner to the tail, and each step leaves the queue as it is, appends one
-- thread at its end, or removes its first thread, the owner.
pub mcs_refines-IsQueue :
    {s : System}
    → Reach s
    → (q : List ℕ) × IsQueue s q
      × ((t : System) → Step s t → (q' : List ℕ) × IsQueue t q' × Change q q')
mcs_refines-IsQueue r = let (q, v) = Reach-IsQueue r in (q, v, λ t st. Step-Kept q v st)

-- Has the guard, or is dropping it.
abbrev pub Owns : Pc → Type 0
Owns p = (p ≡ holding) ⊎ (p ≡ handing)

Owns-queued : (p : Pc) → Owns p → queued p ≡ true
Owns-queued p (inl e) = rw e
Owns-queued p (inr e) = rw e

same_owner :
    {s : System} (q : List ℕ) (i j : ℕ) → IsQueue s q → Owns (s.pc i) → Owns (s.pc j) → i ≡ j
same_owner [] i j v a b = elim (v.complete i (Owns-queued _ a)) [ ]
same_owner {s} (h ∷ r) i j v a b = first i a ∙ sym (first j b)
  where
    first : (k : ℕ) → Owns (s.pc k) → k ≡ h
    first k own = Forms-owner s.mem s.pc h r k v.forms (v.complete k (Owns-queued _ own)) own

-- Mutual exclusion: in every reachable state at most one thread has the guard or is dropping it.
mcs_exclusion : {s : System} → Reach s → (i j : ℕ) → Owns (s.pc i) → Owns (s.pc j) → i ≡ j
mcs_exclusion r i j a b = let (q, v) = Reach-IsQueue r in same_owner q i j v a b

-- No reachable step stores into the node of a thread that has left the lock, and none resumes a
-- thread that is not suspended.
pub mcs_never_faults : {s : System} → Reach s → (i : ℕ) → s.pc i ≢ fault
mcs_never_faults r = let (q, v) = Reach-IsQueue r in v.sound

-- The owner that is handing over has a successor that waits or is about to tell it so.
abbrev pub Followed : System → ℕ → Type 0
Followed s h = (j : ℕ) × (((s.mem.next h ≡ some j) × (s.pc j ≡ waiting)) ⊎ (s.pc j ≡ suspending h))

progress :
    {s : System} (q : List ℕ) (i : ℕ)
    → IsQueue s q
    → queued (s.pc i) ≡ true
    → (h : ℕ) × ((s.pc h ≡ holding) ⊎ ((s.pc h ≡ handing) × Followed s h))
progress [] i v x = elim (v.complete i x) [ ]
progress {s} (h ∷ r) i v x = (h, owner v.forms.0)
  where
    follower : (r' : List ℕ) → Chain s.mem s.pc h r' → r' ≢ [] → Followed s h
    follower [] c ne = absurd (ne refl)
    follower (j ∷ r') (inl (a, b), c) ne = (j, inr a)
    follower (j ∷ r') (inr (a, b), c) ne = (j, inl (b, a))

    owner :
        (s.pc h ≡ holding) ⊎ ((s.pc h ≡ handing) × (r ≢ []))
        → (s.pc h ≡ holding) ⊎ ((s.pc h ≡ handing) × Followed s h)
    owner (inl a) = inl a
    owner (inr (a, ne)) = inr (a, follower r v.forms.1 ne)

-- No deadlock: whenever a thread waits for the lock or is about to, some thread has the guard, or
-- is dropping it and has a successor that waits under its `next` or is about to store there.
pub mcs_progress :
    {s : System}
    → Reach s
    → (i : ℕ) → queued (s.pc i) ≡ true
    → (h : ℕ) × ((s.pc h ≡ holding) ⊎ ((s.pc h ≡ handing) × Followed s h))
mcs_progress r i x = let (q, v) = Reach-IsQueue r in progress q i v x

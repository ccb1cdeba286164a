-- ===== src/Sync/Blocking/Safety.antt =====
-- What holds of a blocking mutex in every reachable state.
use cmpth_rs.Prelude.{ℕ, ◌≡◌, ◌≢◌, refl, ◌⊎◌, inl, inr, some, List, [], ◌∷◌, Among}
use cmpth_rs.Sync.Mcs.Enter.{Change}
use cmpth_rs.Sync.Blocking.{
  waiting, holding, notifying, fault, System, Step, init, Reach, start, later,
}
use cmpth_rs.Sync.Blocking.Order.{head?, IsOrder}
use cmpth_rs.Sync.Blocking.Wait.{Step-Kept}

init-IsOrder : IsOrder init []
init-IsOrder = record {
  shapes = (refl, refl);
  distinct = tt;
  members = λ i m. absurd m;
  inside = λ i e. cc;
  target = λ u t e. cc;
  one_notifier = λ u u' t t' e e'. cc;
  served = λ h e. cc;
  sound = λ i e. cc;
}

Reach-IsOrder : {s : System} → Reach s → (q : List ℕ) × IsOrder s q
Reach-IsOrder start = ([], init-IsOrder)
Reach-IsOrder (later r st) =
    let (q, v) = Reach-IsOrder r in let (q', v', c) = Step-Kept q v st in (q', v')

-- The blocking mutex is a first-in, first-out queue of threads: in every reachable state the
-- threads inside it form a queue from the owner on, and each step leaves the queue as it is,
-- appends one thread at its end, or removes its first thread, the owner.
pub mutex_refines-IsOrder :
    {s : System}
    → Reach s
    → (q : List ℕ) × IsOrder s q
      × ((t : System) → Step s t → (q' : List ℕ) × IsOrder t q' × Change q q')
mutex_refines-IsOrder r = let (q, v) = Reach-IsOrder r in (q, v, λ t st. Step-Kept q v st)

-- In every reachable state of the blocking mutex at most one thread has the guard, no thread has it
-- while another is notified, and no thread was resumed that did not wait.
mutex_exclusion :
    {s : System}
    → Reach s
    → ((i j : ℕ) → s.pc i ≡ holding → s.pc j ≡ holding → i ≡ j)
      × ((i u t : ℕ) → s.pc i ≡ holding → s.pc u ≢ notifying t)
      × ((i : ℕ) → s.pc i ≢ fault)
mutex_exclusion {s} r =
    let (q, v) = Reach-IsOrder r in
    (
      λ i j a b. cc (first q v i a, first q v j b),
      λ i u t a e. let (f, w) = v.target u t e in cc (first q v i a, f, w, a),
      v.sound,
    )
  where
    first : (q : List ℕ) → IsOrder s q → (i : ℕ) → s.pc i ≡ holding → head? q ≡ some i
    first q v i a = elim (v.members i (v.inside i (rw a refl))) [ inl w ↦ cc (w, a) | inr w ↦ w.1 ]

-- No thread waits for nothing: in every reachable state in which a thread waits for the blocking
-- mutex, some thread has the guard, or is about to notify the next owner, which waits.
mutex_progress :
    {s : System}
    → Reach s
    → (i : ℕ) → s.pc i ≡ waiting
    → (h : ℕ) × ((s.pc h ≡ holding) ⊎ ((t : ℕ) × (s.pc h ≡ notifying t) × (s.pc t ≡ waiting)))
mutex_progress {s} r i waits =
    let (q, v) = Reach-IsOrder r in serve q v (v.inside i (rw waits refl))
  where
    serve :
        (q : List ℕ)
        → IsOrder s q
        → Among i q
        → (h : ℕ) × ((s.pc h ≡ holding) ⊎ ((t : ℕ) × (s.pc h ≡ notifying t) × (s.pc t ≡ waiting)))
    serve [] v m = absurd m
    serve (h ∷ rest) v m = elim (v.served h refl) [
      | inl holds ↦ (h, inl holds)
      | inr (u, n) ↦ (u, inr (h, n, (v.target u h n).1))
    ]

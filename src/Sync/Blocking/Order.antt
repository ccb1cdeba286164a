-- ===== src/Sync/Blocking/Order.antt =====
-- The owner and the waiters of a blocking mutex as one queue.
use cmpth_rs.Prelude.{
  ℕ, ◌≡◌, ◌≢◌, ◌⊎◌, Bool, true, false, Option, none, some, List, [], ◌∷◌, Among, Distinct,
}
use cmpth_rs.Sync.Blocking.{MutexState, Pc, waiting, holding, notifying, fault, System}

abbrev pub head? : List ℕ → Option ℕ
head? [] = none
head? (x ∷ xs) = some x

-- The lock is free if and only if the queue is empty; behind its head are the waiters.
abbrev pub Shapes : MutexState → List ℕ → Type 0
Shapes m [] = (m.locked ≡ false) × (m.waiters ≡ [])
Shapes m (h ∷ r) = (m.locked ≡ true) × (m.waiters ≡ r)

abbrev pub in_queue : Pc → Bool
in_queue waiting = true
in_queue holding = true
in_queue _ = false

-- The head holds the lock, or waits and is being notified by one thread.
pub record IsOrder (s : System) (q : List ℕ) : Type 0 where
  pub shapes : Shapes s.state q
  pub distinct : Distinct q
  pub members : (i : ℕ) → Among i q → (s.pc i ≡ waiting) ⊎ ((s.pc i ≡ holding) × (head? q ≡ some i))
  pub inside : (i : ℕ) → in_queue (s.pc i) ≡ true → Among i q
  pub target : (u t : ℕ) → s.pc u ≡ notifying t → (head? q ≡ some t) × (s.pc t ≡ waiting)
  pub one_notifier : (u u' t t' : ℕ) → s.pc u ≡ notifying t → s.pc u' ≡ notifying t' → u ≡ u'
  pub served : (h : ℕ) → head? q ≡ some h → (s.pc h ≡ holding) ⊎ ((u : ℕ) × (s.pc u ≡ notifying h))
  pub sound : (i : ℕ) → s.pc i ≢ fault

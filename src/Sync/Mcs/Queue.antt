-- ===== src/Sync/Mcs/Queue.antt =====
-- The queue that the nodes of an MCS lock form, from the owner to the tail.
use cmpth_rs.Prelude.{
  Among, Distinct, ℕ, ◌≡◌, ◌≢◌, ◌⊎◌, Bool, true, false, none, some, List, [], ◌∷◌,
}
use cmpth_rs.Sync.Mcs.{Shared, Pc, allocated, suspending, waiting, holding, handing, fault, System}

-- The thread `j` queues behind `p`: it has yet to tell `p`, or has told it.
abbrev pub Link : Shared → (ℕ → Pc) → ℕ → ℕ → Type 0
Link m pc p j =
    ((pc j ≡ suspending p) × (m.next p ≡ none)) ⊎ ((pc j ≡ waiting) × (m.next p ≡ some j))

abbrev pub Chain : Shared → (ℕ → Pc) → ℕ → List ℕ → Type 0
Chain m pc p [] = (m.tail ≡ some p) × (m.next p ≡ none)
Chain m pc p (j ∷ r) = Link m pc p j × Chain m pc j r

-- The lock's owner, on its way out of the lock only if somebody follows.
abbrev pub Heads : Pc → List ℕ → Type 0
Heads p r = (p ≡ holding) ⊎ ((p ≡ handing) × (r ≢ []))

abbrev pub Forms : Shared → (ℕ → Pc) → List ℕ → Type 0
Forms m pc [] = m.tail ≡ none
Forms m pc (h ∷ r) = Heads (pc h) r × Chain m pc h r

abbrev pub queued : Pc → Bool
queued (suspending prev) = true
queued waiting = true
queued holding = true
queued handing = true
queued _ = false

pub record IsQueue (s : System) (q : List ℕ) : Type 0 where
  pub forms : Forms s.mem s.pc q
  pub distinct : Distinct q
  pub complete : (i : ℕ) → queued (s.pc i) ≡ true → Among i q
  pub clean : (i : ℕ) → s.pc i ≡ allocated → s.mem.next i ≡ none
  pub sound : (i : ℕ) → s.pc i ≢ fault

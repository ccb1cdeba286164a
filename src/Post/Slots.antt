-- ===== src/Post/Slots.antt =====
-- Producers, their tickets, and what a scan collects (src/post.rs).
use cmpth_rs.Prelude.{
  ◌⊎◌, ℕ, ◌+◌, ◌<◌, ◌≤◌, ◌≡◌, ◌≢◌, List, [], ◌∷◌, ◌==◌, if◌then◌else◌, length, Among,
}
use cmpth_rs.Post.{Ticket, Producers, collect_all}

-- The mark of a producer, 0 before its first post.
abbrev pub mark_of : ℕ → Producers → ℕ
mark_of p [] = 0
mark_of p (s ∷ slots) = if s.producer == p then s.mark else mark_of p slots

-- The slots are numbered from the oldest, and no slot was seen beyond its mark.
abbrev pub IsProducers : Producers → Type 0
IsProducers [] = Unit {0}
IsProducers (s ∷ slots) = (s.producer ≡ length slots) × (s.seen ≤ s.mark) × IsProducers slots

-- A thread's table names registered producers only.
abbrev pub IsTable : List (ℕ × ℕ) → Producers → Type 0
IsTable [] slots = Unit {0}
IsTable ((id, producer) ∷ table) slots = (producer < length slots) × IsTable table slots

-- The entry of the delegator `id` in a thread's table is the producer `p`.
abbrev pub Names : ℕ → List (ℕ × ℕ) → ℕ → Type 0
Names id [] p = ⊥
Names id ((other, q) ∷ table) p = ((other ≡ id) × (q ≡ p)) ⊎ ((other ≢ id) × Names id table p)

-- What a bump does to a registered slot.
pub record IsBumped (p : ℕ) (slots : Producers) (t : Ticket) (after : Producers) : Type 0 where
  pub producer : t.producer ≡ p
  pub seq : t.seq ≡ mark_of p slots + 1
  pub mark : mark_of p after ≡ t.seq
  pub kept : (q : ℕ) → p ≢ q → mark_of q after ≡ mark_of q slots
  pub valid : IsProducers after
  pub size : length after ≡ length slots
  pub collected : Among t (collect_all after).1

-- A post to the delegator `id` by a thread, registered or not, whose table was `before`.
pub record IsPosted (id : ℕ) (before : List (ℕ × ℕ)) (slots : Producers) (t : Ticket)
    (table : List (ℕ × ℕ)) (after : Producers) : Type 0 where
  pub own : (p : ℕ) → Names id before p → t.producer ≡ p
  pub first : ((p : ℕ) → ¬ Names id before p) → t.producer ≡ length slots
  pub named : Names id table t.producer
  pub names : (other p : ℕ) → Names other before p → Names other table p
  pub seq : t.seq ≡ mark_of t.producer slots + 1
  pub mark : mark_of t.producer after ≡ t.seq
  pub kept : (q : ℕ) → t.producer ≢ q → mark_of q after ≡ mark_of q slots
  pub valid : IsProducers after
  pub tabled : IsTable table after
  pub collected : Among t (collect_all after).1

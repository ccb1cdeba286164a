-- ===== src/Post.antt =====
-- Posting: producers bump a mark, and a server reads the marks that moved and hands the consumer one
-- ticket for each (src/post.rs).
pub mod Slots
pub mod Serve
pub mod Queue
mod Examples
use cmpth_rs.Prelude.{
  ℕ, zero, suc, ◌+◌, ◌≡◌, Bool, true, false, not, ◌&&◌, List, [], ◌∷◌, ◌++◌, Option, none, some,
  ◌==◌, if◌then◌else◌, length,
}

pub record Ticket : Type 0 where
  pub producer : ℕ
  pub seq : ℕ

-- A slot of the delegator that serves by a scan: its mark, and what the server last saw of it.
pub record Slot : Type 0 where
  pub producer : ℕ
  pub mark : ℕ
  pub seen : ℕ

-- The slots, the newest first; the number of the next producer is their count.
abbrev pub Producers : Type 0
Producers = List Slot

-- A thread's slot in its `MINE`, by the number of the delegator.
unfoldable pub find : ℕ → List (ℕ × ℕ) → Option ℕ
find id [] = none
find id ((other, producer) ∷ rest) = if other == id then some producer else find id rest

unfoldable pub register : Producers → ℕ × Producers
register slots = (length slots, record { producer = length slots; mark = 0; seen = 0 } ∷ slots)

-- `mine`: the thread's slot, registered at its first post.
unfoldable pub mine : ℕ → List (ℕ × ℕ) → Producers → ℕ × List (ℕ × ℕ) × Producers
mine id table slots = elim (find id table) [
  | some producer ↦ (producer, table, slots)
  | none ↦ ((register slots).0, table ++ (id, (register slots).0) ∷ [], (register slots).1)
]

-- `bump` on the slot of a producer.
unfoldable pub bump : ℕ → Producers → Ticket × Producers
bump producer [] = (record { producer = producer; seq = 0 }, [])
bump producer (s ∷ slots) =
    if s.producer == producer
    then (record { producer = producer; seq = s.mark + 1 }, record s { mark = s.mark + 1 } ∷ slots)
    else let (t, rest) = bump producer slots in (t, s ∷ rest)

-- `SlotPostDelegator::post` by a thread with the table `table`.
unfoldable pub post : ℕ → List (ℕ × ℕ) → Producers → Ticket × List (ℕ × ℕ) × Producers
post id table slots =
    let (producer, table', slots') = mine id table slots in
    let (t, after) = bump producer slots' in (t, table', after)

-- `collect` on one slot: the slot after it, and the tickets it pushes.
unfoldable pub collect : Slot → Slot × List Ticket
collect s =
    if s.mark == s.seen
    then (s, [])
    else (record s { seen = s.mark }, record { producer = s.producer; seq = s.mark } ∷ [])

unfoldable pub collect_all : Producers → Producers × List Ticket
unfolding collect
collect_all [] = ([], [])
collect_all (s ∷ slots) =
    let (s', new) = collect s in let (rest, batch) = collect_all slots in (s' ∷ rest, new ++ batch)

-- The delegator, with what its consumer was served, the newest batch first.
pub record SlotDelegator : Type 0 where
  pub slots : Producers
  pub busy : Bool
  pub served : List (List Ticket)

unfoldable pub is_empty : List Ticket → Bool
is_empty [] = true
is_empty (t ∷ batch) = false

-- `SlotPostDelegator::serve_now`, as one step of the thread that gets the lock.
unfoldable pub serve_now : SlotDelegator → Bool × SlotDelegator
unfolding collect_all is_empty
serve_now d =
    if d.busy
    then (false, d)
    else let (slots, batch) = collect_all d.slots in
      (
        not (is_empty batch),
        record d { slots = slots; served = if is_empty batch then d.served else batch ∷ d.served },
      )

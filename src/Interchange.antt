-- ===== src/Interchange.antt =====
-- One-word slots that hand a pointer from one thread to another, with a tag in its low bits
-- (src/interchange.rs).
pub mod Roundtrip
mod Examples
use cmpth_rs.Prelude.{ℕ, ◌-◌, ◌^◌, ◌==◌, Bool, not, Option, none, some, if◌then◌else◌}
use cmpth_rs.Prelude.Bits.{bit_and, bit_or, complement}

-- `TAG_MASK`, for a slot of `bits` tag bits.
unfoldable pub tag_mask : ℕ → ℕ
tag_mask bits = 2 ^ bits - 1

abbrev pub empty : ℕ
empty = 0

unfoldable pub is_set : ℕ → Bool
is_set word = not (word == 0)

-- The word that `publish` stores.
unfoldable pub publish : ℕ → ℕ → ℕ
publish ptr tag = bit_or ptr tag

-- `take` swaps the word for 0. What it found is the tag and the raw word.
unfoldable pub take : ℕ → ℕ → Option (ℕ × ℕ) × ℕ
unfolding tag_mask
take bits word = (if word == 0 then none else some (bit_and word (tag_mask bits), word), 0)

-- `TaggedPtr::into_typed`.
unfoldable pub into_typed : ℕ → ℕ → ℕ
unfolding tag_mask
into_typed bits word = bit_and word (complement (tag_mask bits))

-- `AtomicSlot`: no tag.
unfoldable pub slot_publish : ℕ → ℕ
unfolding publish
slot_publish ptr = publish ptr 0

unfoldable pub slot_take : ℕ → Option ℕ × ℕ
unfolding take into_typed
slot_take word =
    let (found, rest) = take 0 word in
    (elim found [ none ↦ none | some (_, raw) ↦ some (into_typed 0 raw) ], rest)

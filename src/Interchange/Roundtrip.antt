-- ===== src/Interchange/Roundtrip.antt =====
-- What is published is what is taken (src/interchange.rs).
use native.Mathlib.Nat.{div-add-mod'}
use cmpth_rs.Prelude.{
  ℕ, ◌+◌, ◌*◌, ◌/◌, ◌%◌, ◌^◌, ◌≤◌, ◌<◌, ◌≡◌, ◌≢◌, refl, ◌∙◌, subst, some, arith, ◌==◌, false,
}
use cmpth_rs.Prelude.Bits.{bit_or, bit_or_tag, bit_and_tag, bit_and_aligned, aligned_lt}
use cmpth_rs.Interchange.{publish, take, into_typed, slot_publish, slot_take}

-- A multiple of the alignment.
aligned_parts : (bits ptr : ℕ) → ptr % 2 ^ bits ≡ 0 → ptr / 2 ^ bits * 2 ^ bits ≡ ptr
aligned_parts bits ptr h = omega (arith, div-add-mod' ptr (2 ^ bits))

pub publish-add :
    (bits ptr tag : ℕ) → ptr % 2 ^ bits ≡ 0 → tag < 2 ^ bits → publish ptr tag ≡ ptr + tag
unfolding publish
publish-add bits ptr tag h t =
    subst (λ (p : ℕ). bit_or p tag ≡ p + tag) (aligned_parts bits ptr h)
      (bit_or_tag bits (ptr / 2 ^ bits) tag t)

-- A published word yields its tag, and its pointer, and leaves the slot empty.
pub record IsTaken (bits ptr tag word : ℕ) : Type 0 where
  pub found : take bits word ≡ (some (tag, word), 0)
  pub pointer : into_typed bits word ≡ ptr

tagged_take :
    (bits p tag : ℕ)
    → p * 2 ^ bits ≢ 0
    → tag < 2 ^ bits
    → take bits (p * 2 ^ bits + tag) ≡ (some (tag, p * 2 ^ bits + tag), 0)
unfolding take
tagged_take bits p tag n t =
    let nonzero : (p * 2 ^ bits + tag == 0) ≡ false = ground arith in
    rw (nonzero, bit_and_tag bits p tag t) refl

tagged_pointer :
    (bits p tag : ℕ)
    → bits ≤ 64
    → tag < 2 ^ bits
    → p * 2 ^ bits + tag < 2 ^ 64
    → into_typed bits (p * 2 ^ bits + tag) ≡ p * 2 ^ bits
unfolding into_typed
tagged_pointer bits p tag b t fits = bit_and_aligned bits p tag b t fits

-- For a pointer that is not null and a multiple of `2 ^ TAG_BITS`, with fewer than 64 tag bits, and a
-- tag of at most `TAG_MASK`: taking the word that `publish` stored gives the tag, empties the slot, and
-- `into_typed` of the raw word is the pointer.
take-publish :
    (bits ptr tag : ℕ)
    → bits < 64
    → ptr ≢ 0
    → ptr < 2 ^ 64
    → ptr % 2 ^ bits ≡ 0
    → tag < 2 ^ bits
    → IsTaken bits ptr tag (publish ptr tag)
take-publish bits ptr tag b n w h t =
    let p = ptr / 2 ^ bits in
    let parts = aligned_parts bits ptr h in
    let word : publish ptr tag ≡ p * 2 ^ bits + tag = rw parts (publish-add bits ptr tag h t) in
    let fits = aligned_lt bits p tag (omega arith) (rw parts w) t in
    rw word (record {
      found = tagged_take bits p tag (omega (arith, parts)) t;
      pointer = tagged_pointer bits p tag (omega arith) t fits ∙ parts;
    })

-- The same of a slot without tags.
pub slot_take-slot_publish :
    (ptr : ℕ) → ptr ≢ 0 → ptr < 2 ^ 64 → slot_take (slot_publish ptr) ≡ (some ptr, 0)
unfolding slot_take slot_publish
slot_take-slot_publish ptr n w =
    let v = take-publish 0 ptr 0 (omega arith) n w (omega arith) (omega arith) in
    ground (arith, v.found, v.pointer)

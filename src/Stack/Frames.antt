-- ===== src/Stack/Frames.antt =====
-- Task frames on the allocator (`MallocFrame` of src/resumable/common/stack.rs).
use mathlib.Core.Path.{fun_ext}
use cmpth_rs.Prelude.{
  ℕ, ◌-◌, ◌^◌, ◌≤◌, ◌<◌, ◌≡◌, ◌⊎◌, Option, none, some, arith, max, inl, inr, refl, sym, ◌∙◌, ap,
  subst, dec_lt, update, Option-cases, ℕ_discrete,
}
use cmpth_rs.Stack.{
  Layout, Os, Process, Outcome, returned, panicked, MallocFrameMem, malloc_layout, alloc_frame,
  free_block, dealloc_frame, from_malloc, drop,
}

abbrev pub aligned_64 : ℕ → Layout
aligned_64 size = record { size = size; align = 64 }

-- A frame of at least `size` bytes, in a block that was not live; nothing else changes.
pub record HasFrame (p : Process) (size : ℕ) (m : MallocFrameMem) (q : Process) : Type 0 where
  pub room : m.size ≡ max size 16
  pub small : m.size ≤ 2 ^ 63 - 64
  pub fresh : p.blocks m.ptr ≡ none
  pub live : q ≡ record p { blocks = update p.blocks m.ptr (some (aligned_64 m.size)) }

-- No frame: the size is beyond what a layout can have, or the allocator has no room.
pub record IsFull (os : Os) (size : ℕ) (p q : Process) : Type 0 where
  pub same : q ≡ p
  pub reason : (2 ^ 63 - 64 < max size 16) ⊎ (os.alloc p.blocks (aligned_64 (max size 16)) ≡ none)

abbrev pub Frames : Os → Process → ℕ → Outcome MallocFrameMem × Process → Type 0
Frames os p size (returned m, q) = HasFrame p size m q
Frames os p size (panicked, q) = IsFull os size p q

max_again : (size : ℕ) → max (max size 16) 16 ≡ max size 16
unfolding max
max_again size = ground arith

layout_fits :
    (size : ℕ)
    → max size 16 ≤ 2 ^ 63 - 64
    → malloc_layout (max size 16) ≡ returned (aligned_64 (max size 16))
unfolding malloc_layout
layout_fits size h = rw (max_again size) (ground arith)

layout_too_big : (size : ℕ) → 2 ^ 63 - 64 < max size 16 → malloc_layout (max size 16) ≡ panicked
unfolding malloc_layout
layout_too_big size h = rw (max_again size) (ground arith)

-- If the allocator hands out only blocks that are not live: `MallocFrame::alloc_stack` returns a frame
-- of `max(size, 16)` bytes in a block that was not live, with that size and alignment 64, and changes
-- nothing else; or it panics and changes nothing, which happens only for a size above `2 ^ 63 - 64` or
-- when the allocator has no room.
pub alloc_frame-Frames :
    (os : Os) (size : ℕ) (p : Process)
    → ((blocks : ℕ → Option Layout) (l : Layout) (ptr : ℕ)
        → os.alloc blocks l ≡ some ptr
        → blocks ptr ≡ none)
    → Frames os p size (alloc_frame os size p)
unfolding alloc_frame
alloc_frame-Frames os size p unused = elim (dec_lt (2 ^ 63 - 64) (max size 16)) [
  | yes big ↦
      let e : alloc_frame os size p ≡ (panicked, p) = rw (alloc_frame, layout_too_big size big) in
      subst (Frames os p size) (sym e) (record { same = refl; reason = inl big })
  | no small ↦
      let l = layout_fits size (omega arith) in
      elim (Option-cases (os.alloc p.blocks (aligned_64 (max size 16)))) [
        | inl full ↦
            let e : alloc_frame os size p ≡ (panicked, p) = rw (alloc_frame, l, full) in
            subst (Frames os p size) (sym e) (record { same = refl; reason = inr full })
        | inr (ptr, found) ↦
            let q : Process = record p {
              blocks = update p.blocks ptr (some (aligned_64 (max size 16)));
            } in
            let m : MallocFrameMem = record { ptr = ptr; size = max size 16 } in
            let e : alloc_frame os size p ≡ (returned m, q) = rw (alloc_frame, l, found) in
            let fresh = unused p.blocks (aligned_64 (max size 16)) ptr found in
            subst (Frames os p size) (sym e)
              (record { room = refl; small = omega arith; fresh = fresh; live = refl })
      ]
]

-- A new block is freed with the layout that it was allocated with.
free_block_lem :
    (ptr : ℕ) (l : Layout) (p : Process)
    → p.blocks ptr ≡ none
    → free_block ptr l (record p { blocks = update p.blocks ptr (some l) }) ≡ some p
unfolding free_block ℕ_discrete
free_block_lem ptr l p h =
    let back : update (update p.blocks ptr (some l)) ptr none ≡ p.blocks =
      fun_ext λ i. ground arith in
    let freed : free_block ptr l (record p { blocks = update p.blocks ptr (some l) })
        ≡ some (record p { blocks = update (update p.blocks ptr (some l)) ptr none }) =
      ground arith in
    freed ∙ ap (λ f. some (record p { blocks = f })) back

-- If the allocator hands out only blocks that are not live, dropping the memory of a frame that
-- `MallocFrame::alloc_stack` returned frees a live block with the layout it was allocated with, and the
-- process is what it was before.
drop-alloc_frame :
    (os : Os) (size : ℕ) (p : Process) {m : MallocFrameMem} {q : Process}
    → ((blocks : ℕ → Option Layout) (l : Layout) (ptr : ℕ)
        → os.alloc blocks l ≡ some ptr
        → blocks ptr ≡ none)
    → alloc_frame os size p ≡ (returned m, q)
    → drop os (from_malloc m) q ≡ some p
unfolding drop from_malloc dealloc_frame
drop-alloc_frame os size p {m} {q} unused e =
    let has : HasFrame p size m q =
      subst (Frames os p size) e (alloc_frame-Frames os size p unused) in
    let l : malloc_layout m.size ≡ returned (aligned_64 m.size) =
      rw has.room (layout_fits size (omega (arith, has.small, has.room))) in
    rw (dealloc_frame, l, has.live) (free_block_lem m.ptr (aligned_64 m.size) p has.fresh)

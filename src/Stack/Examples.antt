-- ===== src/Stack/Examples.antt =====
-- A small address space with pages of 16 bytes, and the theorems on it
-- (src/resumable/common/stack.rs).
use cmpth_rs.Prelude.{
  ℕ, zero, suc, ◌+◌, ◌%◌, ◌^◌, ◌≡◌, refl, sym, ap, some-injective, Bool, true, false, ◌≤◌, ◌<◌,
  ◌&&◌, Option, none, some, arith, ltb, dec_lt, leb, ◌==◌, if◌then◌else◌, max,
}
use cmpth_rs.Stack.{
  Access, unmapped, reserved, committed, Memory, Os, Process, alloc_stack, from_heap, drop,
  round_up, alloc_pages, page_size, reserve,
}
use cmpth_rs.Stack.Pages.{IsPaged}
use cmpth_rs.Stack.Memory.{
  paint, IsReserved, IsDocumented, Allocates, alloc_stack-Allocates, drop-alloc_stack,
}

abbrev is_unmapped : Access → Bool
is_unmapped unmapped = true
is_unmapped reserved = false
is_unmapped committed = false

-- Nothing is mapped in the `len` bytes from `base` on.
abbrev is_free : Memory → ℕ → ℕ → Bool
is_free m base zero = true
is_free m base (suc len) = is_unmapped (m (base + len)) && is_free m base len

unmapped_lem : (a : Access) → is_unmapped a ≡ true → a ≡ unmapped
unmapped_lem unmapped h = refl
unmapped_lem reserved h = cc
unmapped_lem committed h = cc

is_free_at :
    (m : Memory) (base len at : ℕ)
    → is_free m base len ≡ true
    → base ≤ at
    → at < base + len
    → m at ≡ unmapped
is_free_at m base zero at h lo hi = absurd (omega arith)
is_free_at m base (suc len) at h lo hi = elim (dec_lt at (base + len)) [
  | yes p ↦ is_free_at m base len at (ground arith) lo p
  | no p ↦
      let e : at ≡ base + len = omega arith in rw e (unmapped_lem (m (base + len)) (ground arith))
]

-- One place, at 4096.
abbrev small_os : Os
small_os = record {
  sysconf = 16;
  mmap = λ m len.
      if leb (4096 + len) (2 ^ 64) && is_free m 4096 len
      then some (4096, paint m 4096 len reserved)
      else none;
  mprotect = λ m from len. some (paint m from len committed);
  munmap = λ m from len.
      if from % 16 == 0 && ltb 0 len then (true, paint m from len unmapped) else (false, m);
  alloc = λ blocks l. elim (blocks 64) [ none ↦ some 64 | some _ ↦ none ];
}

abbrev empty_process : Process
empty_process = record { memory = λ _. unmapped; blocks = λ _. none; page = 0 }

placed :
    (b : Bool) (m : Memory) (len base : ℕ) (after : Memory)
    → ◌≡◌ {A = Option (ℕ × Memory)}
        (if b then some (4096, paint m 4096 len reserved) else none)
        (some (base, after))
    → (b ≡ true) × (base ≡ 4096) × (after ≡ paint m 4096 len reserved)
placed true m len base after h =
    let e : ◌≡◌ {A = ℕ × Memory} (4096, paint m 4096 len reserved) (base, after) =
      some-injective _ _ h in
    (refl, sym (ap (λ x. x.0) e), sym (ap (λ x. x.1) e))
placed false m len base after h = cc

reserves_lem :
    (m : Memory) (len base : ℕ) (after : Memory)
    → small_os.mmap m len ≡ some (base, after)
    → IsReserved 4 m len base after
reserves_lem m len base after h =
    let (room, e, f) =
      placed (leb (4096 + len) (2 ^ 64) && is_free m 4096 len) m len base after h in
    let there : is_free m 4096 len ≡ true = ground arith in
    record {
      aligned = omega (arith, e);
      fits = ground (arith, e);
      free = λ at lo hi. is_free_at m 4096 len at there (omega (arith, e)) (omega (arith, e));
      image = rw e f;
    }

small_os-IsDocumented : IsDocumented small_os 4
small_os-IsDocumented = record {
  reserves = λ m len base after _ h. reserves_lem m len base after h;
  commits = λ m from len after _ _ h. sym (some-injective _ _ h);
  releases = λ m from len h _ k. ground arith;
}

paged : IsPaged small_os 4 empty_process
paged = omega arith

alloc_stack-Allocates_example :
    Allocates small_os 4 empty_process.memory 100 (alloc_stack small_os 100 empty_process)
alloc_stack-Allocates_example =
    alloc_stack-Allocates small_os 4 100 empty_process paged small_os-IsDocumented (omega arith)

drop-alloc_stack_example :
    drop small_os
      (from_heap (record { ptr = 4112; size = 112 }))
      (alloc_stack small_os 100 empty_process).1
    ≡ some (record empty_process { page = 16 })
unfolding alloc_stack alloc_pages page_size reserve round_up max
drop-alloc_stack_example =
    drop-alloc_stack small_os 4 100 empty_process paged small_os-IsDocumented (omega arith) refl

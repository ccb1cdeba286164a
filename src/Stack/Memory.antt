-- ===== src/Stack/Memory.antt =====
-- What `HeapStack::alloc_stack` and the drop of its memory do to the address space
-- (src/resumable/common/stack.rs).
use mathlib.Core.Path.{fun_ext}
use native.Mathlib.Nat.{one-le-pow, add-mod_left, add-mod_right}
use cmpth_rs.Prelude.{
  ℕ, ◌+◌, ◌-◌, ◌*◌, ◌%◌, ◌^◌, ◌≤◌, ◌<◌, ◌≡◌, ◌⊎◌, true, ◌&&◌, none, some, arith, ltb, leb,
  if◌then◌else◌, max, inl, inr, refl, sym, subst, ◌∙◌, Option-cases,
}
use cmpth_rs.Stack.{
  Access, unmapped, reserved, committed, Memory, Os, Process, Outcome, returned, panicked,
  HeapStackMem, wrap, round_up, reserve, alloc_pages, alloc_stack, from_heap, dealloc_heap_stack,
  drop,
}
use cmpth_rs.Stack.Pages.{IsPaged, IsRounded, page_size_lem, round_up-IsRounded}

-- `from` up to `from + len` gets the access `a`.
abbrev pub paint : Memory → ℕ → ℕ → Access → Memory
paint m from len a at = if leb from at && ltb at (from + len) then a else m at

-- What a reservation of `len` bytes at `base` is: a free range at a page, in the address space.
pub record IsReserved (k : ℕ) (m : Memory) (len base : ℕ) (after : Memory) : Type 0 where
  pub aligned : base % 2 ^ k ≡ 0
  pub fits : base + len ≤ 2 ^ 64
  pub free : (at : ℕ) → base ≤ at → at < base + len → m at ≡ unmapped
  pub image : after ≡ paint m base len reserved

-- What the manual pages say of `mmap`, `mprotect` and `munmap`, for pages of `2 ^ k` bytes and ranges of
-- whole pages.
pub record IsDocumented (os : Os) (k : ℕ) : Type 0 where
  pub reserves :
      (m : Memory) (len base : ℕ) (after : Memory)
      → len % 2 ^ k ≡ 0
      → os.mmap m len ≡ some (base, after)
      → IsReserved k m len base after
  pub commits :
      (m : Memory) (from len : ℕ) (after : Memory)
      → from % 2 ^ k ≡ 0
      → len % 2 ^ k ≡ 0
      → os.mprotect m from len ≡ some after
      → after ≡ paint m from len committed
  pub releases :
      (m : Memory) (from len : ℕ)
      → from % 2 ^ k ≡ 0
      → len % 2 ^ k ≡ 0
      → 0 < len
      → os.munmap m from len ≡ (true, paint m from len unmapped)

-- A stack of at least `size` bytes, over a guard page; the rest of the address space is untouched.
pub record HasStack (k : ℕ) (m : Memory) (size : ℕ) (s : HeapStackMem) (after : Memory)
    : Type 0 where
  pub rounded : IsRounded k (max size 16) s.size
  pub below : 2 ^ k ≤ s.ptr
  pub aligned : (s.ptr - 2 ^ k) % 2 ^ k ≡ 0
  pub fits : s.ptr + s.size ≤ 2 ^ 64
  pub usable : (at : ℕ) → s.ptr ≤ at → at < s.ptr + s.size → after at ≡ committed
  pub guarded : (at : ℕ) → s.ptr ≤ at + 2 ^ k → at < s.ptr → after at ≡ reserved
  pub fresh : (at : ℕ) → s.ptr ≤ at + 2 ^ k → at < s.ptr + s.size → m at ≡ unmapped
  pub others : (at : ℕ) → (at + 2 ^ k < s.ptr) ⊎ (s.ptr + s.size ≤ at) → after at ≡ m at

-- A failed allocation: either `mmap` refused and nothing changed, or `mprotect` refused and the range
-- stays reserved.
pub record IsRefused (os : Os) (k : ℕ) (m : Memory) (size : ℕ) (after : Memory) : Type 0 where
  pub reason :
      ((os.mmap m (2 ^ k + size) ≡ none) × (after ≡ m))
      ⊎ ((base : ℕ) × IsReserved k m (2 ^ k + size) base after
          × (os.mprotect after (base + 2 ^ k) size ≡ none))

abbrev pub Allocates : Os → ℕ → Memory → ℕ → Outcome HeapStackMem × Process → Type 0
Allocates os k m size (returned s, q) = HasStack k m size s q.memory
Allocates os k m size (panicked, q) = IsRefused os k m (round_up (max size 16) (2 ^ k)) q.memory

page_more : (k r : ℕ) → r % 2 ^ k ≡ 0 → (2 ^ k + r) % 2 ^ k ≡ 0
page_more k r e = add-mod_left (2 ^ k) r ∙ e

page_after : (k r : ℕ) → r % 2 ^ k ≡ 0 → (r + 2 ^ k) % 2 ^ k ≡ 0
page_after k r e = add-mod_right r (2 ^ k) ∙ e

built :
    (k size r base : ℕ) (m mid after : Memory)
    → IsRounded k (max size 16) r
    → IsReserved k m (2 ^ k + r) base mid
    → after ≡ paint mid (base + 2 ^ k) r committed
    → HasStack k m size (record { ptr = base + 2 ^ k; size = r }) after
built k size r base m mid after rounded v e = record {
  rounded = rounded;
  below = omega arith;
  aligned = (let e : base + 2 ^ k - 2 ^ k ≡ base = omega arith in rw e v.aligned);
  fits = omega arith;
  usable = λ at lo hi. rw e (ground arith);
  guarded = λ at lo hi. rw (e, v.image) (ground arith);
  fresh = λ at lo hi. v.free at (omega arith) (omega arith);
  others = λ at out. rw (e, v.image) (ground arith);
}

-- The two calls, for a length that fits a word.
reserve-Allocates :
    (os : Os) (k size r : ℕ) (p : Process)
    → IsDocumented os k
    → IsRounded k (max size 16) r
    → r ≡ round_up (max size 16) (2 ^ k)
    → Allocates os k p.memory size (reserve os (2 ^ k) r (2 ^ k + r) p)
unfolding reserve
reserve-Allocates os k size r p d rounded this =
    elim (Option-cases (os.mmap p.memory (2 ^ k + r))) [
      | inl e ↦
          let q : reserve os (2 ^ k) r (2 ^ k + r) p ≡ (panicked, p) = rw (reserve, e) in
          subst (Allocates os k p.memory size) (sym q)
            (record { reason = inl (rw (← this) e, refl) })
      | inr ((base, mid), e) ↦
          let v = d.reserves p.memory (2 ^ k + r) base mid (page_more k r rounded.pages) e in
          elim (Option-cases (os.mprotect mid (base + 2 ^ k) r)) [
            | inl f ↦
                let q : reserve os (2 ^ k) r (2 ^ k + r) p ≡ (panicked, record p { memory = mid }) =
                  rw (reserve, e, f) in
                subst (Allocates os k p.memory size) (sym q)
                  (record { reason = inr (base, rw (← this) v, rw (← this) f) })
            | inr (after, f) ↦
                let s : HeapStackMem = record { ptr = base + 2 ^ k; size = r } in
                let q : reserve os (2 ^ k) r (2 ^ k + r) p
                    ≡ (returned s, record p { memory = after }) =
                  rw (reserve, e, f) in
                subst (Allocates os k p.memory size) (sym q) (
                  built k size r base p.memory mid after rounded v (
                    d.commits mid (base + 2 ^ k) r after (page_after k base v.aligned) rounded.pages
                      f))
          ]
    ]

max_bound : (size : ℕ) → max size 16 ≤ size + 16
unfolding max
max_bound size = ground arith

-- For pages of `2 ^ k` bytes, a system that behaves as its manual pages say, a page cache that is empty
-- or right, and a size far enough from `2 ^ 64`: `alloc_stack` either returns a committed range of
-- whole pages, at least the size asked for (16 bytes at the least) and less than a page more, directly
-- above a reserved page that is not committed, all of it unmapped before and every other address as it
-- was; or it panics, and then either `mmap` refused and no address changed, or `mprotect` refused and
-- the reservation stays.
pub alloc_stack-Allocates :
    (os : Os) (k size : ℕ) (p : Process)
    → IsPaged os k p
    → IsDocumented os k
    → size + 16 + 2 * 2 ^ k < 2 ^ 64
    → Allocates os k p.memory size (alloc_stack os size p)
unfolding alloc_stack alloc_pages
alloc_stack-Allocates os k size p v d h =
    let rounded = round_up-IsRounded k (max size 16) v.small (omega (arith, max_bound size)) in
    let r = round_up (max size 16) (2 ^ k) in
    let whole : wrap (2 ^ k + r) ≡ 2 ^ k + r = omega (arith, rounded, max_bound size) in
    rw (page_size_lem os k p v, whole)
      (reserve-Allocates os k size r (record p { page = 2 ^ k }) d rounded refl)

-- Unmapping all of it gives the address space back.
released :
    (k size : ℕ) (m : Memory) (s : HeapStackMem) (after : Memory)
    → HasStack k m size s after
    → paint after (s.ptr - 2 ^ k) (2 ^ k + s.size) unmapped ≡ m
released k size m s after v = fun_ext λ at. ground (arith, v.fresh at, v.others at, v.below)

reserve_page :
    (os : Os) (page r len : ℕ) (p : Process)
    → ((reserve os page r len p).1.page ≡ p.page) × ((reserve os page r len p).1.blocks ≡ p.blocks)
unfolding reserve
reserve_page os page r len p = ground arith

alloc_stack_page :
    (os : Os) (k size : ℕ) (p : Process)
    → IsPaged os k p
    → ((alloc_stack os size p).1.page ≡ 2 ^ k) × ((alloc_stack os size p).1.blocks ≡ p.blocks)
unfolding alloc_stack alloc_pages
alloc_stack_page os k size p v =
    let r = round_up (max size 16) (2 ^ k) in
    rw (page_size_lem os k p v)
      (reserve_page os (2 ^ k) r (wrap (2 ^ k + r)) (record p { page = 2 ^ k }))

-- `munmap` of the guard page and the stack is accepted.
dealloc_lem :
    (os : Os) (k size : ℕ) (m : Memory) (s : HeapStackMem) (q : Process)
    → IsPaged os k q
    → IsDocumented os k
    → wrap (2 ^ k + s.size) ≡ 2 ^ k + s.size
    → HasStack k m size s q.memory
    → dealloc_heap_stack os s.ptr s.size q ≡ (true, record q { memory = m; page = 2 ^ k })
unfolding dealloc_heap_stack
dealloc_lem os k size m s q v d whole has = rw (
  page_size_lem os k q v,
  whole,
  d.releases q.memory (s.ptr - 2 ^ k) (2 ^ k + s.size) has.aligned
      (page_more k s.size has.rounded.pages) (omega (arith, one-le-pow k 2)),
  released k size m s q.memory has,
)

-- Under the same conditions, dropping the memory of a stack that `alloc_stack` returned unmaps exactly
-- what was reserved: `munmap` accepts the range, and the process is what it was before, the page cache
-- filled in.
pub drop-alloc_stack :
    (os : Os) (k size : ℕ) (p : Process) {s : HeapStackMem} {q : Process}
    → IsPaged os k p
    → IsDocumented os k
    → size + 16 + 2 * 2 ^ k < 2 ^ 64
    → alloc_stack os size p ≡ (returned s, q)
    → drop os (from_heap s) q ≡ some (record p { page = 2 ^ k })
unfolding drop from_heap
drop-alloc_stack os k size p {s} {q} v d h e =
    let has : HasStack k p.memory size s q.memory =
      subst (Allocates os k p.memory size) e (alloc_stack-Allocates os k size p v d h) in
    let page : q.page ≡ 2 ^ k =
      subst (λ o. o.1.page ≡ 2 ^ k) e (alloc_stack_page os k size p v).0 in
    let blocks : q.blocks ≡ p.blocks =
      subst (λ o. o.1.blocks ≡ p.blocks) e (alloc_stack_page os k size p v).1 in
    let paged : IsPaged os k q = record { small = v.small; told = v.told; cached = inr page } in
    let whole : wrap (2 ^ k + s.size) ≡ 2 ^ k + s.size =
      omega (arith, has.rounded, max_bound size) in
    let freed = dealloc_lem os k size p.memory s q paged d whole has in ground arith

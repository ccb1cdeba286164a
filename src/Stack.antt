-- ===== src/Stack.antt =====
-- Task stacks and frames (src/resumable/common/stack.rs): their sizes in pages, the calls of the
-- operating system that reserve, commit and release them, and the allocator's blocks.
pub mod Pages
pub mod Memory
pub mod Frames
mod Examples
use cmpth_rs.Prelude.{
  ℕ, ◌+◌, ◌-◌, ◌%◌, ◌^◌, Bool, true, false, ◌&&◌, Option, none, some, ltb, leb, ◌==◌, if◌then◌else◌,
  max, update,
}
use cmpth_rs.Prelude.Bits.{bit_and, complement}

-- What an address can be used for.
pub data Access : Type 0 where
  unmapped reserved committed : Access

abbrev pub Memory : Type 0
Memory = ℕ → Access

-- A layout of the allocator: size and alignment.
pub record Layout : Type 0 where
  pub size : ℕ
  pub align : ℕ

-- The address space, the allocator's live blocks, and the static `PAGE`.
pub record Process : Type 0 where
  pub memory : Memory
  pub blocks : ℕ → Option Layout
  pub page : ℕ

-- The operating system and the allocator: the page size that `sysconf` tells; `mmap` of a reservation,
-- with its address (`none` for `MAP_FAILED`); `mprotect` that commits a range (`none` for an error);
-- `munmap`, with whether it accepts the range; and where `alloc` puts a block (`none` for a null pointer).
pub record Os : Type 0 where
  pub sysconf : ℕ
  pub mmap : Memory → ℕ → Option (ℕ × Memory)
  pub mprotect : Memory → ℕ → ℕ → Option Memory
  pub munmap : Memory → ℕ → ℕ → Bool × Memory
  pub alloc : (ℕ → Option Layout) → Layout → Option ℕ

pub data Outcome (A : Type 0) : Type 0 where
  returned : A → Outcome A
  panicked : Outcome A

pub record HeapStackMem : Type 0 where
  pub ptr : ℕ
  pub size : ℕ

pub record MallocFrameMem : Type 0 where
  pub ptr : ℕ
  pub size : ℕ

pub data StackMem : Type 0 where
  no_stack : StackMem
  heap : ℕ → ℕ → StackMem
  malloc : ℕ → ℕ → StackMem

-- `usize` arithmetic wraps around in a release build.
abbrev pub wrap : ℕ → ℕ
wrap n = n % 2 ^ 64

unfoldable pub round_up : ℕ → ℕ → ℕ
round_up v to = bit_and (wrap (wrap (v + to) + 2 ^ 64 - 1)) (complement (to - 1))

unfoldable pub page_size : Os → Process → ℕ × Process
page_size os p = if p.page == 0 then (os.sysconf, record p { page = os.sysconf }) else (p.page, p)

-- `HeapStack::alloc_stack`, from the reservation of `len` bytes on.
unfoldable pub reserve : Os → ℕ → ℕ → ℕ → Process → Outcome HeapStackMem × Process
reserve os page usable len p = elim (os.mmap p.memory len) [
  | none ↦ (panicked, p)
  | some (base, mapped) ↦ elim (os.mprotect mapped (base + page) usable) [
    | none ↦ (panicked, record p { memory = mapped })
    | some after ↦
        (returned (record { ptr = base + page; size = usable }), record p { memory = after })
  ]
]

-- From the page size on.
unfoldable pub alloc_pages : Os → ℕ → ℕ → Process → Outcome HeapStackMem × Process
unfolding reserve round_up
alloc_pages os page size p =
    let usable = round_up (max size 16) page in reserve os page usable (wrap (page + usable)) p

unfoldable pub alloc_stack : Os → ℕ → Process → Outcome HeapStackMem × Process
unfolding alloc_pages page_size
alloc_stack os size p = let (page, q) = page_size os p in alloc_pages os page size q

-- The answer says whether `munmap` succeeded, which the code asserts.
unfoldable pub dealloc_heap_stack : Os → ℕ → ℕ → Process → Bool × Process
unfolding page_size
dealloc_heap_stack os ptr size p =
    let (page, q) = page_size os p in
    let (ret, m) = os.munmap q.memory (ptr - page) (wrap (page + size)) in
    (ret, record q { memory = m })

-- `Layout::from_size_align` refuses a size that overflows `isize` when rounded up to the alignment.
unfoldable pub malloc_layout : ℕ → Outcome Layout
malloc_layout size =
    if leb (max size 16) (2 ^ 63 - 64)
    then returned (record { size = max size 16; align = 64 })
    else panicked

unfoldable pub alloc_frame : Os → ℕ → Process → Outcome MallocFrameMem × Process
alloc_frame os size p = elim (malloc_layout (max size 16)) [
  | panicked ↦ (panicked, p)
  | returned l ↦ elim (os.alloc p.blocks l) [
    | none ↦ (panicked, p)
    | some ptr ↦ (
      returned (record { ptr = ptr; size = max size 16 }),
      record p { blocks = update p.blocks ptr (some l) },
    )
  ]
]

-- `std::alloc::dealloc`: `none` stands for undefined behaviour, a pointer that is not live or a
-- layout that is not the one it was allocated with.
unfoldable pub free_block : ℕ → Layout → Process → Option Process
free_block ptr l p = elim (p.blocks ptr) [
  | none ↦ none
  | some live ↦
      if live.size == l.size && live.align == l.align
      then some (record p { blocks = update p.blocks ptr none })
      else none
]

unfoldable pub dealloc_frame : ℕ → ℕ → Process → Option Process
dealloc_frame ptr size p = elim (malloc_layout size) [
  | panicked ↦ none
  | returned l ↦ free_block ptr l p
]

unfoldable pub from_heap : HeapStackMem → StackMem
from_heap m = heap m.ptr m.size

unfoldable pub from_malloc : MallocFrameMem → StackMem
from_malloc m = malloc m.ptr m.size

unfoldable pub top : StackMem → ℕ
top no_stack = 0
top (heap ptr size) = ptr + size
top (malloc ptr size) = ptr + size

-- `StackMem::drop`; `none` stands for a call that is refused.
unfoldable pub drop : Os → StackMem → Process → Option Process
drop os no_stack p = some p
drop os (heap ptr size) p =
    let (accepted, q) = dealloc_heap_stack os ptr size p in if accepted then some q else none
drop os (malloc ptr size) p = dealloc_frame ptr size p

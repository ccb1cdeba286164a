-- ===== src/Pool/Block.antt =====
-- `BlockPool` and `ThresholdPool` of src/resumable/common/pool.rs. A payload is named by its
-- header, which stands at a fixed distance.
use cmpth_rs.Prelude.{
  ◌<◌, ◌⊎◌, ℕ, ◌≤◌, ◌≡◌, refl, Bool, true, false, Option, none, some, leb, ltb, ◌&&◌, if◌then◌else◌,
  update, arith, Bool-cases, ap, inl, inr, not, sym, ◌∙◌,
}
use cmpth_rs.Pool.{Lists, node_take, node_give}
use cmpth_rs.Pool.Return.{
  ReturnPool, wrap_fresh, pop_or_wrap, alloc, dealloc, with_lists, free_desc,
}

-- The lists, and which addresses are allocated.
pub record BlockPool : Type 0 where
  pub lists : Lists
  pub live : ℕ → Bool

pub alloc_fresh : ℕ → ℕ → BlockPool → BlockPool
alloc_fresh wk header p = record {
  lists = record p.lists {
    next = update p.lists.next header none;
    alloc_wk = update p.lists.alloc_wk header wk;
  };
  live = update p.live header true;
}

pub take_or_fresh : ℕ → ℕ → BlockPool → Option ℕ × Lists → ℕ × BlockPool
unfolding alloc_fresh
take_or_fresh wk fresh p (some header, lists) = (header, record p { lists = lists })
take_or_fresh wk fresh p (none, lists) = (fresh, alloc_fresh wk fresh (record p { lists = lists }))

pub block_alloc : ℕ → ℕ → BlockPool → ℕ × BlockPool
unfolding take_or_fresh
block_alloc wk fresh p = take_or_fresh wk fresh p (node_take wk p.lists)

pub with_block_lists : BlockPool → Option Lists → Option BlockPool
with_block_lists p none = none
with_block_lists p (some lists) = some (record p { lists = lists })

pub block_dealloc : ℕ → ℕ → ℕ → BlockPool → Option BlockPool
unfolding with_block_lists
block_dealloc threshold cur_wk header p =
    with_block_lists p (node_give threshold cur_wk header p.lists)

pub record Layout : Type 0 where
  pub size : ℕ
  pub align : ℕ

-- Whether a `ThresholdPool` serves `layout` from its inner pool.
unfoldable pub fits : Layout → Layout → Bool
fits threshold layout = leb layout.size threshold.size && leb layout.align threshold.align

-- `ThresholdPool`, its inner pool a `BlockPool`; what does not fit comes from the allocator.
pub threshold_alloc : Layout → ℕ → ℕ → Layout → BlockPool → ℕ × BlockPool
unfolding fits block_alloc
threshold_alloc limit wk fresh layout p =
    if fits limit layout
    then block_alloc wk fresh p
    else (fresh, record p { live = update p.live fresh true })

pub threshold_dealloc : ℕ → Layout → ℕ → ℕ → Layout → BlockPool → Option BlockPool
unfolding fits block_dealloc
threshold_dealloc threshold limit wk ptr layout p =
    if fits limit layout
    then block_dealloc threshold wk ptr p
    else some (record p { live = update p.live ptr false })

-- A `ReturnPool` without its `oversized` flags.
abbrev pub blocks : ReturnPool → BlockPool
blocks p = record { lists = p.lists; live = p.live }

abbrev blocks? : Option ReturnPool → Option BlockPool
blocks? none = none
blocks? (some p) = some (blocks p)

blocks-pop_or_wrap :
    (wk fresh : ℕ) (p : ReturnPool) (got : Option ℕ × Lists)
    → take_or_fresh wk fresh (blocks p) got
      ≡ ((pop_or_wrap wk fresh p got).0, blocks (pop_or_wrap wk fresh p got).1)
unfolding take_or_fresh pop_or_wrap alloc_fresh wrap_fresh
blocks-pop_or_wrap wk fresh p (some header, lists) = refl
blocks-pop_or_wrap wk fresh p (none, lists) = refl

blocks-with_lists :
    (p : ReturnPool) (o : Option Lists) (p' : ReturnPool)
    → with_lists p o ≡ some p'
    → with_block_lists (blocks p) o ≡ some (blocks p')
unfolding with_lists with_block_lists
blocks-with_lists p none p' e = cc
blocks-with_lists p (some lists) p' e = ap blocks? e

-- A threshold pool serves a request whose size and alignment are both within the threshold as a
-- `ReturnPool` whose task size is the threshold: it hands out the same node, and is left with the same
-- lists and live boxes. It serves any other, be it too large or of too strict an alignment, from the
-- allocator and leaves the lists alone.
pub threshold_alloc-alloc :
    (limit : Layout) (wk fresh : ℕ) (layout : Layout) (p : ReturnPool)
    → (layout.size ≤ limit.size
        → layout.align ≤ limit.align
        → threshold_alloc limit wk fresh layout (blocks p) ≡ (
          (alloc limit.size wk layout.size fresh p).0,
          blocks (alloc limit.size wk layout.size fresh p).1,
        ))
      × ((limit.size < layout.size) ⊎ (limit.align < layout.align)
          → threshold_alloc limit wk fresh layout (blocks p)
            ≡ (fresh, record { lists = p.lists; live = update p.live fresh true }))
unfolding threshold_alloc fits alloc block_alloc
threshold_alloc-alloc limit wk fresh layout p = (
  λ le le'.
      let small : ltb limit.size layout.size ≡ false = ground (arith, le) in
      let within : (leb layout.size limit.size && leb layout.align limit.align) ≡ true =
        ground (arith, le, le') in
      rw (small, within) (blocks-pop_or_wrap wk fresh p (node_take wk p.lists)),
  λ over.
      let out : (leb layout.size limit.size && leb layout.align limit.align) ≡ false =
        outside over in
      rw out refl,
)
  where
    outside :
        (limit.size < layout.size) ⊎ (limit.align < layout.align)
        → (leb layout.size limit.size && leb layout.align limit.align) ≡ false
    outside (inl large) = ground (arith, large)
    outside (inr strict) = ground (arith, strict)

-- `dealloc` of a threshold pool does what the `ReturnPool` does with a node whose `oversized` flag
-- says whether its layout does not fit.
pub threshold_dealloc-dealloc :
    (threshold : ℕ) (limit : Layout) (wk ptr : ℕ) (layout : Layout) (p p' : ReturnPool)
    → p.oversized ptr ≡ not (fits limit layout)
    → dealloc threshold wk ptr p ≡ some p'
    → threshold_dealloc threshold limit wk ptr layout (blocks p) ≡ some (blocks p')
unfolding threshold_dealloc dealloc block_dealloc free_desc
threshold_dealloc-dealloc threshold limit wk ptr layout p p' flag e =
    elim (Bool-cases (fits limit layout)) [
      | inl small ↦ rw small (
          blocks-with_lists p _ p' (
            ap
              (λ b.
                if b
                then some (free_desc ptr p)
                else with_lists p (node_give threshold wk ptr p.lists))
              (sym (kept flag small))
            ∙ e))
      | inr large ↦ rw large (
          ap blocks? (
            ap
              (λ b.
                if b
                then some (free_desc ptr p)
                else with_lists p (node_give threshold wk ptr p.lists))
              (sym (freed flag large))
            ∙ e))
    ]
  where
    kept :
        p.oversized ptr ≡ not (fits limit layout)
        → fits limit layout ≡ true
        → p.oversized ptr ≡ false
    kept f s = f ∙ ap not s

    freed :
        p.oversized ptr ≡ not (fits limit layout)
        → fits limit layout ≡ false
        → p.oversized ptr ≡ true
    freed f s = f ∙ ap not s

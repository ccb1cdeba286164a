-- ===== src/Stack/Pages.antt =====
-- Sizes in pages (`round_up` and `page_size` of src/resumable/common/stack.rs).
use native.Mathlib.Nat.{one-le-pow, mul-mod_left, mod-lt, div-add-mod'}
use cmpth_rs.Prelude.{ℕ, ◌+◌, ◌-◌, ◌*◌, ◌/◌, ◌%◌, ◌^◌, ◌≤◌, ◌<◌, ◌≡◌, ◌⊎◌, arith}
use cmpth_rs.Prelude.Bits.{bit_and-complement}
use cmpth_rs.Stack.{Os, Process, round_up, page_size, wrap}

-- The page size that every call sees: a power of two, and the cache is empty or holds it.
pub record IsPaged (os : Os) (k : ℕ) (p : Process) : Type 0 where
  pub small : k < 64
  pub told : os.sysconf ≡ 2 ^ k
  pub cached : (p.page ≡ 0) ⊎ (p.page ≡ 2 ^ k)

pub page_size_lem :
    (os : Os) (k : ℕ) (p : Process)
    → IsPaged os k p
    → page_size os p ≡ (2 ^ k, record p { page = 2 ^ k })
unfolding page_size
page_size_lem os k p v = ground (arith, one-le-pow k 2)

wrap_lt : (n : ℕ) → n < 2 ^ 64 → wrap n ≡ n
wrap_lt n h = omega arith

pub round_up_div :
    (k v : ℕ) → k < 64 → v + 2 ^ k < 2 ^ 64 → round_up v (2 ^ k) ≡ (v + 2 ^ k - 1) / 2 ^ k * 2 ^ k
unfolding round_up
round_up_div k v s h =
    let fits : wrap (wrap (v + 2 ^ k) + 2 ^ 64 - 1) ≡ v + 2 ^ k - 1 =
      omega (arith, one-le-pow k 2) in
    rw fits (bit_and-complement k (v + 2 ^ k - 1) (omega arith) (omega arith))

-- A size rounded up to pages: whole pages, no less than asked for, and less than a page more.
pub record IsRounded (k v r : ℕ) : Type 0 where
  pub pages : r % 2 ^ k ≡ 0
  pub enough : v ≤ r
  pub tight : r < v + 2 ^ k

pub round_up-IsRounded :
    (k v : ℕ) → k < 64 → v + 2 ^ k < 2 ^ 64 → IsRounded k v (round_up v (2 ^ k))
round_up-IsRounded k v s h =
    let x = v + 2 ^ k - 1 in
    let parts : x / 2 ^ k * 2 ^ k + x % 2 ^ k ≡ x = div-add-mod' x (2 ^ k) in
    let low : x % 2 ^ k < 2 ^ k = mod-lt x (one-le-pow k 2 (omega arith)) in
    let pages : x / 2 ^ k * 2 ^ k % 2 ^ k ≡ 0 = mul-mod_left (x / 2 ^ k) (2 ^ k) in
    rw (round_up_div k v s h) (record {
      pages = pages;
      enough = omega (arith, parts, low);
      tight = omega (arith, parts, one-le-pow k 2);
    })

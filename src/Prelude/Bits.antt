-- ===== src/Prelude/Bits.antt =====
-- Masks on `usize` words, as arithmetic: `!`, `&` and `|` as the code uses them on tagged pointers,
-- on states with a flag, and on sizes rounded to pages.
use Prim.Native.Nat
use Prim.Native.Nat.{
  ℕ, zero, suc, ◌+◌, ◌-◌, ◌*◌, ◌/◌, ◌%◌, ◌^◌, ◌≤◌, ◌<◌, digits, bit_and-bitwise, bit_or-bitwise,
}
use mathlib.Core.Path.{◌≡◌, refl, sym, ap, ◌∙◌, subst}
use native.Mathlib.Omega.{arith}
use native.Mathlib.Nat.{pow-suc, one-le-pow, div-add-mod', mod-lt}
pub use Prim.Native.Nat.{bit_and, bit_or}

-- The complement of a 64-bit word.
abbrev pub complement : ℕ → ℕ
complement m = 0xffff_ffff_ffff_ffff - m

-- The digits' meaning does not depend on the fuel.
same_digits :
    (z : ℕ → ℕ) (f : ℕ → ℕ → ℕ) (x y : ℕ) (k n : ℕ)
    → x ≤ k
    → x ≤ n
    → digits z f k x y ≡ digits z f n x y
same_digits z f zero y zero zero p q = refl
same_digits z f zero y zero (suc n) p q = refl
same_digits z f zero y (suc k) zero p q = refl
same_digits z f zero y (suc k) (suc n) p q = refl
same_digits z f (suc x) y zero n p q = absurd (omega arith)
same_digits z f (suc x) y (suc k) zero p q = absurd (omega arith)
same_digits z f (suc x) y (suc k) (suc n) p q =
    ap (λ (t : ℕ). t * 2 + f (suc x % 2) (y % 2))
      (same_digits z f (suc x / 2) (y / 2) k n (omega arith) (omega arith))

pub bit_or_step :
    (x y : ℕ) → bit_or x y ≡ bit_or (x / 2) (y / 2) * 2 + Prim.Native.Nat.max (x % 2) (y % 2)
bit_or_step zero y = simp bit_or-bitwise (omega arith)
bit_or_step (suc x) y =
    let h =
      same_digits (λ t. t) Prim.Native.Nat.max (suc x / 2) (y / 2) x (suc x / 2) (omega arith)
        (omega arith) in
    simp bit_or-bitwise (omega (arith, h))

pub bit_and_step :
    (x y : ℕ) → bit_and x y ≡ bit_and (x / 2) (y / 2) * 2 + Prim.Native.Nat.min (x % 2) (y % 2)
bit_and_step zero y = simp bit_and-bitwise (omega arith)
bit_and_step (suc x) y =
    let h =
      same_digits (λ _. 0) Prim.Native.Nat.min (suc x / 2) (y / 2) x (suc x / 2) (omega arith)
        (omega arith) in
    simp bit_and-bitwise (omega (arith, h))

below : (n x : ℕ) → x ≤ n → bit_or x 0 ≡ x
below n zero h = refl
below zero (suc x) h = absurd (omega arith)
below (suc n) (suc x) h = omega (arith, bit_or_step (suc x) 0, below n (suc x / 2) (omega arith))

none_below : (n x : ℕ) → x ≤ n → bit_and x 0 ≡ 0
none_below n zero h = refl
none_below zero (suc x) h = absurd (omega arith)
none_below (suc n) (suc x) h =
    omega (arith, bit_and_step (suc x) 0, none_below n (suc x / 2) (omega arith))

-- Twice as far to the left.
double : (p k : ℕ) → p * 2 ^ suc k ≡ p * 2 ^ k * 2
double p k = omega (arith, ap (λ (t : ℕ). p * t) (pow-suc 2 k))

-- A tag below the digits of an aligned word is added by `|`.
pub bit_or_tag : (k p t : ℕ) → t < 2 ^ k → bit_or (p * 2 ^ k) t ≡ p * 2 ^ k + t
bit_or_tag zero p t h = ground (arith, below p p)
bit_or_tag (suc k) p t h =
    ground (arith, pow-suc 2 k, bit_or_step (p * 2 ^ suc k) t, double p k, bit_or_tag k p (t / 2))

-- The low digits.
pub bit_and_tag : (k p t : ℕ) → t < 2 ^ k → bit_and (p * 2 ^ k + t) (2 ^ k - 1) ≡ t
bit_and_tag zero p t h =
    let e : 2 ^ 0 - 1 ≡ 0 = omega arith in
    rw e (omega (arith, none_below (p * 2 ^ 0 + t) (p * 2 ^ 0 + t) (omega arith)))
bit_and_tag (suc k) p t h = ground (
  arith,
  one-le-pow k 2,
  pow-suc 2 k,
  bit_and_step (p * 2 ^ suc k + t) (2 ^ suc k - 1),
  double p k,
  bit_and_tag k p (t / 2),
)

pub bit_and_word : (k t : ℕ) → t < 2 ^ k → bit_and t (2 ^ k - 1) ≡ t
bit_and_word k t h =
    let e : 0 * 2 ^ k + t ≡ t = omega arith in
    subst (λ (x : ℕ). bit_and x (2 ^ k - 1) ≡ t) e (bit_and_tag k 0 t h)

-- A mask whose low digits are clear drops the tag.
pub bit_and_high :
    (k p t m : ℕ) → t < 2 ^ k → bit_and (p * 2 ^ k + t) (m * 2 ^ k) ≡ bit_and p m * 2 ^ k
bit_and_high zero p t m h = ground arith
bit_and_high (suc k) p t m h = ground (
  arith,
  pow-suc 2 k,
  bit_and_step (p * 2 ^ suc k + t) (m * 2 ^ suc k),
  double p k,
  double m k,
  double (bit_and p m) k,
  bit_and_high k p (t / 2) m,
)

pub pow-add : (j k : ℕ) → 2 ^ (j + k) ≡ 2 ^ j * 2 ^ k
pow-add j zero = let e : j + 0 ≡ j = omega arith in rw e (omega arith)
pow-add j (suc k) = grind (arith, pow-suc 2 (j + k), pow-suc 2 k, pow-add j k)

pred-mul : (x y : ℕ) → (x - 1) * y ≡ x * y - y
pred-mul zero y = omega arith
pred-mul (suc x) y = grind arith

-- `!(2 ^ k - 1)` has its low digits clear and the others set.
pub complement_mask : (j k : ℕ) → j + k ≡ 64 → complement (2 ^ k - 1) ≡ (2 ^ j - 1) * 2 ^ k
complement_mask j k e =
    let whole : 2 ^ j * 2 ^ k ≡ 2 ^ 64 = sym (pow-add j k) ∙ ap (λ (n : ℕ). 2 ^ n) e in
    omega (arith, pred-mul (2 ^ j) (2 ^ k), one-le-pow j 2, one-le-pow k 2)

-- `x & !(2 ^ k - 1)` drops the low digits of a word.
pub bit_and_aligned :
    (k p t : ℕ)
    → k ≤ 64
    → t < 2 ^ k
    → p * 2 ^ k + t < 2 ^ 64
    → bit_and (p * 2 ^ k + t) (complement (2 ^ k - 1)) ≡ p * 2 ^ k
bit_and_aligned k p t w h l =
    let e : 64 - k + k ≡ 64 = omega arith in
    let whole : 2 ^ (64 - k) * 2 ^ k ≡ 2 ^ 64 =
      sym (pow-add (64 - k) k) ∙ ap (λ (n : ℕ). 2 ^ n) e in
    let short : p < 2 ^ (64 - k) = grind (arith, one-le-pow k 2) in
    rw (complement_mask (64 - k) k e, bit_and_high k p t (2 ^ (64 - k) - 1) h)
      (ap (λ (q : ℕ). q * 2 ^ k) (bit_and_word (64 - k) p short))

pub bit_and-complement :
    (k x : ℕ) → k ≤ 64 → x < 2 ^ 64 → bit_and x (complement (2 ^ k - 1)) ≡ x / 2 ^ k * 2 ^ k
bit_and-complement k x w h =
    let parts : x / 2 ^ k * 2 ^ k + x % 2 ^ k ≡ x = div-add-mod' x (2 ^ k) in
    subst (λ (y : ℕ). bit_and y (complement (2 ^ k - 1)) ≡ x / 2 ^ k * 2 ^ k) parts
      (bit_and_aligned k (x / 2 ^ k) (x % 2 ^ k) w (mod-lt x (one-le-pow k 2 (omega arith)))
        (omega (arith, h, parts)))

pub bit_and_low : (k x : ℕ) → bit_and x (2 ^ k - 1) ≡ x % 2 ^ k
bit_and_low k x =
    subst (λ (y : ℕ). bit_and y (2 ^ k - 1) ≡ x % 2 ^ k) (div-add-mod' x (2 ^ k))
      (bit_and_tag k (x / 2 ^ k) (x % 2 ^ k) (mod-lt x (one-le-pow k 2 (omega arith))))

next_multiple : (p n d t : ℕ) → p < n → t < d → n * d ≡ 2 ^ 64 → p * d + t < 2 ^ 64
next_multiple p n d t h l e = grind arith

-- A tag does not carry an aligned word past the word size.
pub aligned_lt : (k p t : ℕ) → k ≤ 64 → p * 2 ^ k < 2 ^ 64 → t < 2 ^ k → p * 2 ^ k + t < 2 ^ 64
aligned_lt k p t w h l =
    let e : 64 - k + k ≡ 64 = omega arith in
    let whole : 2 ^ (64 - k) * 2 ^ k ≡ 2 ^ 64 =
      sym (pow-add (64 - k) k) ∙ ap (λ (n : ℕ). 2 ^ n) e in
    let short : p < 2 ^ (64 - k) = grind (arith, one-le-pow k 2) in
    next_multiple p (2 ^ (64 - k)) (2 ^ k) t short l whole

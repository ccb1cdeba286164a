-- ===== src/Steal.antt =====
-- src/resumable/common/steal.rs: the steal policies. What a victim's `try_steal` answers is an
-- argument, a function of the victim; the victims asked are listed in order.
mod Cycle
pub mod Means
pub mod Sweep
mod Random
mod Examples
use Prim.Native.Nat.{bit_xor, bit_or}
use cmpth_rs.Prelude.{
  ℕ, zero, suc, ◌+◌, ◌-◌, ◌*◌, ◌/◌, ◌%◌, ◌^◌, ◌≤◌, Bool, true, false, List, [], ◌∷◌, leb, ◌==◌,
  if◌then◌else◌,
}
use cmpth_rs.RunQueue.Contract.{Steal, success, empty, retry}

abbrev pub w64 : ℕ
w64 = 18446744073709551616

abbrev pub wrapping_add : ℕ → ℕ → ℕ
wrapping_add a b = (a + b) % w64

abbrev pub wrapping_mul : ℕ → ℕ → ℕ
wrapping_mul a b = a * b % w64

abbrev pub log : {T : Type 0} → ℕ → Steal T × List ℕ → Steal T × List ℕ
log v (r, vs) = (r, v ∷ vs)

-- After victim `v` was asked; `rest` is the rest of the loop, given `saw_retry`.
abbrev pub after : {T : Type 0} → ℕ → Steal T → Bool → (Bool → Steal T × List ℕ) → Steal T × List ℕ
after v (success c) saw_retry rest = (success c, v ∷ [])
after v retry saw_retry rest = log v (rest true)
after v empty saw_retry rest = log v (rest saw_retry)

module _ {T : Type 0} (answers : ℕ → Steal T) (start me n : ℕ) where
  -- The loop of `sweep`: `left` victims are left, from the `i`-th on.
  unfoldable pub sweep_from : (left i : ℕ) → Bool → Steal T × List ℕ
  sweep_from zero i saw_retry = (if saw_retry then retry else empty, [])
  sweep_from (suc left) i saw_retry =
      let victim = wrapping_add start i % n in
      let rest = sweep_from left (suc i) in
      if victim == me then rest saw_retry else after victim (answers victim) saw_retry rest

  unfoldable pub sweep : Steal T × List ℕ
  unfolding sweep_from
  sweep = sweep_from n 0 false

-- `seed`, `next`: the number drawn and the new state.
pub seed : ℕ → ℕ
seed me =
    let a = wrapping_mul (wrapping_add me 1) 11400714819323198485 in
    let b = wrapping_mul (bit_xor a (a / 2 ^ 30)) 13787848793156543929 in
    let c = wrapping_mul (bit_xor b (b / 2 ^ 27)) 10723151780598845931 in
    bit_or (bit_xor c (c / 2 ^ 31)) 1

unfoldable pub next : ℕ → ℕ × ℕ
next state =
    let x = bit_xor state (state / 2 ^ 12) in
    let y = bit_xor x (x * 2 ^ 25 % w64) in
    let z = bit_xor y (y / 2 ^ 27) in (wrapping_mul z 2685821657736338717, z)

-- `SweepSteal`, `RandomSteal` and `RandomSweepSteal`: the initial state, and `try_steal` with the
-- new state.
pub sweep_new_state : ℕ → ℕ
sweep_new_state me = wrapping_add (wrapping_mul me 2654435769) 1

module _ {T : Type 0} (answers : ℕ → Steal T) (state me n : ℕ) where
  pub sweep_try_steal : (Steal T × List ℕ) × ℕ
  unfolding sweep
  sweep_try_steal = (sweep answers state me n, wrapping_add state 1)

  unfoldable pub random_sweep_try_steal : (Steal T × List ℕ) × ℕ
  unfolding sweep next
  random_sweep_try_steal = (sweep answers ((next state).0 % n) me n, (next state).1)

-- The victim for the number drawn: every worker but `me` counts.
pub random_victim : ℕ → ℕ → ℕ → ℕ
random_victim drawn me n = let v = drawn % (n - 1) in if leb me v then v + 1 else v

pub random_try_steal : {T : Type 0} → (ℕ → Steal T) → ℕ → ℕ → ℕ → (Steal T × List ℕ) × ℕ
unfolding next random_victim
random_try_steal answers state me n =
    let v = random_victim (next state).0 me n in ((answers v, v ∷ []), (next state).1)

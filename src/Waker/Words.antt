-- ===== src/Waker/Words.antt =====
-- Every turn on a wake state keeps the flag and the other bits (src/resumable/common/waker.rs).

use cmpth_rs.Prelude.{
  ℕ, ◌+◌, ◌-◌, ◌*◌, ◌/◌, ◌%◌, ◌^◌, ◌<◌, ◌≡◌, Bool, true, false, arith, ◌==◌, if◌then◌else◌,
}
use cmpth_rs.Prelude.Bits.{bit_and, bit_or_tag, bit_and_low, bit_and-complement}
use cmpth_rs.Waker.{
  Choice, answer, exchange, WakeOutcome, set_notified, claimed_parked, no_op, with_state,
  park_choice, wake_choice, note_word, ws_polling, ws_parked, ws_notified, state_mask,
}

-- The state in a word.
abbrev pub state : ℕ → ℕ
state refs = refs % 4

pub state_lem : (refs : ℕ) → bit_and refs state_mask ≡ state refs
state_lem refs = bit_and_low 2 refs

pub with_state-add : (refs s : ℕ) → refs < 2 ^ 64 → s < 4 → with_state refs s ≡ refs / 4 * 4 + s
unfolding with_state
with_state-add refs s h t =
    rw (bit_and-complement 2 refs (omega arith) h) (bit_or_tag 2 (refs / 4) s (omega arith))

pub note_word-add : (old : ℕ) → note_word old ≡ 2 ^ 63 + state old
unfolding note_word
note_word-add old = rw (state_lem old) (bit_or_tag 2 (2 ^ 61) (old % 4) (omega arith))

-- What the two loops do to a word, by its state.
abbrev pub park_table : ℕ → Choice Bool
park_table refs =
    if state refs == ws_notified
    then exchange (refs - 2) false
    else exchange (refs - state refs + 2) true

abbrev pub wake_table : ℕ → Choice WakeOutcome
wake_table refs =
    if state refs == ws_polling
    then exchange (refs + 2) set_notified
    else if state refs == ws_parked
    then exchange (refs - 1) claimed_parked
    else answer no_op

-- For every 64-bit word, by the state in its two low bits: a wake exchanges polling for notified and
-- parked for polling, claiming the task, and leaves the others alone, without an exchange; a worker that
-- parks exchanges notified for polling, not parking, and the others for parked. The other bits stay, and
-- the case that the code calls unreachable does not occur.
pub wake_choice-table :
    (refs : ℕ)
    → refs < 2 ^ 64
    → (wake_choice refs ≡ wake_table refs) × (park_choice refs ≡ park_table refs)
unfolding wake_choice park_choice
wake_choice-table refs h = (
  rw (state_lem refs) (
      ground (arith, with_state-add refs 3 h (omega arith), with_state-add refs 1 h (omega arith))),
  rw (state_lem refs) (
      ground (arith, with_state-add refs 1 h (omega arith), with_state-add refs 2 h (omega arith))),
)

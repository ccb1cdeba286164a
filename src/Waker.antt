-- ===== src/Waker.antt =====
-- The wake state of a polled task: its encoding and the loops on it (src/resumable/common/waker.rs and
-- the waker operations of src/resumable/stackless/desc.rs).
pub mod Words
pub mod Polling
mod Examples
use cmpth_rs.Prelude.{
  ℕ, ◌+◌, ◌*◌, ◌^◌, Bool, true, false, not, List, [], ◌∷◌, Option, none, some, ◌==◌, if◌then◌else◌,
}
use cmpth_rs.Prelude.Bits.{bit_and, bit_or, complement}

abbrev pub ws_idle : ℕ
ws_idle = 0

abbrev pub ws_polling : ℕ
ws_polling = 1

abbrev pub ws_parked : ℕ
ws_parked = 2

abbrev pub ws_notified : ℕ
ws_notified = 3

abbrev pub ever_shared : ℕ
ever_shared = 2 ^ 63

abbrev pub state_mask : ℕ
state_mask = 3

pub data WakeOutcome : Type 0 where
  set_notified claimed_parked no_op : WakeOutcome

unfoldable pub mark_polling : ℕ → ℕ
mark_polling word = ws_polling

unfoldable pub mark_idle : ℕ → ℕ
mark_idle word = ws_idle

-- A turn of a loop: what the loaded word makes it do. It answers at once, or it answers if it can
-- exchange the word for another, or it is in a state that the code calls unreachable.
pub data Choice (A : Type 0) : Type 0 where
  answer : A → Choice A
  exchange : ℕ → A → Choice A
  unreachable : Choice A

-- `(refs & !STATE_MASK) | s`
unfoldable pub with_state : ℕ → ℕ → ℕ
with_state refs s = bit_or (bit_and refs (complement state_mask)) s

unfoldable pub park_choice : ℕ → Choice Bool
park_choice refs =
    if bit_and refs state_mask == ws_notified
    then exchange (with_state refs ws_polling) false
    else exchange (with_state refs ws_parked) true

unfoldable pub wake_choice : ℕ → Choice WakeOutcome
wake_choice refs =
    let s = bit_and refs state_mask in
    if s == ws_polling
    then exchange (with_state refs ws_notified) set_notified
    else if s == ws_parked
    then exchange (with_state refs ws_polling) claimed_parked
    else if s == ws_notified
    then answer no_op
    else if s == ws_idle
    then answer no_op
    else unreachable

-- `is_waker_shared` and the exchange of `note_waker_shared`.
unfoldable pub is_waker_shared : ℕ → Bool
is_waker_shared refs = not (bit_and refs ever_shared == 0)

unfoldable pub note_word : ℕ → ℕ
note_word old = bit_or ever_shared (bit_and old state_mask)

-- A loop of `compare_exchange`, against the words that its turns load and meet at their exchanges.
-- `none` says that it still runs, or has met the unreachable case.
module _ {A : Type 0} (choice : ℕ → Choice A) where
  unfoldable pub cas_loop : List (ℕ × ℕ) → Option A
  cas_loop [] = none
  cas_loop ((loaded, current) ∷ met) = elim (choice loaded) [
    | answer a ↦ some a
    | exchange new a ↦ (let rest = cas_loop met in if current == loaded then some a else rest)
    | unreachable ↦ none
  ]

unfoldable pub decide_park : List (ℕ × ℕ) → Option Bool
unfolding cas_loop park_choice
decide_park met = cas_loop park_choice met

unfoldable pub park_after_poll : List (ℕ × ℕ) → Option Bool
unfolding cas_loop park_choice
park_after_poll met = cas_loop park_choice met

unfoldable pub try_wake_state : List (ℕ × ℕ) → Option WakeOutcome
unfolding cas_loop wake_choice
try_wake_state met = cas_loop wake_choice met

-- `try_claim_parked`: only the caller that claims the parked task gets its token.
unfoldable pub claimed : WakeOutcome → Bool
claimed set_notified = false
claimed claimed_parked = true
claimed no_op = false

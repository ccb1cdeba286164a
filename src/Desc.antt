-- ===== src/Desc.antt =====
-- The join protocol of a task's descriptor: the word `join_state`, its decoding, and the operations on
-- it of the exiting task and of the join handle (src/resumable/common/desc.rs and
-- src/resumable/stackless/desc.rs).
pub mod Word
pub mod Loop
pub mod Join
mod Examples
use cmpth_rs.Prelude.{
  ℕ, ◌+◌, ◌≡◌, Bool, true, false, not, ◌&&◌, List, [], ◌∷◌, Option, none, some, ◌==◌, if◌then◌else◌,
}
use cmpth_rs.Prelude.Bits.{bit_and, bit_or, complement}

abbrev pub js_running : ℕ
js_running = 0

abbrev pub js_finished : ℕ
js_finished = 1

abbrev pub js_detached : ℕ
js_detached = 2

abbrev pub js_async_tag : ℕ
js_async_tag = 1

abbrev pub js_async_joiner_tag : ℕ
js_async_joiner_tag = 2

pub data JoinState : Type 0 where
  running finished detached : JoinState
  sync_joiner async_waker async_joiner : ℕ → JoinState

-- The arms of the `match` behind the three constants.
unfoldable pub decode_pointer : ℕ → JoinState
decode_pointer v =
    if not (bit_and v js_async_tag == 0)
    then async_waker (bit_and v (complement js_async_tag))
    else if not (bit_and v js_async_joiner_tag == 0)
    then async_joiner (bit_and v (complement js_async_joiner_tag))
    else sync_joiner v

unfoldable pub decode_join_state : ℕ → JoinState
unfolding decode_pointer
decode_join_state v =
    if v == js_running
    then running
    else if v == js_finished
    then finished
    else if v == js_detached
    then detached
    else decode_pointer v

-- What an operation does beside its access to the word: resume a suspended joiner, wake or drop a boxed
-- waker, box one, give the descriptor back.
pub data Effect : Type 0 where
  resume wake drop_waker box_waker : ℕ → Effect
  reclaim : Effect

unfoldable pub is_finished : ℕ → Bool
is_finished word = word == js_finished

unfoldable pub is_abandoned : ℕ → Bool
is_abandoned word = word == js_detached

-- The exit of a task. `claims` says which suspended async joiners `try_claim_async_joiner` claims;
-- `none` is the panic of a double exit. The word after it is `js_finished`.
unfoldable pub settle : (ℕ → Bool) → JoinState → Option (List Effect)
settle claims running = some []
settle claims (sync_joiner j) = some (resume j ∷ [])
settle claims (async_waker w) = some (wake w ∷ [])
settle claims (async_joiner j) = some (if claims j then resume j ∷ [] else [])
settle claims detached = some (reclaim ∷ [])
settle claims finished = none

unfoldable pub finish_and_settle : (ℕ → Bool) → ℕ → Option (List Effect) × ℕ
unfolding settle
finish_and_settle claims word = (settle claims (decode_join_state word), js_finished)

unfoldable pub commit_finished : ℕ → ℕ
commit_finished word = js_finished

unfoldable pub handoff_target : JoinState → Option ℕ
handoff_target (sync_joiner j) = some j
handoff_target running = none
handoff_target finished = none
handoff_target detached = none
handoff_target (async_waker w) = none
handoff_target (async_joiner j) = none

unfoldable pub try_take_handoff_target : ℕ → Option ℕ
unfolding handoff_target
try_take_handoff_target word = handoff_target (decode_join_state word)

-- The four calls of a handle: abandon it, register a suspended task as the sync joiner or as the async
-- joiner, or register a waker, in the box at an address.
pub data Call : Type 0 where
  abandon : Call
  join join_async await : ℕ → Call

-- The word that a call stores.
unfoldable pub new_word : Call → ℕ
new_word abandon = js_detached
new_word (join j) = j
new_word (join_async j) = bit_or j js_async_joiner_tag
new_word (await w) = bit_or w js_async_tag

-- A turn of a call's loop: the task had finished, the exchange succeeded, or it failed and showed
-- another word.
pub data Turn : Type 0 where
  found_finished stored : List Effect → Turn
  again : ℕ → Turn

-- A registered waker that is replaced is dropped.
unfoldable pub replaced : JoinState → List Effect
replaced (async_waker w) = drop_waker w ∷ []
replaced running = []
replaced finished = []
replaced detached = []
replaced (sync_joiner j) = []
replaced (async_joiner j) = []

-- A box that was not stored is dropped.
unfoldable pub unused_box : Call → List Effect
unused_box (await w) = drop_waker w ∷ []
unused_box abandon = []
unused_box (join j) = []
unused_box (join_async j) = []

-- One turn: `compare_exchange_weak` succeeds if the word is the expected one and the exchange does not
-- fail spuriously.
unfoldable pub turn : Call → ℕ → ℕ → Bool → Turn
unfolding replaced unused_box
turn call cur word spurious =
    if cur == js_finished
    then found_finished (unused_box call)
    else if word == cur && not spurious
    then stored (replaced (decode_join_state cur))
    else again word

-- The word after the turn.
unfoldable pub turn_word : Call → ℕ → ℕ → Bool → ℕ
unfolding new_word
turn_word call cur word spurious =
    if cur == js_finished then word else if word == cur && not spurious then new_word call else word

-- The loop, against the words and the spurious failures that its turns meet; `again` at the end of the
-- list says that it still runs.
unfoldable pub turns : Call → ℕ → List (ℕ × Bool) → Turn
turns call cur [] = again cur
turns call cur ((word, spurious) ∷ met) = elim (turn call cur word spurious) [
  | again next ↦ turns call next met
  | stored e ↦ stored e
  | found_finished e ↦ found_finished e
]

-- `try_abandon`: whether the handle now owns the finished task.
unfoldable pub try_abandon : ℕ → List (ℕ × Bool) → Option (Bool × List Effect)
unfolding turns
try_abandon first met = elim (turns abandon first met) [
  | found_finished e ↦ some (true, e)
  | stored e ↦ some (false, e)
  | again cur ↦ none
]

-- The result of a registration: `err` gives the joiner back.
pub data Registered : Type 0 where
  ok : Registered
  err : ℕ → Registered

unfoldable pub try_register_joiner : ℕ → ℕ → List (ℕ × Bool) → Option (Registered × List Effect)
unfolding turns
try_register_joiner joiner first met = elim (turns (join joiner) first met) [
  | found_finished e ↦ some (err joiner, e)
  | stored e ↦ some (ok, e)
  | again cur ↦ none
]

unfoldable pub try_register_async_joiner :
    ℕ → ℕ → List (ℕ × Bool) → Option (Registered × List Effect)
unfolding turns
try_register_async_joiner joiner first met = elim (turns (join_async joiner) first met) [
  | found_finished e ↦ some (err joiner, e)
  | stored e ↦ some (ok, e)
  | again cur ↦ none
]

-- The waker is boxed, at the address `box`, only if the first load does not find the task finished.
unfoldable pub try_register_waker : ℕ → ℕ → List (ℕ × Bool) → Option (Bool × List Effect)
unfolding turns
try_register_waker box first met =
    if first == js_finished then some (false, []) else elim (turns (await box) first met) [
      | found_finished e ↦ some (false, box_waker box ∷ e)
      | stored e ↦ some (true, box_waker box ∷ e)
      | again cur ↦ none
    ]

-- ===== src/Desc/Word.antt =====
-- The states that the word of a descriptor stands for (src/resumable/common/desc.rs).
use cmpth_rs.Prelude.{ℕ, ◌+◌, ◌*◌, ◌/◌, ◌%◌, ◌^◌, ◌<◌, ◌≡◌, ◌≢◌, refl, arith, subst}
use cmpth_rs.Prelude.Bits.{
  bit_and, bit_or, bit_and_step, bit_or_tag, bit_and_low, bit_and-complement, complement,
}
use cmpth_rs.Desc.{
  JoinState, running, finished, detached, sync_joiner, async_waker, async_joiner, decode_pointer,
  decode_join_state, js_finished, js_detached, Call, abandon, join, join_async, await, new_word,
}

-- A pointer that can carry the two tags: not null, a multiple of 4, in a 64-bit word.
pub record IsPointer (p : ℕ) : Type 0 where
  pub some_place : p ≢ 0
  pub aligned : p % 4 ≡ 0
  pub fits : p < 2 ^ 64

-- The word that stands for a state.
unfoldable pub encode : JoinState → ℕ
encode running = 0
encode finished = 1
encode detached = 2
encode (sync_joiner j) = j
encode (async_waker w) = w + 1
encode (async_joiner j) = j + 2

abbrev pub IsState : JoinState → Type 0
IsState running = Unit {0}
IsState finished = Unit {0}
IsState detached = Unit {0}
IsState (sync_joiner j) = IsPointer j
IsState (async_waker w) = IsPointer w
IsState (async_joiner j) = IsPointer j

bit_and_two : (v : ℕ) → bit_and v 2 ≡ v / 2 % 2 * 2
bit_and_two v = omega (arith, bit_and_step v 2, bit_and_low 1 (v / 2))

bit_and_one : (v : ℕ) → bit_and v 1 ≡ v % 2
bit_and_one v = bit_and_low 1 v

drop_one : (v : ℕ) → v < 2 ^ 64 → bit_and v (complement 1) ≡ v / 2 * 2
drop_one v h = bit_and-complement 1 v (omega arith) h

drop_two : (v : ℕ) → v < 2 ^ 64 → bit_and v (complement 2) ≡ v / 4 * 4 + v % 2
drop_two v h = omega (
  arith,
  bit_and_step v (complement 2),
  bit_and_step (v / 2) 0x7fff_ffff_ffff_fffe,
  bit_and_low 62 (v / 2 / 2),
)

tag_one : (p : ℕ) → IsPointer p → bit_or p 1 ≡ p + 1
tag_one p h =
    let e : p / 4 * 2 ^ 2 ≡ p = omega arith in
    subst (λ (q : ℕ). bit_or q 1 ≡ q + 1) e (bit_or_tag 2 (p / 4) 1 (omega arith))

tag_two : (p : ℕ) → IsPointer p → bit_or p 2 ≡ p + 2
tag_two p h =
    let e : p / 4 * 2 ^ 2 ≡ p = omega arith in
    subst (λ (q : ℕ). bit_or q 2 ≡ q + 2) e (bit_or_tag 2 (p / 4) 2 (omega arith))

pub decode-encode : (s : JoinState) → IsState s → decode_join_state (encode s) ≡ s
unfolding decode_join_state encode decode_pointer
decode-encode running h = refl
decode-encode finished h = refl
decode-encode detached h = refl
decode-encode (sync_joiner j) h = ground (arith, bit_and_one j, bit_and_two j)
decode-encode (async_waker w) h = ground (arith, bit_and_one (w + 1), drop_one (w + 1))
decode-encode (async_joiner j) h =
    ground (arith, bit_and_one (j + 2), bit_and_two (j + 2), drop_two (j + 2))

abbrev pub IsCall : Call → Type 0
IsCall abandon = Unit {0}
IsCall (join j) = IsPointer j
IsCall (join_async j) = IsPointer j
IsCall (await w) = IsPointer w

-- The state that a call stores.
abbrev pub call_state : Call → JoinState
call_state abandon = detached
call_state (join j) = sync_joiner j
call_state (join_async j) = async_joiner j
call_state (await w) = async_waker w

pub call_state-IsState : (call : Call) → IsCall call → IsState (call_state call)
call_state-IsState abandon h = h
call_state-IsState (join j) h = h
call_state-IsState (join_async j) h = h
call_state-IsState (await w) h = h

pub new_word-encode : (call : Call) → IsCall call → new_word call ≡ encode (call_state call)
unfolding new_word encode
new_word-encode abandon h = refl
new_word-encode (join j) h = refl
new_word-encode (join_async j) h = tag_two j h
new_word-encode (await w) h = tag_one w h

-- What a call stores is what `decode_join_state` reads: for aligned pointers that are not null, the
-- word of an abandoned task decodes to detached, the pointer of a sync joiner to that joiner, and the
-- tagged pointers of an async joiner and of a boxed waker to an async joiner and a waker at the pointers
-- that were tagged.
decode-new_word : (call : Call) → IsCall call → decode_join_state (new_word call) ≡ call_state call
decode-new_word call h =
    rw (new_word-encode call h) (decode-encode (call_state call) (call_state-IsState call h))

pub encode_finished : (s : JoinState) → IsState s → encode s ≡ js_finished → s ≡ finished
unfolding encode
encode_finished running h e = absurd (omega (arith, e))
encode_finished finished h e = refl
encode_finished detached h e = absurd (omega (arith, e))
encode_finished (sync_joiner j) h e = absurd (omega (arith, e))
encode_finished (async_waker w) h e = absurd (omega (arith, e))
encode_finished (async_joiner j) h e = absurd (omega (arith, e))

pub encode_detached : (s : JoinState) → IsState s → encode s ≡ js_detached → s ≡ detached
unfolding encode
encode_detached running h e = absurd (omega (arith, e))
encode_detached finished h e = absurd (omega (arith, e))
encode_detached detached h e = refl
encode_detached (sync_joiner j) h e = absurd (omega (arith, e))
encode_detached (async_waker w) h e = absurd (omega (arith, e))
encode_detached (async_joiner j) h e = absurd (omega (arith, e))

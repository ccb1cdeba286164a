-- ===== src/Desc/Examples.antt =====
-- Words, loops and whole runs of the join protocol on small inputs (src/resumable/common/desc.rs and
-- src/resumable/stackless/desc.rs).
use cmpth_rs.Prelude.{◌≡◌, refl, true, false, [], ◌∷◌, some, arith}
use cmpth_rs.Desc.{
  wake, drop_waker, box_waker, reclaim, await, decode_join_state, decode_pointer, new_word, turn,
  turn_word, replaced, unused_box, settle, finish_and_settle, is_finished, try_register_waker,
  try_register_joiner, err,
}
use cmpth_rs.Desc.Word.{IsPointer}
use cmpth_rs.Desc.Join.{
  System, spawned, start, accepted, after_turn, turn_effects, no_waiter, executing, settled, taken,
  idle, waker, Reach, here, next, call, try, ready, swap, look, take,
}
use cmpth_rs.Desc.Join.Safety.{
  IsReturned, reclaimed_once, IsTold, waiters-IsTold, IsUnboxed, boxes_freed,
}

ptr : IsPointer 16
ptr = omega arith

-- A registration that comes too late gives the joiner back.
too_late : try_register_joiner 16 0 ((1, false) ∷ (1, false) ∷ []) ≡ some (err 16, [])
unfolding try_register_joiner turn unused_box
too_late = refl

-- Its box is dropped if the task finishes between the first load and the exchange.
unused :
    try_register_waker 16 0 ((1, false) ∷ (1, false) ∷ [])
    ≡ some (false, box_waker 16 ∷ drop_waker 16 ∷ [])
unfolding try_register_waker turn unused_box
unused = refl

abbrev final : System
final = record {
  word = 1;
  exit = settled;
  handle = taken;
  log = reclaim ∷ wake 16 ∷ box_waker 16 ∷ [];
}

-- The handle is polled, and the task returns.
abbrev exited : System
exited = record {
  word = 1;
  exit = settled;
  handle = idle (waker 16);
  log = wake 16 ∷ box_waker 16 ∷ [];
}

polled_before : Reach (λ j. false) (spawned true) exited
unfolding spawned start accepted after_turn turn_effects turn turn_word new_word replaced settle
    finish_and_settle decode_join_state decode_pointer is_finished
polled_before =
    let r1 = next here (call 0 executing no_waiter [] (await 16) ptr) in
    let r2 = next r1 (try 0 executing no_waiter (box_waker 16 ∷ []) (await 16) 0 false) in
    let r3 = next r2 (ready 17 (idle (waker 16)) (box_waker 16 ∷ [])) in
    next r3 (swap 17 (idle (waker 16)) (box_waker 16 ∷ []) (wake 16 ∷ []) refl)

-- Then the handle is polled again.
polled_twice : Reach (λ j. false) (spawned true) final
unfolding spawned start accepted after_turn turn_effects turn turn_word new_word replaced settle
    finish_and_settle decode_join_state decode_pointer is_finished
polled_twice =
    let r5 = next polled_before (look 1 settled (waker 16) (wake 16 ∷ box_waker 16 ∷ []) refl) in
    next r5 (take 1 settled (wake 16 ∷ box_waker 16 ∷ []))

reclaimed_once_example : IsReturned final
reclaimed_once_example = reclaimed_once true polled_twice

waiters-IsTold_example : IsTold (λ j. false) exited
waiters-IsTold_example = waiters-IsTold true polled_before

boxes_freed_example : IsUnboxed final
boxes_freed_example = boxes_freed true polled_twice

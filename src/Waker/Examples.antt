-- ===== src/Waker/Examples.antt =====
-- A wake during a poll (src/resumable/common/waker.rs).
use cmpth_rs.Prelude.{◌≡◌, refl, true, false, ◌∷◌, [], some, update, ℕ_discrete, ◌+◌, ◌^◌}
use cmpth_rs.Waker.{
  wake_choice, with_state, mark_polling, try_wake_state, claimed_parked, claimed, is_waker_shared,
  note_word,
}
use cmpth_rs.Waker.Polling.{
  System, Poller, Waking, popped, running, pending, looking, waking, wake_look, wake_try, Reach,
  here, next, pop, begin, pend, call, look, try,
}
use cmpth_rs.Waker.Polling.Safety.{IsAlone, polled_once, IsServed, no_lost_wake}

-- The first exchange is lost to a waker that marks itself shared, the second claims the task.
second_try : try_wake_state ((2, 2 ^ 63 + 2) ∷ (2 ^ 63 + 2, 2 ^ 63 + 2) ∷ []) ≡ some claimed_parked
unfolding try_wake_state wake_choice with_state
second_try = refl

-- The next poll clears the flag.
flag_is_lost : is_waker_shared (mark_polling (note_word 1)) ≡ false
unfolding is_waker_shared mark_polling note_word
flag_is_lost = refl

-- Thread 5 wakes the task while worker 0 polls it.
abbrev woken : System
woken = record {
  word = 3;
  queued = 0;
  signal = true;
  finished = false;
  pollers = update (update (update (λ _. Poller.away) 0 popped) 0 running) 0 pending;
  wakers = update (update (update (λ _. Waking.away) 5 looking) 5 (waking 1)) 5 Waking.away;
}

woken_in_poll : Reach woken
unfolding mark_polling wake_look wake_try wake_choice with_state claimed ℕ_discrete
woken_in_poll =
    let r1 = next here (pop 0 0 refl refl) in
    let r2 = next r1 (begin 0 refl) in
    let r3 = next r2 (call 5 refl) in
    let r4 = next r3 (look 5 refl) in let r5 = next r4 (pend 0 refl) in next r5 (try 5 1 refl)

polled_once_example : IsAlone woken
polled_once_example = polled_once woken_in_poll

no_lost_wake_example : IsServed woken
no_lost_wake_example = no_lost_wake woken_in_poll refl

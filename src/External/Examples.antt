-- ===== src/External/Examples.antt =====
-- The external queue at work.
use cmpth_rs.Prelude.{
  ℕ, ◌≡◌, ◌≢◌, refl, true, false, none, some, [], ◌∷◌, update, ℕ_discrete, update_each,
}
use cmpth_rs.External.{
  System, idle, pushed, flagged, checked, clearing, push, set_flag, see_flag, pop_last, Reach,
  start, later,
}
use cmpth_rs.External.Safety.{flag_shows}

-- Thread 0 pushed 9 and set the flag.
abbrev shown : System
shown = record {
  queue = record { non_empty = true; inner = 9 ∷ []; lock = none; hook = false; wakes = 0 };
  pc = update (update (λ _. idle) 0 pushed) 0 flagged;
}

shown-Reach : Reach shown
unfolding ℕ_discrete
shown-Reach = later (later start (push 0 9 refl refl)) (set_flag 0 refl)

nobody_pushes : (i : ℕ) → shown.pc i ≢ pushed
nobody_pushes =
    update_each (λ _ p. p ≢ pushed) (update (λ _. idle) 0 pushed) 0 (λ e. cc)
      (λ j ne.
        update_each (λ k p. 0 ≢ k → p ≢ pushed) (λ _. idle) 0 (λ z e. z refl) (λ k _ _ e. cc) j ne)

flag_shows_example : shown.queue.non_empty ≡ true
flag_shows_example = flag_shows shown-Reach nobody_pushes (λ e. cc)

-- Thread 1 took it, and is about to clear the flag.
abbrev clearing_one : System
clearing_one = record {
  queue = record { non_empty = true; inner = []; lock = some 1; hook = false; wakes = 0 };
  pc = update (update shown.pc 1 checked) 1 (clearing (some 9));
}

clearing_one-Reach : Reach clearing_one
unfolding ℕ_discrete
clearing_one-Reach = later (later shown-Reach (see_flag 1 refl refl)) (pop_last 1 9 refl refl refl)

-- ===== src/Desc/Loop.antt =====
-- The loops of the handle's calls end (`try_abandon` and `try_register_joiner` of
-- src/resumable/common/desc.rs, `try_register_async_joiner` and `try_register_waker` of
-- src/resumable/stackless/desc.rs).
use cmpth_rs.Prelude.{ℕ, ◌+◌, ◌≡◌, ◌≢◌, ◌⊎◌, Bool, List, [], ◌∷◌, ◌==◌, if◌then◌else◌}
use cmpth_rs.Desc.{
  Effect, drop_waker, await, async_waker, Call, Turn, found_finished, stored, again,
  decode_join_state, js_finished,
}

-- How often the word changes between the first load and the last turn.
abbrev pub changes : ℕ → List (ℕ × Bool) → ℕ
changes cur [] = 0
changes cur ((word, spurious) ∷ met) = (if word == cur then 0 else 1) + changes word met

abbrev pub failures : List (ℕ × Bool) → ℕ
failures [] = 0
failures ((word, spurious) ∷ met) = (if spurious then 1 else 0) + failures met

-- The word `w` was there at the first load or at a turn.
abbrev pub Seen : ℕ → List (ℕ × Bool) → ℕ → Type 0
Seen cur [] w = cur ≡ w
Seen cur ((word, spurious) ∷ met) w = (cur ≡ w) ⊎ Seen word met w

-- The effects are the drop of the waker at `w` if `P w`, and nothing if there is none.
abbrev pub DropsOnly : (ℕ → Type 0) → List Effect → Type 0
DropsOnly P effects =
    ((w : ℕ) → P w → effects ≡ drop_waker w ∷ []) × (((w : ℕ) → ¬ P w) → effects ≡ [])

-- How a call that has returned came to its answer.
abbrev pub Returns : Call → ℕ → List (ℕ × Bool) → Turn → Type 0
Returns call cur met (found_finished e) =
    Seen cur met js_finished × DropsOnly (λ w. call ≡ await w) e
Returns call cur met (stored e) =
    (word : ℕ) × Seen cur met word
    × (word ≢ js_finished)
    × DropsOnly (λ w. decode_join_state word ≡ async_waker w) e
Returns call cur met (again w) = ⊥

module _ (call : Call) (cur word : ℕ) (spurious : Bool) (met : List (ℕ × Bool)) where
  abbrev all : List (ℕ × Bool)
  all = (word, spurious) ∷ met

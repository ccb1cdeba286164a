-- ===== src/Sync/Combining/Examples.antt =====
-- The delegator at work: thread 0 holds it and its own call is deferred, thread 1 waits with a request.
use cmpth_rs.Prelude.{
  ℕ, ◌≡◌, ◌≢◌, refl, ◌⊎◌, inl, Bool, true, false, List, [], ◌∷◌, Option, none, some, update,
  ℕ_discrete,
}
use cmpth_rs.Sync.Combining.{
  outside, linking, asleep, holding, fault, free, draining, clash, System, enter_free, enter_busy,
  link, run_own, Reach, start, later, claim, is_alive,
}
use cmpth_rs.Sync.Combining.Safety.{delegation_sound, IsPending, ran-IsPending, delegation_progress}

abbrev own_deferred : System
own_deferred = record {
  tail = some 1;
  next = update (update (update (λ _. none) 0 none) 1 none) 0 (some (1, false));
  pc = update (update (update (λ _. outside) 0 holding) 1 (linking 0 false)) 1 (asleep false);
  holder = draining 0 0 none true false;
  arrived = 0 ∷ 1 ∷ [];
  ran = 0 ∷ [];
}

own_deferred-Reach : Reach own_deferred
unfolding ℕ_discrete claim is_alive
own_deferred-Reach =
    later
      (later (later (later start (enter_free 0 false refl refl)) (enter_busy 1 0 false refl refl))
        (link 1 0 false refl refl))
      (run_own 0 false true refl (inl refl))

delegation_sound_example :
    ((i j : ℕ) → own_deferred.pc i ≡ holding → own_deferred.pc j ≡ holding → i ≡ j)
    × (own_deferred.holder ≢ clash)
    × ((i : ℕ) → own_deferred.pc i ≢ fault)
delegation_sound_example = delegation_sound own_deferred-Reach

ran-IsPending_example : (rest : List ℕ) × IsPending own_deferred rest
ran-IsPending_example = ran-IsPending own_deferred-Reach

delegation_progress_example :
    (own_deferred.holder ≡ free → (i : ℕ) → own_deferred.pc i ≡ outside)
    × ((h c : ℕ) (w : Option ℕ) (stuck : Bool)
        → own_deferred.holder ≡ draining h c w false stuck
        → (own_deferred.tail ≡ some c)
          ⊎ ((n : ℕ) × (lock : Bool) × ((own_deferred.next c ≡ some (n, lock))
                ⊎ (own_deferred.pc n ≡ linking c lock))))
delegation_progress_example = delegation_progress own_deferred-Reach

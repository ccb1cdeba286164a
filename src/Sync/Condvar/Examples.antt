-- ===== src/Sync/Condvar/Examples.antt =====
-- The condition variable at work: thread 0 waits, and thread 1 notifies all.
use cmpth_rs.Prelude.{◌≡◌, ◌≢◌, refl, inl, true, false, some, [], ◌∷◌, arith, update, ℕ_discrete}
use cmpth_rs.Sync.Condvar.{
  running, waiting, fault, System, lock, wait, notify, Reach, start, later, woken, notify_rest,
}
use cmpth_rs.Sync.Condvar.Count.{listed, waits}
use cmpth_rs.Sync.Condvar.Safety.{Steps, done, next, Resumed, waiter_listed, notify_all-Resumed}

-- Thread 0 is queued, and its suspension has yet to unlock the mutex.
abbrev queued : System
queued = record {
  waiters = 0 ∷ [];
  owner = some 0;
  pc = update (λ _. running) 0 waiting;
  unlocking = update (λ _. false) 0 true;
}

queued-Reach : Reach 2 queued
unfolding ℕ_discrete
queued-Reach = later (later start (lock 0 (omega arith) refl refl)) (wait 0 (omega arith) refl refl)

waiter_listed_example : (listed 2 queued 0 ≡ waits (queued.pc 0)) × (queued.pc 0 ≢ fault)
waiter_listed_example = waiter_listed queued-Reach 0

-- Thread 1 takes the list and notifies thread 0.
abbrev called : System
called = record queued { waiters = []; pc = update queued.pc 1 (notify_rest (0 ∷ [])) }

abbrev notified : System
notified = record called {
  pc =
      update (update called.pc 1 (notify_rest [])) 0
        (woken (update called.pc 1 (notify_rest []) 0));
}

returning : Steps 2 called notified
unfolding ℕ_discrete notify_rest
returning = next (notify 1 0 [] (omega arith) refl) done

notify_all-Resumed_example : Resumed 0 returning
unfolding ℕ_discrete notify_rest woken
notify_all-Resumed_example =
    notify_all-Resumed queued-Reach 1 (omega arith) refl returning refl 0 (inl refl)

-- ===== src/Sync/Condvar/Keep.antt =====
-- What every step of a condition variable keeps: each suspended thread is listed once, and the mutex
-- belongs to a thread that is awake or to one whose suspension has yet to unlock it.
use cmpth_rs.Prelude.{
  ℕ, ◌<◌, ◌≡◌, ◌≢◌, refl, sym, ap, ◌∙◌, subst, ◌⊎◌, inl, inr, true, false, none, some, List, [],
  ◌∷◌, ◌++◌, arith, update, update_each, update_both, some-injective,
}
use cmpth_rs.Sync.Condvar.{
  running, waiting, resumed, notifying, fault, System, woken, notify_rest, Step, lock, unlock, wait,
  release, relock, notify_one, notify_nobody, notify_all, notify,
}
use cmpth_rs.Sync.Condvar.Count.{
  count, held, waits, holds, count-append, holds-notify_rest, count_single, count_other,
}
use cmpth_rs.Sync.Condvar.Inv.{
  awake, Counted, Inv, waits_one, notify_rest-waits, notify_rest-awake, Counted-update, front_waits,
  Counted-woken,
}

module _ {n : ℕ} {s : System} (inv : Inv n s) where
  open inv use {counted, sound, freeing, owned}

  -- A thread that is awake has released the mutex, or has it.
  awake_free : (i : ℕ) → awake (s.pc i) ≡ true → s.unlocking i ≢ true
  awake_free i a u = cc ((freeing i u).1, a)

  lock_keeps : (i : ℕ) → s.pc i ≡ running → s.owner ≡ none → Inv n (record s { owner = some i })
  lock_keeps i e free = record {
    counted = counted;
    sound = sound;
    freeing = λ j u. absurd (cc ((freeing j u).0, free));
    owned = λ j o. inr (subst (λ k. awake (s.pc k) ≡ true) (some-injective i j o) (ap awake e));
  }

  unlock_keeps : (i : ℕ) → s.pc i ≡ running → s.owner ≡ some i → Inv n (record s { owner = none })
  unlock_keeps i e o = record {
    counted = counted;
    sound = sound;
    freeing = λ j u. absurd (
        awake_free j
          (subst (λ k. awake (s.pc k) ≡ true) (some-injective i j (sym o ∙ (freeing j u).0))
            (ap awake e))
          u);
    owned = λ j w. absurd (cc w);
  }

  wait_keeps :
      (i : ℕ)
      → i < n
      → s.pc i ≡ running
      → s.owner ≡ some i
      → Inv n (record s {
        waiters = s.waiters ++ i ∷ [];
        pc = update s.pc i waiting;
        unlocking = update s.unlocking i true;
      })
  unfolding count
  wait_keeps i lt e o = record {
    counted =
        Counted-update n s.waiters (s.waiters ++ i ∷ []) s.pc i waiting lt counted
          (λ j ne. omega (arith, count-append j i s.waiters, count_other [] ne, ap (holds j) e))
          (omega (arith, count-append i i s.waiters, count_single i, ap (holds i) e, ap waits e));
    sound = update_each (λ j p. p ≢ fault) s.pc i (λ w. cc w) (λ j ne. sound j);
    freeing =
        update_both (λ j p u. u ≡ true → (s.owner ≡ some j) × (awake p ≡ false)) s.pc s.unlocking i
          (λ u. (o, refl)) (λ j ne. freeing j);
    owned =
        update_both (λ j p u. s.owner ≡ some j → (u ≡ true) ⊎ (awake p ≡ true)) s.pc s.unlocking i
          (λ w. inl refl) (λ j ne. owned j);
  }

  release_keeps :
      (i : ℕ)
      → s.unlocking i ≡ true
      → Inv n (record s { owner = none; unlocking = update s.unlocking i false })
  release_keeps i u = record {
    counted = counted;
    sound = sound;
    freeing =
        update_each (λ j v. v ≡ true → (none ≡ some j) × (awake (s.pc j) ≡ false)) s.unlocking i
          (λ w. absurd (cc w))
          (λ j ne v. absurd (ne (some-injective i j (sym (freeing i u).0 ∙ (freeing j v).0))));
    owned = λ j w. absurd (cc w);
  }

  relock_keeps :
      (i : ℕ)
      → i < n
      → s.pc i ≡ resumed
      → s.owner ≡ none
      → Inv n (record s { owner = some i; pc = update s.pc i running })
  unfolding count
  relock_keeps i lt e free = record {
    counted =
        Counted-update n s.waiters s.waiters s.pc i running lt counted
          (λ j ne. omega (arith, ap (holds j) e)) (omega (arith, ap (holds i) e, ap waits e));
    sound = update_each (λ j p. p ≢ fault) s.pc i (λ w. cc w) (λ j ne. sound j);
    freeing = λ j u. absurd (cc ((freeing j u).0, free));
    owned =
        update_each (λ j p. some i ≡ some j → (s.unlocking j ≡ true) ⊎ (awake p ≡ true)) s.pc i
          (λ w. inr refl) (λ j ne w. absurd (ne (some-injective i j w)));
  }

  -- The front thread of `waiters` is resumed.
  woken_keeps :
      (t : ℕ) (rest : List ℕ)
      → Counted n (t ∷ rest) s.pc
      → Inv n (record s { waiters = rest; pc = update s.pc t (woken (s.pc t)) })
  unfolding woken
  woken_keeps t rest c =
      let at = waits_one (s.pc t) (front_waits n rest s.pc t c) in
      record {
        counted = Counted-woken n rest s.pc t c;
        sound = update_each (λ j p. p ≢ fault) s.pc t (λ w. cc (ap woken at, w)) (λ j ne. sound j);
        freeing =
            update_each (λ j p. s.unlocking j ≡ true → (s.owner ≡ some j) × (awake p ≡ false)) s.pc
              t (λ u. ((freeing t u).0, ap (λ p. awake (woken p)) at)) (λ j ne. freeing j);
        owned =
            update_each (λ j p. s.owner ≡ some j → (s.unlocking j ≡ true) ⊎ (awake p ≡ true)) s.pc t
              (λ o. elim (owned t o) [ inl u ↦ inl u | inr a ↦ absurd (cc (ap awake at, a)) ])
              (λ j ne. owned j);
      }

  -- A thread that is awake goes on to notify `rest`.
  notifier_keeps :
      (i : ℕ) (w rest : List ℕ)
      → awake (s.pc i) ≡ true
      → Counted n w (update s.pc i (notify_rest rest))
      → Inv n (record s { waiters = w; pc = update s.pc i (notify_rest rest) })
  notifier_keeps i w rest a c = record {
    counted = c;
    sound =
        update_each (λ j p. p ≢ fault) s.pc i (λ w. cc (ap awake w, notify_rest-awake rest))
          (λ j ne. sound j);
    freeing =
        update_each (λ j p. s.unlocking j ≡ true → (s.owner ≡ some j) × (awake p ≡ false)) s.pc i
          (λ u. absurd (awake_free i a u)) (λ j ne. freeing j);
    owned =
        update_each (λ j p. s.owner ≡ some j → (s.unlocking j ≡ true) ⊎ (awake p ≡ true)) s.pc i
          (λ o. inr (notify_rest-awake rest)) (λ j ne. owned j);
  }

  notify_all_keeps :
      (i : ℕ)
      → i < n
      → s.pc i ≡ running
      → Inv n (record s { waiters = []; pc = update s.pc i (notify_rest s.waiters) })
  unfolding count
  notify_all_keeps i lt e = notifier_keeps i [] s.waiters (ap awake e) (
      Counted-update n s.waiters [] s.pc i (notify_rest s.waiters) lt counted
        (λ j ne. omega (arith, holds-notify_rest j s.waiters, ap (holds j) e))
        (omega (
          arith,
          holds-notify_rest i s.waiters,
          ap (holds i) e,
          ap waits e,
          notify_rest-waits s.waiters,
        )))

  -- The first half of a `notify`: the thread moves from the hands of the notifier to the front.
  pub front_keeps :
      (i t : ℕ) (rest : List ℕ)
      → i < n
      → s.pc i ≡ notifying (t ∷ rest)
      → Inv n (record s { waiters = t ∷ s.waiters; pc = update s.pc i (notify_rest rest) })
  unfolding count
  front_keeps i t rest lt e = notifier_keeps i (t ∷ s.waiters) rest (ap awake e) (
      Counted-update n s.waiters (t ∷ s.waiters) s.pc i (notify_rest rest) lt counted
        (λ j ne. omega (arith, holds-notify_rest j rest, ap (holds j) e))
        (omega
          (arith, holds-notify_rest i rest, ap (holds i) e, ap waits e, notify_rest-waits rest)))

-- Whoever is at the front waits, and has nobody to notify.
pub front-held :
    {n : ℕ} {s : System}
    → Inv n s
    → (t : ℕ) (rest : List ℕ) → s.waiters ≡ t ∷ rest
    → held (s.pc t) ≡ []
front-held {n} {s} inv t rest w =
    ap held
      (waits_one (s.pc t) (front_waits n rest s.pc t (subst (λ q. Counted n q s.pc) w inv.counted)))

pub Step-Inv : {n : ℕ} {s t : System} → Inv n s → Step n s t → Inv n t
Step-Inv inv (lock i lt e free) = lock_keeps inv i e free
Step-Inv inv (unlock i lt e o) = unlock_keeps inv i e o
Step-Inv inv (wait i lt e o) = wait_keeps inv i lt e o
Step-Inv inv (release i u) = release_keeps inv i u
Step-Inv inv (relock i lt e free) = relock_keeps inv i lt e free
Step-Inv {n} {s} inv (notify_one i t rest e w) =
    woken_keeps inv t rest (subst (λ q. Counted n q s.pc) w inv.counted)
Step-Inv inv (notify_nobody i e w) = inv
Step-Inv inv (notify_all i lt e) = notify_all_keeps inv i lt e
Step-Inv {s = s} inv (notify i t rest lt e) =
    let mid = front_keeps inv i t rest lt e in woken_keeps mid t s.waiters mid.counted

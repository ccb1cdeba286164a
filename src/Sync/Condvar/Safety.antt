-- ===== src/Sync/Condvar/Safety.antt =====
-- What holds of a condition variable in every reachable state.
use cmpth_rs.Prelude.{
  ℕ, ◌<◌, ◌≡◌, ◌≢◌, refl, ◌⊎◌, inl, inr, true, false, some, List, [], ◌∷◌, Among, arith, sym, ap,
  ◌∙◌, subst, ite, update, update_self, ℕ_discrete, total-eq-zero,
}
use cmpth_rs.Sync.Condvar.{
  Pc, running, notifying, fault, System, notify_rest, Step, lock, unlock, wait, release, relock,
  notify_one, notify_nobody, notify_all, notify, init, Reach, start, later,
}
use cmpth_rs.Sync.Condvar.Count.{count, held, waits, holds, listed}
use cmpth_rs.Sync.Condvar.Inv.{awake, Inv}
use cmpth_rs.Sync.Condvar.Keep.{Step-Inv, front_keeps, front-held}

init-Inv : (n : ℕ) → Inv n init
unfolding count
init-Inv n = record {
  counted = λ j. omega (arith, total-eq-zero (holds j) n (λ _. running) (λ i. refl));
  sound = λ i e. cc;
  freeing = λ i u. absurd (cc u);
  owned = λ i o. absurd (cc o);
}

Reach-Inv : {n : ℕ} {s : System} → Reach n s → Inv n s
Reach-Inv {n} start = init-Inv n
Reach-Inv (later r st) = Step-Inv (Reach-Inv r) st

-- No waiter of a condition variable is lost or listed twice: in every reachable state a thread that
-- is suspended in `wait` is listed exactly once, in `waiters` or among those that some `notify_all` has
-- yet to notify, every other thread is listed nowhere, and no thread was resumed that did not wait.
pub waiter_listed :
    {n : ℕ} {s : System} → Reach n s → (i : ℕ) → (listed n s i ≡ waits (s.pc i)) × (s.pc i ≢ fault)
waiter_listed r i = let inv = Reach-Inv r in (inv.counted i, inv.sound i)

-- A wait gives the mutex up: in every reachable state in which a thread has the mutex, it is awake
-- or the suspension of its wait has yet to unlock the mutex; and whenever a suspension has yet to do
-- so, its thread still has the mutex and has not come back from the wait.
wait_unlocks :
    {n : ℕ} {s : System}
    → Reach n s
    → (i : ℕ)
    → (s.owner ≡ some i → (s.unlocking i ≡ true) ⊎ (awake (s.pc i) ≡ true))
      × (s.unlocking i ≡ true → (s.owner ≡ some i) × (awake (s.pc i) ≡ false))
wait_unlocks r i = let inv = Reach-Inv r in (inv.owned i, inv.freeing i)

-- A run from a state, and whether it resumes a thread by a `notify` of `notify_all`.
pub data Steps (n : ℕ) : System → System → Type 0 where
  done : {s : System} → Steps n s s
  next : {s t u : System} → Step n s t → Steps n t u → Steps n s u

abbrev pub Resumes : {n : ℕ} {s t : System} → ℕ → Step n s t → Type 0
Resumes k (notify i t rest lt e) = k ≡ t
Resumes k (lock i lt e o) = ⊥
Resumes k (unlock i lt e o) = ⊥
Resumes k (wait i lt e o) = ⊥
Resumes k (release i u) = ⊥
Resumes k (relock i lt e o) = ⊥
Resumes k (notify_one i t rest e w) = ⊥
Resumes k (notify_nobody i e w) = ⊥
Resumes k (notify_all i lt e) = ⊥

abbrev pub Resumed : {n : ℕ} {s t : System} → ℕ → Steps n s t → Type 0
Resumed k done = ⊥
Resumed k (next st rest) = Resumes k st ⊎ Resumed k rest

-- A thread that has nobody to notify moves, which is no thread that has.
held_kept :
    (pc : ℕ → Pc) (j : ℕ) (p : Pc) (i k : ℕ)
    → held (pc j) ≡ []
    → Among k (held (pc i))
    → Among k (held (update pc j p i))
held_kept pc j p i k none_held a = elim (ℕ_discrete j i) as (λ d. Among k (held (ite d p (pc i)))) [
  | no ne ↦ a
  | yes e ↦ absurd (subst (Among k) (sym (ap (λ x. held (pc x)) e) ∙ none_held) a)
]

held-notify_rest : (rest : List ℕ) → held (notify_rest rest) ≡ rest
unfolding notify_rest
held-notify_rest [] = refl
held-notify_rest (t ∷ rest) = refl

-- A notifier goes on to the rest.
front_or_rest :
    (pc : ℕ → Pc) (j t : ℕ) (rest : List ℕ) (i k : ℕ)
    → pc j ≡ notifying (t ∷ rest)
    → Among k (held (pc i))
    → (k ≡ t) ⊎ Among k (held (update pc j (notify_rest rest) i))
front_or_rest pc j t rest i k e a =
    elim (ℕ_discrete j i) as (λ d. (k ≡ t) ⊎ Among k (held (ite d (notify_rest rest) (pc i)))) [
      | no ne ↦ inr a
      | yes same ↦ elim (subst (Among k) (sym (ap (λ x. held (pc x)) same) ∙ ap held e) a) [
        | inl here ↦ inl here
        | inr behind ↦ inr (subst (Among k) (sym (held-notify_rest rest)) behind)
      ]
    ]

-- A step resumes a thread that some `notify_all` has yet to notify, or leaves it there.
Resumes-or_held :
    {n : ℕ} {s t : System}
    → Inv n s
    → (st : Step n s t) (i k : ℕ) → Among k (held (s.pc i))
    → Resumes k st ⊎ Among k (held (t.pc i))
Resumes-or_held inv (lock j lt e o) i k a = inr a
Resumes-or_held inv (unlock j lt e o) i k a = inr a
Resumes-or_held {s = s} inv (wait j lt e o) i k a = inr (held_kept s.pc j _ i k (ap held e) a)
Resumes-or_held inv (release j u) i k a = inr a
Resumes-or_held {s = s} inv (relock j lt e o) i k a = inr (held_kept s.pc j _ i k (ap held e) a)
Resumes-or_held {s = s} inv (notify_one j t rest e w) i k a =
    inr (held_kept s.pc t _ i k (front-held inv t rest w) a)
Resumes-or_held inv (notify_nobody j e w) i k a = inr a
Resumes-or_held {s = s} inv (notify_all j lt e) i k a = inr (held_kept s.pc j _ i k (ap held e) a)
Resumes-or_held {s = s} inv (notify j t rest lt e) i k a =
    elim (front_or_rest s.pc j t rest i k e a) [
      | inl here ↦ inl here
      | inr behind ↦ inr (
          held_kept (update s.pc j (notify_rest rest)) t _ i k
            (front-held (front_keeps inv j t rest lt e) t s.waiters refl) behind)
    ]

held-Resumed :
    {n : ℕ} {s u : System}
    → Inv n s
    → (run : Steps n s u) (i k : ℕ) → u.pc i ≡ running
    → Among k (held (s.pc i))
    → Resumed k run
held-Resumed inv done i k back a = subst (Among k) (ap held back) a
held-Resumed inv (next st rest) i k back a = elim (Resumes-or_held inv st i k a) [
  | inl here ↦ inl here
  | inr kept ↦ inr (held-Resumed (Step-Inv inv st) rest i k back kept)
]

-- Nobody who waits when `notify_all` is called is left behind: if a thread calls it in a reachable
-- state, then in every run from there to a state in which the thread is back from it, each thread that
-- was in `waiters` at the call has been resumed by a `notify` of a `notify_all`.
pub notify_all-Resumed :
    {n : ℕ} {s u : System}
    → Reach n s
    → (i : ℕ) (lt : i < n) (e : s.pc i ≡ running)
    → (run : Steps n (record s { waiters = []; pc = update s.pc i (notify_rest s.waiters) }) u)
    → u.pc i ≡ running
    → (k : ℕ) → Among k s.waiters
    → Resumed k run
notify_all-Resumed {n} {s} r i lt e run back k a =
    held-Resumed (Step-Inv (Reach-Inv r) (notify_all i lt e)) run i k back
      (subst (Among k) (sym (ap held (update_self s.pc i _) ∙ held-notify_rest s.waiters)) a)

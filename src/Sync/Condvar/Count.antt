-- ===== src/Sync/Condvar/Count.antt =====
-- How often a thread is listed: in `waiters`, and by the threads in `notify_all`.
use cmpth_rs.Prelude.{
  ℕ, ◌+◌, ◌≡◌, refl, subst, List, [], ◌∷◌, ◌++◌, arith, ◌==◌, if◌then◌else◌, update, ℕ_discrete,
  total, sum_below_congr, ite,
}
use cmpth_rs.Sync.Condvar.{
  Pc, running, waiting, resumed, notifying, fault, System, woken, notify_rest,
}

unfoldable pub count : ℕ → List ℕ → ℕ
count i [] = 0
count i (t ∷ rest) = (if i == t then 1 else 0) + count i rest

-- The threads that a thread has yet to notify.
abbrev pub held : Pc → List ℕ
held (notifying rest) = rest
held running = []
held waiting = []
held resumed = []
held fault = []

-- One for a suspended thread.
abbrev pub waits : Pc → ℕ
waits waiting = 1
waits running = 0
waits resumed = 0
waits (notifying rest) = 0
waits fault = 0

abbrev pub holds : ℕ → Pc → ℕ
holds i p = count i (held p)

-- How often the thread is listed.
abbrev pub listed : ℕ → System → ℕ → ℕ
listed n s i = count i s.waiters + total (holds i) n s.pc

pub count-append : (i t : ℕ) (xs : List ℕ) → count i (xs ++ t ∷ []) ≡ count i xs + count i (t ∷ [])
unfolding count
count-append i t [] = omega arith
count-append i t (x ∷ xs) = omega (arith, count-append i t xs)

pub holds-notify_rest : (i : ℕ) (rest : List ℕ) → holds i (notify_rest rest) ≡ count i rest
unfolding notify_rest
holds-notify_rest i [] = refl
holds-notify_rest i (t ∷ rest) = refl

-- The front is counted once, and nobody else is.
pub count_self : (t : ℕ) (rest : List ℕ) → count t (t ∷ rest) ≡ 1 + count t rest
unfolding count
count_self t rest = ground arith

pub count_single : (t : ℕ) → count t (t ∷ []) ≡ 1
unfolding count
count_single t = ground arith

pub count_other : {i t : ℕ} (rest : List ℕ) → ¬ (t ≡ i) → count i (t ∷ rest) ≡ count i rest
unfolding count
count_other rest ne = ground arith

-- A thread that is woken has listed nobody before or after.
pub woken-holds : (i : ℕ) (p : Pc) → waits p ≡ 1 → holds i (woken p) ≡ holds i p
unfolding woken
woken-holds i waiting e = refl
woken-holds i running e = absurd (omega (arith, e))
woken-holds i resumed e = absurd (omega (arith, e))
woken-holds i (notifying rest) e = absurd (omega (arith, e))
woken-holds i fault e = absurd (omega (arith, e))

pub total-woken :
    (i n : ℕ) (pc : ℕ → Pc) (t : ℕ)
    → waits (pc t) ≡ 1
    → total (holds i) n (update pc t (woken (pc t))) ≡ total (holds i) n pc
total-woken i n pc t e =
    sum_below_congr (λ j. holds i (update pc t (woken (pc t)) j)) (λ j. holds i (pc j)) n
      (λ j below.
        elim (ℕ_discrete t j) as (λ d. holds i (ite d (woken (pc t)) (pc j)) ≡ holds i (pc j)) [
          | yes same ↦
              subst (λ k. holds i (woken (pc t)) ≡ holds i (pc k)) same (woken-holds i (pc t) e)
          | no other ↦ refl
        ])

-- ===== src/Sync/Barrier/Generations.antt =====
-- Every `n` arrivals at a barrier are a generation of their own.
use cmpth_rs.Prelude.{
  ℕ, ◌+◌, ◌<◌, ◌≢◌, ◌≡◌, refl, sym, ap, ◌∙◌, true, false, List, [], ◌∷◌, ◌++◌, arith, ◌==◌, length,
  length-append,
}
use mathlib.Core.List.{append_assoc, append-nil}
use cmpth_rs.Sync.Barrier.{new_barrier, Arrival, leads, waits, wait, wait_all}

-- A generation: all but the last in order, and the last.
abbrev pub arrivals : List ℕ → ℕ → List ℕ
arrivals [] i = i ∷ []
arrivals (x ∷ xs) i = x ∷ arrivals xs i

-- All but the last wait, and the last leads and notifies `all`.
abbrev pub outcomes : List ℕ → List ℕ → List Arrival
outcomes all [] = leads all ∷ []
outcomes all (x ∷ xs) = waits ∷ outcomes all xs

wait_last :
    (n : ℕ) (ws : List ℕ) (i : ℕ)
    → length ws + 1 ≡ n
    → wait n i (record { count = length ws; waiters = ws }) ≡ (leads ws, new_barrier)
unfolding wait
wait_last n ws i e = rw (flag e) refl
  where
    flag : length ws + 1 ≡ n → (length ws + 1 == n) ≡ true
    flag e = ground (arith, e)

wait_early :
    (n : ℕ) (ws : List ℕ) (i : ℕ)
    → length ws + 1 ≢ n
    → wait n i (record { count = length ws; waiters = ws })
      ≡ (waits, record { count = length (ws ++ i ∷ []); waiters = ws ++ i ∷ [] })
unfolding wait
wait_early n ws i ne = rw (flag ne) (
    ap (λ c. (waits, record { count = c; waiters = ws ++ i ∷ [] }))
      (sym (length-append ws (i ∷ []))))
  where
    flag : length ws + 1 ≢ n → (length ws + 1 == n) ≡ false
    flag ne = ground (arith, ne)

-- The rest of a generation of which `ws` wait, and what follows it.
from :
    (n : ℕ) (ws xs : List ℕ) (i : ℕ) (rest : List ℕ)
    → length ws + length xs + 1 ≡ n
    → wait_all n (arrivals xs i ++ rest) (record { count = length ws; waiters = ws })
      ≡ (outcomes (ws ++ xs) xs ++ (wait_all n rest new_barrier).0, (wait_all n rest new_barrier).1)
unfolding wait_all
from n ws [] i rest e =
    ap (λ w. (w.0 ∷ (wait_all n rest w.1).0, (wait_all n rest w.1).1))
      (wait_last n ws i (omega (arith, e)))
    ∙ ap (λ l. (leads l ∷ (wait_all n rest new_barrier).0, (wait_all n rest new_barrier).1))
        (sym (append-nil ws))
from n ws (x ∷ xs) i rest e =
    ap
      (λ w. (
        w.0 ∷ (wait_all n (arrivals xs i ++ rest) w.1).0,
        (wait_all n (arrivals xs i ++ rest) w.1).1,
      ))
      (wait_early n ws x (λ z. absurd (omega (arith, e, z))))
    ∙ (ap (λ w. (waits ∷ w.0, w.1))
          (from n (ws ++ x ∷ []) xs i rest (omega (arith, e, length-append ws (x ∷ []))))
        ∙ ap
            (λ l. (
              waits ∷ (outcomes l xs ++ (wait_all n rest new_barrier).0),
              (wait_all n rest new_barrier).1,
            ))
            (append_assoc ws (x ∷ []) xs))

-- Generations one after the other, and what each arrival does in them.
abbrev pub all_arrivals : List (List ℕ × ℕ) → List ℕ
all_arrivals [] = []
all_arrivals ((xs, i) ∷ gs) = arrivals xs i ++ all_arrivals gs

abbrev pub all_outcomes : List (List ℕ × ℕ) → List Arrival
all_outcomes [] = []
all_outcomes ((xs, i) ∷ gs) = outcomes xs xs ++ all_outcomes gs

abbrev pub Full : ℕ → List (List ℕ × ℕ) → Type 0
Full n [] = Unit {0}
Full n ((xs, i) ∷ gs) = (length xs + 1 ≡ n) × Full n gs

-- At a barrier for `n` threads, any number of full generations may arrive one after the other: in
-- each the first `n - 1` threads wait, and the last leads and notifies exactly these, in the order
-- of their arrival; the barrier is then as new.
pub wait_all-generations :
    (n : ℕ) (gs : List (List ℕ × ℕ))
    → Full n gs
    → wait_all n (all_arrivals gs) new_barrier ≡ (all_outcomes gs, new_barrier)
unfolding wait_all
wait_all-generations n [] full = refl
wait_all-generations n ((xs, i) ∷ gs) (e, full) =
    from n [] xs i (all_arrivals gs) (omega (arith, e))
    ∙ ap (λ w. (outcomes xs xs ++ w.0, w.1)) (wait_all-generations n gs full)

abbrev pub only_waits : List ℕ → List Arrival
only_waits [] = []
only_waits (x ∷ xs) = waits ∷ only_waits xs

before :
    (n : ℕ) (ws xs : List ℕ)
    → length ws + length xs < n
    → wait_all n xs (record { count = length ws; waiters = ws })
      ≡ (only_waits xs, record { count = length (ws ++ xs); waiters = ws ++ xs })
unfolding wait_all
before n ws [] lt = ap (λ l. ([], record { count = length l; waiters = l })) (sym (append-nil ws))
before n ws (x ∷ xs) lt =
    ap (λ w. (w.0 ∷ (wait_all n xs w.1).0, (wait_all n xs w.1).1))
      (wait_early n ws x (λ z. absurd (omega (arith, lt, z))))
    ∙ (ap (λ w. (waits ∷ w.0, w.1))
          (before n (ws ++ x ∷ []) xs (omega (arith, lt, length-append ws (x ∷ []))))
        ∙ ap (λ l. (waits ∷ only_waits xs, record { count = length l; waiters = l }))
            (append_assoc ws (x ∷ []) xs))

-- At a new barrier for `n` threads, as long as fewer than `n` arrived, each of them waits, and the
-- barrier has counted and queued exactly those.
pub wait_all-early :
    (n : ℕ) (xs : List ℕ)
    → length xs < n
    → wait_all n xs new_barrier ≡ (only_waits xs, record { count = length xs; waiters = xs })
wait_all-early n xs lt = before n [] xs (omega (arith, lt))

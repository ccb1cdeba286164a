-- ===== src/Idle/Search/Bounds.antt =====
-- How many workers search at once, and how long one spins.
use cmpth_rs.Prelude.{
  ℕ, ◌+◌, ◌-◌, ◌/◌, ◌≤◌, ◌<◌, ◌≡◌, refl, sym, ap, subst, arith, max, if◌then◌else◌, ltb, update,
  total, total-update, total-eq-zero, total-le, sum_below_ge, ◌⊎◌, inl, inr,
}
use cmpth_rs.Idle.Search.{
  SearchCap, go_cap, half_cap, fixed_cap, cap, Searcher, resting, counted, over, seeking, System,
  Step, add, accept, refuse, give_back, stop, Reach, start, later,
}

-- The most that a cap allows.
unfoldable pub limit : SearchCap → ℕ → ℕ
limit go_cap workers = max (workers / 2) 1
limit half_cap workers = max (workers / 2) 1
limit (fixed_cap n) workers = n

cap-le-limit : (c : SearchCap) (workers parked n : ℕ) → cap c workers parked n ≤ limit c workers
unfolding cap limit max
cap-le-limit go_cap workers parked n = ground arith
cap-le-limit half_cap workers parked n = ground arith
cap-le-limit (fixed_cap m) workers parked n = omega arith

-- One for a worker that searches.
abbrev pub seeks : Searcher → ℕ
seeks seeking = 1
seeks resting = 0
seeks (counted n) = 0
seeks over = 0

-- One for a worker that `searching` counts.
abbrev pub counts : Searcher → ℕ
counts seeking = 1
counts resting = 0
counts (counted n) = 1
counts over = 1

-- One for a worker that searches or may come to.
abbrev may_seek : ℕ → Searcher → ℕ
may_seek k seeking = 1
may_seek k resting = 0
may_seek k (counted n) = if ltb n k then 1 else 0
may_seek k over = 0

may_seek-le-counts : (k : ℕ) (p : Searcher) → may_seek k p ≤ counts p
may_seek-le-counts k seeking = omega arith
may_seek-le-counts k resting = omega arith
may_seek-le-counts k (counted n) = ground arith
may_seek-le-counts k over = omega arith

seeks-le-may_seek : (k : ℕ) (p : Searcher) → seeks p ≤ may_seek k p
seeks-le-may_seek k seeking = omega arith
seeks-le-may_seek k resting = omega arith
seeks-le-may_seek k (counted n) = omega arith
seeks-le-may_seek k over = omega arith

record Inv (k workers : ℕ) (s : System) : Type 0 where
  exact : total counts workers s.searchers ≡ s.searching
  few : total (may_seek k) workers s.searchers ≤ k

-- A worker moves, and `searching` with what it counts.
Inv-update :
    (k workers : ℕ) (s : System) (i m : ℕ) (p : Searcher)
    → Inv k workers s
    → i < workers
    → m + counts (s.searchers i) ≡ s.searching + counts p
    → may_seek k p ≤ may_seek k (s.searchers i)
      ⊎ (total (may_seek k) workers s.searchers + may_seek k p ≤ k)
    → Inv k workers (record { searching = m; searchers = update s.searchers i p })
Inv-update k workers s i m p inv lt moves fits = record {
  exact = omega (arith, total-update counts workers s.searchers i p lt, inv.exact, moves);
  few = elim fits [
    | inl less ↦ omega (arith, total-update (may_seek k) workers s.searchers i p lt, inv.few, less)
    | inr room ↦ omega (arith, total-update (may_seek k) workers s.searchers i p lt, inv.few, room)
  ];
}

-- A new searcher may come to search only if there is room for it.
room_to_add :
    (k workers : ℕ) (s : System)
    → Inv k workers s
    → total (may_seek k) workers s.searchers + may_seek k (counted s.searching) ≤ k
room_to_add k workers s inv =
    let fewer = total-le (may_seek k) counts workers s.searchers (may_seek-le-counts k) in
    ground (arith, inv.few, inv.exact, fewer)

-- `searching` counts each searcher, so it can be subtracted from.
counted_once :
    (k workers : ℕ) (s : System)
    → Inv k workers s
    → (i : ℕ) → i < workers
    → counts (s.searchers i) ≡ 1
    → 1 ≤ s.searching
counted_once k workers s inv i lt one =
    omega (arith, inv.exact, one, sum_below_ge (λ j. counts (s.searchers j)) i workers lt)

Step-Inv :
    {c : SearchCap} {workers : ℕ} {s t : System}
    → Inv (limit c workers) workers s
    → Step c workers s t
    → Inv (limit c workers) workers t
Step-Inv {c} {workers} {s} inv (add i lt e) =
    Inv-update (limit c workers) workers s i (s.searching + 1) (counted s.searching) inv lt
      (omega (arith, ap counts e)) (inr (room_to_add (limit c workers) workers s inv))
Step-Inv {c} {workers} {s} inv (accept i n parked lt e below) =
    Inv-update (limit c workers) workers s i s.searching seeking inv lt (omega (arith, ap counts e))
      (inl (
        subst (λ p. 1 ≤ may_seek (limit c workers) p) (sym e)
          (ground (arith, cap-le-limit c workers parked n, below))))
Step-Inv {c} {workers} {s} inv (refuse i n parked lt e above) =
    Inv-update (limit c workers) workers s i s.searching over inv lt (omega (arith, ap counts e))
      (inl (omega arith))
Step-Inv {c} {workers} {s} inv (give_back i lt e) =
    Inv-update (limit c workers) workers s i (s.searching - 1) resting inv lt
      (omega (arith, ap counts e, counted_once _ workers s inv i lt (ap counts e)))
      (inl (omega arith))
Step-Inv {c} {workers} {s} inv (stop i lt e) =
    Inv-update (limit c workers) workers s i (s.searching - 1) resting inv lt
      (omega (arith, ap counts e, counted_once _ workers s inv i lt (ap counts e)))
      (inl (omega arith))

Reach-Inv :
    {c : SearchCap} {workers : ℕ} {s : System} → Reach c workers s → Inv (limit c workers) workers s
Reach-Inv {c} {workers} start = record {
  exact = total-eq-zero counts workers (λ _. resting) (λ i. refl);
  few =
      omega (arith, total-eq-zero (may_seek (limit c workers)) workers (λ _. resting) (λ i. refl));
}
Reach-Inv (later r st) = Step-Inv (Reach-Inv r) st

-- At most as many workers search at once as the cap allows: half of them, but at least one, for
-- `GoCap` and `HalfCap`, and `N` for `FixedCap`, however the accesses to `searching` interleave and
-- whatever is loaded from `sleepers`. `searching` is the number of workers that search or are inside
-- `try_search`.
pub searchers-le-limit :
    {c : SearchCap} {workers : ℕ} {s : System}
    → Reach c workers s
    → (total seeks workers s.searchers ≤ limit c workers)
      × (total counts workers s.searchers ≡ s.searching)
searchers-le-limit {c} {workers} {s} r =
    let inv = Reach-Inv r in
    (
      omega (
        arith,
        inv.few,
        total-le seeks (may_seek (limit c workers)) workers s.searchers
            (seeks-le-may_seek (limit c workers)),
      ),
      inv.exact,
    )

-- ===== src/Idle/Search.antt =====
-- src/resumable/common/idle.rs, `SearchIdle`: how many workers search, and for how long. The workers
-- interleave at each access to `searching`; what a worker loads from `sleepers` is left open.
pub mod Bounds
pub mod Rounds
mod Examples
use cmpth_rs.Prelude.{ℕ, ◌+◌, ◌-◌, ◌*◌, ◌/◌, ◌≤◌, ◌<◌, ◌≡◌, if◌then◌else◌, ltb, max, update}

-- The implementations of `SearchCap`.
pub data SearchCap : Type 0 where
  go_cap half_cap : SearchCap
  fixed_cap : ℕ → SearchCap

unfoldable pub cap : SearchCap → ℕ → ℕ → ℕ → ℕ
cap go_cap workers parked searching = max ((workers - (parked + searching)) / 2) 1
cap half_cap workers parked searching = max (workers / 2) 1
cap (fixed_cap n) workers parked searching = n

abbrev pub search_limit_ns : ℕ
search_limit_ns = 100000

-- The moving average after an idle period of `d` nanoseconds.
unfoldable pub average : ℕ → ℕ → ℕ
average avg d = avg - avg / 4 + d / 4

unfoldable pub spin_ns : ℕ → ℕ → ℕ
spin_ns avg wait_spin_ns =
    max (if ltb avg search_limit_ns then 2 * max avg 1000 else 0) wait_spin_ns

-- A worker: it does not search, it has added itself to `searching`, which was `n`, it is over the cap, it
-- searches.
pub data Searcher : Type 0 where
  resting : Searcher
  counted : (n : ℕ) → Searcher
  over : Searcher
  seeking : Searcher

pub record System : Type 0 where
  pub searching : ℕ
  pub searchers : ℕ → Searcher

pub data Step (c : SearchCap) (workers : ℕ) (s : System) : System → Type 0 where
  -- `try_search`
  add :
      (i : ℕ)
      → i < workers
      → s.searchers i ≡ resting
      → Step c workers s (record {
        searching = s.searching + 1;
        searchers = update s.searchers i (counted s.searching);
      })
  accept :
      (i n parked : ℕ)
      → i < workers
      → s.searchers i ≡ counted n
      → n < cap c workers parked n
      → Step c workers s (record s { searchers = update s.searchers i seeking })
  refuse :
      (i n parked : ℕ)
      → i < workers
      → s.searchers i ≡ counted n
      → cap c workers parked n ≤ n
      → Step c workers s (record s { searchers = update s.searchers i over })
  give_back :
      (i : ℕ)
      → i < workers
      → s.searchers i ≡ over
      → Step c workers s
          (record { searching = s.searching - 1; searchers = update s.searchers i resting })
  -- `stop_searching`
  stop :
      (i : ℕ)
      → i < workers
      → s.searchers i ≡ seeking
      → Step c workers s
          (record { searching = s.searching - 1; searchers = update s.searchers i resting })

abbrev pub idle_pool : System
idle_pool = record { searching = 0; searchers = λ _. resting }

pub data Reach (c : SearchCap) (workers : ℕ) : System → Type 0 where
  start : Reach c workers idle_pool
  later : {s t : System} → Reach c workers s → Step c workers s t → Reach c workers t

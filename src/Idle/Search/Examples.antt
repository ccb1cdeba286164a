-- ===== src/Idle/Search/Examples.antt =====
-- `SearchIdle` at work: a worker of two searches, and gives up.
use cmpth_rs.Prelude.{
  ◌≤◌, ◌≡◌, refl, true, false, some, [], ◌∷◌, arith, update, ℕ_discrete, max, total,
}
use cmpth_rs.Idle.Search.{
  go_cap, cap, resting, counted, seeking, System, add, accept, Reach, start, later,
}
use cmpth_rs.Idle.Search.Bounds.{limit, seeks, counts, searchers-le-limit}
use cmpth_rs.Idle.Search.Rounds.{SearchEpisode, gives_up, searcher_gives_up}

abbrev one_searches : System
one_searches = record {
  searching = 1;
  searchers = update (update (λ _. resting) 0 (counted 0)) 0 seeking;
}

one_searches-Reach : Reach go_cap 2 one_searches
unfolding ℕ_discrete cap max
one_searches-Reach =
    later (later start (add 0 (omega arith) refl)) (accept 0 0 0 (omega arith) refl (omega arith))

searchers-le-limit_example :
    (total seeks 2 one_searches.searchers ≤ limit go_cap 2)
    × (total counts 2 one_searches.searchers ≡ one_searches.searching)
searchers-le-limit_example = searchers-le-limit one_searches-Reach

-- Its 15th and 16th round, after the 2 µs that it had.
abbrev late : SearchEpisode
late = record {
  rounds = 14;
  search_since = some 5000;
  parking = false;
  since = some 5000;
  avg_ns = 800;
  spin_ns = 2000;
}

searcher_gives_up_example : gives_up late ((false, 7000) ∷ (true, 7000) ∷ (false, 7001) ∷ []) ≡ true
searcher_gives_up_example =
    searcher_gives_up late 5000 ((false, 7000) ∷ (true, 7000) ∷ (false, 7001) ∷ []) refl refl
      (omega arith, (omega arith, tt)) (omega arith) refl

-- ===== src/Idle/Search/Rounds.antt =====
-- src/resumable/common/idle.rs, `SearchIdle::no_work_found`: the rounds of one worker,
-- up to the call of the parking policy.
use cmpth_rs.Prelude.{
  suc, refl, ◌&&◌, ℕ, ◌+◌, ◌-◌, ◌*◌, ◌%◌, ◌^◌, ◌≤◌, ◌<◌, ◌≡◌, ap, ◌∙◌, arith, max, if◌then◌else◌,
  ltb, ◌==◌, Bool, true, false, not, ◌||◌, Option, none, some, List, [], ◌∷◌, length, ◌⊎◌, inl, inr,
  Bool-cases,
}
use cmpth_rs.Idle.Search.{average, spin_ns, search_limit_ns}
use cmpth_rs.Idle.Park.{spin_rounds, yield_rounds}

-- `rounds` is that of the parking policy's episode; times are nanoseconds.
pub record SearchEpisode : Type 0 where
  pub rounds : ℕ  -- u32
  pub search_since : Option ℕ
  pub parking : Bool
  pub since : Option ℕ
  pub avg_ns : ℕ  -- u64
  pub spin_ns : ℕ  -- u64

-- What a call does: it has become a searcher, it spins, after it ran the duties or yielded, or it goes on to
-- park.
pub data Round : Type 0 where
  joined : Round
  spins : (duties yields : Bool) → Round
  parks : Round

abbrev pub start_parking : SearchEpisode → SearchEpisode
start_parking ep = record ep { parking = true; rounds = spin_rounds + yield_rounds }

abbrev pub or_now : ℕ → Option ℕ → Option ℕ
or_now now none = some now
or_now now (some t) = some t

-- No search yet; `granted` is the answer of `try_search`.
unfoldable pub begin_search : ℕ → ℕ → Bool → SearchEpisode → Round × SearchEpisode
unfolding spin_ns
begin_search now wait_spin_ns granted ep =
    let begun = record ep {
      since = or_now now ep.since;
      spin_ns = spin_ns ep.avg_ns wait_spin_ns;
    } in
    if granted
    then (joined, record begun { search_since = some now; rounds = 0 })
    else (parks, start_parking begun)

-- A search since `since`.
unfoldable pub go_on : ℕ → ℕ → SearchEpisode → Round × SearchEpisode
go_on now since ep =
    let rounds = (ep.rounds + 1) % 2 ^ 32 in
    if not (rounds % 16 == 0) || ltb (now - since) ep.spin_ns
    then (spins (rounds % 4 == 0) (rounds % 64 == 0), record ep { rounds = rounds })
    else (parks, start_parking (record ep { search_since = none }))

unfoldable pub search_on : ℕ → ℕ → Bool → SearchEpisode → Option ℕ → Round × SearchEpisode
unfolding begin_search go_on
search_on now wait_spin_ns granted ep none = begin_search now wait_spin_ns granted ep
search_on now wait_spin_ns granted ep (some since) = go_on now since ep

unfoldable pub search_round : ℕ → ℕ → Bool → SearchEpisode → Round × SearchEpisode
unfolding search_on
search_round now wait_spin_ns granted ep =
    if ep.parking then (parks, ep) else search_on now wait_spin_ns granted ep ep.search_since

-- The early return with `retry` true: it only tries to become a searcher.
unfoldable pub retry_round : ℕ → Bool → SearchEpisode → Option ℕ → SearchEpisode
retry_round now granted ep none =
    if not ep.parking && granted then record ep { search_since = some now; rounds = 0 } else ep
retry_round now granted ep (some since) = ep

unfoldable pub no_work_found : Bool → ℕ → ℕ → Bool → SearchEpisode → Round × SearchEpisode
unfolding search_round retry_round
no_work_found true now wait_spin_ns granted ep =
    (spins false false, retry_round now granted ep ep.search_since)
no_work_found false now wait_spin_ns granted ep = search_round now wait_spin_ns granted ep

-- `work_found`, but for the counter and the parking policy's part.
unfoldable pub end_period : ℕ → SearchEpisode → SearchEpisode
unfolding average
end_period now ep = elim ep.since [
  | none ↦ record ep { search_since = none; parking = false }
  | some t ↦ record ep {
    search_since = none;
    parking = false;
    since = none;
    avg_ns = average ep.avg_ns (now - t);
  }
]

abbrev ends : Round → Bool
ends parks = true
ends joined = false
ends (spins duties yields) = false

-- The average never exceeds the larger of the old one and the period, and no budget is longer than 200 µs
-- or what the duties ask for.
spin_bounded :
    (avg d wait : ℕ)
    → (average avg d ≤ max avg d) × (spin_ns avg wait ≤ max (2 * search_limit_ns) wait)
unfolding average spin_ns max
spin_bounded avg d wait = (ground arith, ground arith)

-- Whether a call in a row of them goes on to park; each is at a time, with `retry` or not.
unfoldable pub gives_up : SearchEpisode → List (Bool × ℕ) → Bool
unfolding no_work_found
gives_up ep [] = false
gives_up ep ((retry, now) ∷ calls) =
    let (round, after) = no_work_found retry now 0 false ep in ends round || gives_up after calls

-- The times of the calls with `retry` false.
abbrev pub unretried : List (Bool × ℕ) → List ℕ
unretried [] = []
unretried ((true, now) ∷ calls) = unretried calls
unretried ((false, now) ∷ calls) = now ∷ unretried calls

-- All times are at least this.
abbrev pub AllFrom : ℕ → List ℕ → Type 0
AllFrom t [] = Unit {0}
AllFrom t (now ∷ nows) = (t ≤ now) × AllFrom t nows

-- A call of a searcher, as the round goes on.
searching_round :
    (now since : ℕ) (ep : SearchEpisode)
    → ep.parking ≡ false
    → ep.search_since ≡ some since
    → search_round now 0 false ep ≡ go_on now since ep
unfolding search_round search_on
searching_round now since ep p e =
    ap (λ b. if b then (parks, ep) else search_on now 0 false ep ep.search_since) p
    ∙ ap (search_on now 0 false ep) e

-- A round of 16 is over, and so is the time.
go_on_ends :
    (now since : ℕ) (ep : SearchEpisode)
    → (ep.rounds + 1) % 16 ≡ 0
    → since + ep.spin_ns ≤ now
    → (go_on now since ep).0 ≡ parks
unfolding go_on
go_on_ends now since ep r late = ground arith

-- Else it parks, or goes on with one round more.
go_on_cases :
    (now since : ℕ) (ep : SearchEpisode)
    → (go_on now since ep ≡ (parks, start_parking (record ep { search_since = none })))
      ⊎ ((d y : Bool) × (go_on now since ep
            ≡ (spins d y, record ep { rounds = (ep.rounds + 1) % 2 ^ 32 })))
unfolding go_on
go_on_cases now since ep =
    let rounds = (ep.rounds + 1) % 2 ^ 32 in
    let on : Round × SearchEpisode =
      (spins (rounds % 4 == 0) (rounds % 64 == 0), record ep { rounds = rounds }) in
    let off : Round × SearchEpisode = (parks, start_parking (record ep { search_since = none })) in
    elim (Bool-cases (not (rounds % 16 == 0) || ltb (now - since) ep.spin_ns)) [
      | inl t ↦ inr (rounds % 4 == 0, rounds % 64 == 0, ap (λ b. if b then on else off) t)
      | inr f ↦ inl (ap (λ b. if b then on else off) f)
    ]

empty_or_not : (l : List ℕ) → (length l ≡ 0) ⊎ (0 < length l)
empty_or_not [] = inl refl
empty_or_not (x ∷ l) = inr (omega arith)

-- A worker that searches, and is called again and again with `retry` false once the time that it was given
-- is over, goes on to park in the call with which its rounds reach a multiple of 16, at the latest, however
-- many calls with `retry` true, which count no round, come in between.
pub searcher_gives_up :
    (ep : SearchEpisode) (since : ℕ) (calls : List (Bool × ℕ))
    → ep.parking ≡ false
    → ep.search_since ≡ some since
    → AllFrom (since + ep.spin_ns) (unretried calls)
    → 0 < length (unretried calls)
    → (ep.rounds + length (unretried calls)) % 16 ≡ 0
    → gives_up ep calls ≡ true
unfolding gives_up no_work_found
searcher_gives_up ep since [] p e late some_call r = absurd (omega (arith, some_call))
searcher_gives_up ep since ((true, now) ∷ calls) p e late some_call r =
    ap (λ x. gives_up x calls) (ap (retry_round now false ep) e)
    ∙ searcher_gives_up ep since calls p e late some_call r
searcher_gives_up ep since ((false, now) ∷ calls) p e late some_call r =
    ap (λ x. ends x.0 || gives_up x.1 calls) (searching_round now since ep p e)
    ∙ elim (go_on_cases now since ep) [
      | inl stop ↦ ap (λ x. ends x.0 || gives_up x.1 calls) stop
      | inr (d, y, on) ↦ elim (empty_or_not (unretried calls)) [
        | inl last ↦
            ap (λ x. ends x || gives_up (go_on now since ep).1 calls)
              (go_on_ends now since ep (last_round (unretried calls) last r) late.0)
        | inr more ↦
            ap (λ x. ends x.0 || gives_up x.1 calls) on
            ∙ searcher_gives_up (record ep { rounds = (ep.rounds + 1) % 2 ^ 32 }) since calls p e
                late.1 more (omega (arith, r))
      ]
    ]
  where
    last_round :
        (l : List ℕ)
        → length l ≡ 0
        → (ep.rounds + suc (length l)) % 16 ≡ 0
        → (ep.rounds + 1) % 16 ≡ 0
    last_round l z r = omega (arith, z, r)

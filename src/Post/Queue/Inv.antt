-- ===== src/Post/Queue/Inv.antt =====
-- Every slot with its flag set is in one place, and every post that is not seen will be.
use cmpth_rs.Prelude.{
  ℕ, ◌+◌, ◌≤◌, ◌≡◌, ◌≢◌, ◌⊎◌, inl, inr, refl, Bool, true, false, List, [], Option, none, arith,
  ◌==◌, if◌then◌else◌,
}
use cmpth_rs.Post.Queue.{
  System, started, Producer, ready, marked, pushing, asking, linked, Server, free, lent, locked,
  walking, visiting, cleared, Duty, waiting,
}
use cmpth_rs.Post.Queue.Chain.{Chain, count}

-- The rest of the server's walk.
abbrev pub ahead : Server → Option ℕ
ahead free = none
ahead lent = none
ahead locked = none
ahead (walking p) = p
ahead (visiting i p) = p
ahead (cleared i p) = p

abbrev pub listing : Producer → ℕ
listing ready = 0
listing marked = 0
listing asking = 0
listing pushing = 1
listing (linked h) = 1

abbrev pub current : Server → ℕ → ℕ
current free j = 0
current lent j = 0
current locked j = 0
current (walking p) j = 0
current (visiting i p) j = if i == j then 1 else 0
current (cleared i p) j = 0

abbrev pub flag : Bool → ℕ
flag true = 1
flag false = 0

pub flag_le : (q : Bool) → flag q ≤ 1
flag_le true = omega arith
flag_le false = omega arith

-- A producer's link is what it read.
abbrev pub Links : Producer → Option ℕ → Type 0
Links (linked h) l = l ≡ h
Links ready l = Unit {0}
Links marked l = Unit {0}
Links asking l = Unit {0}
Links pushing l = Unit {0}

abbrev pub IsMarked : Producer → Type 0
IsMarked marked = Unit {0}
IsMarked ready = ⊥
IsMarked pushing = ⊥
IsMarked asking = ⊥
IsMarked (linked h) = ⊥

abbrev pub IsCleared : Server → ℕ → Type 0
IsCleared (cleared i p) j = i ≡ j
IsCleared free j = ⊥
IsCleared lent j = ⊥
IsCleared locked j = ⊥
IsCleared (walking p) j = ⊥
IsCleared (visiting i p) j = ⊥

-- A post that is not seen: its producer is about to set the flag, the flag is set, or the server is
-- about to look.
abbrev pub Owed : ℕ → ℕ → Producer → Bool → Server → ℕ → Type 0
Owed mark seen p queued s j = (mark ≡ seen) ⊎ IsMarked p ⊎ (queued ≡ true) ⊎ IsCleared s j

-- A list that is not empty: a deadline is set, the duty is at it, or a producer is about to ask.
abbrev pub Wanted : Option ℕ → Bool → Duty → (ℕ → Producer) → Type 0
Wanted head deadline duty producers =
    (head ≡ none) ⊎ (deadline ≡ true) ⊎ (duty ≢ waiting) ⊎ ((i : ℕ) × (producers i ≡ asking))

pub record IsPosting (t : System) : Type 0 where
  pub pending : List ℕ
  pub taken : List ℕ
  pub listed : Chain t.head t.link pending
  pub walked : Chain (ahead t.server) t.link taken
  pub places :
      (j : ℕ)
      → listing (t.producers j) + count j pending + count j taken + current t.server j
        ≡ flag (t.queued j)
  pub links : (j : ℕ) → Links (t.producers j) (t.link j)
  pub owed : (j : ℕ) → Owed (t.mark j) (t.seen j) (t.producers j) (t.queued j) t.server j
  pub wanted : Wanted t.head t.deadline t.duty t.producers

pub started-IsPosting : IsPosting started
started-IsPosting = record {
  pending = [];
  taken = [];
  listed = refl;
  walked = refl;
  places = λ j. refl;
  links = λ j. tt;
  owed = λ j. inl refl;
  wanted = inl refl;
}

-- A producer that does not ask now does not become the one that asks for the list.
pub Wanted_other :
    (head : Option ℕ) (deadline : Bool) (duty : Duty) (f g : ℕ → Producer)
    → ((j : ℕ) → f j ≡ asking → g j ≡ asking)
    → Wanted head deadline duty f
    → Wanted head deadline duty g
Wanted_other head deadline duty f g keep (inl e) = inl e
Wanted_other head deadline duty f g keep (inr (inl e)) = inr (inl e)
Wanted_other head deadline duty f g keep (inr (inr (inl n))) = inr (inr (inl n))
Wanted_other head deadline duty f g keep (inr (inr (inr (i, e)))) = inr (inr (inr (i, keep i e)))

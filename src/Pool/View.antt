-- ===== src/Pool/View.antt =====
-- The free lists as lists, and where each node is.
use cmpth_rs.Prelude.{
  ℕ, ◌≡◌, Option, none, some, List, [], ◌∷◌, ◌++◌, ltb, ◌==◌, ◌&&◌, if◌then◌else◌, update, length,
  Among, Distinct,
}
use cmpth_rs.Pool.{Lists, ProList}

-- A node is in use (or not yet allocated), in a worker's list, in its mailbox, or staged by one
-- worker for another.
pub data Place : Type 0 where
  used : Place
  local : ℕ → Place
  remote : ℕ → Place
  staged : ℕ → ℕ → Place

pub record View : Type 0 where
  pub locals : ℕ → List ℕ
  pub remotes : ℕ → List ℕ
  pub batches : ℕ → ℕ → List ℕ
  pub place : ℕ → Place

-- The nodes of a chain that ends in null.
abbrev pub Seg : (ℕ → Option ℕ) → Option ℕ → List ℕ → Type 0
Seg next h [] = h ≡ none
Seg next h (x ∷ xs) = (h ≡ some x) × Seg next (next x) xs

abbrev pub last? : List ℕ → Option ℕ
last? [] = none
last? (x ∷ []) = some x
last? (x ∷ y ∷ xs) = last? (y ∷ xs)

-- `p` holds the batch `xs`.
pub record Batch (next : ℕ → Option ℕ) (p : ProList) (xs : List ℕ) : Type 0 where
  pub chained : Seg next p.first xs
  pub counted : p.num ≡ length xs
  pub ended : p.last ≡ last? xs

-- All nodes of `xs` are at `at`, each once.
pub record Holds (place : ℕ → Place) (at : Place) (xs : List ℕ) : Type 0 where
  pub placed : (x : ℕ) → Among x xs → place x ≡ at
  pub found : (x : ℕ) → place x ≡ at → Among x xs
  pub distinct : Distinct xs

pub record Reps (s : Lists) (v : View) : Type 0 where
  pub local_seg : (w : ℕ) → Seg s.next (s.con_local w) (v.locals w)
  pub remote_seg : (w : ℕ) → Seg s.next (s.con_remote w) (v.remotes w)
  pub batch : (w h : ℕ) → Batch s.next (s.pro w h) (v.batches w h)
  pub local_holds : (w : ℕ) → Holds v.place (local w) (v.locals w)
  pub remote_holds : (w : ℕ) → Holds v.place (remote w) (v.remotes w)
  pub batch_holds : (w h : ℕ) → Holds v.place (staged w h) (v.batches w h)

-- What the operations mean. `take`: a node of the own list, else of the mailbox.
abbrev pub emptied : ℕ → Place → Place
emptied wk (remote w) = if w == wk then local wk else remote w
emptied wk p = p

abbrev pub take_remote : ℕ → View → List ℕ → Option ℕ × View
take_remote wk v [] = (none, v)
take_remote wk v (x ∷ xs) = (
  some x,
  record v {
    locals = update v.locals wk xs;
    remotes = update v.remotes wk [];
    place = update (λ y. emptied wk (v.place y)) x used;
  },
)

abbrev pub take_local : ℕ → View → List ℕ → Option ℕ × View
take_local wk v [] = take_remote wk v (v.remotes wk)
take_local wk v (x ∷ xs) =
    (some x, record v { locals = update v.locals wk xs; place = update v.place x used })

abbrev pub taken : ℕ → View → Option ℕ × View
taken wk v = take_local wk v (v.locals wk)

abbrev pub set_batch : View → ℕ → ℕ → List ℕ → ℕ → ℕ → List ℕ
set_batch v wk home xs = update v.batches wk (update (v.batches wk) home xs)

abbrev pub flushed : ℕ → ℕ → Place → Place
flushed wk home (staged w h) = if (w == wk) && (h == home) then remote home else staged w h
flushed wk home p = p

-- `give`: a node goes to its home worker's list, or is staged; a full batch goes to the mailbox.
abbrev pub given : ℕ → ℕ → ℕ → ℕ → View → View
given threshold wk home node v =
    if home == wk
    then record v {
      locals = update v.locals wk (node ∷ v.locals wk);
      place = update v.place node (local wk);
    }
    else if ltb (length (v.batches wk home)) threshold
    then record v {
      batches = set_batch v wk home (node ∷ v.batches wk home);
      place = update v.place node (staged wk home);
    }
    else record v {
      batches = set_batch v wk home (node ∷ []);
      remotes = update v.remotes home (v.batches wk home ++ v.remotes home);
      place = update (λ y. flushed wk home (v.place y)) node (staged wk home);
    }

-- ===== src/Post/Queue/Chain.antt =====
-- Lists through the slots' links.
use cmpth_rs.Prelude.{
  ℕ, ◌+◌, ◌≡◌, ◌≢◌, List, [], ◌∷◌, Option, none, some, arith, ◌==◌, if◌then◌else◌, update,
  update_ne,
}

-- The slots from `h` on.
abbrev pub Chain : Option ℕ → (ℕ → Option ℕ) → List ℕ → Type 0
Chain h link [] = h ≡ none
Chain h link (x ∷ xs) = (h ≡ some x) × Chain (link x) link xs

abbrev pub count : ℕ → List ℕ → ℕ
count i [] = 0
count i (x ∷ xs) = (if x == i then 1 else 0) + count i xs

-- A link of a slot that is not in the list.
pub Chain-link :
    (h : Option ℕ) (link : ℕ → Option ℕ) (i : ℕ) (v : Option ℕ) (xs : List ℕ)
    → count i xs ≡ 0
    → Chain h link xs
    → Chain h (update link i v) xs
Chain-link h link i v [] z c = c
Chain-link h link i v (x ∷ xs) z c =
    let ne : i ≢ x = ground arith in
    (c.0, rw (update_ne link v ne) (Chain-link (link x) link i v xs (ground arith) c.1))

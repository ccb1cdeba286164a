-- ===== src/Timers/Heap.antt =====
-- The heap of the timers is in order.
use cmpth_rs.Prelude.{
  ℕ, ◌≤◌, ◌≡◌, sym, ap, subst, ◌⊎◌, inl, inr, true, false, List, [], ◌∷◌, arith, min, min-le_right,
  Among, Bool-cases,
}
use cmpth_rs.Timers.{before, heap_push, rearm}

abbrev pub Sorted : List (ℕ × ℕ) → Type 0
Sorted [] = Unit {0}
Sorted ((at, id) ∷ xs) = ((at' id' : ℕ) → Among (at', id') xs → at ≤ at') × Sorted xs

pub Among-heap_push :
    (e x : ℕ × ℕ) (xs : List (ℕ × ℕ)) → Among x (heap_push e xs) → (x ≡ e) ⊎ Among x xs
Among-heap_push e x [] = λ m. m
Among-heap_push e x (y ∷ ys) = elim (Bool-cases (before e y)) [
  | inl first ↦ rw first (λ m. m)
  | inr behind ↦ rw behind (λ m. elim m [
    | inl w ↦ inr (inl w)
    | inr m' ↦ elim (Among-heap_push e x ys m') [ inl w ↦ inl w | inr k ↦ inr (inr k) ]
  ])
]

pub heap_push-Among :
    (e x : ℕ × ℕ) (xs : List (ℕ × ℕ)) → (x ≡ e) ⊎ Among x xs → Among x (heap_push e xs)
heap_push-Among e x [] = λ m. m
heap_push-Among e x (y ∷ ys) = elim (Bool-cases (before e y)) [
  | inl first ↦ rw first (λ m. m)
  | inr behind ↦ rw behind (λ m. elim m [
    | inl w ↦ inr (heap_push-Among e x ys (inl w))
    | inr (inl w) ↦ inl w
    | inr (inr k) ↦ inr (heap_push-Among e x ys (inr k))
  ])
]

before-le : (at id at' id' : ℕ) → before (at, id) (at', id') ≡ true → at ≤ at'
before-le at id at' id' e = ground arith

before-ge : (at id at' id' : ℕ) → before (at, id) (at', id') ≡ false → at' ≤ at
before-ge at id at' id' e = ground arith

pub heap_push-Sorted : (e : ℕ × ℕ) (xs : List (ℕ × ℕ)) → Sorted xs → Sorted (heap_push e xs)
heap_push-Sorted (at, id) [] s = (λ at' id' m. absurd m, tt)
heap_push-Sorted (at, id) ((a, k) ∷ ys) (least, s) = elim (Bool-cases (before (at, id) (a, k))) [
  | inl first ↦ rw first (
    λ at' id' m. elim m [
      | inl w ↦ subst (λ z. at ≤ z) (sym (ap (λ p. p.0) w)) (before-le at id a k first)
      | inr m' ↦ omega (arith, before-le at id a k first, least at' id' m')
    ],
    (least, s),
  )
  | inr behind ↦ rw behind (
    λ at' id' m. elim (Among-heap_push (at, id) (at', id') ys m) [
      | inl w ↦ subst (λ z. a ≤ z) (sym (ap (λ p. p.0) w)) (before-ge at id a k behind)
      | inr m' ↦ least at' id' m'
    ],
    heap_push-Sorted (at, id) ys s,
  )
]

-- After the deadline is lowered to the head it is not later than any entry.
pub rearm-le : (xs : List (ℕ × ℕ)) (d at id : ℕ) → Sorted xs → Among (at, id) xs → rearm xs d ≤ at
rearm-le [] d at id s m = absurd m
rearm-le ((a, k) ∷ xs) d at id (least, s) (inl w) =
    subst (λ z. min d a ≤ z) (sym (ap (λ p. p.0) w)) (min-le_right d a)
rearm-le ((a, k) ∷ xs) d at id (least, s) (inr m) = omega (arith, min-le_right d a, least at id m)

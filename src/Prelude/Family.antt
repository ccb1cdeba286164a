-- ===== src/Prelude/Family.antt =====
-- Tables that have one entry per thread or node, and what a change of one entry leaves alone.
use Prim.Native.Nat.{ℕ}
use mathlib.Core.Path.{◌≡◌, subst}
use mathlib.Core.Logic.{ite, ◌≢◌, ◌⊎◌, inl, inr}
use native.Mathlib.Decide.{ℕ_discrete}
use native.Mathlib.Omega.{arith}

abbrev pub update {ℓ} : {A : Type ℓ} → (ℕ → A) → ℕ → A → ℕ → A
update f i a j = ite (ℕ_discrete i j) a (f j)

pub update_self {ℓ} : {A : Type ℓ} (f : ℕ → A) (i : ℕ) (a : A) → update f i a i ≡ a
update_self f i a = ground arith

pub update_ne {ℓ} : {A : Type ℓ} (f : ℕ → A) {i j : ℕ} (a : A) → i ≢ j → update f i a j ≡ f j
update_ne f a h = ground arith

-- What holds at the new value and at every old one holds all over.
pub update_all {ℓ κ} :
    {A : Type ℓ} (P : A → Type κ) (f : ℕ → A) (i : ℕ) {a : A}
    → P a
    → ((j : ℕ) → P (f j))
    → (j : ℕ) → P (update f i a j)
update_all P f i {a} new old j = elim (ℕ_discrete i j) as (λ d. P (ite d a (f j))) [
  | yes e ↦ new
  | no e ↦ old j
]

-- The same for a property that depends on the index.
pub update_each {ℓ κ} :
    {A : Type ℓ} (P : ℕ → A → Type κ) (f : ℕ → A) (i : ℕ) {a : A}
    → P i a
    → ((j : ℕ) → i ≢ j → P j (f j))
    → (j : ℕ) → P j (update f i a j)
update_each P f i {a} new old j = elim (ℕ_discrete i j) as (λ d. P j (ite d a (f j))) [
  | yes e ↦ subst (λ k. P k a) e new
  | no e ↦ old j e
]

-- Two families that change at the same index.
pub update_both {ℓ κ μ} :
    {A : Type ℓ} {B : Type κ} (P : ℕ → A → B → Type μ) (f : ℕ → A) (g : ℕ → B) (i : ℕ) {a : A}
    {b : B}
    → P i a b
    → ((j : ℕ) → i ≢ j → P j (f j) (g j))
    → (j : ℕ) → P j (update f i a j) (update g i b j)
update_both P f g i {a} {b} new old j =
    elim (ℕ_discrete i j) as (λ d. P j (ite d a (f j)) (ite d b (g j))) [
      | yes e ↦ subst (λ k. P k a b) e new
      | no e ↦ old j e
    ]

-- Two families of two indices that change at one pair.
pub update_pair {ℓ κ μ} :
    {A : Type ℓ} {B : Type κ} (P : ℕ → ℕ → A → B → Type μ) (f : ℕ → ℕ → A) (g : ℕ → ℕ → B) (i k : ℕ)
    {a : A} {b : B}
    → P i k a b
    → ((j l : ℕ) → (i ≢ j) ⊎ (k ≢ l) → P j l (f j l) (g j l))
    → (j l : ℕ) → P j l (update f i (update (f i) k a) j l) (update g i (update (g i) k b) j l)
update_pair P f g i k new old j =
    update_both (λ j x y. (l : ℕ) → P j l (x l) (y l)) f g i
      (update_both (P i) (f i) (g i) k new (λ l ne. old i l (inr ne))) (λ j ne l. old j l (inl ne))
      j

-- ===== src/Pool/Drop/Everything.antt =====
-- The loop over the workers frees what is in their lists, each node once.
use cmpth_rs.Prelude.{
  ℕ_discrete, ◌+◌, ℕ, zero, suc, ◌<◌, ◌≡◌, ◌≢◌, refl, sym, ap, ◌∙◌, Bool, true, false, arith, ltb,
  ◌==◌, if◌then◌else◌,
}
use cmpth_rs.Pool.{Lists}
use cmpth_rs.Pool.View.{Place, used, local, remote, staged, View, Reps}
use cmpth_rs.Pool.Drop.{free_batches, free_worker, drop_all_nodes}
use cmpth_rs.Pool.Drop.Chains.{Frees, nothing-Frees, Frees-same, and_then-Frees, chain-Frees}

-- The places that are empty once `k` chains of `wk`, and all of the workers before it, were freed.
abbrev pub gone : ℕ → ℕ → Place → Bool
gone wk k used = false
gone wk k (local w) = if w == wk then ltb 0 k else ltb w wk
gone wk k (remote w) = if w == wk then ltb 1 k else ltb w wk
gone wk k (staged w h) = if w == wk then ltb (h + 2) k else ltb w wk

local_only : (wk : ℕ) (p : Place) → p ≢ local wk → gone wk 0 p ≡ gone wk 1 p
local_only wk used ne = refl
local_only wk (local w) ne = elim (ℕ_discrete w wk) [
  | yes e ↦ absurd (ne (ap local e))
  | no other ↦ ground (arith, other)
]
local_only wk (remote w) ne = ground arith
local_only wk (staged w h) ne = ground arith

remote_only : (wk : ℕ) (p : Place) → p ≢ remote wk → gone wk 1 p ≡ gone wk 2 p
remote_only wk used ne = refl
remote_only wk (local w) ne = ground arith
remote_only wk (remote w) ne = elim (ℕ_discrete w wk) [
  | yes e ↦ absurd (ne (ap remote e))
  | no other ↦ ground (arith, other)
]
remote_only wk (staged w h) ne = ground arith

batch_only : (wk k : ℕ) (p : Place) → p ≢ staged wk k → gone wk (k + 2) p ≡ gone wk (suc k + 2) p
batch_only wk k used ne = refl
batch_only wk k (local w) ne = ground arith
batch_only wk k (remote w) ne = ground arith
batch_only wk k (staged w h) ne = elim (ℕ_discrete w wk) [
  | no other ↦ ground (arith, other)
  | yes e ↦ elim (ℕ_discrete h k) [
    | yes e' ↦ absurd (ne (ap (λ u. staged u h) e ∙ ap (staged wk) e'))
    | no other ↦ ground (arith, other)
  ]
]

-- Nothing is staged by or for a worker that is not one of the pool's.
abbrev pub IsWithin : ℕ → Place → Type 0
IsWithin n used = Unit {0}
IsWithin n (local w) = w < n
IsWithin n (remote w) = w < n
IsWithin n (staged w h) = (w < n) × (h < n)

next_worker : (n wk : ℕ) (p : Place) → IsWithin n p → gone wk (n + 2) p ≡ gone (suc wk) 0 p
next_worker n wk used within = refl
next_worker n wk (local w) lt = ground arith
next_worker n wk (remote w) lt = ground arith
next_worker n wk (staged w h) (lt, lt') = ground (arith, lt')

module _ {s : Lists} {v : View} (reps : Reps s v) (live : ℕ → Bool) (n : ℕ)
    (alive : (x : ℕ) → v.place x ≢ used → live x ≡ true)
    (within : (x : ℕ) → IsWithin n (v.place x)) where
  open reps use {local_seg, remote_seg, batch, local_holds, remote_holds, batch_holds}

  is_live : (at : Place) → at ≢ used → (x : ℕ) → v.place x ≡ at → live x ≡ true
  is_live at ne x e = alive x (λ w. ne (sym e ∙ w))

  batches-Frees :
      (wk k : ℕ)
      → Frees v.place live (λ fuel now. free_batches s fuel wk k now) (gone wk 2) (gone wk (k + 2))
  unfolding free_batches
  batches-Frees wk zero = nothing-Frees v.place live (gone wk 2)
  batches-Frees wk (suc k) =
      and_then-Frees v.place live _ _ (gone wk 2) (gone wk (k + 2)) (gone wk (suc k + 2))
        (batches-Frees wk k)
        (chain-Frees v.place live s.next (s.pro wk k).first (v.batches wk k) (staged wk k)
          (gone wk (k + 2)) (gone wk (suc k + 2)) (batch wk k).chained (batch_holds wk k)
          (is_live (staged wk k) (λ e. cc e)) (ground arith) (ground arith)
          (λ x ne. batch_only wk k (v.place x) ne))

  worker-Frees :
      (wk : ℕ)
      → Frees v.place live (λ fuel now. free_worker s fuel n wk now) (gone wk 0) (gone (suc wk) 0)
  unfolding free_worker
  worker-Frees wk =
      and_then-Frees v.place live _ _ (gone wk 0) (gone wk 1) (gone (suc wk) 0)
        (chain-Frees v.place live s.next (s.con_local wk) (v.locals wk) (local wk) (gone wk 0)
          (gone wk 1) (local_seg wk) (local_holds wk) (is_live (local wk) (λ e. cc e))
          (ground arith) (ground arith) (λ x ne. local_only wk (v.place x) ne))
        (and_then-Frees v.place live _ _ (gone wk 1) (gone wk 2) (gone (suc wk) 0)
          (chain-Frees v.place live s.next (s.con_remote wk) (v.remotes wk) (remote wk) (gone wk 1)
            (gone wk 2) (remote_seg wk) (remote_holds wk) (is_live (remote wk) (λ e. cc e))
            (ground arith) (ground arith) (λ x ne. remote_only wk (v.place x) ne))
          (Frees-same v.place live _ (gone wk 2) (gone wk (n + 2)) (gone (suc wk) 0)
            (λ x. next_worker n wk (v.place x) (within x)) (batches-Frees wk n)))

  pub all-Frees :
      (k : ℕ) → Frees v.place live (λ fuel now. drop_all_nodes s fuel n k now) (gone 0 0) (gone k 0)
  unfolding drop_all_nodes
  all-Frees zero = nothing-Frees v.place live (gone 0 0)
  all-Frees (suc k) =
      and_then-Frees v.place live _ _ (gone 0 0) (gone k 0) (gone (suc k) 0) (all-Frees k)
        (worker-Frees k)

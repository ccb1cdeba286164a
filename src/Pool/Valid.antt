-- ===== src/Pool/Valid.antt =====
-- The invariant of `ReturnPool`: where its nodes are.
use cmpth_rs.Prelude.{
  ◌&&◌, Option-cases, ℕ, ◌≡◌, ◌≢◌, refl, sym, subst, ◌∙◌, inl, inr, Bool, true, false, arith, ◌==◌,
  update, Bool-cases,
}
use cmpth_rs.Pool.{Lists, drain_remote, node_take}
use cmpth_rs.Pool.View.{Place, used, local, remote, staged, View, Reps, emptied, flushed}
use cmpth_rs.Pool.Return.{ReturnPool}

-- A node in a list is a live box of the pool's own size that no caller holds, and it is in, or on
-- its way to, the list of its home worker. Outside the lists the callers hold every live box.
abbrev pub IsKept : Bool → Bool → Bool → ℕ → Place → Type 0
IsKept held live over home used = held ≡ live
IsKept held live over home (local w) =
    (held ≡ false) × ((live ≡ true) × ((over ≡ false) × (w ≡ home)))
IsKept held live over home (remote w) =
    (held ≡ false) × ((live ≡ true) × ((over ≡ false) × (w ≡ home)))
IsKept held live over home (staged w h) =
    (held ≡ false) × ((live ≡ true) × ((over ≡ false) × (h ≡ home)))

-- `held` are the nodes that were handed out and not returned.
pub record IsValid (held : ℕ → Bool) (p : ReturnPool) : Type 0 where
  pub view : View
  pub reps : Reps p.lists view
  pub kept :
      (n : ℕ) → IsKept (held n) (p.live n) (p.oversized n) (p.lists.alloc_wk n) (view.place n)

pub emptied-IsKept :
    (wk : ℕ) (h l o : Bool) (home : ℕ) (p : Place)
    → IsKept h l o home p
    → IsKept h l o home (emptied wk p)
emptied-IsKept wk h l o home used k = k
emptied-IsKept wk h l o home (local w) k = k
emptied-IsKept wk h l o home (staged w u) k = k
emptied-IsKept wk h l o home (remote w) k = elim (Bool-cases (w == wk)) [
  | inl e ↦
      rw e (subst (λ u. (h ≡ false) × ((l ≡ true) × ((o ≡ false) × (u ≡ home)))) (ground arith) k)
  | inr e ↦ rw e k
]

pub flushed-IsKept :
    (wk to : ℕ) (h l o : Bool) (home : ℕ) (p : Place)
    → IsKept h l o home p
    → IsKept h l o home (flushed wk to p)
flushed-IsKept wk to h l o home used k = k
flushed-IsKept wk to h l o home (local w) k = k
flushed-IsKept wk to h l o home (remote w) k = k
flushed-IsKept wk to h l o home (staged w u) k = elim (Bool-cases ((w == wk) && (u == to))) [
  | inl e ↦
      rw e (subst (λ x. (h ≡ false) × ((l ≡ true) × ((o ≡ false) × (x ≡ home)))) (ground arith) k)
  | inr e ↦ rw e k
]

pub unheld :
    (h l o : Bool) (home : ℕ) (p : Place)
    → IsKept h l o home p
    → p ≢ used
    → (h ≡ false) × (l ≡ true)
unheld h l o home used k ne = absurd (ne refl)
unheld h l o home (local w) k ne = (k.0, k.1.0)
unheld h l o home (remote w) k ne = (k.0, k.1.0)
unheld h l o home (staged w u) k ne = (k.0, k.1.0)

pub dead-used :
    (h l o : Bool) (home : ℕ) (p : Place)
    → IsKept h l o home p
    → l ≡ false
    → (h ≡ false) × (p ≡ used)
dead-used h l o home used k e = (k ∙ e, refl)
dead-used h l o home (local w) k e = cc (k.1.0, e)
dead-used h l o home (remote w) k e = cc (k.1.0, e)
dead-used h l o home (staged w u) k e = cc (k.1.0, e)

pub held-used :
    (h l o : Bool) (home : ℕ) (p : Place) → IsKept h l o home p → h ≡ true → (l ≡ true) × (p ≡ used)
held-used h l o home used k e = (sym k ∙ e, refl)
held-used h l o home (local w) k e = cc (k.0, e)
held-used h l o home (remote w) k e = cc (k.0, e)
held-used h l o home (staged w u) k e = cc (k.0, e)

pub node_take-alloc_wk : (wk : ℕ) (s : Lists) → (node_take wk s).1.alloc_wk ≡ s.alloc_wk
unfolding node_take drain_remote
node_take-alloc_wk wk s = elim (Option-cases (s.con_local wk)) [
  | inr node ↦ rw (node.1, node_take) refl
  | inl empty ↦ elim (Option-cases (s.con_remote wk)) [
    | inr head ↦ rw (empty, head.1, node_take, drain_remote) refl
    | inl no_mail ↦ rw (empty, no_mail, node_take, drain_remote) refl
  ]
]

-- Handed out to `wk`: not held before, held after, and `wk` is its home.
abbrev pub Handed : (ℕ → Bool) → ℕ → ℕ × ReturnPool → Type 0
Handed held wk out =
    (held out.0 ≡ false)
    × (out.1.lists.alloc_wk out.0 ≡ wk)
    × IsValid (update held out.0 true) out.1

-- ===== src/Post/Queue/Running.antt =====
-- A run of the duty from its deadline to the end of its walk.
use cmpth_rs.Prelude.{
  ℕ, ◌≡◌, refl, sym, ap, subst, ◌∙◌, ◌⊎◌, inl, inr, true, false, List, [], ◌∷◌, Option, none, some,
  if◌then◌else◌, update, update_self, update_each, Among,
}
use cmpth_rs.Post.Queue.{
  System, free, locked, walking, visiting, cleared, waiting, calling, trying, inside, returned,
  is_none, collect_batch, serve_batch, leave, Step, drain, visit, clear, collect, unlock, fire,
  glance, enter, Reach, next,
}
use cmpth_rs.Post.Queue.Chain.{Chain}

-- A run that leaves the marks alone.
pub data Serving : System → System → Type 0 where
  done : {t : System} → Serving t t
  more : {t u w : System} → Step t u → u.mark ≡ t.mark → Serving u w → Serving t w

pub Serving-mark : {t u : System} → Serving t u → u.mark ≡ t.mark
Serving-mark done = refl
Serving-mark (more st e r) = Serving-mark r ∙ e

pub Serving-Reach : {t u : System} → Serving t u → Reach t → Reach u
Serving-Reach done r = r
Serving-Reach (more st e s) r = Serving-Reach s (next r st)

Serving-trans : {t u w : System} → Serving t u → Serving u w → Serving t w
Serving-trans done s = s
Serving-trans (more st e r) s = more st e (Serving-trans r s)

-- The server's walk can go on to its end, and what was seen or is in its list is then seen.
walk :
    (t : System) (h : Option ℕ) (xs : List ℕ)
    → t.server ≡ walking h
    → Chain h t.link xs
    → (u : System) × Serving t u
      × (u.server ≡ walking none)
      × ((j : ℕ) → (t.seen j ≡ t.mark j) ⊎ Among j xs → u.seen j ≡ t.mark j)
walk t h [] e c = (t, done, e ∙ ap walking c, λ j s. elim s [ inl same ↦ same | inr m ↦ absurd m ])
walk t h (x ∷ xs) e (at, rest) =
    let visited : System = record t { server = visiting x (t.link x) } in
    let unflagged : System = record t {
      server = cleared x (t.link x);
      queued = update t.queued x false;
    } in
    let after : System = record unflagged {
      server = walking (t.link x);
      seen = update t.seen x (t.mark x);
      batch = collect_batch x (t.mark x) (t.seen x) t.batch;
    } in
    let (u, run, over, seen) = walk after (t.link x) xs refl rest in
    (
      u,
      more (visit x (e ∙ ap walking at)) refl (
          more {t = visited} {u = unflagged} (clear x (t.link x) refl) refl
            (more {t = unflagged} {u = after} (collect x (t.link x) refl) refl run)),
      over,
      λ j s. seen j (seen_now t x xs j s),
    )
  where
    seen_now :
        (t : System) (x : ℕ) (xs : List ℕ) (j : ℕ)
        → (t.seen j ≡ t.mark j) ⊎ Among j (x ∷ xs)
        → (update t.seen x (t.mark x) j ≡ t.mark j) ⊎ Among j xs
    seen_now t x xs j (inl same) = inl (
        update_each (λ i s. t.seen i ≡ t.mark i → s ≡ t.mark i) t.seen x (λ _. refl) (λ i _ k. k) j
          same)
    seen_now t x xs j (inr (inl here)) = inl (
        subst (λ i. update t.seen x (t.mark x) i ≡ t.mark i) (sym here)
          (update_self t.seen x (t.mark x)))
    seen_now t x xs j (inr (inr m)) = inr m

-- With a deadline and a list, if nobody has the lock, the duty can run, and what is in the list is then
-- seen.
pub duty_serves :
    (t : System) (i : ℕ) (xs : List ℕ)
    → t.server ≡ free
    → t.duty ≡ waiting
    → t.deadline ≡ true
    → t.head ≡ some i
    → Chain t.head t.link xs
    → (u : System) × Serving t u × (u.server ≡ free) × ((j : ℕ) → Among j xs → u.seen j ≡ t.mark j)
unfolding is_none
duty_serves t i xs f w on e c =
    let called : System = record t { duty = calling; deadline = false } in
    let glanced : System = record called { duty = if is_none t.head then returned else trying } in
    let entered : System = record glanced { duty = inside; server = locked } in
    let drained : System = record entered { server = walking t.head; head = none; batch = [] } in
    let (u, run, over, seen) = walk drained t.head xs refl c in
    (
      record u { server = free; served = serve_batch u.batch u.served; duty = leave u.duty },
      more {u = called} (fire w on) refl (
          more {t = called} {u = glanced} (glance refl) refl (
            more {t = glanced} {u = entered}
              (enter (ap (λ h. if is_none h then returned else trying) e) f) refl
              (more {t = entered} {u = drained} (drain refl) refl
                (Serving-trans run (more (unlock over) refl done))))),
      refl,
      λ j m. seen j (inr m),
    )

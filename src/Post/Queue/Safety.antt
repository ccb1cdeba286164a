-- ===== src/Post/Queue/Safety.antt =====
-- No post is lost, and every slot is listed once.
use cmpth_rs.Prelude.{
  Among, Option-cases, [], ◌∷◌, ◌⊎◌, ℕ_discrete, sym, ℕ, ◌+◌, ◌≤◌, ◌≡◌, ◌≢◌, inl, inr, refl, ap,
  subst, ◌∙◌, Bool, true, false, List, Option, none, some, arith, if◌then◌else◌,
}
use cmpth_rs.Post.Queue.{
  System, Producer, ready, free, Duty, waiting, calling, trying, returned, is_none, Step, bump,
  swap, aim, list, retry, ask, lock, lend, give_back, drain, visit, clear, collect, unlock, fire,
  glance, enter, give_up, look_again, Reach, here, next,
}
use cmpth_rs.Post.Queue.Chain.{Chain, count}
use cmpth_rs.Post.Queue.Inv.{
  IsPosting, ahead, listing, current, flag, Owed, Wanted, started-IsPosting,
}
use cmpth_rs.Post.Queue.Running.{Serving, Serving-Reach, duty_serves}
use cmpth_rs.Post.Queue.Delivered.{Handed, seen-Handed}
use cmpth_rs.Post.Queue.Producing.{
  bump_keeps, swap_keeps, aim_keeps, list_keeps, retry_keeps, ask_keeps,
}
use cmpth_rs.Post.Queue.Serving.{
  walked_none, lock_keeps, lend_keeps, give_back_keeps, drain_keeps, visit_keeps, clear_keeps,
  collect_keeps, unlock_keeps, enter_keeps, duty_keeps,
}

busy :
    (d : Duty) (head : Option ℕ) (deadline : Bool) (f : ℕ → Producer)
    → d ≢ waiting
    → Wanted head deadline d f
busy d head deadline f n = inr (inr (inl n))

glanced : (h : Option ℕ) → (if is_none h then returned else trying) ≢ waiting
unfolding is_none
glanced none = λ e. cc
glanced (some i) = λ e. cc

looked :
    (h : Option ℕ) (deadline : Bool) (f : ℕ → Producer)
    → Wanted h (if is_none h then deadline else true) waiting f
unfolding is_none
looked none deadline f = inl refl
looked (some i) deadline f = inr (inl refl)

Step-IsPosting : {t u : System} → Step t u → IsPosting t → IsPosting u
Step-IsPosting {t} (bump i e) v = bump_keeps t v i e
Step-IsPosting {t} (swap i e) v = swap_keeps t v i e
Step-IsPosting {t} (aim i e) v = aim_keeps t v i e
Step-IsPosting {t} (list i h e s) v = list_keeps t v i h e s
Step-IsPosting {t} (retry i h e) v = retry_keeps t v i h e
Step-IsPosting {t} (ask i e) v = ask_keeps t v i e
Step-IsPosting {t} (lock e) v = lock_keeps t v e
Step-IsPosting {t} (lend e) v = lend_keeps t v e
Step-IsPosting {t} (give_back e) v = give_back_keeps t v e
Step-IsPosting {t} (drain e) v = drain_keeps t v e
Step-IsPosting {t} (visit i e) v = visit_keeps t v i e
Step-IsPosting {t} (clear i p e) v = clear_keeps t v i p e
Step-IsPosting {t} (collect i p e) v = collect_keeps t v i p e
Step-IsPosting {t} (unlock e) v = unlock_keeps t v e
Step-IsPosting {t} (fire d e) v =
    duty_keeps t v calling false (busy calling t.head false t.producers (λ x. cc))
Step-IsPosting {t} (glance d) v =
    duty_keeps t v (if is_none t.head then returned else trying) t.deadline (
      busy (if is_none t.head then returned else trying) t.head t.deadline t.producers
        (glanced t.head))
Step-IsPosting {t} (enter d e) v = enter_keeps t v d e
Step-IsPosting {t} (give_up d) v =
    duty_keeps t v returned t.deadline (busy returned t.head t.deadline t.producers (λ x. cc))
Step-IsPosting {t} (look_again d) v =
    duty_keeps t v waiting (if is_none t.head then t.deadline else true)
      (looked t.head t.deadline t.producers)

pub Reach-IsPosting : {t : System} → Reach t → IsPosting t
Reach-IsPosting here = started-IsPosting
Reach-IsPosting (next r st) = Step-IsPosting st (Reach-IsPosting r)

-- Nobody is in the middle of a call, and no lock is held.
pub record IsQuiet (t : System) : Type 0 where
  pub producers : (j : ℕ) → t.producers j ≡ ready
  pub server : t.server ≡ free
  pub duty : t.duty ≡ waiting

quiet-Owed : (m s : ℕ) (q : Bool) (j : ℕ) → m ≢ s → Owed m s ready q free j → q ≡ true
quiet-Owed m s q j n (inl e) = absurd (n e)
quiet-Owed m s q j n (inr (inl e)) = absurd e
quiet-Owed m s q j n (inr (inr (inl e))) = e
quiet-Owed m s q j n (inr (inr (inr e))) = absurd e

quiet_queued :
    (t : System) (v : IsPosting t) (j : ℕ) → IsQuiet t → t.mark j ≢ t.seen j → t.queued j ≡ true
quiet_queued t v j q n =
    let o : Owed (t.mark j) (t.seen j) ready (t.queued j) t.server j =
      subst (λ p. Owed (t.mark j) (t.seen j) p (t.queued j) t.server j) (q.producers j)
        (v.owed j) in
    let f : Owed (t.mark j) (t.seen j) ready (t.queued j) free j =
      subst (λ s. Owed (t.mark j) (t.seen j) ready (t.queued j) s j) q.server o in
    quiet-Owed (t.mark j) (t.seen j) (t.queued j) j n f

quiet_pending :
    (t : System) (v : IsPosting t) (j : ℕ) → IsQuiet t → t.queued j ≡ true → count j v.pending ≡ 1
quiet_pending t v j q n =
    let ys =
      walked_none t.link v.taken (subst (λ s. Chain (ahead s) t.link v.taken) q.server v.walked) in
    let a : 0 + count j v.pending + count j v.taken + current t.server j ≡ flag (t.queued j) =
      subst
        (λ p.
          listing p + count j v.pending + count j v.taken + current t.server j ≡ flag (t.queued j))
        (q.producers j) (v.places j) in
    let b : 0 + count j v.pending + count j v.taken + 0 ≡ flag (t.queued j) =
      subst (λ s. 0 + count j v.pending + count j v.taken + current s j ≡ flag (t.queued j))
        q.server a in
    let p : 0 + count j v.pending + count j v.taken + 0 ≡ 1 = b ∙ ap flag n in
    let w : count j v.taken ≡ 0 = rw ys refl in omega (arith, p, w)

quiet_listed :
    (t : System) (v : IsPosting t) (j : ℕ) → IsQuiet t → t.queued j ≡ true → t.head ≢ none
quiet_listed t v j q n empty =
    let xs = walked_none t.link v.pending (subst (λ h. Chain h t.link v.pending) empty v.listed) in
    let z : count j v.pending ≡ 0 = rw xs refl in absurd (omega (arith, quiet_pending t v j q n, z))

quiet_want :
    (h : Option ℕ) (deadline : Bool) (f : ℕ → Producer)
    → h ≢ none
    → ((j : ℕ) → f j ≡ ready)
    → Wanted h deadline waiting f
    → deadline ≡ true
quiet_want h deadline f n r (inl e) = absurd (n e)
quiet_want h deadline f n r (inr (inl e)) = e
quiet_want h deadline f n r (inr (inr (inl x))) = absurd (x refl)
quiet_want h deadline f n r (inr (inr (inr (i, e)))) = absurd (let z = r i in cc)

quiet_wanted : (t : System) → IsPosting t → IsQuiet t → t.head ≢ none → t.deadline ≡ true
quiet_wanted t v q n =
    quiet_want t.head t.deadline t.producers n q.producers
      (subst (λ d. Wanted t.head t.deadline d t.producers) q.duty v.wanted)

counted-Among : (j : ℕ) (xs : List ℕ) → count j xs ≡ 1 → Among j xs
counted-Among j [] e = absurd (omega (arith, e))
counted-Among j (x ∷ xs) e = elim (ℕ_discrete x j) [
  | yes same ↦ inl (sym same)
  | no other ↦ inr (counted-Among j xs (ground (arith, e, other)))
]

-- The duty serves a post that was not seen.
quiet_serves :
    {t : System} (j : ℕ)
    → Reach t
    → IsQuiet t
    → t.mark j ≢ 0
    → t.mark j ≢ t.seen j
    → (t.deadline ≡ true) × ((u : System) × Serving t u × Handed u.served j (t.mark j))
quiet_serves {t} j r q posted unseen =
    let v = Reach-IsPosting r in
    let queued = quiet_queued t v j q unseen in
    let listed = quiet_listed t v j q queued in
    let on = quiet_wanted t v q listed in
    elim (Option-cases t.head) [
      | inl e ↦ absurd (listed e)
      | inr (i, e) ↦
          let (u, run, f, seen) = duty_serves t i v.pending q.server q.duty on e v.listed in
          let same = seen j (counted-Among j v.pending (quiet_pending t v j q queued)) in
          (
            on,
            (
              u,
              run,
              subst (Handed u.served j) same
                  (seen-Handed j (Serving-Reach run r) f (λ z. posted (sym same ∙ z))),
            ),
          )
    ]

-- No post is lost: in every interleaving of posts, serves, locks and the duty, when no producer is in the
-- middle of a post, nobody has the lock and the duty waits, the last post of each slot that has posted is
-- in one of the batches that the consumer was served; or a deadline of the duty is set, and there is a run
-- from there, in which nobody posts, after which the consumer was served a batch with that post.
pub no_lost_post :
    {t : System} (j : ℕ)
    → Reach t
    → IsQuiet t
    → t.mark j ≢ 0
    → Handed t.served j (t.mark j)
      ⊎ ((t.deadline ≡ true) × ((u : System) × Serving t u × Handed u.served j (t.mark j)))
no_lost_post {t} j r q posted = elim (ℕ_discrete (t.mark j) (t.seen j)) [
  | yes e ↦ inl (subst (Handed t.served j) (sym e) (seen-Handed j r q.server (λ z. posted (e ∙ z))))
  | no unseen ↦ inr (quiet_serves j r q posted unseen)
]

pub record IsListedOnce (t : System) : Type 0 where
  pub pending : List ℕ
  pub taken : List ℕ
  pub listed : Chain t.head t.link pending
  pub walked : Chain (ahead t.server) t.link taken
  pub once : (j : ℕ) → count j pending + count j taken ≤ flag (t.queued j)

-- In every interleaving: the pending list and the rest of the server's walk run through the links to
-- their ends, no slot is twice in one of them or in both, and every slot in them has its flag set.
pub listed_once : {t : System} → Reach t → IsListedOnce t
listed_once {t} r =
    let v = Reach-IsPosting r in
    record {
      pending = v.pending;
      taken = v.taken;
      listed = v.listed;
      walked = v.walked;
      once = λ j. omega (arith, v.places j);
    }

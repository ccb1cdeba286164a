-- ===== src/Waker/Polling/Safety.antt =====
-- A polled task is polled by one worker at a time, and no wake of it is lost.
use cmpth_rs.Prelude.{ℕ, ◌≤◌, ◌≡◌, ◌≢◌, ◌⊎◌, inl, inr, refl, sym, ap, subst, ◌∙◌, true, arith}
use cmpth_rs.Waker.{ws_parked, ws_notified}
use cmpth_rs.Waker.Words.{state}
use cmpth_rs.Waker.Polling.{
  System, Poller, Waking, popped, running, pending, parking, looking, holding, waking, sharing,
  Step, pop, begin, pend, finish, load, park, call, look, try, push, share, note, Reach, here, next,
}
use cmpth_rs.Waker.Polling.Inv.{
  Holder, in_queue, nobody, done, polled, claimer, IsHeld, Fits, InPoll, Polls, Wakes, tokens,
  is_done, spawned-IsHeld,
}
use cmpth_rs.Waker.Polling.Pollers.{
  pop_keeps, begin_keeps, pend_keeps, finish_keeps, load_keeps, park_keeps,
}
use cmpth_rs.Waker.Polling.Wakers.{
  call_keeps, look_keeps, try_keeps, push_keeps, share_keeps, note_keeps,
}
use cmpth_rs.Waker.Polling.Tables.{parked_nobody}

Step-IsHeld : {t u : System} → Step t u → IsHeld t → IsHeld u
Step-IsHeld {t} (pop j n e q) v = pop_keeps t v j n e q
Step-IsHeld {t} (begin j e) v = begin_keeps t v j e
Step-IsHeld {t} (pend j e) v = pend_keeps t v j e
Step-IsHeld {t} (finish j e) v = finish_keeps t v j e
Step-IsHeld {t} (load j e) v = load_keeps t v j e
Step-IsHeld {t} (park j refs e) v = park_keeps t v j refs e
Step-IsHeld {t} (call i e) v = call_keeps t v i e
Step-IsHeld {t} (look i e) v = look_keeps t v i e
Step-IsHeld {t} (try i refs e) v = try_keeps t v i refs e
Step-IsHeld {t} (push i e) v = push_keeps t v i e
Step-IsHeld {t} (share i e) v = share_keeps t v i e
Step-IsHeld {t} (note i old e) v = note_keeps t v i old e

pub Reach-IsHeld : {t : System} → Reach t → IsHeld t
Reach-IsHeld here = spawned-IsHeld
Reach-IsHeld (next r st) = Step-IsHeld st (Reach-IsHeld r)

-- One token, wherever it is.
pub record IsAlone (t : System) : Type 0 where
  pub queue : t.queued ≤ 1
  pub worker : (i j : ℕ) → t.pollers i ≢ Poller.away → t.pollers j ≢ Poller.away → i ≡ j
  pub waker : (i j : ℕ) → t.wakers i ≡ holding → t.wakers j ≡ holding → i ≡ j
  pub not_both : (i j : ℕ) → t.pollers i ≢ Poller.away → t.wakers j ≢ holding
  pub queue_or_worker : (i : ℕ) → t.pollers i ≢ Poller.away → t.queued ≡ 0
  pub queue_or_waker : (i : ℕ) → t.wakers i ≡ holding → t.queued ≡ 0

tokens_le : (h : Holder) → tokens h ≤ 1
tokens_le in_queue = omega arith
tokens_le nobody = omega arith
tokens_le done = omega arith
tokens_le (polled j) = omega arith
tokens_le (claimer i) = omega arith

same_worker : {i j : ℕ} → polled i ≡ polled j → i ≡ j
same_worker e = ground arith

same_waker : {i j : ℕ} → claimer i ≡ claimer j → i ≡ j
same_waker e = ground arith

holds : (h : Holder) (j : ℕ) (p : Poller) → Polls h j p → p ≢ Poller.away → h ≡ polled j
holds h j Poller.away q n = absurd (n refl)
holds h j popped q n = q
holds h j running q n = q
holds h j pending q n = q
holds h j (parking refs) q n = q

-- In every interleaving of workers that poll a task and threads that wake it and clone its waker: the
-- task's token is in one place only. At most one worker is on the task, at most one thread holds it as
-- the claimer of its parked state, at most one token is queued, and no two of these at a time.
pub polled_once : {t : System} → Reach t → IsAlone t
polled_once {t} r =
    let v = Reach-IsHeld r in
    let at =
      λ (j : ℕ) (n : t.pollers j ≢ Poller.away). holds v.holder j (t.pollers j) (v.polls j) n in
    let has : (i : ℕ) → t.wakers i ≡ holding → v.holder ≡ claimer i =
      λ i e. subst (Wakes v.holder i) e (v.wakes i) in
    record {
      queue = omega (arith, v.queued_is, tokens_le v.holder);
      worker = λ i j n m. same_worker (sym (at i n) ∙ at j m);
      waker = λ i j e f. same_waker (sym (has i e) ∙ has j f);
      not_both = λ i j n e. (let p = at i n in let q = has j e in cc);
      queue_or_worker = λ i n. v.queued_is ∙ ap tokens (at i n);
      queue_or_waker = λ i e. v.queued_is ∙ ap tokens (has i e);
    }

-- `poll_fn` runs, or has answered `Pending` and the worker has not parked the task yet.
abbrev pub InSession : Poller → Type 0
InSession Poller.away = ⊥
InSession popped = ⊥
InSession running = Unit {0}
InSession pending = Unit {0}
InSession (parking refs) = Unit {0}

pub record IsServed (t : System) : Type 0 where
  pub not_parked : state t.word ≢ ws_parked
  pub noticed : (j : ℕ) → InSession (t.pollers j) → state t.word ≡ ws_notified
  pub somebody :
      (t.queued ≡ 1)
      ⊎ ((j : ℕ) × (t.pollers j ≢ Poller.away))
      ⊎ ((i : ℕ) × (t.wakers i ≡ holding))
      ⊎ (t.finished ≡ true)

session_holds : (h : Holder) (j : ℕ) (p : Poller) → Polls h j p → InSession p → h ≡ polled j
session_holds h j Poller.away q s = absurd s
session_holds h j popped q s = absurd s
session_holds h j running q s = q
session_holds h j pending q s = q
session_holds h j (parking refs) q s = q

session_notified :
    (p : Poller) (word : ℕ) → InPoll p word true → InSession p → state word ≡ ws_notified
session_notified Poller.away word f s = absurd s
session_notified popped word f s = absurd s
session_notified running word f s = f.1 refl
session_notified pending word f s = f.1 refl
session_notified (parking refs) word f s = f.1 refl

notified_in :
    (h : Holder) (j : ℕ) (f : ℕ → Poller) (word : ℕ)
    → Fits h f word true
    → Polls h j (f j)
    → InSession (f j)
    → state word ≡ ws_notified
notified_in h j f word fits q s =
    let e = session_holds h j (f j) q s in
    let g : InPoll (f j) word true = subst (λ x. Fits x f word true) e fits in
    session_notified (f j) word g s

signal_not_parked :
    (h : Holder) (f : ℕ → Poller) (word : ℕ) → Fits h f word true → state word ≢ ws_parked
signal_not_parked h f word fits e =
    let n = parked_nobody h f word true e fits in
    let g : Fits nobody f word true = subst (λ x. Fits x f word true) n fits in
    absurd (let q = g.1 in cc)

claimed_by : (i : ℕ) (w : Waking) → Wakes (claimer i) i w → w ≡ holding
claimed_by i Waking.away q = absurd (q refl)
claimed_by i looking q = absurd (q refl)
claimed_by i holding q = refl
claimed_by i (waking refs) q = absurd (q refl)
claimed_by i (sharing old) q = absurd (q refl)

polled_by : (j : ℕ) (p : Poller) → Polls (polled j) j p → p ≢ Poller.away
polled_by j Poller.away q = λ e. q refl
polled_by j popped q = λ e. cc
polled_by j running q = λ e. cc
polled_by j pending q = λ e. cc
polled_by j (parking refs) q = λ e. cc

module _ (t : System) where
  abbrev Somebody : Type 0
  Somebody =
      (t.queued ≡ 1)
      ⊎ ((j : ℕ) × (t.pollers j ≢ Poller.away))
      ⊎ ((i : ℕ) × (t.wakers i ≡ holding))
      ⊎ (t.finished ≡ true)

  served :
      (h : Holder)
      → t.queued ≡ tokens h
      → t.finished ≡ is_done h
      → Fits h t.pollers t.word true
      → ((j : ℕ) → Polls h j (t.pollers j))
      → ((i : ℕ) → Wakes h i (t.wakers i))
      → Somebody
  served in_queue q d f p w = inl q
  served (polled j) q d f p w = inr (inl (j, polled_by j (t.pollers j) (p j)))
  served (claimer i) q d f p w = inr (inr (inl (i, claimed_by i (t.wakers i) (w i))))
  served done q d f p w = inr (inr (inr d))
  served nobody q d f p w = absurd (let e = f.1 in cc)

-- In every interleaving: if a wake has taken effect since the last poll began, the task is not parked; a
-- worker that is in that poll finds the state notified, so that its exchange queues the task again; and
-- the task is queued, or a worker or a claimer has it, or its future has returned.
pub no_lost_wake : {t : System} → Reach t → t.signal ≡ true → IsServed t
no_lost_wake {t} r signal =
    let v = Reach-IsHeld r in
    let fits : Fits v.holder t.pollers t.word true =
      subst (λ b. Fits v.holder t.pollers t.word b) signal v.fits in
    record {
      not_parked = signal_not_parked v.holder t.pollers t.word fits;
      noticed = λ j s. notified_in v.holder j t.pollers t.word fits (v.polls j) s;
      somebody = served t v.holder v.queued_is v.finished_is fits v.polls v.wakes;
    }

-- ===== src/Waker/Polling/Pollers.antt =====
-- The workers' accesses keep the invariant.
use cmpth_rs.Prelude.{
  ℕ, suc, ◌+◌, ◌-◌, ◌^◌, ◌<◌, ◌≡◌, ◌≢◌, inl, inr, refl, sym, subst, ◌∙◌, ap, Bool, true, false,
  arith, update, update_self, ◌==◌, Bool-cases, ==_iff,
}
use cmpth_rs.Waker.{park_choice, mark_polling, mark_idle, ws_polling}
use cmpth_rs.Waker.Words.{state, wake_choice-table}
use cmpth_rs.Waker.Polling.{System, Poller, popped, running, pending, parking, park_try, Parked}
use cmpth_rs.Waker.Polling.Inv.{
  Holder, in_queue, nobody, done, polled, claimer, IsHeld, Fits, InPoll, Polls, Wakes, tokens,
  is_done, queue_holder, moved-Polls, kept-Wakes,
}

other : {i j : ℕ} → i ≢ j → polled i ≢ polled j
other n e = n (ground arith)

no_signal :
    (signal : Bool) (word : ℕ) → (signal ≡ true → state word ≡ 3) → state word ≡ 1 → signal ≡ false
no_signal true word h one = absurd (omega (arith, h refl, one))
no_signal false word h one = refl

park_lost :
    (refs word : ℕ)
    → (word == refs) ≡ false
    → park_try (park_choice refs) refs word ≡ record { word = word; pushes = 0; poller = pending }
unfolding park_try park_choice
park_lost refs word h = ground arith

park_notified :
    (refs : ℕ)
    → refs < 2 ^ 64
    → state refs ≡ 3
    → park_try (park_choice refs) refs refs
      ≡ record { word = refs - 2; pushes = 1; poller = Poller.away }
unfolding park_try
park_notified refs b h = rw (wake_choice-table refs b).1 (ground arith)

park_parked :
    (refs : ℕ)
    → refs < 2 ^ 64
    → state refs ≡ 1
    → park_try (park_choice refs) refs refs
      ≡ record { word = refs + 1; pushes = 0; poller = Poller.away }
unfolding park_try
park_parked refs b h = rw (wake_choice-table refs b).1 (ground arith)

module _ (t : System) (v : IsHeld t) where
  pub pop_keeps :
      (j n : ℕ)
      → t.pollers j ≡ Poller.away
      → t.queued ≡ suc n
      → IsHeld (record t { queued = n; pollers = update t.pollers j popped })
  pop_keeps j n e q =
      let (h, z) = queue_holder v.holder n (omega (arith, v.queued_is, q)) in
      let polls : (i : ℕ) → Polls in_queue i (t.pollers i) =
        subst (λ x. (i : ℕ) → Polls x i (t.pollers i)) h v.polls in
      let wakes : (i : ℕ) → Wakes in_queue i (t.wakers i) =
        subst (λ x. (i : ℕ) → Wakes x i (t.wakers i)) h v.wakes in
      let fits : Fits in_queue t.pollers t.word t.signal =
        subst (λ x. Fits x t.pollers t.word t.signal) h v.fits in
      record {
        holder = polled j;
        bound = v.bound;
        queued_is = z;
        finished_is = v.finished_is ∙ ap is_done h;
        fits = rw (update_self t.pollers j popped) fits;
        polls =
            moved-Polls in_queue (polled j) t.pollers j popped (λ i ne e. cc) (λ i ne. other ne)
              refl polls;
        wakes = kept-Wakes in_queue (polled j) t.wakers (λ i e. cc) (λ i e. cc) wakes;
      }

  -- A worker that holds the task moves on.
  on :
      (j : ℕ) (word : ℕ) (signal : Bool) (p : Poller)
      → v.holder ≡ polled j
      → word < 2 ^ 64
      → InPoll p word signal
      → Polls (polled j) j p
      → IsHeld (record t { word = word; signal = signal; pollers = update t.pollers j p })
  on j word signal p h b f q =
      let polls : (i : ℕ) → Polls (polled j) i (t.pollers i) =
        subst (λ x. (i : ℕ) → Polls x i (t.pollers i)) h v.polls in
      record {
        holder = polled j;
        bound = b;
        queued_is = v.queued_is ∙ ap tokens h;
        finished_is = v.finished_is ∙ ap is_done h;
        fits = rw (update_self t.pollers j p) f;
        polls =
            moved-Polls (polled j) (polled j) t.pollers j p (λ i ne. other ne) (λ i ne. other ne) q
              polls;
        wakes = subst (λ x. (i : ℕ) → Wakes x i (t.wakers i)) h v.wakes;
      }

  -- It gives the task up.
  off :
      (j : ℕ) (k : Holder) (word queued : ℕ) (finished : Bool)
      → v.holder ≡ polled j
      → ((i : ℕ) → k ≢ polled i)
      → ((i : ℕ) → k ≢ claimer i)
      → word < 2 ^ 64
      → queued ≡ tokens k
      → finished ≡ is_done k
      → Fits k (update t.pollers j Poller.away) word t.signal
      → IsHeld (record t {
        word = word;
        queued = queued;
        finished = finished;
        pollers = update t.pollers j Poller.away;
      })
  off j k word queued finished h kp kc b q d f =
      let polls : (i : ℕ) → Polls (polled j) i (t.pollers i) =
        subst (λ x. (i : ℕ) → Polls x i (t.pollers i)) h v.polls in
      let wakes : (i : ℕ) → Wakes (polled j) i (t.wakers i) =
        subst (λ x. (i : ℕ) → Wakes x i (t.wakers i)) h v.wakes in
      record {
        holder = k;
        bound = b;
        queued_is = q;
        finished_is = d;
        fits = f;
        polls =
            moved-Polls (polled j) k t.pollers j Poller.away (λ i ne. other ne) (λ i ne. kp i)
              (kp j) polls;
        wakes = kept-Wakes (polled j) k t.wakers (λ i e. cc) kc wakes;
      }

  -- What holds of the state while the worker is there.
  inside : (j : ℕ) (p : Poller) → t.pollers j ≡ p → v.holder ≡ polled j → InPoll p t.word t.signal
  inside j p e h =
      let f : InPoll (t.pollers j) t.word t.signal =
        subst (λ x. Fits x t.pollers t.word t.signal) h v.fits in
      subst (λ x. InPoll x t.word t.signal) e f

  holds :
      (j : ℕ) (p : Poller)
      → t.pollers j ≡ p
      → (Polls v.holder j p → v.holder ≡ polled j)
      → v.holder ≡ polled j
  holds j p e f = f (subst (Polls v.holder j) e (v.polls j))

  pub begin_keeps :
      (j : ℕ)
      → t.pollers j ≡ popped
      → IsHeld (record t {
        word = mark_polling t.word;
        signal = false;
        pollers = update t.pollers j running;
      })
  unfolding mark_polling
  begin_keeps j e =
      let h = holds j popped e (λ q. q) in
      on j ws_polling false running h (omega arith) (inl refl, λ x. cc) refl

  pub pend_keeps :
      (j : ℕ) → t.pollers j ≡ running → IsHeld (record t { pollers = update t.pollers j pending })
  pend_keeps j e =
      let h = holds j running e (λ q. q) in
      on j t.word t.signal pending h v.bound (inside j running e h) refl

  pub finish_keeps :
      (j : ℕ)
      → t.pollers j ≡ running
      → IsHeld (record t {
        word = mark_idle t.word;
        finished = true;
        pollers = update t.pollers j Poller.away;
      })
  unfolding mark_idle
  finish_keeps j e =
      let h = holds j running e (λ q. q) in
      let z : t.queued ≡ 0 = v.queued_is ∙ ap tokens h in
      off j done 0 t.queued true h (λ i x. cc) (λ i x. cc) (omega arith) z refl refl

  pub load_keeps :
      (j : ℕ)
      → t.pollers j ≡ pending
      → IsHeld (record t { pollers = update t.pollers j (parking t.word) })
  load_keeps j e =
      let h = holds j pending e (λ q. q) in
      on j t.word t.signal (parking t.word) h v.bound (inside j pending e h) refl

  -- The exchange fails.
  fail_keeps :
      (j refs : ℕ)
      → t.pollers j ≡ parking refs
      → IsHeld (record t { queued = t.queued + 0; pollers = update t.pollers j pending })
  fail_keeps j refs e =
      let h = holds j (parking refs) e (λ q. q) in
      let z : t.queued + 0 ≡ t.queued = omega arith in
      rw z (on j t.word t.signal pending h v.bound (inside j (parking refs) e h) refl)

  pub park_keeps :
      (j refs : ℕ)
      → t.pollers j ≡ parking refs
      → IsHeld (record t {
        word = (park_try (park_choice refs) refs t.word).word;
        queued = t.queued + (park_try (park_choice refs) refs t.word).pushes;
        pollers = update t.pollers j (park_try (park_choice refs) refs t.word).poller;
      })
  park_keeps j refs e =
      let h = holds j (parking refs) e (λ q. q) in
      let f = inside j (parking refs) e h in
      let z : t.queued ≡ 0 = v.queued_is ∙ ap tokens h in
      let d : t.finished ≡ false = v.finished_is ∙ ap is_done h in
      let parked : Parked → Type 0 = λ r. IsHeld (record t {
        word = r.word;
        queued = t.queued + r.pushes;
        pollers = update t.pollers j r.poller;
      }) in
      elim (Bool-cases (t.word == refs)) [
        | inr lost ↦ subst parked (sym (park_lost refs t.word lost)) (fail_keeps j refs e)
        | inl same ↦
            let w : t.word ≡ refs = (==_iff t.word refs).0 same in
            elim f.0 [
              | inl one ↦
                  let r = park_parked t.word v.bound one in
                  let quiet : t.signal ≡ false = no_signal t.signal t.word f.1 one in
                  subst (λ x. parked (park_try (park_choice x) x t.word)) w
                    (subst parked (sym r) (
                      off j nobody (t.word + 1) (t.queued + 0) t.finished h (λ i x. cc) (λ i x. cc)
                        (omega (arith, v.bound, one)) (omega (arith, z)) d
                        (omega (arith, one), quiet)))
              | inr three ↦
                  let r = park_notified t.word v.bound three in
                  subst (λ x. parked (park_try (park_choice x) x t.word)) w
                    (subst parked (sym r) (
                      off j in_queue (t.word - 2) (t.queued + 1) t.finished h (λ i x. cc)
                        (λ i x. cc) (omega (arith, v.bound)) (omega (arith, z)) d
                        (omega (arith, three))))
            ]
      ]

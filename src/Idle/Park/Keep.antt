-- ===== src/Idle/Park/Keep.antt =====
-- Every step of the sleep protocol keeps the invariant.
use cmpth_rs.Prelude.{
  ℕ, suc, ◌+◌, ◌^◌, ◌≤◌, ◌<◌, ◌≡◌, ◌≢◌, refl, sym, ap, ◌∙◌, update_all, ◌⊎◌, inl, inr, true, false,
  arith, update, total-update, sum_below_ge, sum_below_congr,
}
use cmpth_rs.Idle.Park.{
  head, left, Shared, Worker, look, found, idle, entering, blocked, woken, Work, Producer, ready,
  waking, Produce, publish, nobody, somebody, bump, Closer, running, finishing, waking_all, closed,
  System, is_blocked, wake, bumped, Step, work, produce, wake_one, wake_none, finish, close_bump,
  wake_all,
}
use cmpth_rs.Idle.Park.Inv.{
  registers, active, stale, kept_snapshot, Waking, Attended, bumped_to_close, Leaves, Inv, is_left,
}
use cmpth_rs.Idle.Park.Moves.{
  Work-frame, Work-counts, Work-past, Work-active, Work-stays, Work-Leaves, not_running,
  blocked-registers, not_stale, wake-active, wake-stale, wake-facts,
}

-- Every field of the invariant.
module _ {n : ℕ} {s : System} (inv : Inv n s) where
  open inv use {counted, unwrapped, past, staying, attended, stopped, leaves, gone}

  registers-le : (i : ℕ) → i < n → registers (s.worker i) ≤ s.mem.sleepers
  registers-le i lt = omega (arith, sum_below_ge (λ j. registers (s.worker j)) i n lt)

  module _ (i : ℕ) (lt : i < n) {m : Shared} {p : Worker} (w : Work s.mem (s.worker i) m p) where
    Work-Attended :
        s.mem.finished ≡ false
        → 0 < m.work
        → Attended n s.mem.epoch (update s.worker i p) s.producer s.closer
    Work-Attended on pos = elim (Work-active w on pos) [
      | inl a ↦ inr (inl (i, lt, ground arith))
      | inr (quiet, fresh, old) ↦ elim (attended on old) [
        | inl owed ↦ inl owed
        | inr (inl (j, below, a)) ↦ inr (inl (j, below, ground arith))
        | inr (inr (waker, (j, below, a))) ↦ inr (inr (waker, (j, below, ground arith)))
      ]
    ]

    Work-Inv : Inv n (record s { mem = m; worker = update s.worker i p })
    Work-Inv =
        let (same_epoch, same_bumps, same_flag) = Work-frame w in
        record {
          counted = omega (
            arith,
            counted,
            total-update registers n s.worker i p lt,
            Work-counts w (registers-le i lt),
          );
          unwrapped = omega (arith, unwrapped);
          past =
              update_all (λ q. kept_snapshot q ≤ m.epoch) s.worker i
                (rw same_epoch (Work-past w (past i))) (rw same_epoch past);
          staying = λ on.
              let on' = sym same_flag ∙ on in
              update_all (λ q. is_left q ≡ false) s.worker i (Work-stays w on') (staying on');
          attended = λ on pos. rw same_epoch (Work-Attended (sym same_flag ∙ on) pos);
          stopped = λ ne. same_flag ∙ stopped ne;
          leaves = λ j b.
              update_all (Leaves m.epoch) s.worker i
                (rw same_epoch (Work-Leaves w (stopped (not_running b)) (leaves i b)).0)
                (λ k. rw same_epoch (leaves k b)) j;
          gone = λ c j.
              let b : bumped_to_close s.closer ≡ true = ap bumped_to_close c in
              update_all (λ q. is_blocked q ≡ false) s.worker i
                ((Work-Leaves w (stopped (not_running b)) (leaves i b)).1 (gone c i)) (gone c) j;
        }

  -- A worker that does not count as a sleeper will search again.
  unregistered-active :
      (e : ℕ) (q : Worker) → is_left q ≡ false → registers q ≡ 0 → active e q ≡ true
  unregistered-active e (head ep) on h = refl
  unregistered-active e (look ep) on h = refl
  unregistered-active e (found ep) on h = refl
  unregistered-active e (idle ep) on h = ground arith
  unregistered-active e (left ep) on h = cc
  unregistered-active e q on h = absurd (omega arith)

  -- After a bump every worker will search again, or sleeps on an old ticket.
  bumped-cases :
      (e : ℕ) (q : Worker)
      → is_left q ≡ false
      → kept_snapshot q ≤ e
      → (active (e + 1) q ≡ true) ⊎ (stale (e + 1) q ≡ true)
  bumped-cases e (left ep) on h = cc
  bumped-cases e (idle ep) on h = inl (ground arith)
  bumped-cases e (blocked seen) on h = inr (ground arith)
  bumped-cases e q on h = inl (ground arith)

  Leaves-suc : (e : ℕ) (q : Worker) → Leaves e q → Leaves (e + 1) q
  Leaves-suc e (entering seen) l = omega arith
  Leaves-suc e (blocked seen) l = omega arith
  Leaves-suc e q l = tt

  past-Leaves : (e : ℕ) (q : Worker) → kept_snapshot q ≤ e → Leaves (e + 1) q
  past-Leaves e (entering seen) l = omega arith
  past-Leaves e (blocked seen) l = omega arith
  past-Leaves e q l = tt

  bump-epoch : suc s.mem.bumps < 2 ^ 32 → (bumped s.mem).epoch ≡ s.mem.epoch + 1
  bump-epoch small = omega (arith, unwrapped)

  module _ (some_worker : 0 < n) where
    bump-Attended :
        (producer : ℕ → Producer) (c : Closer)
        → Waking producer c
        → s.mem.finished ≡ false
        → Attended n (s.mem.epoch + 1) s.worker producer c
    bump-Attended producer c waker on =
        elim (bumped-cases s.mem.epoch (s.worker 0) (staying on 0) (past 0)) [
          | inl a ↦ inr (inl (0, some_worker, a))
          | inr a ↦ inr (inr (waker, (0, some_worker, a)))
        ]

    -- A bump, by a producer or by `shutdown`.
    bump-Inv :
        (producer : ℕ → Producer) (c : Closer)
        → suc s.mem.bumps < 2 ^ 32
        → Waking producer c
        → (c ≢ running → s.mem.finished ≡ true)
        → ((i : ℕ) → bumped_to_close c ≡ true → Leaves (s.mem.epoch + 1) (s.worker i))
        → (c ≡ closed → (i : ℕ) → is_blocked (s.worker i) ≡ false)
        → Inv n (record s { mem = bumped s.mem; producer = producer; closer = c })
    bump-Inv producer c small waker fin l g = record {
      counted = counted;
      unwrapped = omega (arith, bump-epoch small, unwrapped);
      past = λ i. omega (arith, bump-epoch small, past i);
      staying = staying;
      attended = λ on pos. rw (bump-epoch small) (bump-Attended producer c waker on);
      stopped = fin;
      leaves = rw (bump-epoch small) l;
      gone = g;
    }

    -- A step that only changes a producer, or publishes.
    same_workers-Inv :
        (items : ℕ) (producer : ℕ → Producer)
        → (s.mem.finished ≡ false → 0 < items → Attended n s.mem.epoch s.worker producer s.closer)
        → Inv n (record s { mem = record s.mem { work = items }; producer = producer })
    same_workers-Inv items producer a = record {
      counted = counted;
      unwrapped = unwrapped;
      past = past;
      staying = staying;
      attended = a;
      stopped = stopped;
      leaves = leaves;
      gone = gone;
    }

    Produce-Inv :
        (k : ℕ) {m : Shared} {q p : Producer}
        → Produce s.mem q m p
        → s.producer k ≡ q
        → m.bumps < 2 ^ 32
        → Inv n (record s { mem = m; producer = update s.producer k p })
    Produce-Inv k publish e small = same_workers-Inv _ _ λ on pos. inl (k, ground arith)
    Produce-Inv k (nobody z) e small = same_workers-Inv _ _ λ on pos. inr (
        inl (
          0,
          some_worker,
          unregistered-active _ (s.worker 0) (staying on 0)
              (omega (arith, registers-le 0 some_worker)),
        ))
    Produce-Inv k (somebody nz) e small = same_workers-Inv _ _ λ on pos. inl (k, ground arith)
    Produce-Inv k bump e small =
        bump-Inv _ _ small (inl (k, ground arith)) stopped
          (λ i b. Leaves-suc _ (s.worker i) (leaves i b)) gone

    wake_one-Inv :
        (k i : ℕ)
        → s.producer k ≡ waking
        → i < n
        → is_blocked (s.worker i) ≡ true
        → Inv n
            (record s { worker = update s.worker i woken; producer = update s.producer k ready })
    wake_one-Inv k i e lt b = record {
      counted = omega (
        arith,
        counted,
        total-update registers n s.worker i woken lt,
        blocked-registers (s.worker i) b,
      );
      unwrapped = unwrapped;
      past = update_all (λ q. kept_snapshot q ≤ s.mem.epoch) s.worker i (omega arith) past;
      staying = λ on. update_all (λ q. is_left q ≡ false) s.worker i refl (staying on);
      attended = λ on pos. inr (inl (i, lt, ground arith));
      stopped = stopped;
      leaves = λ j c. update_all (Leaves s.mem.epoch) s.worker i tt (λ x. leaves x c) j;
      gone = λ c j. update_all (λ q. is_blocked q ≡ false) s.worker i refl (gone c) j;
    }

    wake_none-Attended :
        (k : ℕ)
        → s.producer k ≡ waking
        → ((i : ℕ) → i < n → is_blocked (s.worker i) ≡ false)
        → Attended n s.mem.epoch s.worker s.producer s.closer
        → Attended n s.mem.epoch s.worker (update s.producer k ready) s.closer
    wake_none-Attended k e awake (inl (j, owed)) = inl (j, ground arith)
    wake_none-Attended k e awake (inr (inl a)) = inr (inl a)
    wake_none-Attended k e awake (inr (inr (waker, (i, lt, st)))) =
        absurd (not_stale _ (s.worker i) (awake i lt) st)

    wake_all-Attended :
        Attended n s.mem.epoch s.worker s.producer s.closer
        → Attended n s.mem.epoch (λ i. wake (s.worker i)) s.producer closed
    wake_all-Attended (inl owed) = inl owed
    wake_all-Attended (inr (inl (i, lt, a))) = inr (inl (i, lt, wake-active _ (s.worker i) a))
    wake_all-Attended (inr (inr (waker, (i, lt, st)))) =
        inr (inl (i, lt, wake-stale _ (s.worker i) st))

    wake_all-Inv :
        s.closer ≡ waking_all
        → Inv n (record s { worker = λ i. wake (s.worker i); closer = closed })
    wake_all-Inv e = record {
      counted =
          counted
          ∙ sum_below_congr (λ i. registers (s.worker i)) _ n
              (λ i _. sym (wake-facts s.mem.epoch (s.worker i)).0);
      unwrapped = unwrapped;
      past = λ i. (wake-facts s.mem.epoch (s.worker i)).1 (past i);
      staying = λ on i. (wake-facts s.mem.epoch (s.worker i)).4 ∙ staying on i;
      attended = λ on pos. wake_all-Attended (attended on pos);
      stopped = λ _. stopped (λ r. cc);
      leaves = λ i _. (wake-facts s.mem.epoch (s.worker i)).2 (leaves i (ap bumped_to_close e));
      gone = λ _ i. (wake-facts s.mem.epoch (s.worker i)).3;
    }

    finish-Inv :
        s.closer ≡ running
        → Inv n (record s { mem = record s.mem { finished = true }; closer = finishing })
    finish-Inv e = record {
      counted = counted;
      unwrapped = unwrapped;
      past = past;
      staying = λ on. cc;
      attended = λ on. cc;
      stopped = λ _. refl;
      leaves = λ i b. cc;
      gone = λ c i. cc;
    }

    -- The invariant, as long as the epoch has not wrapped.
    pub Step-Inv : {t : System} → Step n s t → t.mem.bumps < 2 ^ 32 → Inv n t
    Step-Inv (work i lt w) small = Work-Inv i lt w
    Step-Inv (produce k p) small = Produce-Inv k p refl small
    Step-Inv (wake_one k i e lt b) small = wake_one-Inv k i e lt b
    Step-Inv (wake_none k e b) small =
        same_workers-Inv _ _ λ on pos. wake_none-Attended k e b (attended on pos)
    Step-Inv (finish e) small = finish-Inv e
    Step-Inv (close_bump e) small =
        bump-Inv s.producer waking_all small (inr refl) (λ _. stopped (λ r. cc))
          (λ i _. past-Leaves _ (s.worker i) (past i)) (λ c. cc)
    Step-Inv (wake_all e) small = wake_all-Inv e

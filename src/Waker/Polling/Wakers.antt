-- ===== src/Waker/Polling/Wakers.antt =====
-- The accesses of the threads with a waker keep the invariant.

use cmpth_rs.Prelude.{
  ℕ, ◌+◌, ◌-◌, ◌^◌, ◌<◌, ◌≡◌, ◌≢◌, inl, inr, refl, sym, subst, ◌∙◌, ap, Bool, true, arith, update,
  update_each, ◌==◌, if◌then◌else◌, Bool-cases, ==_iff,
}
use cmpth_rs.Waker.{wake_choice, note_word}
use cmpth_rs.Waker.Words.{state, note_word-add}
use cmpth_rs.Waker.Polling.{
  System, Waking, looking, holding, waking, sharing, wake_look, wake_try, Woken,
}
use cmpth_rs.Waker.Polling.Inv.{
  in_queue, nobody, claimer, IsHeld, Fits, Polls, Wakes, tokens, is_done, kept-Polls, moved-Wakes,
}
use cmpth_rs.Waker.Polling.Tables.{
  other, Fits-word, Fits-signal, parked_nobody, look_table, try_table,
}

module _ (t : System) (v : IsHeld t) where
  -- A thread that holds nothing moves on.
  on :
      (i : ℕ) (w x : Waking)
      → t.wakers i ≡ w
      → (Wakes v.holder i w → v.holder ≢ claimer i)
      → (v.holder ≢ claimer i → Wakes v.holder i x)
      → (k : ℕ) → Wakes v.holder k (update t.wakers i x k)
  on i w x e free still =
      update_each (Wakes v.holder) t.wakers i
        (still (free (subst (Wakes v.holder i) e (v.wakes i)))) (λ k ne. v.wakes k)

  -- The word and the signal change, and nobody moves.
  stay :
      (word : ℕ) (signal : Bool) (wakers : ℕ → Waking)
      → word < 2 ^ 64
      → Fits v.holder t.pollers word signal
      → ((k : ℕ) → Wakes v.holder k (wakers k))
      → IsHeld (record t { word = word; signal = signal; wakers = wakers })
  stay word signal wakers b f w = record {
    holder = v.holder;
    bound = b;
    queued_is = v.queued_is;
    finished_is = v.finished_is;
    fits = f;
    polls = v.polls;
    wakes = w;
  }

  pub call_keeps :
      (i : ℕ) → t.wakers i ≡ Waking.away → IsHeld (record t { wakers = update t.wakers i looking })
  call_keeps i e =
      stay t.word t.signal (update t.wakers i looking) v.bound v.fits
        (on i Waking.away looking e (λ n. n) (λ n. n))

  pub share_keeps :
      (i : ℕ)
      → t.wakers i ≡ Waking.away
      → IsHeld (record t { wakers = update t.wakers i (sharing t.word) })
  share_keeps i e =
      stay t.word t.signal (update t.wakers i (sharing t.word)) v.bound v.fits
        (on i Waking.away (sharing t.word) e (λ n. n) (λ n. n))

  pub note_keeps :
      (i old : ℕ)
      → t.wakers i ≡ sharing old
      → IsHeld (record t {
        word = if t.word == old then note_word old else t.word;
        wakers = update t.wakers i (if t.word == old then Waking.away else sharing t.word);
      })
  note_keeps i old e = elim (Bool-cases (t.word == old)) [
    | inl same ↦
        let n = note_word-add old in
        let w : t.word ≡ old = (==_iff t.word old).0 same in
        rw same (
          stay (note_word old) t.signal (update t.wakers i Waking.away) (omega (arith, n))
            (Fits-word v.holder t.pollers t.word (note_word old) t.signal (omega (arith, n, w))
              v.fits)
            (on i (sharing old) Waking.away e (λ n. n) (λ n. n)))
    | inr lost ↦ rw lost (
        stay t.word t.signal (update t.wakers i (sharing t.word)) v.bound v.fits
          (on i (sharing old) (sharing t.word) e (λ n. n) (λ n. n)))
  ]

  pub push_keeps :
      (i : ℕ)
      → t.wakers i ≡ holding
      → IsHeld (record t { queued = t.queued + 1; wakers = update t.wakers i Waking.away })
  push_keeps i e =
      let h : v.holder ≡ claimer i = subst (Wakes v.holder i) e (v.wakes i) in
      let polls : (k : ℕ) → Polls (claimer i) k (t.pollers k) =
        subst (λ x. (k : ℕ) → Polls x k (t.pollers k)) h v.polls in
      let wakes : (k : ℕ) → Wakes (claimer i) k (t.wakers k) =
        subst (λ x. (k : ℕ) → Wakes x k (t.wakers k)) h v.wakes in
      let fits : Fits (claimer i) t.pollers t.word t.signal =
        subst (λ x. Fits x t.pollers t.word t.signal) h v.fits in
      record {
        holder = in_queue;
        bound = v.bound;
        queued_is = omega (arith, v.queued_is ∙ ap tokens h);
        finished_is = v.finished_is ∙ ap is_done h;
        fits = fits;
        polls = kept-Polls (claimer i) in_queue t.pollers (λ k x. cc) (λ k x. cc) polls;
        wakes =
            moved-Wakes (claimer i) in_queue t.wakers i Waking.away (λ k ne. other ne)
              (λ k ne x. cc) (λ x. cc) wakes;
      }

  claim_keeps :
      (i refs : ℕ)
      → t.wakers i ≡ waking refs
      → state t.word ≡ 2
      → IsHeld (record t { word = t.word - 1; signal = true; wakers = update t.wakers i holding })
  claim_keeps i refs e two =
      let h = parked_nobody v.holder t.pollers t.word t.signal two v.fits in
      let polls : (k : ℕ) → Polls nobody k (t.pollers k) =
        subst (λ x. (k : ℕ) → Polls x k (t.pollers k)) h v.polls in
      let wakes : (k : ℕ) → Wakes nobody k (t.wakers k) =
        subst (λ x. (k : ℕ) → Wakes x k (t.wakers k)) h v.wakes in
      record {
        holder = claimer i;
        bound = omega (arith, v.bound);
        queued_is = v.queued_is ∙ ap tokens h;
        finished_is = v.finished_is ∙ ap is_done h;
        fits = omega (arith, two);
        polls = kept-Polls nobody (claimer i) t.pollers (λ k x. cc) (λ k x. cc) polls;
        wakes =
            moved-Wakes nobody (claimer i) t.wakers i holding (λ k ne x. cc) (λ k ne. other ne) refl
              wakes;
      }

  pub look_keeps :
      (i : ℕ)
      → t.wakers i ≡ looking
      → IsHeld (record t {
        signal = if (wake_look (wake_choice t.word) t.word).1 then true else t.signal;
        wakers = update t.wakers i (wake_look (wake_choice t.word) t.word).0;
      })
  look_keeps i e =
      let looked : Waking × Bool → Type 0 = λ r.
        IsHeld
          (record t { signal = if r.1 then true else t.signal; wakers = update t.wakers i r.0 }) in
      elim (look_table t.word v.bound) [
        | inl r ↦ subst looked (sym r) (
            stay t.word t.signal (update t.wakers i (waking t.word)) v.bound v.fits
              (on i looking (waking t.word) e (λ n. n) (λ n. n)))
        | inr (r, s) ↦ subst looked (sym r) (
            stay t.word true (update t.wakers i Waking.away) v.bound
              (Fits-signal v.holder t.pollers t.word t.word t.signal (ground (arith, s))
                (ground (arith, s)) v.fits)
              (on i looking Waking.away e (λ n. n) (λ n. n)))
      ]

  pub try_keeps :
      (i refs : ℕ)
      → t.wakers i ≡ waking refs
      → IsHeld (record t {
        word = (wake_try (wake_choice refs) refs t.word).word;
        signal = if (wake_try (wake_choice refs) refs t.word).done then true else t.signal;
        wakers = update t.wakers i (wake_try (wake_choice refs) refs t.word).waker;
      })
  try_keeps i refs e =
      let tried : Woken → Type 0 = λ r. IsHeld (record t {
        word = r.word;
        signal = if r.done then true else t.signal;
        wakers = update t.wakers i r.waker;
      }) in
      elim (try_table refs t.word v.bound) [
        | inl r ↦ subst tried (sym r) (
            stay t.word t.signal (update t.wakers i looking) v.bound v.fits
              (on i (waking refs) looking e (λ n. n) (λ n. n)))
        | inr (inl (one, r)) ↦ subst tried (sym r) (
            stay (t.word + 2) true (update t.wakers i Waking.away) (omega (arith, v.bound, one))
              (Fits-signal v.holder t.pollers t.word (t.word + 2) t.signal (omega (arith, one))
                (inl (omega (arith, one), omega (arith, one))) v.fits)
              (on i (waking refs) Waking.away e (λ n. n) (λ n. n)))
        | inr (inr (two, r)) ↦ subst tried (sym r) (claim_keeps i refs e two)
      ]

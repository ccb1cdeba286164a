-- ===== src/Desc/Join/Calls.antt =====
-- The accesses of the join handle keep the invariant.
use cmpth_rs.Prelude.{
  ℕ, ◌≡◌, ◌≢◌, refl, sym, subst, subst₂, ◌∙◌, Bool, true, not, ◌&&◌, List, [], ◌∷◌, ◌++◌, arith,
  inl, inr, ◌==◌, ==_iff, Bool-cases,
}
use cmpth_rs.Desc.{
  Effect, box_waker, reclaim, Call, abandon, join, join_async, await, Turn, found_finished, stored,
  again, turn, turn_word, new_word, replaced, unused_box, is_finished, js_finished,
  decode_join_state,
}
use cmpth_rs.Desc.Word.{
  IsCall, decode-encode, encode_finished, call_state, call_state-IsState, new_word-encode,
}
use cmpth_rs.Desc.Join.{
  tally, is_resume, Exit, Waiter, Handle, idle, calling, waiting, owner, taken, start, accepted,
  after_turn, turn_effects,
}
use cmpth_rs.Desc.Join.Ledger.{in_call}
use cmpth_rs.Desc.Join.Inv.{IsJoin}
use cmpth_rs.Desc.Join.Settled.{at}
use cmpth_rs.Desc.Join.Fits.{
  learn, expect, replaced-Drops, unused-Drops, accepted_counts, store_fits, found_fits, relax,
  boxed_fits, resumed_fits, take_fits, IsCalling-accepted,
}

module _ (claims : ℕ → Bool) (word : ℕ) (exit : Exit) (log : List Effect) where
  pub look_keeps :
      (v : Waiter)
      → is_finished word ≡ true
      → IsJoin claims (at word exit (idle v) log)
      → IsJoin claims (at word exit owner log)
  unfolding is_finished
  look_keeps v e i = record {
    state = i.state;
    proper = i.proper;
    word_is = i.word_is;
    call_is = tt;
    fits =
        (let f = encode_finished i.state i.proper (sym i.word_is ∙ (==_iff word js_finished).0 e) in
          learn claims exit (idle v) i.state log f i.fits);
    reclaims = i.reclaims;
    boxes = i.boxes;
  }

  pub stored_keeps :
      (v : Waiter) (c : Call)
      → word ≢ js_finished
      → IsJoin claims (at word exit (calling v c word) log)
      → IsJoin claims (at (new_word c) exit (accepted c) (replaced (decode_join_state word) ++ log))
  stored_keeps v c n i =
      let d : decode_join_state word ≡ i.state = rw i.word_is (decode-encode i.state i.proper) in
      let r = replaced-Drops i.state log in
      let f =
        store_fits claims exit v c word i.state log (replaced i.state) n i.word_is r.notices
          i.fits in
      let k = accepted_counts exit c f.0 in
      rw d (record {
        state = call_state c;
        proper = call_state-IsState c i.call_is;
        word_is = new_word-encode c i.call_is;
        call_is = IsCalling-accepted c;
        fits = f.1;
        reclaims = r.reclaimed ∙ i.reclaims ∙ sym k.0;
        boxes = λ a. omega (arith, r.boxed a, r.woken a, r.dropped a, i.boxes a, k.1 a);
      })

  pub found_keeps :
      (v : Waiter) (c : Call)
      → IsJoin claims (at word exit (calling v c js_finished) log)
      → IsJoin claims (at word exit owner (unused_box c ++ log))
  found_keeps v c i =
      let r = unused-Drops c log in
      record {
        state = i.state;
        proper = i.proper;
        word_is = i.word_is;
        call_is = tt;
        fits = found_fits claims exit v c i.state log (unused_box c) r.notices i.fits;
        reclaims = r.reclaimed ∙ i.reclaims;
        boxes = λ a. omega (arith, r.boxed a, r.woken a, r.dropped a, i.boxes a);
      }

  pub again_keeps :
      (v : Waiter) (c : Call) (cur : ℕ)
      → IsJoin claims (at word exit (calling v c cur) log)
      → IsJoin claims (at word exit (calling v c word) log)
  again_keeps v c cur i = record {
    state = i.state;
    proper = i.proper;
    word_is = i.word_is;
    call_is = i.call_is;
    fits =
        expect claims exit v c cur word i.state log i.proper i.word_is
          (relax claims exit v c cur i.state log i.fits);
    reclaims = i.reclaims;
    boxes = i.boxes;
  }

  pub try_keeps :
      (v : Waiter) (c : Call) (cur : ℕ) (spurious : Bool)
      → IsJoin claims (at word exit (calling v c cur) log)
      → IsJoin claims (
          at
            (turn_word c cur word spurious)
            exit
            (after_turn v c (turn c cur word spurious))
            (turn_effects (turn c cur word spurious) ++ log))
  unfolding turn turn_word after_turn turn_effects
  try_keeps v c cur spurious i =
      let tried : Turn → ℕ → Type 0 =
        λ t w. IsJoin claims (at w exit (after_turn v c t) (turn_effects t ++ log)) in
      elim (Bool-cases (cur == js_finished)) [
        | inl done ↦
            let e : cur ≡ js_finished = (==_iff cur js_finished).0 done in
            let t : turn c cur word spurious ≡ found_finished (unused_box c) = rw (turn, done) in
            let w : turn_word c cur word spurious ≡ word = rw (turn_word, done) in
            subst₂ tried (sym t) (sym w)
              (found_keeps v c (subst (λ x. IsJoin claims (at word exit (calling v c x) log)) e i))
        | inr live ↦ elim (Bool-cases (word == cur && not spurious)) [
          | inl same ↦
              let e : cur ≡ word = ground arith in
              let n : word ≢ js_finished = ground arith in
              let t : turn c cur word spurious ≡ stored (replaced (decode_join_state word)) =
                rw (turn, live, same, e) in
              let w : turn_word c cur word spurious ≡ new_word c = rw (turn_word, live, same) in
              subst₂ tried (sym t) (sym w) (
                stored_keeps v c n
                  (subst (λ x. IsJoin claims (at word exit (calling v c x) log)) e i))
          | inr other ↦
              let t : turn c cur word spurious ≡ again word = rw (turn, live, other) in
              let w : turn_word c cur word spurious ≡ word = rw (turn_word, live, other) in
              subst₂ tried (sym t) (sym w) (again_keeps v c cur i)
        ]
      ]

  plain_keeps :
      (v : Waiter) (c : Call)
      → IsCall c
      → ((a : ℕ) → in_call a c ≡ 0)
      → IsJoin claims (at word exit (idle v) log)
      → IsJoin claims (at word exit (calling v c word) log)
  plain_keeps v c p z i = record {
    state = i.state;
    proper = i.proper;
    word_is = i.word_is;
    call_is = p;
    fits = expect claims exit v c word word i.state log i.proper i.word_is i.fits;
    reclaims = i.reclaims;
    boxes = λ a. omega (arith, i.boxes a, z a);
  }

  box_keeps :
      (v : Waiter) (w : ℕ)
      → IsCall (await w)
      → IsJoin claims (at word exit (idle v) log)
      → IsJoin claims (at word exit (calling v (await w) word) (box_waker w ∷ log))
  box_keeps v w p i = record {
    state = i.state;
    proper = i.proper;
    word_is = i.word_is;
    call_is = p;
    fits =
        boxed_fits claims exit v (await w) word w i.state log
          (expect claims exit v (await w) word word i.state log i.proper i.word_is i.fits);
    reclaims = omega (arith, i.reclaims);
    boxes = λ a. omega (arith, i.boxes a);
  }

  -- The first load.
  pub call_keeps :
      (v : Waiter) (c : Call)
      → IsCall c
      → IsJoin claims (at word exit (idle v) log)
      → IsJoin claims (at word exit (start v c word).0 ((start v c word).1 ++ log))
  unfolding start is_finished
  call_keeps v abandon p i = plain_keeps v abandon p (λ a. refl) i
  call_keeps v (join j) p i = plain_keeps v (join j) p (λ a. refl) i
  call_keeps v (join_async j) p i = plain_keeps v (join_async j) p (λ a. refl) i
  call_keeps v (await w) p i =
      let started : Handle × List Effect → Type 0 =
        λ h. IsJoin claims (at word exit h.0 (h.1 ++ log)) in
      elim (Bool-cases (word == js_finished)) [
        | inl done ↦
            let e : start v (await w) word ≡ (owner, []) = rw (start, done) in
            subst started (sym e) (look_keeps v done i)
        | inr live ↦
            let e : start v (await w) word ≡ (calling v (await w) word, box_waker w ∷ []) =
              rw (start, live) in
            subst started (sym e) (box_keeps v w p i)
      ]

  pub resumed_keeps :
      (j : ℕ)
      → tally (is_resume j) log ≢ 0
      → IsJoin claims (at word exit (waiting j) log)
      → IsJoin claims (at word exit owner log)
  resumed_keeps j n i = record {
    state = i.state;
    proper = i.proper;
    word_is = i.word_is;
    call_is = tt;
    fits = resumed_fits claims exit j i.state log n i.fits;
    reclaims = i.reclaims;
    boxes = i.boxes;
  }

  pub take_keeps :
      IsJoin claims (at word exit owner log) → IsJoin claims (at word exit taken (reclaim ∷ log))
  take_keeps i = record {
    state = i.state;
    proper = i.proper;
    word_is = i.word_is;
    call_is = tt;
    fits = take_fits claims exit i.state log i.fits;
    reclaims = omega (arith, i.reclaims);
    boxes = λ a. omega (arith, i.boxes a);
  }

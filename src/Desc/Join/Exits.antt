-- ===== src/Desc/Join/Exits.antt =====
-- The accesses of the exiting task keep the invariant.
use cmpth_rs.Prelude.{ℕ, ◌≡◌, refl, sym, subst, ◌∙◌, Bool, true, List, ◌∷◌, ◌++◌, some, arith, inr}
use cmpth_rs.Desc.{
  finished, Effect, resume, reclaim, settle, finish_and_settle, commit_finished, handoff_target,
  try_take_handoff_target, is_abandoned, js_detached,
}
use cmpth_rs.Desc.Word.{encode, encode_detached}
use cmpth_rs.Desc.Join.{tally, executing, checked, swapping, settled, handing, Handle}
use cmpth_rs.Desc.Join.Ledger.{is_reclaim, carried, returns, resumes-le}
use cmpth_rs.Desc.Join.Inv.{IsJoin, Live}
use cmpth_rs.Desc.Join.Settled.{
  at, decoded, Live-sync, Live-detached, target_sync, same_returns, settle-Told, settle_reclaims,
  settle_boxes,
}

module _ (claims : ℕ → Bool) (word : ℕ) (h : Handle) (log : List Effect) where
  pub hand_keeps :
      (j : ℕ)
      → try_take_handoff_target word ≡ some j
      → IsJoin claims (at word executing h log)
      → IsJoin claims (at word (handing j) h log)
  unfolding try_take_handoff_target
  hand_keeps j e v =
      let d = decoded v.state word v.proper v.word_is in
      let target : handoff_target v.state ≡ some j = subst (λ s. handoff_target s ≡ some j) d e in
      let s = target_sync v.state j target in
      let w = Live-sync h j (subst (Live h) s v.fits.0) in
      record {
        state = v.state;
        proper = v.proper;
        word_is = v.word_is;
        call_is = v.call_is;
        fits = (w, s, v.fits.1);
        reclaims = (rw w (rw w at v.reclaims));
        boxes = v.boxes;
      }

  pub check_keeps : IsJoin claims (at word executing h log) → IsJoin claims (at word checked h log)
  check_keeps v = record {
    state = v.state;
    proper = v.proper;
    word_is = v.word_is;
    call_is = v.call_is;
    fits = v.fits;
    reclaims = v.reclaims ∙ sym (same_returns h).0;
    boxes = v.boxes;
  }

  pub keep_keeps : IsJoin claims (at word checked h log) → IsJoin claims (at word swapping h log)
  keep_keeps v = record {
    state = v.state;
    proper = v.proper;
    word_is = v.word_is;
    call_is = v.call_is;
    fits = v.fits;
    reclaims = v.reclaims ∙ (same_returns h).0 ∙ sym (same_returns h).1;
    boxes = v.boxes;
  }

  pub ready_keeps : IsJoin claims (at word executing h log) → IsJoin claims (at word swapping h log)
  ready_keeps v = record {
    state = v.state;
    proper = v.proper;
    word_is = v.word_is;
    call_is = v.call_is;
    fits = v.fits;
    reclaims = v.reclaims ∙ sym (same_returns h).1;
    boxes = v.boxes;
  }

  pub commit_keeps :
      (j : ℕ)
      → IsJoin claims (at word (handing j) h log)
      → IsJoin claims (at (commit_finished word) settled h (resume j ∷ log))
  unfolding commit_finished encode
  commit_keeps j v =
      let (w, s, q) = v.fits in
      record {
        state = finished;
        proper = tt;
        word_is = refl;
        call_is = v.call_is;
        fits = rw w ((refl, ground (arith, resumes-le j log)), omega arith);
        reclaims =
            (let r : tally is_reclaim log ≡ 0 =
                subst (λ x. tally is_reclaim log ≡ returns (handing j) x) w v.reclaims in
              rw w (omega (arith, r)));
        boxes = λ a. ground (arith, v.boxes a);
      }

  pub free_keeps :
      is_abandoned word ≡ true
      → IsJoin claims (at word checked h log)
      → IsJoin claims (at word settled h (reclaim ∷ log))
  unfolding is_abandoned
  free_keeps e v =
      let word_2 : word ≡ js_detached = ground arith in
      let s = encode_detached v.state v.proper (sym v.word_is ∙ word_2) in
      let g = Live-detached h (subst (Live h) s v.fits.0) in
      record {
        state = v.state;
        proper = v.proper;
        word_is = v.word_is;
        call_is = v.call_is;
        fits = rw g (inr s, omega (arith, v.fits));
        reclaims =
            (let r : tally is_reclaim log ≡ 0 =
                subst (λ x. tally is_reclaim log ≡ returns checked x) g v.reclaims in
              rw g (omega (arith, r)));
        boxes = λ a. omega (arith, v.boxes a);
      }

  pub swap_keeps :
      (e : List Effect)
      → (finish_and_settle claims word).0 ≡ some e
      → IsJoin claims (at word swapping h log)
      → IsJoin claims (at (finish_and_settle claims word).1 settled h (e ++ log))
  unfolding finish_and_settle encode
  swap_keeps e se v =
      let d = decoded v.state word v.proper v.word_is in
      let told : settle claims v.state ≡ some e = subst (λ s. settle claims s ≡ some e) d se in
      record {
        state = finished;
        proper = tt;
        word_is = refl;
        call_is = v.call_is;
        fits = settle-Told claims h v.state log e v.fits.0 v.fits.1 told;
        reclaims = settle_reclaims claims h v.state log e v.fits.0 told v.reclaims;
        boxes = λ a. settle_boxes claims v.state log e a (carried a h) told (v.boxes a);
      }

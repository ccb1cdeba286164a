-- ===== src/Pool/Flush.antt =====
-- Sending a batch to its home: the heap follows the lists.
use cmpth_rs.Prelude.{
  ℕ, ◌≡◌, ◌≢◌, refl, sym, ap, ◌∙◌, ◌⊎◌, inl, inr, Option, none, some, List, [], ◌∷◌, ◌++◌, arith,
  update, update_self, update_ne, update_each, update_both, update_pair, Among, append-Among,
  Among-append, Distinct-append,
}
use cmpth_rs.Pool.{Lists, flush}
use cmpth_rs.Pool.View.{
  Place, used, local, remote, staged, View, Seg, last?, Batch, Holds, Reps, set_batch, flushed,
}
use cmpth_rs.Pool.Chain.{Seg-frame, Batch-frame, Seg-splice, Holds-frame, last?-Among}
use cmpth_rs.Pool.Stage.{staged-ne, apart}

-- `flushed` moves one batch and nothing else.
module _ (wk home : ℕ) where
  flushed-remote :
      (p : Place) → flushed wk home p ≡ remote home → (p ≡ staged wk home) ⊎ (p ≡ remote home)
  flushed-remote (staged w h) e = ground arith
  flushed-remote used e = cc
  flushed-remote (local w) e = cc
  flushed-remote (remote w) e = inr e

  flushed_self : flushed wk home (staged wk home) ≡ remote home
  flushed_self = ground arith

  flushed-staged : (p : Place) → flushed wk home p ≢ staged wk home
  flushed-staged (staged w h) e = ground arith
  flushed-staged used e = cc
  flushed-staged (local w) e = cc
  flushed-staged (remote w) e = cc

  flushed_ne :
      (at p : Place) → at ≢ remote home → at ≢ staged wk home → flushed wk home p ≡ at → p ≡ at
  flushed_ne at (staged w h) a b e = ground arith
  flushed_ne at p a b e = e

  ne-flushed : (p : Place) → p ≢ staged wk home → flushed wk home p ≡ p
  ne-flushed (staged w h) b = ground arith
  ne-flushed p b = refl

module _ {s : Lists} {v : View} (r : Reps s v) (wk home node l : ℕ) (free : v.place node ≡ used)
    (last : (s.pro wk home).last ≡ some l) where
  open r use {local_seg, remote_seg, batch, local_holds, remote_holds, batch_holds}

  abbrev batch_xs : List ℕ
  batch_xs = v.batches wk home

  abbrev place' : ℕ → Place
  place' = update (λ y. flushed wk home (v.place y)) node (staged wk home)

  abbrev next' : ℕ → Option ℕ
  next' = update (update s.next l (s.con_remote home)) node none

  ends : last? batch_xs ≡ some l
  ends = sym (batch wk home).ended ∙ last

  l-staged : v.place l ≡ staged wk home
  l-staged = (batch_holds wk home).placed l (last?-Among batch_xs l ends)

  -- Another list's links stay.
  links :
      (at : Place) (xs : List ℕ)
      → Holds v.place at xs
      → used ≢ at
      → at ≢ staged wk home
      → (x : ℕ) → Among x xs
      → next' x ≡ s.next x
  links at xs h ne ne' x m =
      update_ne (update s.next l (s.con_remote home)) none (apart r wk node free h ne x m)
      ∙ update_ne s.next (s.con_remote home)
          (λ w. ne' (sym (h.placed x m) ∙ (ap v.place (sym w) ∙ l-staged)))

  kept :
      (at : Place) (xs : List ℕ)
      → used ≢ at
      → at ≢ staged wk home
      → at ≢ remote home
      → Holds v.place at xs
      → Holds place' at xs
  kept at xs ne ne' ne'' h =
      Holds-frame v.place place' at xs
        (update_each (λ x p. p ≡ at → v.place x ≡ at) _ node (λ e. absurd (ne' (sym e)))
          (λ x _ e. flushed_ne wk home at (v.place x) ne'' ne' e))
        (λ x e.
          update_ne (λ y. flushed wk home (v.place y)) (staged wk home)
            (λ w. ne (sym free ∙ (ap v.place w ∙ e)))
          ∙ (ap (flushed wk home) e ∙ ne-flushed wk home at ne'))
        h

  mailed : Holds place' (remote home) (batch_xs ++ v.remotes home)
  mailed = record {
    placed = λ x m. moved x (elim (Among-append batch_xs (v.remotes home) x m) [
      | inl a ↦ inl ((batch_holds wk home).placed x a)
      | inr a ↦ inr ((remote_holds home).placed x a)
    ]);
    found =
        update_each (λ x p. p ≡ remote home → Among x (batch_xs ++ v.remotes home)) _ node (λ e. cc)
          (λ x _ e.
            append-Among batch_xs (v.remotes home) x (elim (flushed-remote wk home (v.place x) e) [
              | inl a ↦ inl ((batch_holds wk home).found x a)
              | inr a ↦ inr ((remote_holds home).found x a)
            ]));
    distinct =
        Distinct-append batch_xs (v.remotes home) (batch_holds wk home).distinct
          (remote_holds home).distinct
          (λ x a b.
            two_places (sym ((batch_holds wk home).placed x a) ∙ (remote_holds home).placed x b));
  }
    where
      two_places : staged wk home ≢ remote home
      two_places e = cc

      moved :
          (x : ℕ)
          → (v.place x ≡ staged wk home) ⊎ (v.place x ≡ remote home)
          → place' x ≡ remote home
      moved x (inl e) =
          update_ne (λ y. flushed wk home (v.place y)) (staged wk home)
            (λ w. cc (ap v.place w, free, e))
          ∙ (ap (flushed wk home) e ∙ flushed_self wk home)
      moved x (inr e) =
          update_ne (λ y. flushed wk home (v.place y)) (staged wk home)
            (λ w. cc (ap v.place w, free, e))
          ∙ ap (flushed wk home) e

  -- The batch and the mailbox behind it are one chain.
  joined : Seg next' (s.pro wk home).first (batch_xs ++ v.remotes home)
  joined =
      Seg-splice s.next next' _ (s.con_remote home) batch_xs (v.remotes home) l ends
        (batch_holds wk home).distinct
        (update_ne (update s.next l (s.con_remote home)) none
            (λ w. cc (ap v.place w, free, l-staged))
          ∙ update_self s.next l _)
        (λ x m ne.
          update_ne (update s.next l (s.con_remote home)) none
            (apart r wk node free (batch_holds wk home) (λ e. cc) x m)
          ∙ update_ne s.next (s.con_remote home) (λ w. ne (sym w)))
        (batch wk home).chained
        (Seg-frame s.next next' _ _ (links (remote home) _ (remote_holds home) (λ e. cc) (λ e. cc))
          (remote_seg home))

  only_node : Holds place' (staged wk home) (node ∷ [])
  only_node = record {
    placed = only;
    found =
        update_each (λ x p. p ≡ staged wk home → Among x (node ∷ [])) _ node (λ e. inl refl)
          (λ x _ e. absurd (flushed-staged wk home (v.place x) e));
    distinct = (λ m. m, tt);
  }
    where
      only : (x : ℕ) → Among x (node ∷ []) → place' x ≡ staged wk home
      only x (inl e) =
          ap place' e ∙ update_self (λ y. flushed wk home (v.place y)) node (staged wk home)
      only x (inr m) = elim m [ ]

  pub flush-Reps : Reps (flush wk home node l s) (record v {
    batches = set_batch v wk home (node ∷ []);
    remotes = update v.remotes home (batch_xs ++ v.remotes home);
    place = place';
  })
  unfolding flush
  flush-Reps = record {
    local_seg = λ w.
        Seg-frame s.next next' _ _ (links (local w) _ (local_holds w) (λ e. cc) (λ e. cc))
          (local_seg w);
    remote_seg =
        update_both (λ w h xs. Seg next' h xs) s.con_remote v.remotes home joined
          (λ w ne.
            Seg-frame s.next next' _ _ (links (remote w) _ (remote_holds w) (λ e. cc) (λ e. cc))
              (remote_seg w));
    batch =
        update_pair (λ w h p xs. Batch next' p xs) s.pro v.batches wk home
          (record {
            chained = (refl, update_self (update s.next l (s.con_remote home)) node none);
            counted = refl;
            ended = refl;
          })
          (λ w h ne.
            Batch-frame s.next next' _ _
              (links (staged w h) _ (batch_holds w h) (λ e. cc)
                (λ e. staged-ne wk home w h ne (sym e)))
              (batch w h));
    local_holds = λ w. kept (local w) _ (λ e. cc) (λ e. cc) (λ e. cc) (local_holds w);
    remote_holds =
        update_each (λ w xs. Holds place' (remote w) xs) v.remotes home mailed
          (λ w ne. kept (remote w) _ (λ e. cc) (λ e. cc) (λ e. ne (cc)) (remote_holds w));
    batch_holds =
        update_pair (λ w h xs (_ : List ℕ). Holds place' (staged w h) xs) v.batches v.batches wk
          home {b = []} only_node
          (λ w h ne.
            kept (staged w h) _ (λ e. cc) (λ e. staged-ne wk home w h ne (sym e)) (λ e. cc)
              (batch_holds w h));
  }

-- ===== src/Pool/Stage.antt =====
-- Giving a node to its own list or to a batch: the heap follows the lists.
use cmpth_rs.Prelude.{
  ℕ, ◌+◌, ◌≡◌, ◌≢◌, refl, sym, ap, subst, ◌∙◌, ◌⊎◌, inl, inr, Option, some, List, [], ◌∷◌, arith,
  ◌==◌, if◌then◌else◌, update, update_self, update_ne, update_each, update_both, update_pair, Among,
}
use cmpth_rs.Pool.{Lists, give_local, accumulate}
use cmpth_rs.Pool.View.{
  Place, used, local, remote, staged, View, Seg, Batch, Holds, Reps, set_batch,
}
use cmpth_rs.Pool.Chain.{Seg-frame, Batch-frame, Holds-frame, Holds-cons}

pub staged-ne : (w h w' h' : ℕ) → (w ≢ w') ⊎ (h ≢ h') → staged w h ≢ staged w' h'
staged-ne w h w' h' (inl ne) e = ne (cc)
staged-ne w h w' h' (inr ne) e = ne (cc)

module _ {s : Lists} {v : View} (r : Reps s v) (wk node : ℕ) (free : v.place node ≡ used) where
  open r use {local_seg, remote_seg, batch, local_holds, remote_holds, batch_holds}

  -- A node in use is in no list.
  pub apart :
      {at : Place} {xs : List ℕ} → Holds v.place at xs → used ≢ at → (x : ℕ) → Among x xs → node ≢ x
  apart h ne x m w = ne (sym free ∙ (ap v.place w ∙ h.placed x m))

  -- A list elsewhere does not see that the node has moved.
  elsewhere :
      (at at' : Place) (xs : List ℕ)
      → used ≢ at
      → at' ≢ at
      → Holds v.place at xs
      → Holds (update v.place node at') at xs
  elsewhere at at' xs ne ne' h =
      Holds-frame v.place _ at xs
        (update_each (λ x p. p ≡ at → v.place x ≡ at) v.place node (λ e. absurd (ne' e))
          (λ x _ e. e))
        (λ x e. update_ne v.place _ (λ w. ne (sym free ∙ (ap v.place w ∙ e))) ∙ e) h

  -- A chain elsewhere does not see that the node's link has changed.
  pub framed :
      (link h : Option ℕ) {at : Place} (xs : List ℕ)
      → Holds v.place at xs
      → used ≢ at
      → Seg s.next h xs
      → Seg (update s.next node link) h xs
  framed link h xs hs ne = Seg-frame s.next _ h xs (λ x m. update_ne s.next _ (apart hs ne x m))

  pub framed-Batch :
      (link : Option ℕ) (w h : ℕ) → Batch (update s.next node link) (s.pro w h) (v.batches w h)
  framed-Batch link w h =
      Batch-frame s.next _ _ _ (λ x m. update_ne s.next _ (apart (batch_holds w h) (λ e. cc) x m))
        (batch w h)

  -- A node in use may change its own fields.
  pub relink-Reps :
      (link : Option ℕ) (home : ℕ)
      → Reps (record s { next = update s.next node link; alloc_wk = update s.alloc_wk node home }) v
  relink-Reps link home = record {
    local_seg = λ w. framed link _ (v.locals w) (local_holds w) (λ e. cc) (local_seg w);
    remote_seg = λ w. framed link _ (v.remotes w) (remote_holds w) (λ e. cc) (remote_seg w);
    batch = framed-Batch link;
    local_holds = local_holds;
    remote_holds = remote_holds;
    batch_holds = batch_holds;
  }

  pub give_local-Reps : Reps (give_local wk node s) (record v {
    locals = update v.locals wk (node ∷ v.locals wk);
    place = update v.place node (local wk);
  })
  unfolding give_local
  give_local-Reps = record {
    local_seg =
        update_both (λ w h xs. Seg (update s.next node (s.con_local wk)) h xs) s.con_local v.locals
          wk
          (
            refl,
            subst (λ k. Seg (update s.next node (s.con_local wk)) k (v.locals wk))
                (sym (update_self s.next node _))
                (framed _ _ (v.locals wk) (local_holds wk) (λ e. cc) (local_seg wk)),
          )
          (λ w ne. framed _ _ (v.locals w) (local_holds w) (λ e. cc) (local_seg w));
    remote_seg = λ w. framed _ _ (v.remotes w) (remote_holds w) (λ e. cc) (remote_seg w);
    batch = framed-Batch _;
    local_holds =
        update_each (λ w xs. Holds (update v.place node (local wk)) (local w) xs) v.locals wk
          (Holds-cons v.place _ (local wk) _ node (λ e. cc) (update_self v.place node _)
            (λ x ne. update_ne v.place _ ne) (local_holds wk))
          (λ w ne. elsewhere (local w) (local wk) _ (λ e. cc) (λ e. ne (cc)) (local_holds w));
    remote_holds = λ w. elsewhere (remote w) (local wk) _ (λ e. cc) (λ e. cc) (remote_holds w);
    batch_holds = λ w h. elsewhere (staged w h) (local wk) _ (λ e. cc) (λ e. cc) (batch_holds w h);
  }

  pub accumulate-Reps :
      (home : ℕ)
      → Reps (accumulate wk home node s) (record v {
        batches = set_batch v wk home (node ∷ v.batches wk home);
        place = update v.place node (staged wk home);
      })
  unfolding accumulate
  accumulate-Reps home = record {
    local_seg = λ w. framed _ _ (v.locals w) (local_holds w) (λ e. cc) (local_seg w);
    remote_seg = λ w. framed _ _ (v.remotes w) (remote_holds w) (λ e. cc) (remote_seg w);
    batch =
        update_pair (λ w h p xs. Batch (update s.next node (s.pro wk home).first) p xs) s.pro
          v.batches wk home (longer (v.batches wk home) (batch wk home) (framed-Batch _ wk home))
          (λ w h ne. framed-Batch _ w h);
    local_holds = λ w. elsewhere (local w) (staged wk home) _ (λ e. cc) (λ e. cc) (local_holds w);
    remote_holds =
        λ w. elsewhere (remote w) (staged wk home) _ (λ e. cc) (λ e. cc) (remote_holds w);
    batch_holds =
        update_pair
          (λ w h xs (_ : List ℕ). Holds (update v.place node (staged wk home)) (staged w h) xs)
          v.batches v.batches wk home {b = []}
          (Holds-cons v.place _ (staged wk home) _ node (λ e. cc) (update_self v.place node _)
            (λ x ne. update_ne v.place _ ne) (batch_holds wk home))
          (λ w h ne.
            elsewhere (staged w h) (staged wk home) _ (λ e. cc) (staged-ne wk home w h ne)
              (batch_holds w h));
  }
    where
      longer :
          (xs : List ℕ)
          → Batch s.next (s.pro wk home) xs
          → Batch (update s.next node (s.pro wk home).first) (s.pro wk home) xs
          → Batch
              (update s.next node (s.pro wk home).first)
              (record {
                first = some node;
                last = if (s.pro wk home).num == 0 then some node else (s.pro wk home).last;
                num = (s.pro wk home).num + 1;
              })
              (node ∷ xs)
      longer [] b b' = record {
        chained = (refl, update_self s.next node _ ∙ b.chained);
        counted = omega (arith, b.counted);
        ended = rw b.counted;
      }
      longer (x ∷ xs) b b' = record {
        chained = (
          refl,
          subst (λ k. Seg (update s.next node (s.pro wk home).first) k (x ∷ xs))
              (sym (update_self s.next node _)) b'.chained,
        );
        counted = omega (arith, b.counted);
        ended = ground (arith, b.counted, b.ended);
      }

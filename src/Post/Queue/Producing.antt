-- ===== src/Post/Queue/Producing.antt =====
-- The producers' accesses keep the invariant.
use cmpth_rs.Prelude.{
  ℕ, ◌+◌, ◌≡◌, ◌≢◌, inl, inr, refl, sym, subst, ◌∙◌, Bool, true, false, List, ◌∷◌, Option, none,
  some, arith, if◌then◌else◌, update, update_self, update_ne, update_each, update_both,
}
use cmpth_rs.Post.Queue.{
  System, Producer, ready, marked, pushing, asking, linked, same_head, after_push,
}
use cmpth_rs.Post.Queue.Chain.{Chain, Chain-link, count}
use cmpth_rs.Post.Queue.Inv.{
  IsPosting, ahead, listing, current, flag, flag_le, Links, Owed, Wanted, Wanted_other,
}

unlinked : (q : Bool) (l : Option ℕ) → Links (if q then ready else pushing) l
unlinked true l = tt
unlinked false l = tt

same_head_lem : (h k : Option ℕ) → same_head h k ≡ true → h ≡ k
unfolding same_head
same_head_lem none none e = refl
same_head_lem none (some j) e = cc
same_head_lem (some i) none e = cc
same_head_lem (some i) (some j) e = ground arith

after_listing : (h : Option ℕ) → listing (after_push h) ≡ 0
unfolding after_push
after_listing none = refl
after_listing (some j) = refl

after-Links : (h l : Option ℕ) → Links (after_push h) l
unfolding after_push
after-Links none l = tt
after-Links (some j) l = tt

module _ (t : System) (v : IsPosting t) where
  -- A producer that was not asking moves on.
  still :
      (i : ℕ) (p q : Producer)
      → t.producers i ≡ p
      → p ≢ asking
      → (j : ℕ) → t.producers j ≡ asking
      → update t.producers i q j ≡ asking
  still i p q e n j a =
      let ne : i ≢ j = λ x. n (sym e ∙ (subst (λ k. t.producers k ≡ asking) (sym x) a)) in
      update_ne t.producers q ne ∙ a

  abbrev Placed : List ℕ → List ℕ → ℕ → Producer → Bool → Type 0
  Placed xs ys j p q = listing p + count j xs + count j ys + current t.server j ≡ flag q

  was : (i : ℕ) (p : Producer) → t.producers i ≡ p → Placed v.pending v.taken i p (t.queued i)
  was i p e = subst (λ x. Placed v.pending v.taken i x (t.queued i)) e (v.places i)

  pub bump_keeps :
      (i : ℕ)
      → t.producers i ≡ ready
      → IsPosting (record t {
        mark = update t.mark i (t.mark i + 1);
        producers = update t.producers i marked;
      })
  bump_keeps i e = record {
    pending = v.pending;
    taken = v.taken;
    listed = v.listed;
    walked = v.walked;
    places =
        update_each
          (λ j p.
            listing p + count j v.pending + count j v.taken + current t.server j
            ≡ flag (t.queued j))
          t.producers i (was i ready e) (λ j ne. v.places j);
    links = update_each (λ j p. Links p (t.link j)) t.producers i tt (λ j ne. v.links j);
    owed =
        update_both (λ j m p. Owed m (t.seen j) p (t.queued j) t.server j) t.mark t.producers i
          (inr (inl tt)) (λ j ne. v.owed j);
    wanted =
        Wanted_other t.head t.deadline t.duty t.producers (update t.producers i marked)
          (still i ready marked e (λ x. cc)) v.wanted;
  }

  swapped :
      (i : ℕ) (q : Bool)
      → Placed v.pending v.taken i marked q
      → Placed v.pending v.taken i (if q then ready else pushing) true
  swapped i true h = h
  swapped i false h = omega (arith, h)

  pub swap_keeps :
      (i : ℕ)
      → t.producers i ≡ marked
      → IsPosting (record t {
        queued = update t.queued i true;
        producers = update t.producers i (if t.queued i then ready else pushing);
      })
  swap_keeps i e =
      let next : Producer = if t.queued i then ready else pushing in
      let place : Placed v.pending v.taken i next true = swapped i (t.queued i) (was i marked e) in
      record {
        pending = v.pending;
        taken = v.taken;
        listed = v.listed;
        walked = v.walked;
        places =
            update_both (λ j q p. Placed v.pending v.taken j p q) t.queued t.producers i place
              (λ j ne. v.places j);
        links =
            update_each (λ j p. Links p (t.link j)) t.producers i (unlinked (t.queued i) (t.link i))
              (λ j ne. v.links j);
        owed =
            update_both (λ j q p. Owed (t.mark j) (t.seen j) p q t.server j) t.queued t.producers i
              (inr (inr (inl refl))) (λ j ne. v.owed j);
        wanted =
            Wanted_other t.head t.deadline t.duty t.producers (update t.producers i next)
              (still i marked next e (λ x. cc)) v.wanted;
      }

  -- A producer that is not in a list writes its link.
  after-Owed :
      (i : ℕ) (h : Option ℕ) (m s : ℕ) (q : Bool)
      → Owed m s (linked h) q t.server i
      → Owed m s (after_push h) q t.server i
  unfolding after_push
  after-Owed i none m s q o = o
  after-Owed i (some k) m s q o = o

  aimed :
      (i : ℕ) (p : Producer)
      → t.producers i ≡ p
      → listing p ≡ 1
      → p ≢ asking
      → ((m s : ℕ) (q : Bool) → Owed m s p q t.server i → Owed m s (linked t.head) q t.server i)
      → IsPosting (record t {
        link = update t.link i t.head;
        producers = update t.producers i (linked t.head);
      })
  aimed i p e one n owes =
      let place = was i p e in
      let small = flag_le (t.queued i) in
      let xs : count i v.pending ≡ 0 = omega (arith, place, small, one) in
      let ys : count i v.taken ≡ 0 = omega (arith, place, small, one) in
      record {
        pending = v.pending;
        taken = v.taken;
        listed = Chain-link t.head t.link i t.head v.pending xs v.listed;
        walked = Chain-link (ahead t.server) t.link i t.head v.taken ys v.walked;
        places =
            update_each (λ j p. Placed v.pending v.taken j p (t.queued j)) t.producers i
              (omega (arith, place, one)) (λ j ne. v.places j);
        links = update_both (λ j l p. Links p l) t.link t.producers i refl (λ j ne. v.links j);
        owed =
            update_each (λ j p. Owed (t.mark j) (t.seen j) p (t.queued j) t.server j) t.producers i
              (owes (t.mark i) (t.seen i) (t.queued i)
                (subst (λ x. Owed (t.mark i) (t.seen i) x (t.queued i) t.server i) e (v.owed i)))
              (λ j ne. v.owed j);
        wanted =
            Wanted_other t.head t.deadline t.duty t.producers (update t.producers i (linked t.head))
              (still i p (linked t.head) e n) v.wanted;
      }

  after_wanted :
      (i : ℕ) (h : Option ℕ)
      → t.producers i ≡ linked h
      → t.head ≡ h
      → Wanted (some i) t.deadline t.duty (update t.producers i (after_push h))
  unfolding after_push
  after_wanted i none e here = inr (inr (inr (i, update_self t.producers i asking)))
  after_wanted i (some k) e here = elim v.wanted [
    | inl empty ↦ cc
    | inr w ↦
        Wanted_other (some i) t.deadline t.duty t.producers (update t.producers i ready)
          (still i (linked (some k)) ready e (λ x. cc)) (inr w)
  ]

  pub aim_keeps :
      (i : ℕ)
      → t.producers i ≡ pushing
      → IsPosting (record t {
        link = update t.link i t.head;
        producers = update t.producers i (linked t.head);
      })
  aim_keeps i e = aimed i pushing e refl (λ x. cc) (λ m s q o. o)

  pub retry_keeps :
      (i : ℕ) (h : Option ℕ)
      → t.producers i ≡ linked h
      → IsPosting (record t {
        link = update t.link i t.head;
        producers = update t.producers i (linked t.head);
      })
  retry_keeps i h e = aimed i (linked h) e refl (λ x. cc) (λ m s q o. o)

  pub list_keeps :
      (i : ℕ) (h : Option ℕ)
      → t.producers i ≡ linked h
      → same_head t.head h ≡ true
      → IsPosting (record t { head = some i; producers = update t.producers i (after_push h) })
  list_keeps i h e same =
      let here : t.head ≡ h = same_head_lem t.head h same in
      let l : t.link i ≡ h = subst (λ p. Links p (t.link i)) e (v.links i) in
      let place = was i (linked h) e in
      record {
        pending = i ∷ v.pending;
        taken = v.taken;
        listed = (refl, rw l (subst (λ x. Chain x t.link v.pending) here v.listed));
        walked = v.walked;
        places =
            update_each (λ j p. Placed (i ∷ v.pending) v.taken j p (t.queued j)) t.producers i
              (ground (arith, place, after_listing h)) (λ j ne. ground (arith, v.places j));
        links =
            update_each (λ j p. Links p (t.link j)) t.producers i (after-Links h (t.link i))
              (λ j ne. v.links j);
        owed =
            update_each (λ j p. Owed (t.mark j) (t.seen j) p (t.queued j) t.server j) t.producers i
              (after-Owed i h (t.mark i) (t.seen i) (t.queued i)
                (subst (λ x. Owed (t.mark i) (t.seen i) x (t.queued i) t.server i) e (v.owed i)))
              (λ j ne. v.owed j);
        wanted = after_wanted i h e here;
      }

  pub ask_keeps :
      (i : ℕ)
      → t.producers i ≡ asking
      → IsPosting (record t { deadline = true; producers = update t.producers i ready })
  ask_keeps i e = record {
    pending = v.pending;
    taken = v.taken;
    listed = v.listed;
    walked = v.walked;
    places =
        update_each (λ j p. Placed v.pending v.taken j p (t.queued j)) t.producers i
          (was i asking e) (λ j ne. v.places j);
    links = update_each (λ j p. Links p (t.link j)) t.producers i tt (λ j ne. v.links j);
    owed =
        update_each (λ j p. Owed (t.mark j) (t.seen j) p (t.queued j) t.server j) t.producers i
          (subst (λ x. Owed (t.mark i) (t.seen i) x (t.queued i) t.server i) e (v.owed i))
          (λ j ne. v.owed j);
    wanted = inr (inl refl);
  }

-- ===== src/Post/Queue/Serving.antt =====
-- The server's and the duty's accesses keep the invariant.
use cmpth_rs.Prelude.{
  ℕ, ◌+◌, ◌≡◌, ◌≢◌, inl, inr, refl, sym, subst, Bool, false, List, [], ◌∷◌, Option, none, some,
  arith, update, update_each,
}
use cmpth_rs.Post.Queue.{
  System, Producer, Server, free, lent, locked, walking, visiting, cleared, Duty, waiting, calling,
  trying, inside, returned, leave, collect_batch, serve_batch,
}
use cmpth_rs.Post.Queue.Chain.{Chain, count}
use cmpth_rs.Post.Queue.Inv.{
  IsPosting, ahead, listing, current, flag, flag_le, IsCleared, Owed, Wanted,
}

Owed-server :
    (m s : ℕ) (p : Producer) (q : Bool) (a b : Server) (j : ℕ)
    → (IsCleared a j → IsCleared b j)
    → Owed m s p q a j
    → Owed m s p q b j
Owed-server m s p q a b j f (inl e) = inl e
Owed-server m s p q a b j f (inr (inl e)) = inr (inl e)
Owed-server m s p q a b j f (inr (inr (inl e))) = inr (inr (inl e))
Owed-server m s p q a b j f (inr (inr (inr e))) = inr (inr (inr (f e)))

-- The end of a walk.
pub walked_none : (link : ℕ → Option ℕ) (ys : List ℕ) → Chain none link ys → ys ≡ []
walked_none link [] c = refl
walked_none link (y ∷ ys) c = cc

-- A duty that is not waiting after a change, or was not waiting before it.
Wanted_duty :
    (head : Option ℕ) (deadline : Bool) (a b : Duty) (f : ℕ → Producer)
    → (a ≢ waiting → b ≢ waiting)
    → Wanted head deadline a f
    → Wanted head deadline b f
Wanted_duty head deadline a b f k (inl e) = inl e
Wanted_duty head deadline a b f k (inr (inl e)) = inr (inl e)
Wanted_duty head deadline a b f k (inr (inr (inl n))) = inr (inr (inl (k n)))
Wanted_duty head deadline a b f k (inr (inr (inr e))) = inr (inr (inr e))

leave_busy : (d : Duty) → d ≢ waiting → leave d ≢ waiting
unfolding leave
leave_busy waiting n = absurd (n refl)
leave_busy calling n = n
leave_busy trying n = n
leave_busy inside n = λ e. cc
leave_busy returned n = n

visited :
    (i : ℕ) (link : ℕ → Option ℕ) (zs : List ℕ)
    → Chain (some i) link zs
    → (ys : List ℕ) × (zs ≡ i ∷ ys) × Chain (link i) link ys
visited i link [] c = cc
visited i link (z ∷ ys) c =
    let e : i ≡ z = ground arith in (ys, rw e refl, subst (λ k. Chain (link k) link ys) (sym e) c.1)

module _ (t : System) (v : IsPosting t) where
  -- Where the server is, with the lists that it has and has not taken.
  record At (s : Server) : Type 0 where
    taken : List ℕ
    walked : Chain (ahead s) t.link taken
    places :
        (j : ℕ)
        → listing (t.producers j) + count j v.pending + count j taken + current s j
          ≡ flag (t.queued j)
    owed : (j : ℕ) → Owed (t.mark j) (t.seen j) (t.producers j) (t.queued j) s j

  here : At t.server
  here = record { taken = v.taken; walked = v.walked; places = v.places; owed = v.owed }

  at : (s : Server) → t.server ≡ s → At s
  at s e = subst At e here

  -- The server moves between two places that hold no slot.
  idle :
      (a b : Server) (d : Duty)
      → t.server ≡ a
      → ahead b ≡ ahead a
      → ((j : ℕ) → current b j ≡ current a j)
      → ((j : ℕ) → IsCleared a j → IsCleared b j)
      → (t.duty ≢ waiting → d ≢ waiting)
      → IsPosting (record t { server = b; duty = d })
  idle a b d e same none_now clear k =
      let x = at a e in
      record {
        pending = v.pending;
        taken = x.taken;
        listed = v.listed;
        walked = rw same x.walked;
        places = λ j. omega (arith, x.places j, none_now j);
        links = v.links;
        owed = λ j.
            Owed-server (t.mark j) (t.seen j) (t.producers j) (t.queued j) a b j (clear j)
              (x.owed j);
        wanted = Wanted_duty t.head t.deadline t.duty d t.producers k v.wanted;
      }

  pub lock_keeps : t.server ≡ free → IsPosting (record t { server = locked })
  lock_keeps e = idle free locked t.duty e refl (λ j. refl) (λ j c. c) (λ n. n)

  pub lend_keeps : t.server ≡ free → IsPosting (record t { server = lent })
  lend_keeps e = idle free lent t.duty e refl (λ j. refl) (λ j c. c) (λ n. n)

  pub give_back_keeps : t.server ≡ lent → IsPosting (record t { server = free })
  give_back_keeps e = idle lent free t.duty e refl (λ j. refl) (λ j c. c) (λ n. n)

  pub enter_keeps :
      t.duty ≡ trying → t.server ≡ free → IsPosting (record t { duty = inside; server = locked })
  enter_keeps d e = idle free locked inside e refl (λ j. refl) (λ j c. c) (λ n x. cc)

  pub drain_keeps :
      t.server ≡ locked → IsPosting (record t { server = walking t.head; head = none; batch = [] })
  drain_keeps e =
      let x = at locked e in
      let none_left = walked_none t.link x.taken x.walked in
      record {
        pending = [];
        taken = v.pending;
        listed = refl;
        walked = v.listed;
        places = λ j.
            (let p =
                subst
                  (λ (ys : List ℕ).
                    listing (t.producers j) + count j v.pending + count j ys + 0
                    ≡ flag (t.queued j))
                  none_left (x.places j) in
              omega (arith, p));
        links = v.links;
        owed = λ j.
            Owed-server (t.mark j) (t.seen j) (t.producers j) (t.queued j) locked (walking t.head) j
              (λ c. c) (x.owed j);
        wanted = inl refl;
      }

  pub visit_keeps :
      (i : ℕ)
      → t.server ≡ walking (some i)
      → IsPosting (record t { server = visiting i (t.link i) })
  visit_keeps i e =
      let x = at (walking (some i)) e in
      let (ys, split, rest) = visited i t.link x.taken x.walked in
      record {
        pending = v.pending;
        taken = ys;
        listed = v.listed;
        walked = rest;
        places = λ j.
            (let p =
                subst
                  (λ (zs : List ℕ).
                    listing (t.producers j) + count j v.pending + count j zs + 0
                    ≡ flag (t.queued j))
                  split (x.places j) in
              omega (arith, p));
        links = v.links;
        owed = λ j.
            Owed-server (t.mark j) (t.seen j) (t.producers j) (t.queued j) (walking (some i))
              (visiting i (t.link i)) j (λ c. c) (x.owed j);
        wanted = v.wanted;
      }

  pub clear_keeps :
      (i : ℕ) (p : Option ℕ)
      → t.server ≡ visiting i p
      → IsPosting (record t { server = cleared i p; queued = update t.queued i false })
  clear_keeps i p e =
      let x = at (visiting i p) e in
      record {
        pending = v.pending;
        taken = x.taken;
        listed = v.listed;
        walked = x.walked;
        places =
            update_each
              (λ j q. listing (t.producers j) + count j v.pending + count j x.taken + 0 ≡ flag q)
              t.queued i (ground (arith, x.places i, flag_le (t.queued i)))
              (λ j ne. ground (arith, x.places j));
        links = v.links;
        owed =
            update_each (λ j q. Owed (t.mark j) (t.seen j) (t.producers j) q (cleared i p) j)
              t.queued i (inr (inr (inr refl)))
              (λ j ne.
                Owed-server (t.mark j) (t.seen j) (t.producers j) (t.queued j) (visiting i p)
                  (cleared i p) j (λ c. absurd c) (x.owed j));
        wanted = v.wanted;
      }

  pub collect_keeps :
      (i : ℕ) (p : Option ℕ)
      → t.server ≡ cleared i p
      → IsPosting (record t {
        server = walking p;
        seen = update t.seen i (t.mark i);
        batch = collect_batch i (t.mark i) (t.seen i) t.batch;
      })
  collect_keeps i p e =
      let x = at (cleared i p) e in
      record {
        pending = v.pending;
        taken = x.taken;
        listed = v.listed;
        walked = x.walked;
        places = x.places;
        links = v.links;
        owed =
            update_each (λ j s. Owed (t.mark j) s (t.producers j) (t.queued j) (walking p) j) t.seen
              i (inl refl)
              (λ j ne.
                Owed-server (t.mark j) (t.seen j) (t.producers j) (t.queued j) (cleared i p)
                  (walking p) j (λ c. absurd (ne c)) (x.owed j));
        wanted = v.wanted;
      }

  pub unlock_keeps :
      t.server ≡ walking none
      → IsPosting
          (record t { server = free; served = serve_batch t.batch t.served; duty = leave t.duty })
  unlock_keeps e =
      let x =
        idle (walking none) free (leave t.duty) e refl (λ j. refl) (λ j c. c) (leave_busy t.duty) in
      record {
        pending = x.pending;
        taken = x.taken;
        listed = x.listed;
        walked = x.walked;
        places = x.places;
        links = x.links;
        owed = x.owed;
        wanted = x.wanted;
      }

  pub duty_keeps :
      (d : Duty) (deadline : Bool)
      → Wanted t.head deadline d t.producers
      → IsPosting (record t { duty = d; deadline = deadline })
  duty_keeps d deadline w = record {
    pending = v.pending;
    taken = v.taken;
    listed = v.listed;
    walked = v.walked;
    places = v.places;
    links = v.links;
    owed = v.owed;
    wanted = w;
  }

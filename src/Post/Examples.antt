-- ===== src/Post/Examples.antt =====
-- Two threads that post, a scan, and a run of the listing delegator (src/post.rs).
use cmpth_rs.Prelude.{
  ◌⊎◌, ℕ, ◌≡◌, refl, true, false, [], ◌∷◌, none, some, arith, update, ℕ_discrete,
}
use cmpth_rs.Post.{Producers, SlotDelegator, find, register, mine, bump, post, serve_now}
use cmpth_rs.Post.Serve.{IsServe, serve_now-IsServe}
use cmpth_rs.Post.Queue.{
  System, ready, marked, pushing, asking, linked, free, waiting, same_head, after_push, Reach, here,
  next, swap, aim, list, ask, bump as bump_step,
}
use cmpth_rs.Post.Queue.Delivered.{Handed}
use cmpth_rs.Post.Queue.Running.{Serving}
use cmpth_rs.Post.Queue.Safety.{IsQuiet, no_lost_post}

-- Producer 1 has posted twice and was served once, producer 0 has been served.
abbrev two_slots : Producers
two_slots =
    record { producer = 1; mark = 2; seen = 1 } ∷ record { producer = 0; mark = 5; seen = 5 } ∷ []

first_ticket : (post 7 ((3, 0) ∷ []) two_slots).0 ≡ record { producer = 2; seq = 1 }
unfolding post mine find register bump
first_ticket = refl

-- A thread that is registered with two delegators.
second_slot : (post 7 ((3, 0) ∷ (7, 1) ∷ []) two_slots).0 ≡ record { producer = 1; seq = 3 }
unfolding post mine find bump
second_slot = refl

abbrev scanned : SlotDelegator
scanned = record { slots = two_slots; busy = false; served = [] }

serve_now-IsServe_example : IsServe scanned (serve_now scanned).0 (serve_now scanned).1
serve_now-IsServe_example = serve_now-IsServe scanned

one_ticket : (serve_now scanned).1.served ≡ (record { producer = 1; seq = 2 } ∷ []) ∷ []
unfolding serve_now
one_ticket = refl

-- Producer 3 has posted, and asked for a deadline.
abbrev posted : System
posted = record {
  mark = update (λ _. 0) 3 1;
  seen = λ _. 0;
  queued = update (λ _. false) 3 true;
  link = update (λ _. none) 3 none;
  head = some 3;
  producers =
      update
        (update (update (update (update (λ _. ready) 3 marked) 3 pushing) 3 (linked none)) 3 asking)
        3 ready;
  server = free;
  batch = [];
  served = [];
  duty = waiting;
  deadline = true;
}

one_post : Reach posted
unfolding ℕ_discrete same_head after_push
one_post =
    let r1 = next here (bump_step 3 refl) in
    let r2 = next r1 (swap 3 refl) in
    let r3 = next r2 (aim 3 refl) in
    let r4 = next r3 (list 3 none refl refl) in next r4 (ask 3 refl)

all_ready : (j : ℕ) → posted.producers j ≡ ready
unfolding ℕ_discrete
all_ready j = ground arith

quiet : IsQuiet posted
quiet = record { producers = all_ready; server = refl; duty = refl }

no_lost_post_example :
    Handed posted.served 3 1
    ⊎ ((posted.deadline ≡ true) × ((u : System) × Serving posted u × Handed u.served 3 1))
unfolding ℕ_discrete
no_lost_post_example = no_lost_post 3 one_post quiet (λ e. absurd (omega (arith, e)))

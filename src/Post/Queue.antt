-- ===== src/Post/Queue.antt =====
-- The delegator that lists the slots that posted, an access at a time (`QueuePostDelegator` of
-- src/post.rs): the producers, the server under its lock, and the duty that serves at a deadline.
pub mod Chain
pub mod Inv
pub mod Producing
pub mod Serving
pub mod Delivered
pub mod Running
pub mod Safety
use cmpth_rs.Prelude.{
  ℕ, ◌+◌, ◌≡◌, ◌≢◌, Bool, true, false, List, [], ◌∷◌, ◌++◌, Option, none, some, ◌==◌, if◌then◌else◌,
  update,
}
use cmpth_rs.Post.{Ticket}

-- A producer: between posts, it has stored its mark, it has found its slot not queued, it has stored its
-- link to the head that it saw, it has listed its slot on an empty list and asks for a deadline.
pub data Producer : Type 0 where
  ready marked pushing asking : Producer
  linked : Option ℕ → Producer

-- The server: nobody has the lock, it is held by `with_lock`, the pending list is not taken yet, the
-- walk is at a slot, it has read the slot's link, it has cleared the slot's flag, the walk is over.
pub data Server : Type 0 where
  free lent locked : Server
  walking : Option ℕ → Server
  visiting cleared : ℕ → Option ℕ → Server

-- The duty: it waits for its deadline, it looks at the list, it tries the lock, it serves, it has come
-- back and looks once more.
pub data Duty : Type 0 where
  waiting calling trying inside returned : Duty

pub record System : Type 0 where
  pub mark : ℕ → ℕ
  pub seen : ℕ → ℕ
  pub queued : ℕ → Bool
  pub link : ℕ → Option ℕ
  pub head : Option ℕ
  pub producers : ℕ → Producer
  pub server : Server
  pub batch : List Ticket
  pub served : List (List Ticket)
  pub duty : Duty
  pub deadline : Bool

abbrev pub started : System
started = record {
  mark = λ _. 0;
  seen = λ _. 0;
  queued = λ _. false;
  link = λ _. none;
  head = none;
  producers = λ _. ready;
  server = free;
  batch = [];
  served = [];
  duty = waiting;
  deadline = false;
}

-- Two words of the list's head are equal.
unfoldable pub same_head : Option ℕ → Option ℕ → Bool
same_head none none = true
same_head none (some j) = false
same_head (some i) none = false
same_head (some i) (some j) = i == j

-- Where a producer goes once its slot is listed behind `h`.
unfoldable pub after_push : Option ℕ → Producer
after_push none = asking
after_push (some j) = ready

-- The end of a walk: the consumer is served, unless the batch is empty.
unfoldable pub serve_batch : List Ticket → List (List Ticket) → List (List Ticket)
serve_batch [] served = served
serve_batch (t ∷ batch) served = (t ∷ batch) ∷ served

unfoldable pub collect_batch : ℕ → ℕ → ℕ → List Ticket → List Ticket
collect_batch i mark seen batch =
    if mark == seen then batch else batch ++ record { producer = i; seq = mark } ∷ []

-- The duty leaves the lock with the server.
unfoldable pub leave : Duty → Duty
leave inside = returned
leave waiting = waiting
leave calling = calling
leave trying = trying
leave returned = returned

unfoldable pub is_none : Option ℕ → Bool
is_none none = true
is_none (some i) = false

pub data Step (t : System) : System → Type 0 where
  -- `bump`
  bump :
      (i : ℕ)
      → t.producers i ≡ ready
      → Step t (record t {
        mark = update t.mark i (t.mark i + 1);
        producers = update t.producers i marked;
      })
  -- `queued.swap(true)`
  swap :
      (i : ℕ)
      → t.producers i ≡ marked
      → Step t (record t {
        queued = update t.queued i true;
        producers = update t.producers i (if t.queued i then ready else pushing);
      })
  -- The load of the head, and the store of the link.
  aim :
      (i : ℕ)
      → t.producers i ≡ pushing
      → Step t (record t {
        link = update t.link i t.head;
        producers = update t.producers i (linked t.head);
      })
  -- The exchange of the head succeeds.
  list :
      (i : ℕ) (h : Option ℕ)
      → t.producers i ≡ linked h
      → same_head t.head h ≡ true
      → Step t (record t { head = some i; producers = update t.producers i (after_push h) })
  -- It fails, and the next turn stores another link.
  retry :
      (i : ℕ) (h : Option ℕ)
      → t.producers i ≡ linked h
      → Step t (record t {
        link = update t.link i t.head;
        producers = update t.producers i (linked t.head);
      })
  ask :
      (i : ℕ)
      → t.producers i ≡ asking
      → Step t (record t { deadline = true; producers = update t.producers i ready })
  -- `try_lock` of a call of `serve_now` that is not the duty's, and the locks of `with_lock`.
  lock : t.server ≡ free → Step t (record t { server = locked })
  lend : t.server ≡ free → Step t (record t { server = lent })
  give_back : t.server ≡ lent → Step t (record t { server = free })
  -- `pending.swap(null)`
  drain : t.server ≡ locked → Step t (record t { server = walking t.head; head = none; batch = [] })
  visit :
      (i : ℕ) → t.server ≡ walking (some i) → Step t (record t { server = visiting i (t.link i) })
  -- `queued.swap(false)`
  clear :
      (i : ℕ) (p : Option ℕ)
      → t.server ≡ visiting i p
      → Step t (record t { server = cleared i p; queued = update t.queued i false })
  collect :
      (i : ℕ) (p : Option ℕ)
      → t.server ≡ cleared i p
      → Step t (record t {
        server = walking p;
        seen = update t.seen i (t.mark i);
        batch = collect_batch i (t.mark i) (t.seen i) t.batch;
      })
  unlock :
      t.server ≡ walking none
      → Step t
          (record t { server = free; served = serve_batch t.batch t.served; duty = leave t.duty })
  -- The deadline is reached, and the duty polls.
  fire :
      t.duty ≡ waiting → t.deadline ≡ true → Step t (record t { duty = calling; deadline = false })
  -- The duty's own `serve_now`: the list, then the lock.
  glance :
      t.duty ≡ calling → Step t (record t { duty = if is_none t.head then returned else trying })
  enter : t.duty ≡ trying → t.server ≡ free → Step t (record t { duty = inside; server = locked })
  give_up : t.duty ≡ trying → Step t (record t { duty = returned })
  -- The look at the list after it.
  look_again :
      t.duty ≡ returned
      → Step t (record t { duty = waiting; deadline = if is_none t.head then t.deadline else true })

pub data Reach : System → Type 0 where
  here : Reach started
  next : {t u : System} → Reach t → Step t u → Reach u

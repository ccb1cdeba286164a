-- ===== src/External/Safety.antt =====
-- No item of the external queue stays hidden behind its flag.
use cmpth_rs.Prelude.{
  ℕ, ◌≡◌, ◌≢◌, refl, ap, ◌∙◌, ◌⊎◌, inl, inr, true, Option, none, some, [], update, update_self,
  update_ne, update_each,
}
use cmpth_rs.External.{
  Pc, idle, pushed, flagged, checked, clearing, System, Step, push, set_flag, fire, set_wake_hook,
  see_empty, see_flag, pop_none, pop_last, pop_some, clear_flag, Reach, start, later,
}

-- The thread that clears the flag has the lock, over an empty list.
pub record IsShown (s : System) : Type 0 where
  pub shown : s.queue.inner ≢ [] → (s.queue.non_empty ≡ true) ⊎ ((i : ℕ) × (s.pc i ≡ pushed))
  pub holder :
      (i : ℕ) (item : Option ℕ)
      → s.pc i ≡ clearing item
      → (s.queue.lock ≡ some i) × (s.queue.inner ≡ [])

-- Somebody else's push is still under way.
still :
    (s : System) (i : ℕ) (p : Pc)
    → s.pc i ≢ pushed
    → (s.queue.non_empty ≡ true) ⊎ ((k : ℕ) × (s.pc k ≡ pushed))
    → (s.queue.non_empty ≡ true) ⊎ ((k : ℕ) × (update s.pc i p k ≡ pushed))
still s i p ne (inl e) = inl e
still s i p ne (inr (k, e)) = inr (k, update_ne s.pc p (λ w. ne (ap s.pc w ∙ e)) ∙ e)

-- The holders after `i` moved on.
others :
    (s : System) (i : ℕ) (p : Pc) (Q : ℕ → Option ℕ → Type 0)
    → ((item : Option ℕ) → p ≡ clearing item → Q i item)
    → ((k : ℕ) (item : Option ℕ) → i ≢ k → s.pc k ≡ clearing item → Q k item)
    → (k : ℕ) (item : Option ℕ) → update s.pc i p k ≡ clearing item
    → Q k item
others s i p Q new old =
    update_each (λ k q. (item : Option ℕ) → q ≡ clearing item → Q k item) s.pc i new
      (λ k ne item. old k item ne)

Step-IsShown : {s t : System} → IsShown s → Step s t → IsShown t
Step-IsShown {s} h (push i v e free) = record {
  shown = λ _. inr (i, update_self s.pc i pushed);
  holder = others s i pushed _ (λ item w. cc) (λ k item ne w. cc ((h.holder k item w).0, free));
}
Step-IsShown {s} h (set_flag i e) = record {
  shown = λ _. inl refl;
  holder = others s i flagged _ (λ item w. cc) (λ k item ne w. h.holder k item w);
}
Step-IsShown {s} h (fire i e) = record {
  shown = λ some_left. still s i idle (λ w. cc (w, e)) (h.shown some_left);
  holder = others s i idle _ (λ item w. cc) (λ k item ne w. h.holder k item w);
}
Step-IsShown h set_wake_hook = record { shown = h.shown; holder = h.holder }
Step-IsShown h (see_empty i e off) = h
Step-IsShown {s} h (see_flag i e on) = record {
  shown = λ some_left. inl on;
  holder = others s i checked _ (λ item w. cc) (λ k item ne w. h.holder k item w);
}
Step-IsShown {s} h (pop_none i e free empty) = record {
  shown = λ some_left. absurd (some_left empty);
  holder =
      others s i (clearing none) _ (λ item w. (refl, empty))
        (λ k item ne w. cc ((h.holder k item w).0, free));
}
Step-IsShown {s} h (pop_last i v e free one) = record {
  shown = λ some_left. absurd (some_left refl);
  holder =
      others s i (clearing (some v)) _ (λ item w. (refl, refl))
        (λ k item ne w. cc ((h.holder k item w).0, free));
}
Step-IsShown {s} h (pop_some i v w rest e free more) = record {
  shown = λ some_left. still s i idle (λ z. cc (z, e)) (h.shown (λ z. cc (z, more)));
  holder = others s i idle _ (λ item z. cc) (λ k item ne z. cc ((h.holder k item z).0, free));
}
Step-IsShown {s} h (clear_flag i item e) = record {
  shown = λ some_left. absurd (some_left (h.holder i item e).1);
  holder =
      others s i idle _ (λ item' z. cc)
        (λ k item' ne z. absurd (ne (cc ((h.holder i item e).0, (h.holder k item' z).0))));
}

Reach-IsShown : {s : System} → Reach s → IsShown s
Reach-IsShown start = record { shown = λ ne. absurd (ne refl); holder = λ i item e. cc }
Reach-IsShown (later r st) = Step-IsShown (Reach-IsShown r) st

-- No item stays hidden: in every reachable state, if the queue holds an item and no `push` is
-- between its insertion and its store to the flag, the flag is set, so a `try_pop` looks inside.
pub flag_shows :
    {s : System}
    → Reach s
    → ((i : ℕ) → s.pc i ≢ pushed)
    → s.queue.inner ≢ []
    → s.queue.non_empty ≡ true
flag_shows r quiet some_left = elim ((Reach-IsShown r).shown some_left) [
  | inl on ↦ on
  | inr (i, e) ↦ absurd (quiet i e)
]

-- The flag is cleared over an empty list only: in every reachable state at most one thread is about
-- to clear it, and the list is empty then.
pub clears_empty :
    {s : System}
    → Reach s
    → (i : ℕ) (item : Option ℕ) → s.pc i ≡ clearing item
    → (s.queue.inner ≡ []) × ((k : ℕ) (item' : Option ℕ) → s.pc k ≡ clearing item' → k ≡ i)
clears_empty r i item e =
    let h = Reach-IsShown r in
    ((h.holder i item e).1, λ k item' z. cc ((h.holder i item e).0, (h.holder k item' z).0))

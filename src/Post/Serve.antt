-- ===== src/Post/Serve.antt =====
-- A scan serves every producer that posted, once (`serve_now` of the `SlotPostDelegator`, src/post.rs).
use cmpth_rs.Prelude.{
  ◌≡◌, ◌≢◌, refl, sym, subst, Bool, true, false, not, [], ◌∷◌, map, arith, ◌==◌, if◌then◌else◌,
  Bool-cases, inl, inr, ==_iff,
}
use cmpth_rs.Post.{
  Ticket, Slot, Producers, collect, collect_all, SlotDelegator, is_empty, serve_now,
}

-- The slots whose marks moved, and their tickets.
abbrev pub moved : Producers → Producers
moved [] = []
moved (s ∷ slots) = if s.mark == s.seen then moved slots else s ∷ moved slots

abbrev pub ticket : Slot → Ticket
ticket s = record { producer = s.producer; seq = s.mark }

abbrev pub caught_up : Slot → Slot
caught_up s = record s { seen = s.mark }

pub collect_all-moved :
    (slots : Producers) → collect_all slots ≡ (map caught_up slots, map ticket (moved slots))
unfolding collect_all collect
collect_all-moved [] = refl
collect_all-moved (s ∷ slots) = elim (Bool-cases (s.mark == s.seen)) [
  | inl same ↦
      let e : s.mark ≡ s.seen = (==_iff s.mark s.seen).0 same in
      rw (same, collect_all-moved slots) (ground (arith, e))
  | inr changed ↦ rw (changed, collect_all-moved slots) refl
]

-- A pass that gets the lock, and one that does not.
pub record IsServe (d : SlotDelegator) (did : Bool) (after : SlotDelegator) : Type 0 where
  pub blocked : d.busy ≡ true → (did ≡ false) × (after ≡ d)
  pub slots : d.busy ≡ false → after.slots ≡ map caught_up d.slots
  pub nothing : d.busy ≡ false → moved d.slots ≡ [] → (did ≡ false) × (after.served ≡ d.served)
  pub batch :
      d.busy ≡ false
      → moved d.slots ≢ []
      → (did ≡ true) × (after.served ≡ map ticket (moved d.slots) ∷ d.served)

abbrev free_outcome : SlotDelegator → Bool → Bool × SlotDelegator
free_outcome d none_moved = (
  not none_moved,
  record d {
    slots = map caught_up d.slots;
    served = if none_moved then d.served else map ticket (moved d.slots) ∷ d.served;
  },
)

free_serve :
    (d : SlotDelegator)
    → d.busy ≡ false
    → serve_now d ≡ free_outcome d (is_empty (map ticket (moved d.slots)))
unfolding serve_now
free_serve d free = rw (serve_now, free, collect_all-moved d.slots)

busy_serve : (d : SlotDelegator) → d.busy ≡ true → serve_now d ≡ (false, d)
unfolding serve_now
busy_serve d busy = rw (serve_now, busy)

empty_moved : (m : Producers) → m ≡ [] → is_empty (map ticket m) ≡ true
unfolding is_empty
empty_moved [] e = refl
empty_moved (s ∷ m) e = cc

some_moved : (m : Producers) → m ≢ [] → is_empty (map ticket m) ≡ false
unfolding is_empty
some_moved [] n = absurd (n refl)
some_moved (s ∷ m) n = refl

-- A pass of the scanning delegator: if another thread holds the lock it answers false and changes
-- nothing. Else every slot's seen number becomes its mark, and no other field of a slot changes; if no
-- mark had moved since it was seen, it answers false and serves nothing; if some had, it answers true and
-- serves one batch, with exactly one ticket for each slot whose mark had moved, at that mark.
pub serve_now-IsServe : (d : SlotDelegator) → IsServe d (serve_now d).0 (serve_now d).1
serve_now-IsServe d =
    let served : Bool × SlotDelegator → Type 0 = λ r. IsServe d r.0 r.1 in
    elim (Bool-cases d.busy) [
      | inl busy ↦ subst served (sym (busy_serve d busy)) (record {
        blocked = λ _. (refl, refl);
        slots = λ f. cc;
        nothing = λ f. cc;
        batch = λ f. cc;
      })
      | inr free ↦ subst served (sym (free_serve d free)) (record {
        blocked = λ b. cc;
        slots = λ _. refl;
        nothing = λ _ m. rw (empty_moved (moved d.slots) m) (refl, refl);
        batch = λ _ m. rw (some_moved (moved d.slots) m) (refl, refl);
      })
    ]

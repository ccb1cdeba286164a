-- ===== src/Sync/Mcs/Enter.antt =====
-- A thread enters an MCS lock: its steps up to the guard keep the queue or append to it.
use cmpth_rs.Prelude.{
  Among, append-Among, Distinct-append, ℕ, ◌≡◌, ◌≢◌, refl, sym, subst, ◌∙◌, inl, inr, true, false,
  none, some, List, [], ◌∷◌, ◌++◌, update, update_self, update_ne, update_each,
}
use cmpth_rs.Sync.Mcs.{Pc, idle, allocated, suspending, waiting, holding, fault, is_alive, System}
use cmpth_rs.Sync.Mcs.Queue.{Heads, queued, IsQueue}
use cmpth_rs.Sync.Mcs.Chain.{
  Chain-tail, Chain-append, Chain-link, Forms-frame, Forms-queued, Forms-suspending,
}

-- What a step does to the queue.
pub data Change (q q' : List ℕ) : Type 0 where
  stay : q' ≡ q → Change q q'
  join : (i : ℕ) → q' ≡ q ++ i ∷ [] → Change q q'
  leave : (i : ℕ) → q ≡ i ∷ q' → Change q q'

abbrev pub Kept : System → List ℕ → Type 0
Kept t q = (q' : List ℕ) × IsQueue t q' × Change q q'

not_nil : (r : List ℕ) (i : ℕ) → r ++ i ∷ [] ≢ []
not_nil [] i e = cc
not_nil (x ∷ r) i e = cc

queued-is_alive : (p : Pc) → queued p ≡ true → is_alive p ≡ true
queued-is_alive (suspending prev) x = refl
queued-is_alive idle x = cc
queued-is_alive fault x = cc
queued-is_alive p x = refl

module _ {s : System} where
  pub outside : {q : List ℕ} → IsQueue s q → (i : ℕ) → queued (s.pc i) ≡ false → ¬ Among i q
  outside {q} v i e a = cc (Forms-queued s.mem s.pc q i v.forms a)

  pub allocate-Kept :
      (q : List ℕ) (i : ℕ)
      → IsQueue s q
      → s.pc i ≡ idle
      → Kept
          (record {
            mem = record s.mem { next = update s.mem.next i none };
            pc = update s.pc i allocated;
          })
          q
  allocate-Kept q i v e = (
    q,
    record {
      forms =
          Forms-frame s.mem _ s.pc _ q refl (λ x a. update_ne s.mem.next _ (apart x a))
            (λ x a. update_ne s.pc _ (apart x a)) v.forms;
      distinct = v.distinct;
      complete =
          update_each (λ j p. queued p ≡ true → Among j q) s.pc i (λ x. cc)
            (λ j ne x. v.complete j x);
      clean =
          update_each (λ j p. p ≡ allocated → update s.mem.next i none j ≡ none) s.pc i
            (λ x. update_self s.mem.next i _) (λ j ne x. update_ne s.mem.next _ ne ∙ v.clean j x);
      sound = update_each (λ j p. p ≢ fault) s.pc i (λ x. cc) (λ j ne. v.sound j);
    },
    stay refl,
  )
    where
      apart : (x : ℕ) → Among x q → i ≢ x
      apart x a w = outside v i (rw e) (subst (λ k. Among k q) (sym w) a)

  pub swap_free-Kept :
      (q : List ℕ) (i : ℕ)
      → IsQueue s q
      → s.pc i ≡ allocated
      → s.mem.tail ≡ none
      → Kept (record { mem = record s.mem { tail = some i }; pc = update s.pc i holding }) q
  swap_free-Kept [] i v e t = (
    i ∷ [],
    record {
      forms = (inl (update_self s.pc i _), (refl, v.clean i e));
      distinct = (λ a. a, tt);
      complete =
          update_each (λ j p. queued p ≡ true → Among j (i ∷ [])) s.pc i (λ x. inl refl)
            (λ j ne x. inr (v.complete j x));
      clean =
          update_each (λ j p. p ≡ allocated → s.mem.next j ≡ none) s.pc i (λ x. cc)
            (λ j ne x. v.clean j x);
      sound = update_each (λ j p. p ≢ fault) s.pc i (λ x. cc) (λ j ne. v.sound j);
    },
    join i refl,
  )
  swap_free-Kept (h ∷ r) i v e t = let (x, y, z) = Chain-tail s.mem s.pc h r v.forms.1 in cc

  pub swap_busy-Kept :
      (q : List ℕ) (i prev : ℕ)
      → IsQueue s q
      → s.pc i ≡ allocated
      → s.mem.tail ≡ some prev
      → Kept
          (record { mem = record s.mem { tail = some i }; pc = update s.pc i (suspending prev) })
          q
  swap_busy-Kept [] i prev v e t = cc (v.forms)
  swap_busy-Kept (h ∷ r) i prev v e t = (
    (h ∷ r) ++ i ∷ [],
    record {
      forms = (
        heads (update_ne s.pc _ (λ w. out (inl w))) v.forms.0,
        Chain-append s.mem s.pc h r i prev t out (v.clean i e) v.forms.1,
      );
      distinct = Distinct-append (h ∷ r) (i ∷ []) v.distinct (λ a. a, tt) newcomer;
      complete =
          update_each (λ j p. queued p ≡ true → Among j ((h ∷ r) ++ i ∷ [])) s.pc i
            (λ x. append-Among (h ∷ r) (i ∷ []) i (inr (inl refl)))
            (λ j ne x. append-Among (h ∷ r) (i ∷ []) j (inl (v.complete j x)));
      clean =
          update_each (λ j p. p ≡ allocated → s.mem.next j ≡ none) s.pc i (λ x. cc)
            (λ j ne x. v.clean j x);
      sound = update_each (λ j p. p ≢ fault) s.pc i (λ x. cc) (λ j ne. v.sound j);
    },
    join i refl,
  )
    where
      out : ¬ Among i (h ∷ r)
      out = outside v i (rw e)

      newcomer : (x : ℕ) → Among x (h ∷ r) → ¬ Among x (i ∷ [])
      newcomer x a (inl e) = out (subst (λ k. Among k (h ∷ r)) e a)
      newcomer x a (inr b) = b

      longer : r ++ i ∷ [] ≢ []
      longer = not_nil r i

      heads : {p : Pc} → p ≡ s.pc h → Heads (s.pc h) r → Heads p (r ++ i ∷ [])
      heads w (inl a) = inl (w ∙ a)
      heads w (inr (a, b)) = inr (w ∙ a, longer)

  pub link-Kept :
      (q : List ℕ) (i prev : ℕ)
      → IsQueue s q
      → s.pc i ≡ suspending prev
      → Kept
          (record {
            mem = record s.mem { next = update s.mem.next prev (some i) };
            pc = update s.pc i waiting;
          })
          q
  link-Kept [] i prev v e = elim (v.complete i (rw e)) [ ]
  link-Kept (h ∷ r) i prev v e = (
    h ∷ r,
    record {
      forms = (
        subst (λ p. Heads p r) (sym (update_ne s.pc _ ne)) v.forms.0,
        Chain-link s.mem s.pc h r i prev e v.distinct (behind.0) v.forms.1,
      );
      distinct = v.distinct;
      complete =
          update_each (λ j p. queued p ≡ true → Among j (h ∷ r)) s.pc i (λ x. inr behind.0)
            (λ j ne x. v.complete j x);
      clean =
          update_each (λ j p. p ≡ allocated → update s.mem.next prev (some i) j ≡ none) s.pc i
            (λ x. cc)
            (λ j ne x.
              update_ne s.mem.next _
                (λ w. outside v j (rw x) (subst (λ k. Among k (h ∷ r)) w behind.1))
              ∙ v.clean j x);
      sound = update_each (λ j p. p ≢ fault) s.pc i (λ x. cc) (λ j ne. v.sound j);
    },
    stay refl,
  )
    where
      behind : Among i r × Among prev (h ∷ r)
      behind = Forms-suspending s.mem s.pc h r i prev v.forms (v.complete i (rw e)) e

      ne : i ≢ h
      ne w = v.distinct.0 (subst (λ k. Among k r) w behind.0)

  pub prev-is_alive :
      (q : List ℕ) (i prev : ℕ)
      → IsQueue s q
      → s.pc i ≡ suspending prev
      → is_alive (s.pc prev) ≡ true
  prev-is_alive [] i prev v e = elim (v.complete i (rw e)) [ ]
  prev-is_alive (h ∷ r) i prev v e = queued-is_alive _ (
      Forms-queued s.mem s.pc (h ∷ r) prev v.forms
        (Forms-suspending s.mem s.pc h r i prev v.forms (v.complete i (rw e)) e).1)

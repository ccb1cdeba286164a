-- ===== src/Spin/Safety.antt =====
-- What holds of a spin lock in every reachable state.
use cmpth_rs.Prelude.{
  ℕ, ◌≡◌, ◌≢◌, refl, sym, ◌∙◌, true, false, update, update_ne, update_self, update_each,
}
use cmpth_rs.Spin.{
  Pc, outside, trying, spinning, holding, System, Step, call, acquire, fail, spin, retry, release,
  Reach, start, later,
}

record Inv (s : System) : Type 0 where
  single : (i j : ℕ) → s.pc i ≡ holding → s.pc j ≡ holding → i ≡ j
  shut : (i : ℕ) → s.pc i ≡ holding → s.locked ≡ true
  held : s.locked ≡ true → (i : ℕ) × (s.pc i ≡ holding)

module _ {s : System} (inv : Inv s) where
  open inv use {single, shut, held}

  -- A thread without the guard moves and does not get it.
  moves_keeps :
      (i : ℕ) (p : Pc) → s.pc i ≢ holding → p ≢ holding → Inv (record s { pc = update s.pc i p })
  moves_keeps i p without stays = record {
    single = λ j k a b. single j k (was j a) (was k b);
    shut = λ j a. shut j (was j a);
    held = λ l. let (j, h) = held l in (j, update_ne s.pc p (λ e. without (cc (e, h))) ∙ h);
  }
    where
      was : (j : ℕ) → update s.pc i p j ≡ holding → s.pc j ≡ holding
      was =
          update_each (λ j q. q ≡ holding → s.pc j ≡ holding) s.pc i (λ a. absurd (stays a))
            (λ j ne a. a)

  acquire_keeps :
      (i : ℕ) → s.locked ≡ false → Inv (record { locked = true; pc = update s.pc i holding })
  acquire_keeps i free = record {
    single = λ j k a b. sym (mine j a) ∙ mine k b;
    shut = λ j a. refl;
    held = λ l. (i, update_self s.pc i holding);
  }
    where
      mine : (j : ℕ) → update s.pc i holding j ≡ holding → i ≡ j
      mine =
          update_each (λ j q. q ≡ holding → i ≡ j) s.pc i (λ a. refl)
            (λ j ne a. absurd (cc (shut j a, free)))

  release_keeps :
      (i : ℕ) → s.pc i ≡ holding → Inv (record { locked = false; pc = update s.pc i outside })
  release_keeps i e = record {
    single = λ j k a b. absurd (gone j a);
    shut = λ j a. absurd (gone j a);
    held = λ l. absurd (cc l);
  }
    where
      gone : (j : ℕ) → update s.pc i outside j ≢ holding
      gone = update_each (λ j q. q ≢ holding) s.pc i (λ a. cc a) (λ j ne a. ne (single i j e a))

Step-Inv : {s t : System} → Inv s → Step s t → Inv t
Step-Inv inv (call i e) = moves_keeps inv i trying (λ h. cc (e, h)) (λ h. cc h)
Step-Inv inv (acquire i e free) = acquire_keeps inv i free
Step-Inv inv (fail i e) = moves_keeps inv i spinning (λ h. cc (e, h)) (λ h. cc h)
Step-Inv inv (spin i e l) = inv
Step-Inv inv (retry i e free) = moves_keeps inv i trying (λ h. cc (e, h)) (λ h. cc h)
Step-Inv inv (release i e) = release_keeps inv i e

Reach-Inv : {s : System} → Reach s → Inv s
Reach-Inv start = record {
  single = λ i j a b. absurd (cc a);
  shut = λ i a. absurd (cc a);
  held = λ l. absurd (cc l);
}
Reach-Inv (later r st) = Step-Inv (Reach-Inv r) st

-- In every reachable state at most one thread has the guard of the spin lock, and `locked` is set if and
-- only if some thread has it.
pub spin_exclusion :
    {s : System}
    → Reach s
    → ((i j : ℕ) → s.pc i ≡ holding → s.pc j ≡ holding → i ≡ j)
      × ((i : ℕ) → s.pc i ≡ holding → s.locked ≡ true)
      × (s.locked ≡ true → (i : ℕ) × (s.pc i ≡ holding))
spin_exclusion r = let inv = Reach-Inv r in (inv.single, inv.shut, inv.held)

-- ===== src/Pool/Simple.antt =====
-- `SimplePool` of src/resumable/common/pool.rs: a list per worker and no return to the home
-- worker. A `Vec` is the list of its entries from the last on.
pub mod Sound
use cmpth_rs.Prelude.{
  ℕ, suc, ◌≤◌, ◌≡◌, ◌≢◌, refl, sym, ap, subst, ◌∙◌, inl, inr, Bool, true, false, List, [], ◌∷◌,
  arith, ltb, if◌then◌else◌, update, update_self, update_ne, update_each, update_both, length,
  Bool-cases, ℕ_discrete, ite,
}
use cmpth_rs.Pool.View.{Place, used, local, Holds}
use cmpth_rs.Pool.Chain.{Holds-frame, Holds-cons}

pub record SimplePool : Type 0 where
  pub lists : ℕ → List ℕ
  pub oversized : ℕ → Bool
  pub live : ℕ → Bool

abbrev pub new_simple : SimplePool
new_simple = record { lists = λ _. []; oversized = λ _. false; live = λ _. false }

abbrev pub box_node : Bool → ℕ → SimplePool → SimplePool
box_node over node p = record p {
  oversized = update p.oversized node over;
  live = update p.live node true;
}

abbrev pub pop_or_box : ℕ → ℕ → SimplePool → List ℕ → ℕ × SimplePool
pop_or_box wk fresh p [] = (fresh, box_node false fresh p)
pop_or_box wk fresh p (node ∷ rest) = (node, record p { lists = update p.lists wk rest })

unfoldable pub simple_alloc : ℕ → ℕ → ℕ → ℕ → SimplePool → ℕ × SimplePool
simple_alloc stack_size wk size fresh p =
    if ltb stack_size size
    then (fresh, box_node true fresh p)
    else pop_or_box wk fresh p (p.lists wk)

abbrev pub unbox : ℕ → SimplePool → SimplePool
unbox node p = record p { live = update p.live node false }

unfoldable pub simple_dealloc : ℕ → ℕ → ℕ → SimplePool → SimplePool
simple_dealloc cap wk node p =
    if p.oversized node
    then unbox node p
    else if ltb (length (p.lists wk)) cap
    then record p { lists = update p.lists wk (node ∷ p.lists wk) }
    else unbox node p

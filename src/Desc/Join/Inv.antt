-- ===== src/Desc/Join/Inv.antt =====
-- What holds of a task and its handle after every access.
use cmpth_rs.Prelude.{ℕ, ◌+◌, ◌≤◌, ◌≡◌, ◌≢◌, ◌⊎◌, refl, Bool, true, false, List, if◌then◌else◌}
use cmpth_rs.Desc.{
  JoinState, running, finished, detached, sync_joiner, async_waker, async_joiner, Effect,
  js_finished,
}
use cmpth_rs.Desc.Word.{IsState, IsCall, encode}
use cmpth_rs.Desc.Join.{
  tally, is_resume, Exit, executing, checked, swapping, settled, handing, Waiter, no_waiter, waker,
  joiner, Handle, idle, calling, waiting, owner, taken, gone, System, spawned,
}
use cmpth_rs.Desc.Join.Ledger.{
  is_wake, is_drop, is_box, is_reclaim, is_notice, held, carried, returns,
}

abbrev pub waiter_state : Waiter → JoinState
waiter_state no_waiter = running
waiter_state (waker w) = async_waker w
waiter_state (joiner j) = async_joiner j

-- Before the task has exited, the word says what the handle has done, and nobody has been told.
abbrev pub Live : Handle → JoinState → Type 0
Live (idle v) s = s ≡ waiter_state v
Live (calling v c cur) s = (s ≡ waiter_state v) × (cur ≢ js_finished)
Live (waiting j) s = s ≡ sync_joiner j
Live gone s = s ≡ detached
Live owner s = ⊥
Live taken s = ⊥

-- The waiter that is registered last has been told, once: a waker is woken, a joiner resumed if it is
-- claimed.
abbrev pub Notified : (ℕ → Bool) → Waiter → List Effect → Type 0
Notified claims no_waiter log = Unit {0}
Notified claims (waker w) log = tally (is_wake w) log ≡ 1
Notified claims (joiner j) log = tally (is_resume j) log ≡ (if claims j then 1 else 0)

abbrev pub Told : (ℕ → Bool) → Handle → JoinState → List Effect → Type 0
Told claims (idle v) s log = (s ≡ finished) × Notified claims v log
Told claims (calling v c cur) s log = (s ≡ finished) × Notified claims v log
Told claims (waiting j) s log = (s ≡ finished) × (tally (is_resume j) log ≡ 1)
Told claims gone s log = (s ≡ finished) ⊎ (s ≡ detached)
Told claims owner s log = s ≡ finished
Told claims taken s log = s ≡ finished

abbrev pub Fits : (ℕ → Bool) → Exit → Handle → JoinState → List Effect → Type 0
Fits claims executing h s log = Live h s × (tally is_notice log ≡ 0)
Fits claims checked h s log = Live h s × (tally is_notice log ≡ 0)
Fits claims swapping h s log = Live h s × (tally is_notice log ≡ 0)
Fits claims (handing j) h s log = (h ≡ waiting j) × (s ≡ sync_joiner j) × (tally is_notice log ≡ 0)
Fits claims settled h s log = Told claims h s log × (tally is_notice log ≤ 1)

abbrev pub IsCalling : Handle → Type 0
IsCalling (calling v c cur) = IsCall c
IsCalling (idle v) = Unit {0}
IsCalling (waiting j) = Unit {0}
IsCalling owner = Unit {0}
IsCalling taken = Unit {0}
IsCalling gone = Unit {0}

pub record IsJoin (claims : ℕ → Bool) (t : System) : Type 0 where
  pub state : JoinState
  pub proper : IsState state
  pub word_is : t.word ≡ encode state
  pub call_is : IsCalling t.handle
  pub fits : Fits claims t.exit t.handle state t.log
  pub reclaims : tally is_reclaim t.log ≡ returns t.exit t.handle
  pub boxes :
      (a : ℕ)
      → tally (is_box a) t.log
        ≡ tally (is_wake a) t.log + tally (is_drop a) t.log + held a state + carried a t.handle

pub spawned-IsJoin : (claims : ℕ → Bool) (has_handle : Bool) → IsJoin claims (spawned has_handle)
unfolding spawned encode
spawned-IsJoin claims true = record {
  state = running;
  proper = tt;
  word_is = refl;
  call_is = tt;
  fits = (refl, refl);
  reclaims = refl;
  boxes = λ a. refl;
}
spawned-IsJoin claims false = record {
  state = detached;
  proper = tt;
  word_is = refl;
  call_is = tt;
  fits = (refl, refl);
  reclaims = refl;
  boxes = λ a. refl;
}

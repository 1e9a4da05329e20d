-- ===== src/Engine/Protocol.antt =====
-- The protocol that packages/engine/src/run.ts keeps: what of a run matters for the safety of money,
-- and a step relation on it that says what a run may do and when. `Engine.Rules` and its children
-- show that the code keeps to it.
pub mod Crashes
pub mod Invariants
pub mod Rules
use corridor_in_a_box.Base.{
  ℕ, zero, suc, ◌+◌, ◌≡◌, String, Bool, true, false, Option, none, some, List, [], ◌∷◌, ◌++◌,
  if◌then◌else◌, not, orelse, ◌||◌,
}
use corridor_in_a_box.Outcome.{ok, err}
use corridor_in_a_box.State.{CorridorState, settling, retrying, is, can_transition}
use corridor_in_a_box.State.Graph.{is_past_settle}
use corridor_in_a_box.Idempotency.{StoredRun, get}
use corridor_in_a_box.Engine.{Effect, wrote, gate_answered, paid, refund_asked, World}

-- A payment went out, or may have: a settle call with any answer but a failure that says it may be
-- tried again.
abbrev pub is_payment : Effect → Bool
is_payment (paid state (ok ref)) = true
is_payment (paid state (err e)) = not e.retryable
is_payment _ = false

abbrev pub payments : List Effect → ℕ
payments [] = 0
payments (e ∷ log) = if is_payment e then suc (payments log) else payments log

abbrev pub is_refund : Effect → Bool
is_refund (refund_asked req answer) = true
is_refund _ = false

abbrev pub refunds : List Effect → ℕ
refunds [] = 0
refunds (e ∷ log) = if is_refund e then suc (refunds log) else refunds log

-- The last answer of the gate.
abbrev pub last_gate : List Effect → Option Bool
last_gate [] = none
last_gate (gate_answered passed ∷ log) = some passed
last_gate (_ ∷ log) = last_gate log

-- The payments that were made without a gate that had passed just before.
abbrev pub stray : Option Bool → ℕ → ℕ
stray (some true) n = n
stray _ n = suc n

abbrev pub strays : List Effect → ℕ
strays [] = 0
strays (e ∷ log) = if is_payment e then stray (last_gate log) (strays log) else strays log

-- A payment may have left: the run is in `settling` or beyond it.
abbrev pub is_committed : CorridorState → Bool
is_committed s = is s settling || is_past_settle s

-- The state in the row that was written last.
abbrev pub row_of : Effect → Option CorridorState
row_of (wrote run) = some run.state
row_of _ = none

abbrev pub last_row : List Effect → Option CorridorState
last_row [] = none
last_row (e ∷ log) = orelse (row_of e) (last_row log)

-- The moments at which a crash would leave a row that hides a payment: a payment while the row does
-- not say `settling`, and, once there is one, a write of a state before it.
abbrev pub expose : Option CorridorState → ℕ → ℕ
expose (some settling) n = n
expose _ n = suc n

abbrev pub forgets : ℕ → CorridorState → ℕ → ℕ
forgets zero s n = n
forgets (suc m) s n = if is_committed s then n else suc n

abbrev pub unsaved : Option CorridorState → ℕ → ℕ → ℕ
unsaved none m n = n
unsaved (some s) m n = forgets m s n

abbrev pub exposed : List Effect → ℕ
exposed [] = 0
exposed (e ∷ log) =
    unsaved (row_of e) (payments (e ∷ log))
      (if is_payment e then expose (last_row log) (exposed log) else exposed log)

abbrev pub state_of : Option StoredRun → Option CorridorState
state_of none = none
state_of (some run) = some run.state

pub record View : Type 0 where
  pub key : String
  pub state : CorridorState
  pub trail : List CorridorState
  -- the state in the stored row
  pub stored : Option CorridorState
  pub payments : ℕ
  pub refunds : ℕ
  pub gate : Option Bool
  pub strays : ℕ
  -- the state in the row that this call wrote last
  pub written : Option CorridorState
  pub exposed : ℕ

abbrev pub view : World → View
view w = record {
  key = w.run.idempotency_key;
  state = w.run.state;
  trail = w.trail;
  stored = state_of (get w.run.idempotency_key w.store);
  payments = payments w.log;
  refunds = refunds w.log;
  gate = last_gate w.log;
  strays = strays w.log;
  written = last_row w.log;
  exposed = exposed w.log;
}

-- A transition, written to the row before the run goes on.
abbrev pub moved : CorridorState → View → View
moved to v = record v {
  state = to;
  trail = v.trail ++ to ∷ [];
  stored = some to;
  written = some to;
  exposed = forgets v.payments to v.exposed;
}

-- The row is written, without a transition.
abbrev pub saved : View → View
saved v = record v {
  stored = some v.state;
  written = some v.state;
  exposed = forgets v.payments v.state v.exposed;
}

-- `may_pay`: a payment may be made at all, or retried. `gated`: there is a gate, which must have
-- passed.
pub data Step (may_pay gated : Bool) : View → View → Type 0 where
  moves :
      (v : View) (to : CorridorState)
      → can_transition v.state to ≡ true
      → (is to retrying ≡ true → (may_pay ≡ true) × (v.payments ≡ 0))
      → Step may_pay gated v (moved to v)
  pays :
      (v : View)
      → may_pay ≡ true
      → v.state ≡ settling
      → v.stored ≡ some settling
      → v.written ≡ some settling
      → v.payments ≡ 0
      → (gated ≡ true → v.gate ≡ some true)
      → Step may_pay gated v (record v {
        payments = 1;
        strays = stray v.gate v.strays;
        exposed = expose v.written v.exposed;
      })
  asks_refund : (v : View) → v.refunds ≡ 0 → Step may_pay gated v (record v { refunds = 1 })
  answers : (v : View) (passed : Bool) → Step may_pay gated v (record v { gate = some passed })
  writes : (v : View) → Step may_pay gated v (saved v)

pub data Reach (may_pay gated : Bool) (v : View) : View → Type 0 where
  here : Reach may_pay gated v v
  onward : {u t : View} → Reach may_pay gated v u → Step may_pay gated u t → Reach may_pay gated v t

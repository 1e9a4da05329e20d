-- ===== src/Breaker.antt =====
-- packages/engine/src/breaker.ts: the corridor circuit breaker. Which outcomes of a run count, the
-- in-memory store of one row per corridor, and the metered store around it.
pub mod Laws
pub mod Postgres
pub mod Trips
use corridor_in_a_box.Base.{
  ℕ, suc, ◌+◌, String, Bool, true, false, ◌&&◌, ◌||◌, Option, none, some, List, [], ◌∷◌, str_eq,
  leb, ◌==◌, if◌then◌else◌, or_else, orelse,
}
use corridor_in_a_box.Types.{
  ErrorCode, settlement_failed, settlement_timeout, reconcile_mismatch, reconcile_stalled,
  presettle_insufficient_funds, presettle_anchor_drift, presettle_tx_mismatch,
  presettle_destination_unsafe,
}
use corridor_in_a_box.Outcome.{CorridorError, refusal}
use corridor_in_a_box.State.{CorridorState, completed, failed, held, refunded, is}

pub data BreakerState : Type 0 where
  closed open_lane : BreakerState

pub data BreakerOutcome : Type 0 where
  success failure neutral : BreakerOutcome

-- `lastError` is kept by its code: the text behind it is prose.
pub record BreakerRecord : Type 0 where
  pub corridor_id : String
  pub state : BreakerState
  pub consecutive_failures : ℕ
  pub tripped_at : Option ℕ
  pub last_error : Option ErrorCode
  pub reset_by : Option String
  pub reset_reason : Option String
  pub reset_at : Option ℕ
  pub updated_at : ℕ

-- `LANE_FAILURE_CODES.has(code)`.
unfoldable pub is_lane_failure : ErrorCode → Bool
is_lane_failure settlement_failed = true
is_lane_failure settlement_timeout = true
is_lane_failure reconcile_mismatch = true
is_lane_failure reconcile_stalled = true
is_lane_failure presettle_insufficient_funds = true
is_lane_failure presettle_anchor_drift = true
is_lane_failure presettle_tx_mismatch = true
is_lane_failure presettle_destination_unsafe = true
is_lane_failure _ = false

judge : Option ErrorCode → BreakerOutcome
judge none = neutral
judge (some code) = if is_lane_failure code then failure else neutral

unfoldable pub breaker_outcome_for : CorridorState → Option ErrorCode → BreakerOutcome
unfolding judge is_lane_failure
breaker_outcome_for state code =
    if is state completed
    then success
    else if is state failed || is state held || is state refunded
    then judge code
    else neutral

-- `lastError` is stored as "CODE: message"; only a code that the breaker counts is trusted.
unfoldable pub recovered_breaker_cause : Option ErrorCode → CorridorError → CorridorError
recovered_breaker_cause none fallback = fallback
recovered_breaker_cause (some code) fallback =
    if is_lane_failure code then refusal code else fallback

abbrev pub is_open : BreakerState → Bool
is_open open_lane = true
is_open closed = false

abbrev same_time : Option ℕ → ℕ → Bool
same_time none at = false
same_time (some t) at = t == at

unfoldable pub just_tripped : BreakerRecord → ℕ → Bool
just_tripped r at = is_open r.state && same_time r.tripped_at at

unfoldable pub closed_record : String → ℕ → BreakerRecord
closed_record id at = record {
  corridor_id = id;
  state = closed;
  consecutive_failures = 0;
  tripped_at = none;
  last_error = none;
  reset_by = none;
  reset_reason = none;
  reset_at = none;
  updated_at = at;
}

-- The rows of the store, one for each corridor.
abbrev pub Rows : Type 0
Rows = List BreakerRecord

unfoldable pub get : String → Rows → Option BreakerRecord
get id [] = none
get id (r ∷ rs) = if str_eq r.corridor_id id then some r else get id rs

-- `this.rows.set(corridorId, next)`.
unfoldable pub put : BreakerRecord → Rows → Rows
put next [] = next ∷ []
put next (r ∷ rs) = if str_eq r.corridor_id next.corridor_id then next ∷ rs else r ∷ put next rs

-- `recordOutcome` on a row: `success` is `outcome === "success"`, else it is a failure.
unfoldable pub on_success : BreakerRecord → ℕ → BreakerRecord
on_success current at = record current { state = closed; consecutive_failures = 0; updated_at = at }

unfoldable pub on_failure : BreakerRecord → ℕ → ℕ → Option ErrorCode → BreakerRecord
on_failure current at threshold error =
    let failures = current.consecutive_failures + 1 in
    let trips = leb threshold failures in
    record current {
      state = if trips || is_open current.state then open_lane else closed;
      consecutive_failures = failures;
      tripped_at = if trips then some (or_else current.tripped_at at) else current.tripped_at;
      last_error = orelse error current.last_error;
      updated_at = at;
    }

unfoldable pub next_row : BreakerOutcome → BreakerRecord → ℕ → ℕ → Option ErrorCode → BreakerRecord
unfolding on_success on_failure
next_row success current at threshold error = on_success current at
next_row _ current at threshold error = on_failure current at threshold error

unfoldable pub record_outcome :
    String → BreakerOutcome → ℕ → ℕ → Option ErrorCode → Rows → Rows × BreakerRecord
unfolding next_row closed_record
record_outcome id outcome at threshold error rows =
    let current = or_else (get id rows) (closed_record id at) in
    let next = next_row outcome current at threshold error in (put next rows, next)

unfoldable pub reset_row : String → String → String → ℕ → BreakerRecord
reset_row id by reason at = record {
  corridor_id = id;
  state = closed;
  consecutive_failures = 0;
  tripped_at = none;
  last_error = none;
  reset_by = some by;
  reset_reason = some reason;
  reset_at = some at;
  updated_at = at;
}

unfoldable pub reset : String → String → String → ℕ → Rows → Rows × BreakerRecord
unfolding reset_row
reset id by reason at rows = let next = reset_row id by reason at in (put next rows, next)

-- `MeteredCorridorHealthStore.recordOutcome`: the rows, the row, and by how much the trip counter
-- goes up.
unfoldable pub metered_record_outcome :
    String → BreakerOutcome → ℕ → ℕ → Option ErrorCode → Rows → Rows × BreakerRecord × ℕ
unfolding record_outcome just_tripped
metered_record_outcome id outcome at threshold error rows =
    let (rows', r) = record_outcome id outcome at threshold error rows in
    (rows', r, count outcome (just_tripped r at))
  where
    count : BreakerOutcome → Bool → ℕ
    count failure true = 1
    count _ _ = 0

-- ===== src/Engine/Context.antt =====
-- packages/engine/src/run.ts: `createRunContext`, `failRun` and `emitTransition`, the transition and
-- failure handling that a fresh run and a resumed one share.
pub mod Kept
use corridor_in_a_box.Base.{
  ℕ, suc, ◌+◌, ◌*◌, String, Bool, true, false, not, ◌&&◌, ◌||◌, Option, none, some, List, [], ◌∷◌,
  ◌++◌, if◌then◌else◌, or_else, is_some, present,
}
use corridor_in_a_box.Types.{
  ErrorCode, settlement_failed, refund_unsupported, Money, SettlementRef, settlement_id,
}
use corridor_in_a_box.Types
use corridor_in_a_box.Outcome.{
  Outcome, ok, err, fail, refusal, CheckResult, CorridorError, Cause, a_status,
}
use corridor_in_a_box.Anchor.{TransactionStatus, RefundInfo, RefundPayment}
use corridor_in_a_box.Corridor.{Corridor, Rollback, refund_sender, hold, manual}
use corridor_in_a_box.State.{
  CorridorState, verifying, recovering, refund_pending, refunded, held, failed, is, can_transition,
}
use corridor_in_a_box.Idempotency.{
  StoredRun, SettlementKind, adapter, has_requested_refund, has_settlement_ref, put,
}
use corridor_in_a_box.Breaker.{
  BreakerOutcome, success, failure, neutral, breaker_outcome_for, record_outcome, Rows,
}
use corridor_in_a_box.Verbs.Polling.{watch_refund}
use corridor_in_a_box.Engine.{
  RouteTrust, RefundRequest, EngineDeps, RunResult, AuditEntry, Effect, wrote, audited, alerted,
  refund_asked, counted, World, Res, more, done, M, pure, ◌>>=◌, ◌>>◌, finish, look, ask, emit,
  note, poll,
}

-- `AdvanceMeta`.
pub record Meta : Type 0 where
  pub quote_fee : Option Money
  pub network_fee : Option String
  pub amount_refunded : Option (List ℕ)
  pub amount_fee : Option (List ℕ)
  pub checks : Option (List CheckResult)

abbrev pub no_meta : Meta
no_meta = record {
  quote_fee = none;
  network_fee = none;
  amount_refunded = none;
  amount_fee = none;
  checks = none;
}

abbrev pub with_checks : Option (List CheckResult) → Meta
with_checks checks = record no_meta { checks = checks }

abbrev pub refund_audit : Option RefundInfo → Meta
refund_audit none = no_meta
refund_audit (some i) = record no_meta {
  amount_refunded = some i.amount_refunded.amount;
  amount_fee = some i.amount_fee.amount;
}

abbrev alerts : CorridorState → List Effect → List Effect
alerts to log = if is to held || is to refund_pending then alerted to ∷ log else log

-- The move itself: the state, the version and the trail, the row, the audit entry and the alert.
unfoldable pub move : CorridorState → Option ErrorCode → Meta → ℕ → World → World
move to error meta at w =
    let run = record (w.run) { state = to; version = w.run.version + 1 } in
    let entry : AuditEntry = record {
      idempotency_key = w.run.idempotency_key;
      corridor_id = w.run.corridor_id;
      from = w.run.state;
      to = to;
      version = w.run.version + 1;
      at = at;
      error = error;
      route_trust = w.route_trust;
      quote_fee = meta.quote_fee;
      network_fee = meta.network_fee;
      amount_refunded = meta.amount_refunded;
      amount_fee = meta.amount_fee;
      checks = or_else meta.checks [];
    } in
    record w {
      calls = suc w.calls;
      run = run;
      trail = w.trail ++ to ∷ [];
      store = put run w.store;
      log = alerts to (audited entry ∷ wrote run ∷ w.log);
    }

-- The gate's results are recorded on the way into `verifying`, and carried on the way out.
unfoldable pub keep_checks : CorridorState → Meta → World → World
keep_checks to meta w = record w {
  gate_checks = if is to verifying then meta.checks else w.gate_checks;
}

unfoldable pub carry : CorridorState → Meta → World → Meta
carry to meta w =
    if not (is to verifying)
      && is w.run.state verifying
      && is_some w.gate_checks
      && not (is_some meta.checks)
    then record meta { checks = w.gate_checks }
    else meta

-- A row of the breaker, if the outcome says anything about the lane.
abbrev counts_for_lane : BreakerOutcome → Bool
counts_for_lane neutral = false
counts_for_lane _ = true

count_outcome : EngineDeps → Corridor → BreakerOutcome → Option ErrorCode → World → World
count_outcome deps corridor outcome error w = record w {
  calls = suc w.calls;
  rows =
      (record_outcome corridor.id outcome (deps.now w.calls) corridor.recovery.breaker_failures
        error w.rows).0;
  log = counted outcome ∷ w.log;
}

module _ (deps : EngineDeps) (corridor : Corridor) where
  -- `recordOutcome`.
  unfoldable pub record_run : CorridorState → Option ErrorCode → M (Unit {0})
  unfolding count_outcome
  record_run state error w =
      let outcome = breaker_outcome_for state error in
      (
        more tt,
        if deps.has_health && counts_for_lane outcome
            then count_outcome deps corridor outcome error w
            else w,
      )

  unfoldable pub advance : CorridorState → Meta → M (Outcome (Unit {0}))
  advance to meta w =
      if can_transition w.run.state to
      then (more (ok tt), move to none (carry to meta w) (deps.now w.calls) (keep_checks to meta w))
      else (more (fail settlement_failed), w)

  mark_failed : CorridorError → Option (List CheckResult) → M (Unit {0})
  mark_failed error checks w = (
    more tt,
    move failed (some error.code) (with_checks checks) (deps.now w.calls)
        (record w { run = record (w.run) { last_error = some error.code } }),
  )

  -- `failRun`: an illegal transition leaves the run as it is.
  unfoldable pub fail_run : CorridorError → Option (List CheckResult) → M CorridorError
  unfolding mark_failed
  fail_run error checks = do
    w ← look (λ w. w)
    if not (can_transition w.run.state failed)
        then pure error
        else (do mark_failed error checks; record_run failed (some error.code); pure error)

  own_checks : Option (List CheckResult) → World → Option (List CheckResult)
  own_checks (some checks) w = some checks
  own_checks none w = if is w.run.state verifying then w.gate_checks else none

  -- `die`, as the error that it returns.
  unfoldable pub die_with : CorridorError → Option (List CheckResult) → M CorridorError
  unfolding own_checks
  die_with error checks = do own ← look (own_checks checks); fail_run error own

  set_error : ErrorCode → StoredRun → StoredRun
  set_error code run = record run { last_error = some code }

  -- A step back into `recovering`, unless the run is where the caller may go on from.
  unfoldable pub step_back : Bool → M (Outcome (Unit {0}))
  step_back true = pure (ok tt)
  step_back false = advance recovering no_meta

  -- The end of a recovery: die if the last transition was refused, else report and answer.
  unfoldable pub settle_account :
      CorridorState → CorridorError → CorridorError → Outcome (Unit {0}) → M CorridorError
  settle_account state cause answer (err e) = die_with e none
  settle_account state cause answer (ok _) = do record_run state (some cause.code); pure answer

  hold_from :
      CorridorError
      → Option RefundInfo
      → CorridorError
      → CorridorError
      → Outcome (Unit {0})
      → M CorridorError
  unfolding set_error
  hold_from error refunds cause answer (err e) = die_with e none
  hold_from error refunds cause answer (ok _) = do
    note (set_error error.code)
    moved ← advance held (refund_audit refunds)
    settle_account held cause answer moved

  -- `holdAndStop`: `cause` is what the breaker judges, and `answer` the error that is returned once
  -- the run is held.
  unfoldable pub hold_run :
      CorridorError → Option RefundInfo → CorridorError → CorridorError → M CorridorError
  unfolding hold_from
  hold_run error refunds cause answer = do
    state ← look (λ w. w.run.state)
    back ← step_back (is state recovering || is state refund_pending)
    hold_from error refunds cause answer back

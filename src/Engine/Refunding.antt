-- ===== src/Engine/Refunding.antt =====
-- packages/engine/src/run.ts: `refundAndStop` and `finishFailure`, how a run that cannot go on gives
-- money back, waits for the anchor to do so, or is parked for an operator.
pub mod Kept
use corridor_in_a_box.Base.{
  ℕ, ◌+◌, ◌*◌, String, Bool, true, false, not, ◌&&◌, ◌||◌, Option, none, some, List, [], ◌∷◌,
  if◌then◌else◌, or_else, present,
}
use corridor_in_a_box.Types.{
  ErrorCode, settlement_failed, refund_unsupported, Money, SettlementRef, settlement_id,
}
use corridor_in_a_box.Types
use corridor_in_a_box.Outcome.{Outcome, ok, err, refusal, CorridorError, Cause, a_status}
use corridor_in_a_box.Anchor.{TransactionStatus, RefundInfo, RefundPayment}
use corridor_in_a_box.Corridor.{Corridor, Rollback, refund_sender, hold, manual}
use corridor_in_a_box.State.{CorridorState, recovering, refund_pending, refunded, is}
use corridor_in_a_box.Idempotency.{
  StoredRun, SettlementKind, stellar, adapter, has_requested_refund, has_settlement_ref,
}
use corridor_in_a_box.Verbs.Polling.{watch_refund}
use corridor_in_a_box.Engine.{
  RefundRequest, EngineDeps, refund_asked, M, pure, ◌>>=◌, ◌>>◌, finish, look, ask, emit, note,
  poll,
}
use corridor_in_a_box.Engine.Context.{
  no_meta, refund_audit, advance, die_with, step_back, settle_account, hold_run, record_run,
}

-- `anchorTerminalStatus(error) !== undefined`.
unfoldable pub is_anchor_failure : Cause → Bool
is_anchor_failure (a_status s) = s.terminal_failure
is_anchor_failure _ = false

-- `statusFrom(cause)?.refunds`.
unfoldable pub refunds_in : Cause → Option RefundInfo
refunds_in (a_status s) = s.refunds
refunds_in _ = none

abbrev is_adapter_kind : Option SettlementKind → Bool
is_adapter_kind (some adapter) = true
is_adapter_kind _ = false

abbrev is_adapter_ref : Option SettlementRef → Bool
is_adapter_ref (some (Types.SettlementRef.adapter _ _)) = true
is_adapter_ref _ = false

original_of : Option SettlementRef → Option String → SettlementRef
original_of (some (Types.SettlementRef.stellar h l f b)) hash = Types.SettlementRef.stellar h l f b
original_of _ hash = Types.SettlementRef.stellar (or_else hash "") none none none

-- The id of the first refund payment of a report, if it has one that is not empty.
first_payment : List RefundPayment → Option String → Option String
first_payment [] known = known
first_payment (p ∷ ps) known = if present (some p.id) then some p.id else known

unfoldable pub reported_refund : Option RefundInfo → StoredRun → StoredRun
unfolding first_payment
reported_refund none run = run
reported_refund (some i) run =
    if has_requested_refund run
    then run
    else record run { refund_id = first_payment i.payments run.refund_id }

-- The amount that a refund returns, if one is stored.
unfoldable pub refund_amount : Option (List ℕ) → Option (List ℕ)
refund_amount none = none
refund_amount (some []) = none
refund_amount (some (c ∷ s)) = some (c ∷ s)

set_last : ErrorCode → StoredRun → StoredRun
set_last code run = record run { last_error = some code }

set_refund : String → StoredRun → StoredRun
set_refund id run = record run { refund_id = some id }

module _ (deps : EngineDeps) (corridor : Corridor) where
  -- The run is refunded: nothing more is sent.
  unfoldable pub mark_refunded : CorridorError → M CorridorError
  unfolding set_last
  mark_refunded error = do
    note (set_last error.code)
    moved ← advance deps corridor refunded no_meta
    settle_account deps corridor refunded error error moved

  after_watch : CorridorError → Outcome TransactionStatus → M CorridorError
  after_watch error (ok s) = do
    note (reported_refund s.refunds)
    moved ← advance deps corridor refunded (refund_audit s.refunds)
    settle_account deps corridor refunded error error moved
  after_watch error (err e) = hold_run deps corridor e (refunds_in e.cause) error error

  watch : ℕ → CorridorError → Option String → Outcome (Unit {0}) → M CorridorError
  unfolding after_watch
  watch fuel error id (err e) = die_with deps corridor e none
  watch fuel error id (ok _) = do
    at ← ask deps.now
    watched ← poll (
        watch_refund fuel (at + corridor.recovery.refund_wait_seconds * 1000) deps.now
          (deps.get_transaction (or_else id "")))
    after_watch error watched

  -- The anchor itself reports a terminal failure: wait for its refund.
  unfoldable pub await_refund : ℕ → CorridorError → Option String → M CorridorError
  unfolding set_last watch
  await_refund fuel error id = do
    note (set_last error.code)
    pending ← advance deps corridor refund_pending no_meta
    watch fuel error id pending

  after_refund : CorridorError → Outcome SettlementRef → M CorridorError
  unfolding set_refund
  after_refund error (err e) = hold_run deps corridor e none error e
  after_refund error (ok ref) = do note (set_refund (settlement_id ref)); mark_refunded error

  request_refund : CorridorError → StoredRun → Option (List ℕ) → M CorridorError
  unfolding after_refund original_of
  request_refund error run none =
      hold_run deps corridor (refusal settlement_failed) none error (refusal settlement_failed)
  request_refund error run (some amount) = do
    let req : RefundRequest = record {
      original = original_of run.settlement_ref run.stellar_tx_hash;
      amount = record { asset = corridor.settlement.bridge_asset; amount = amount };
      reason = error.code;
    }
    answer ← ask (λ n. deps.refund n req)
    emit (refund_asked req answer)
    after_refund error answer

  -- A payment that went out is reversed once, and only on the chain.
  unfoldable pub reverse : CorridorError → StoredRun → M CorridorError
  unfolding request_refund
  reverse error run =
      if is_adapter_kind run.settlement_kind || is_adapter_ref run.settlement_ref
      then hold_run deps corridor (refusal refund_unsupported) none error
          (refusal refund_unsupported)
      else if has_requested_refund run
      then mark_refunded error
      else request_refund error run (refund_amount run.settlement_amount)

  refund_from : ℕ → CorridorError → Outcome (Unit {0}) → M CorridorError
  refund_from fuel error (err e) = die_with deps corridor e none
  refund_from fuel error (ok _) = do
    run ← look (λ w. w.run)
    if has_settlement_ref run && present run.transaction_id && is_anchor_failure error.cause
        then await_refund fuel error run.transaction_id
        else if has_settlement_ref run
        then reverse error run
        else mark_refunded error

  -- `refundAndStop`.
  unfoldable pub refund_run : ℕ → CorridorError → M CorridorError
  unfolding refund_from
  refund_run fuel error = do
    state ← look (λ w. w.run.state)
    back ← step_back deps corridor (is state recovering)
    refund_from fuel error back

  by_rollback : Rollback → ℕ → CorridorError → M CorridorError
  by_rollback refund_sender fuel error = refund_run fuel error
  by_rollback hold fuel error = hold_run deps corridor error none error error
  by_rollback manual fuel error = die_with deps corridor error none

  -- `finishFailure`, by the manifest's recovery policy.
  unfoldable pub finish_failure : ℕ → CorridorError → M CorridorError
  unfolding by_rollback
  finish_failure fuel error = by_rollback corridor.recovery.rollback fuel error

-- ===== src/Engine/Resume.antt =====
-- packages/engine/src/run.ts: `resumeRun`, the continuation of a run that is stored in a state that
-- is not terminal.
pub mod Kept
pub mod Paying
pub mod Stages
use corridor_in_a_box.Base.{
  ℕ, suc, ◌+◌, ◌*◌, String, Bool, true, false, not, ◌&&◌, ◌||◌, Option, none, some, List, [], ◌∷◌,
  if◌then◌else◌, or_else, ◌==◌, leb, present, is_some,
}
use corridor_in_a_box.Types.{
  ErrorCode, manifest_changed, manifest_invalid, idempotency_conflict, route_refused, quote_expired,
  reconcile_mismatch, PaymentIntent, SettlementRef,
}
use corridor_in_a_box.Types
use corridor_in_a_box.Outcome.{Outcome, ok, err, fail, refusal, CorridorError}
use corridor_in_a_box.Anchor.{TransactionStatus}
use corridor_in_a_box.Corridor.{Corridor, is_prefunded}
use corridor_in_a_box.State.{
  CorridorState, created, quoted, compliant, opened, funding, funded, verifying, settling, retrying,
  settled, reconciled, completed, recovering, refund_pending, refunded, is,
}
use corridor_in_a_box.Idempotency.{
  StoredRun, SettlementKind, stellar, RecordedSettlement, has_requested_refund, has_settlement_ref,
}
use corridor_in_a_box.Breaker.{recovered_breaker_cause}
use corridor_in_a_box.Verbs.{SettlementRequest}
use corridor_in_a_box.Verbs.Polling.{watch_refund}
use corridor_in_a_box.Engine.{
  RouteDecision, EngineDeps, ExecuteOptions, looked_for, paid, World, M, pure, ◌>>=◌, ◌>>◌, finish,
  look, ask, set_trust, emit, note, poll, unless, to_result,
}
use corridor_in_a_box.Engine.Context.{
  no_meta, refund_audit, advance, die_with, fail_run, hold_run, record_run,
}
use corridor_in_a_box.Engine.Refunding.{finish_failure, reported_refund, refunds_in, refund_amount}
use corridor_in_a_box.Engine.Funding.{
  stop, or_stop, die, fail_over, open_deposit, wait_for_deposit, fund,
}
use corridor_in_a_box.Engine.Settling.{set_settlement, fee_of, verify_on_chain, confirm_payout}
use corridor_in_a_box.Engine.Fresh.{needs_opt_in, does_kyc, check_kyc}

-- `conflict(…)`: the stored row is left as it is.
unfoldable pub conflict : {A : Type 0} → M A
conflict = finish (fail idempotency_conflict)

-- `if (!x.ok) return x`.
unfoldable pub or_return : {A : Type 0} → Outcome A → M A
or_return (ok a) = pure a
or_return (err e) = finish (err e)

abbrev pub is_early : CorridorState → Bool
is_early s = is s created || is s quoted || is s compliant

abbrev pub may_settle : CorridorState → Bool
may_settle s = is s opened || is s funded || is s retrying || is s verifying || is s settling

abbrev differs : Option ℕ → ℕ → Bool
differs none hash = false
differs (some h) hash = not (h == hash)

-- What a resumed settle leg needs of the stored row.
pub record Plan : Type 0 where
  pub request : SettlementRequest
  pub firm : Bool
  pub expires_at : ℕ

abbrev expired : Plan → ℕ → Bool
expired p at = p.firm && leb p.expires_at at

plan_of : Corridor → StoredRun → Option (List ℕ) → Option ℕ → Option Bool → Option Plan
plan_of c run (some amount) (some expires_at) (some firm) =
    if present run.transaction_id && present run.deposit_address
    then some (record {
      request = record {
        to = or_else run.deposit_address "";
        memo = run.memo;
        memo_type = run.memo_type;
        amount = record { asset = c.settlement.bridge_asset; amount = amount };
        valid_until = none;
      };
      firm = firm;
      expires_at = expires_at;
    })
    else none
plan_of c run _ _ _ = none

unfoldable pub plan : Corridor → StoredRun → Option Plan
unfolding plan_of
plan c run = plan_of c run (refund_amount run.settlement_amount) run.quote_expires_at run.quote_firm

abbrev hash_ref : Option String → Option SettlementRef
hash_ref none = none
hash_ref (some h) =
    if present (some h) then some (Types.SettlementRef.stellar h none none none) else none

abbrev known_ref : StoredRun → Option SettlementRef
known_ref run = elim run.settlement_ref [ none ↦ hash_ref run.stellar_tx_hash | some r ↦ some r ]

abbrev settled_on_chain : Option SettlementKind → Option String → Bool
settled_on_chain (some stellar) hash = true
settled_on_chain (some _) hash = false
settled_on_chain none hash = present hash

request_of : RecordedSettlement → SettlementRequest
request_of s = record {
  to = s.to;
  memo = s.memo;
  memo_type = s.memo_type;
  amount = s.amount;
  valid_until = none;
}

clear_error : StoredRun → StoredRun
clear_error run = record run { last_error = none }

module _ (deps : EngineDeps) (corridor : Corridor) (fuel : ℕ) where
  refuse_route : Bool → M RouteDecision
  refuse_route true = stop (fail_run deps corridor (refusal route_refused) none)
  refuse_route false = finish (fail route_refused)

  decide_resumed : Bool → Option RouteDecision → M RouteDecision
  unfolding refuse_route
  decide_resumed early (some route) = pure route
  decide_resumed early none = refuse_route early

  -- The route again, and the pinned manifest: an edited manifest stops a run that has not settled.
  unfoldable pub reroute : PaymentIntent → M RouteDecision
  unfolding decide_resumed
  reroute intent = do
    run ← look (λ w. w.run)
    answer ← ask (λ n. deps.resolve n intent corridor)
    route ← decide_resumed (is_early run.state) answer
    set_trust route.trust
    unless
        (not (differs run.manifest_hash (deps.hash_corridor corridor))
          || is run.state settled
          || is run.state reconciled)
        (die deps corridor fuel (refusal manifest_changed))
    unless (not (is_early run.state)) (die deps corridor fuel (refusal idempotency_conflict))
    pure route

  deposit_of : PaymentIntent → Option String → M String
  deposit_of intent none = open_deposit deps corridor fuel intent
  deposit_of intent (some id) =
      if present (some id) then pure id else open_deposit deps corridor fuel intent

  -- A run that stopped while its deposit was on the way.
  unfoldable pub resume_funding : PaymentIntent → RouteDecision → M (Unit {0})
  unfolding deposit_of
  resume_funding intent route = do
    unless route.has_sending conflict
    known ← look (λ w. w.run.source_transaction_id)
    id ← deposit_of intent known
    wait_for_deposit deps corridor fuel id
    moved ← advance deps corridor funded no_meta
    or_return moved

  settle_from : Outcome (Unit {0}) → M (Outcome (Unit {0}))
  settle_from (err e) = pure (err e)
  settle_from (ok _) = do
    state ← look (λ w. w.run.state)
    if is state verifying then advance deps corridor settling no_meta else pure (ok tt)

  -- The legal path up to `settling`, as a fresh run walks it.
  unfoldable pub enter_settling : M (Unit {0})
  unfolding settle_from
  enter_settling = do
    state ← look (λ w. w.run.state)
    moved ←
        if is state funded || is state opened || is state retrying
        then advance deps corridor verifying no_meta
        else pure (ok tt)
    entered ← settle_from moved
    or_stop (λ e. die_with deps corridor e none) entered

  fund_resumed : PaymentIntent → RouteDecision → M (Unit {0})
  fund_resumed intent route = do
    unless route.has_sending conflict
    state ← look (λ w. w.run.state)
    unless (is state opened) conflict
    fund deps corridor fuel intent

  -- No payment is on the chain: the checks of a fresh run again, and then the one payment.
  unfoldable pub pay_resumed :
      ExecuteOptions → PaymentIntent → RouteDecision → Plan → M SettlementRef
  unfolding fund_resumed
  pay_resumed opts intent route p = do
    at ← ask deps.now
    unless (not (expired p at)) (die deps corridor fuel (refusal quote_expired))
    unless (not (needs_opt_in deps opts corridor route.trust))
        (die deps corridor fuel (refusal manifest_invalid))
    unless (not (is_some deps.gate)) conflict
    unless (not (does_kyc route.capabilities.kyc)) (check_kyc deps corridor fuel intent)
    source ← look (λ w. w.run.source_transaction_id)
    unless (is_prefunded corridor.source_protocol || present source) (fund_resumed intent route)
    later ← ask deps.now
    run ← look (λ w. w.run)
    unless (not (expired p later)) (
        stop (
          if present run.source_transaction_id
          then hold_run deps corridor (refusal quote_expired) none (refusal quote_expired)
              (refusal quote_expired)
          else finish_failure deps corridor fuel (refusal quote_expired)))
    enter_settling
    state ← look (λ w. w.run.state)
    answer ← ask (λ n. deps.submit n p.request)
    emit (paid state answer)
    or_stop (finish_failure deps corridor fuel) answer

  take_found :
      ExecuteOptions → PaymentIntent → RouteDecision → Plan → Option SettlementRef → M SettlementRef
  take_found opts intent route p (some ref) = do
    source ← look (λ w. w.run.source_transaction_id)
    unless (is_prefunded corridor.source_protocol || present source) conflict
    enter_settling
    pure ref
  take_found opts intent route p none = do
    state ← look (λ w. w.run.state)
    unless (not (is state settling)) conflict
    pay_resumed opts intent route p

  require : {A : Type 0} → Option A → M A
  require none = conflict
  require (some a) = pure a

  -- A run that stopped between the opened transaction and the settled payment: the chain is asked
  -- first.
  unfoldable pub resume_settling : ExecuteOptions → PaymentIntent → RouteDecision → M (Unit {0})
  unfolding take_found require
  resume_settling opts intent route = do
    run ← look (λ w. w.run)
    p ← require (plan corridor run)
    at ← ask deps.now
    unless (not (is run.state funded && expired p at)) (
        stop (
          hold_run deps corridor (refusal quote_expired) none (refusal quote_expired)
            (refusal quote_expired)))
    lookup ← require deps.find_existing
    answer ← ask (λ n. lookup n p.request)
    emit (looked_for p.request)
    found ← or_return answer
    ref ← take_found opts intent route p found
    note (set_settlement ref p.request)
    moved ← advance deps corridor settled (record no_meta { network_fee = fee_of ref })
    or_stop (λ e. die_with deps corridor e none) moved

  verify_saved : Option RecordedSettlement → Option SettlementRef → M (Outcome (Unit {0}))
  verify_saved (some saved) (some ref) = verify_on_chain deps corridor fuel ref (request_of saved)
  verify_saved _ _ = pure (ok tt)

  -- A settled run: the payment is verified again, and the payout awaited.
  unfoldable pub resume_settled : M (Unit {0})
  unfolding verify_saved request_of
  resume_settled = do
    run ← look (λ w. w.run)
    unless (present run.transaction_id && has_settlement_ref run) conflict
    verified ←
        if settled_on_chain run.settlement_kind run.stellar_tx_hash
        then verify_saved run.settlement (known_ref run)
        else pure (ok tt)
    or_stop (λ e. hold_run deps corridor e none e e) verified
    at ← ask deps.now
    confirm_payout deps corridor fuel (or_else run.transaction_id "")
        (at + corridor.recovery.timeout_seconds * 1000)
    moved ← advance deps corridor reconciled no_meta
    or_return moved

  unfoldable pub resume_reconciled : M (Unit {0})
  resume_reconciled = do
    moved ← advance deps corridor completed no_meta
    or_return moved
    record_run deps corridor completed none
    w ← look (λ w. w)
    finish (ok (to_result w.run w.trail))

  -- The refund is on its way back: the run ends as `refunded`.
  end_refunded : CorridorError → Outcome (Unit {0}) → M (Unit {0})
  end_refunded cause moved = do
    or_return moved
    record_run deps corridor refunded (some cause.code)
    finish (fail reconcile_mismatch)

  resume_watched : CorridorError → Outcome TransactionStatus → M (Unit {0})
  unfolding end_refunded clear_error
  resume_watched cause (err e) = stop (hold_run deps corridor e (refunds_in e.cause) cause e)
  resume_watched cause (ok s) = do
    note (reported_refund s.refunds)
    note clear_error
    moved ← advance deps corridor refunded (refund_audit s.refunds)
    end_refunded cause moved

  unfoldable pub resume_recovering : M (Unit {0})
  unfolding resume_watched end_refunded
  resume_recovering = do
    run ← look (λ w. w.run)
    unless (present run.transaction_id) conflict
    let cause = recovered_breaker_cause run.last_error (refusal reconcile_mismatch)
    unless (not (has_requested_refund run))
        (do moved ← advance deps corridor refunded no_meta; end_refunded cause moved)
    waiting ←
        if is run.state recovering
        then advance deps corridor refund_pending no_meta
        else pure (ok tt)
    or_return waiting
    at ← ask deps.now
    watched ← poll (
        watch_refund fuel (at + corridor.recovery.refund_wait_seconds * 1000) deps.now
          (deps.get_transaction (or_else run.transaction_id "")))
    resume_watched cause watched

  -- Each part runs if the run is, by now, in its state.
  unfoldable pub resume : ExecuteOptions → PaymentIntent → M (Unit {0})
  resume opts intent = do
    route ← reroute intent
    s0 ← look (λ w. w.run.state)
    unless (not (is s0 funding)) (resume_funding intent route)
    s1 ← look (λ w. w.run.state)
    unless (not (is s1 funded && is_some deps.gate)) conflict
    unless (not (may_settle s1)) (resume_settling opts intent route)
    s2 ← look (λ w. w.run.state)
    unless (not (is s2 settled)) resume_settled
    s3 ← look (λ w. w.run.state)
    unless (not (is s3 reconciled)) resume_reconciled
    unless (not (is s3 recovering || is s3 refund_pending)) resume_recovering
    conflict

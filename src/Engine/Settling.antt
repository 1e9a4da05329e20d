-- ===== src/Engine/Settling.antt =====
-- packages/engine/src/run.ts: the settle loop of `execute`, the pre-settle gate before each attempt,
-- and what follows a settled payment.
pub mod Kept
pub mod Rounds
use corridor_in_a_box.Base.{
  ℕ, zero, suc, ◌+◌, ◌*◌, String, Bool, true, false, not, ◌&&◌, ◌||◌, Option, none, some, List, [],
  ◌∷◌, if◌then◌else◌, or_else, leb, present, find,
}
use corridor_in_a_box.Types.{
  ErrorCode, settlement_failed, settlement_timeout, quote_expired, amount_invalid, dry_run_complete,
  PaymentIntent, SettlementRef,
}
use corridor_in_a_box.Types
use corridor_in_a_box.Outcome.{
  Outcome, ok, err, refusal, CheckResult, CorridorError, Cause, dry_run, nothing,
}
use corridor_in_a_box.Anchor.{
  Quote, OpenTransaction, InstructionsKind, stellar_payment, kind_of, TransactionStatus,
}
use corridor_in_a_box.Corridor.{Corridor}
use corridor_in_a_box.State.{
  CorridorState, verifying, settling, retrying, settled, reconciled, completed,
}
use corridor_in_a_box.Idempotency.{StoredRun, SettlementKind, stellar, adapter}
use corridor_in_a_box.Verbs.{
  SettlementRequest, build_settlement_request, settle, settle_quote_problem, same_kind,
  RecoveryAction, retry, recover,
}
use corridor_in_a_box.Verbs.Polling.{reconcile_until}
use corridor_in_a_box.Engine.{
  GateContext, EngineDeps, strategies_of, ExecuteOptions, Effect, gate_answered, looked_for, paid,
  M, pure, ◌>>=◌, ◌>>◌, look, ask, emit, note, poll, unless, starve, throw,
}
use corridor_in_a_box.Engine.Context.{Meta, no_meta, with_checks, advance, die_with, hold_run}
use corridor_in_a_box.Engine.Refunding.{finish_failure}
use corridor_in_a_box.Engine.Funding.{
  stop, or_stop, die, fail_over, must_advance, poll_options, external_stall_budget_ms,
}

unfoldable pub is_expired : Quote → ℕ → Bool
is_expired q at = q.firm && leb q.expires_at at

-- The error of the first check that failed, if one did.
unfoldable pub gate_error : List CheckResult → Option CorridorError
gate_error [] = none
gate_error (c ∷ cs) =
    if c.passed then gate_error cs else some (refusal (or_else c.code settlement_failed))

abbrev pub skipped : List CheckResult
skipped = record { name = "gate.skipped"; passed = true; code = none } ∷ []

-- What an attempt at the settle leg comes to: a payment, or another attempt.
pub data Attempt : Type 0 where
  settled_by : SettlementRef → Attempt
  again : ℕ → Attempt

abbrev kind_of_ref : SettlementRef → SettlementKind
kind_of_ref (Types.SettlementRef.stellar _ _ _ _) = stellar
kind_of_ref (Types.SettlementRef.adapter _ _) = adapter

hash_of : SettlementRef → Option String → Option String
hash_of (Types.SettlementRef.stellar h _ _ _) known = some h
hash_of _ known = known

unfoldable pub fee_of : SettlementRef → Option String
fee_of (Types.SettlementRef.stellar _ _ fee _) = fee
fee_of _ = none

-- The reference of the payment and the request that it answers, recorded before `settled`.
unfoldable pub set_settlement : SettlementRef → SettlementRequest → StoredRun → StoredRun
unfolding hash_of
set_settlement ref req run = record run {
  stellar_tx_hash = hash_of ref run.stellar_tx_hash;
  settlement_kind = some (kind_of_ref ref);
  settlement_ref = some ref;
  settlement =
      some
        (record { to = req.to; memo = req.memo; memo_type = req.memo_type; amount = req.amount });
}

module _ (deps : EngineDeps) (corridor : Corridor) (fuel : ℕ) where
  -- A funded run is held for an operator, one that sent nothing takes the given way out.
  unfoldable pub stop_unsettled :
      {A : Type 0} → CorridorError → (CorridorError → M CorridorError) → M A
  stop_unsettled e otherwise = do
    run ← look (λ w. w.run)
    stop (
        if present run.source_transaction_id
        then hold_run deps corridor e none e e
        else otherwise e)

  -- A firm quote is checked on every attempt, and again before the payment.
  unfoldable pub check_expiry : Quote → M (Unit {0})
  check_expiry q = do
    at ← ask deps.now
    unless (not (is_expired q at))
        (stop_unsettled (refusal quote_expired) (finish_failure deps corridor fuel))

  verify_with : List CheckResult → M (Unit {0})
  verify_with checks = do
    moved ← advance deps corridor verifying (with_checks (some checks))
    or_stop (λ e. die_with deps corridor e none) moved

  -- A gate that does not pass without a check that failed leaves `failure` undefined, and reading its
  -- code throws.
  refuse_gate : List CheckResult → Option CorridorError → M (Unit {0})
  refuse_gate checks none = throw
  refuse_gate checks (some e) = stop_unsettled e (λ e. die_with deps corridor e (some checks))

  read_gate : Option (Bool × List CheckResult) → M (List CheckResult)
  unfolding verify_with refuse_gate
  read_gate none = do
    emit (gate_answered false)
    moved ← advance deps corridor verifying no_meta
    stop_unsettled (refusal settlement_failed) (λ e. die_with deps corridor e none)
  read_gate (some (passed, checks)) = do
    emit (gate_answered passed)
    verify_with checks
    unless passed (refuse_gate checks (gate_error checks))
    pure checks

  through_gate :
      Option (ℕ → GateContext → Option (Bool × List CheckResult))
      → GateContext
      → M (List CheckResult)
  unfolding read_gate verify_with
  through_gate none ctx = do verify_with skipped; pure skipped
  through_gate (some evaluate) ctx = do answer ← ask (λ n. evaluate n ctx); read_gate answer

  -- The pre-settle gate of an attempt: the checks that passed.
  unfoldable pub pass_gate : PaymentIntent → Quote → OpenTransaction → ℕ → M (List CheckResult)
  unfolding through_gate
  pass_gate intent q opened attempt = do
    at ← ask deps.now
    through_gate deps.gate
        (record { intent = intent; quote = q; opened = opened; now = at; attempt = attempt })

  call_settle : Quote → OpenTransaction → M (Outcome SettlementRef)
  call_settle q opened = do
    state ← look (λ w. w.run.state)
    answer ←
        ask
          (settle (strategies_of deps) (record { opened = opened; quote = q; corridor = corridor }))
    emit (paid state answer)
    pure answer

  use_found : Quote → OpenTransaction → Option SettlementRef → M (Outcome SettlementRef)
  unfolding call_settle
  use_found q opened (some ref) = pure (ok ref)
  use_found q opened none = call_settle q opened

  look_first :
      Option (ℕ → SettlementRequest → Outcome (Option SettlementRef))
      → Quote
      → OpenTransaction
      → M (Outcome SettlementRef)
  unfolding use_found call_settle
  look_first none q opened = call_settle q opened
  look_first (some lookup) q opened =
      let req = build_settlement_request opened q corridor in
      (do
        answer ← ask (λ n. lookup n req)
        emit (looked_for req)
        found ← or_stop (finish_failure deps corridor fuel) answer
        use_found q opened found)

  -- A payment that the chain already shows is not made again.
  unfoldable pub pay : Quote → OpenTransaction → M (Outcome SettlementRef)
  unfolding look_first call_settle
  pay q opened =
      if same_kind (kind_of opened.instructions) stellar_payment
      then look_first deps.find_existing q opened
      else call_settle q opened

  act_on : RecoveryAction → CorridorError → M Attempt
  act_on (retry next) e = do must_advance deps corridor fuel retrying; pure (again next)
  act_on _ e = fail_over deps corridor fuel e

  after_pay : ℕ → Outcome SettlementRef → M Attempt
  unfolding act_on
  after_pay attempt (ok ref) = pure (settled_by ref)
  after_pay attempt (err e) = act_on (recover corridor e.retryable attempt) e

  -- One pass of the loop.
  unfoldable pub try_settle :
      ExecuteOptions → PaymentIntent → Quote → OpenTransaction → ℕ → ℕ → M Attempt
  unfolding after_pay
  try_settle opts intent q opened deadline attempt = do
    at ← ask deps.now
    unless (not (leb deadline at)) (fail_over deps corridor fuel (refusal settlement_timeout))
    check_expiry q
    unless (not (settle_quote_problem q corridor)) (die deps corridor fuel (refusal amount_invalid))
    checks ← pass_gate intent q opened attempt
    unless (not opts.dry_run) (
        stop (
          die_with deps corridor
            (record { code = dry_run_complete; retryable = false; cause = dry_run checks })
            (some checks)))
    check_expiry q
    must_advance deps corridor fuel settling
    answer ← pay q opened
    after_pay attempt answer

  -- The loop, with as many passes as the policy allows and one more.
  unfoldable pub settle_loop :
      ℕ → ExecuteOptions → PaymentIntent → Quote → OpenTransaction → ℕ → ℕ → M SettlementRef
  settle_loop zero opts intent q opened deadline attempt = starve
  settle_loop (suc rounds) opts intent q opened deadline attempt =
      try_settle opts intent q opened deadline attempt >>= elim [
        | settled_by ref ↦ pure ref
        | again next ↦ settle_loop rounds opts intent q opened deadline next
      ]

  verify_ref :
      Option (ℕ → SettlementRef → SettlementRequest → Outcome (Unit {0}))
      → SettlementRef
      → SettlementRequest
      → M (Outcome (Unit {0}))
  verify_ref (some verifier) (Types.SettlementRef.stellar h l f b) req =
      ask (λ n. verifier n (Types.SettlementRef.stellar h l f b) req)
  verify_ref _ ref req = pure (ok tt)

  never_retry : Outcome (Unit {0}) → Outcome (Unit {0})
  never_retry (ok u) = ok u
  never_retry (err e) = err (record e { retryable = false })

  -- `verifyOnChain`.
  unfoldable pub verify_on_chain : SettlementRef → SettlementRequest → M (Outcome (Unit {0}))
  unfolding verify_ref never_retry
  verify_on_chain ref req = do
    answer ← verify_ref deps.chain_verifier ref req
    pure (never_retry answer)

  -- The payout is confirmed, or the run fails over: it is never settled again.
  unfoldable pub confirm_payout : String → ℕ → M (Unit {0})
  confirm_payout id deadline = do
    answer ← poll (
        reconcile_until fuel
          (poll_options deps corridor deadline (external_stall_budget_ms corridor)) deps.now
          (deps.get_transaction id))
    status ← or_stop (finish_failure deps corridor fuel) answer
    pure tt

  -- The request is `settlementRequestFor`'s, which names no time by which to pay.
  unfoldable pub finish_settled : Quote → OpenTransaction → ℕ → SettlementRef → M (Unit {0})
  finish_settled q opened deadline ref = do
    let req = record (build_settlement_request opened q corridor) { valid_until = none }
    note (set_settlement ref req)
    moved ←
        advance deps corridor settled
          (record no_meta { quote_fee = q.fee; network_fee = fee_of ref })
    or_stop (λ e. die_with deps corridor e none) moved
    verified ← verify_on_chain ref req
    or_stop (finish_failure deps corridor fuel) verified
    confirm_payout opened.transaction_id deadline
    must_advance deps corridor fuel reconciled

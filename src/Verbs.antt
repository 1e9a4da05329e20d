-- ===== src/Verbs.antt =====
-- packages/engine/src/verbs.ts, and the settlement ports of packages/engine/src/ports.ts: the steps
-- that the engine sequences. A port is a function of the number of the call, so that it may answer
-- every call in its own way.
pub mod Polling
pub mod Reconcile
pub mod Refund
pub mod Recover
use corridor_in_a_box.Base.{
  ℕ, zero, suc, ◌+◌, ◌-◌, ◌*◌, ◌^◌, min, max, String, Bool, true, false, not, ◌&&◌, ◌||◌, Option,
  none, some, List, [], ◌∷◌, if◌then◌else◌, ltb, leb, str_eq, or_else, find, codes, ◌==◌,
}
use Prim.Native.String
use corridor_in_a_box.Types.{
  ErrorCode, quote_expired, kyc_rejected, kyc_required, amount_invalid, settlement_failed, Money,
  PaymentIntent, SettlementRef, adapter,
}
use corridor_in_a_box.Outcome.{Outcome, ok, err, fail, fail_retryable}
use corridor_in_a_box.Anchor.{
  Quote, KycResult, KycStatus, accepted, pending, rejected, OpenTransaction, MemoType,
  InstructionsKind, stellar_payment, claimable_balance, adapter_settled, DepositInstructions,
  by_adapter, kind_of, to_legacy,
}
use corridor_in_a_box.Corridor.{Corridor, Settlement, Rollback, refund_sender, manual, is_xlm}
use corridor_in_a_box.Money.{is_settleable_amount, stroop_scale}

-- 1. Quote. `q` is what the provider or the adapter answered.
unfoldable pub check_quote : Outcome Quote → ℕ → Outcome Quote
check_quote (err e) now = err e
check_quote (ok q) now =
    if q.firm && leb q.expires_at now then fail_retryable quote_expired else ok q

-- 2. Comply.
check_status : KycStatus → KycResult → Outcome KycResult
check_status rejected c = fail kyc_rejected
check_status pending c = fail_retryable kyc_required
check_status accepted c = ok c

unfoldable pub check_compliance : Outcome KycResult → Outcome KycResult
unfolding check_status
check_compliance (err e) = err e
check_compliance (ok c) = check_status c.status c

pub record SettlementRequest : Type 0 where
  pub to : String
  pub memo : Option String
  pub memo_type : Option MemoType
  pub amount : Money
  pub valid_until : Option ℕ

unfoldable pub build_settlement_request : OpenTransaction → Quote → Corridor → SettlementRequest
build_settlement_request opened q corridor =
    let legacy = to_legacy opened in
    record {
      to = or_else legacy.deposit_address "";
      memo = legacy.memo;
      memo_type = legacy.memo_type;
      amount = record { asset = corridor.settlement.bridge_asset; amount = q.source_amount.amount };
      valid_until = if q.firm then some q.expires_at else none;
    }

-- The quote's asset is the bridge asset, by its code, by its Stellar name, or as native XLM.
unfoldable pub sells_bridge_asset : Quote → Settlement → Bool
unfolding is_xlm
sells_bridge_asset q s =
    let sell = q.source_amount.asset in
    str_eq sell s.bridge_asset
    || str_eq sell
        (String.◌++◌ "stellar:" (String.◌++◌ s.bridge_asset (String.◌++◌ ":" s.asset_issuer)))
    || (is_xlm s.bridge_asset && (str_eq sell "native" || str_eq sell "stellar:native"))

-- Whether a quote must not be settled as it is.
unfoldable pub settle_quote_problem : Quote → Corridor → Bool
settle_quote_problem q corridor =
    if not (sells_bridge_asset q corridor.settlement)
    then true
    else not (is_settleable_amount q.source_amount.amount stroop_scale)

issuer_differs : Option String → String → Bool
issuer_differs none issuer = true
issuer_differs (some s) issuer = not (str_eq s issuer)

path_needed : Option String → Settlement → Bool
unfolding issuer_differs is_xlm
path_needed none s = false
path_needed (some receive) s =
    let bridge_xlm = is_xlm s.bridge_asset in
    let receive_xlm = is_xlm receive in
    if bridge_xlm || receive_xlm
    then not (bridge_xlm && receive_xlm)
    else not (str_eq receive s.bridge_asset) || issuer_differs s.receive_asset_issuer s.asset_issuer

-- `needsPathPayment`.
unfoldable pub needs_path_payment : Corridor → Bool
unfolding path_needed
needs_path_payment corridor = path_needed corridor.settlement.receive_asset corridor.settlement

pub record SettlementContext : Type 0 where
  pub opened : OpenTransaction
  pub quote : Quote
  pub corridor : Corridor

pub record SettlementStrategy : Type 0 where
  pub kind : InstructionsKind
  pub matches : SettlementContext → Bool
  pub settle : ℕ → SettlementContext → Outcome SettlementRef

abbrev pub same_kind : InstructionsKind → InstructionsKind → Bool
same_kind stellar_payment stellar_payment = true
same_kind claimable_balance claimable_balance = true
same_kind adapter_settled adapter_settled = true
same_kind _ _ = false

-- `StellarPaymentStrategy`, over the submitter's `submit`.
unfoldable pub stellar_payment_strategy :
    (ℕ → SettlementRequest → Outcome SettlementRef) → SettlementStrategy
stellar_payment_strategy submit = record {
  kind = stellar_payment;
  matches = λ ctx. not (needs_path_payment ctx.corridor);
  settle = λ n ctx. submit n (build_settlement_request ctx.opened ctx.quote ctx.corridor);
}

reference_of : DepositInstructions → ℕ → Outcome SettlementRef
reference_of (by_adapter (some reference)) at =
    if str_eq reference "" then fail settlement_failed else ok (adapter reference at)
reference_of _ at = fail settlement_failed

confirm_or_reference :
    Option (ℕ → String → Outcome SettlementRef)
    → (ℕ → ℕ)
    → ℕ
    → SettlementContext
    → Outcome SettlementRef
unfolding reference_of
confirm_or_reference none now n ctx = reference_of ctx.opened.instructions (now n)
confirm_or_reference (some confirm) now n ctx = confirm n ctx.opened.transaction_id

-- `AdapterSettledStrategy`, over the adapter's `confirmSettlement` if it has one.
unfoldable pub adapter_settled_strategy :
    Option (ℕ → String → Outcome SettlementRef) → (ℕ → ℕ) → SettlementStrategy
unfolding confirm_or_reference
adapter_settled_strategy confirm now = record {
  kind = adapter_settled;
  matches = λ ctx. true;
  settle = confirm_or_reference confirm now;
}

call_strategy : Option SettlementStrategy → ℕ → SettlementContext → Outcome SettlementRef
call_strategy none n ctx = fail settlement_failed
call_strategy (some s) n ctx = s.settle n ctx

abbrev accepts : SettlementContext → SettlementStrategy → Bool
accepts ctx s = same_kind s.kind (kind_of ctx.opened.instructions) && s.matches ctx

-- 3b. Settle: the first strategy of the instructions' kind that accepts the corridor.
unfoldable pub settle : List SettlementStrategy → SettlementContext → ℕ → Outcome SettlementRef
unfolding call_strategy
settle strategies ctx n =
    if settle_quote_problem ctx.quote ctx.corridor
    then fail amount_invalid
    else call_strategy (find (accepts ctx) strategies) n ctx

-- `backoffMs`, with its default base and cap.
unfoldable pub backoff_ms : ℕ → ℕ
backoff_ms attempt = min (250 * 2 ^ (attempt - 1)) 5000

pub data RecoveryAction : Type 0 where
  retry : ℕ → RecoveryAction
  refund hold give_up : RecoveryAction

by_policy : Rollback → RecoveryAction
by_policy refund_sender = refund
by_policy Rollback.hold = RecoveryAction.hold
by_policy manual = give_up

-- 5. Recover.
unfoldable pub recover : Corridor → Bool → ℕ → RecoveryAction
unfolding by_policy
recover corridor retryable attempt =
    if retryable && ltb attempt corridor.recovery.max_retries
    then retry (attempt + 1)
    else by_policy corridor.recovery.rollback

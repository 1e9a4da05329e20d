-- ===== src/Stellar/Strategies.antt =====
-- The settlement strategies of packages/stellar/src/index.ts: path payments over the submitter, and
-- claimable balances.
pub mod Laws
use Prim.Native.String
use corridor_in_a_box.Base.{
  ℕ, String, Bool, true, false, not, ◌&&◌, ◌||◌, Option, none, some, List, if◌then◌else◌, or_else,
  str_eq,
}
use corridor_in_a_box.Types.{SettlementRef, stellar, settlement_failed, quote_expired, Money}
use corridor_in_a_box.Outcome.{Outcome, ok, err, fail, CorridorError, thrown}
use corridor_in_a_box.Anchor.{
  stellar_payment, claimable_balance, OpenTransaction, DepositInstructions, to_claimant,
}
use corridor_in_a_box.Corridor.{Settlement}
use corridor_in_a_box.Json.{to_upper}
use corridor_in_a_box.Verbs.{
  SettlementRequest, build_settlement_request, needs_path_payment, SettlementContext,
  SettlementStrategy,
}
use corridor_in_a_box.Stellar.Confirm.{Confirmed}
use corridor_in_a_box.Stellar.Submit.{
  Submission, not_submitted, accepted, rejected, unanswered, retryable_thrown, is_dead,
  after_confirm,
}

-- `stellar:${code}:${issuer}`, with the text that a missing issuer prints as.
abbrev stellar_name : String → Option String → String
stellar_name code issuer =
    String.◌++◌ (String.◌++◌ (String.◌++◌ "stellar:" code) ":") (or_else issuer "undefined")

-- `namesAsset`.
unfoldable pub names_asset : String → String → Option String → Bool
unfolding to_upper
names_asset id code issuer =
    if str_eq (to_upper code) "XLM"
    then str_eq (to_upper id) "XLM" || str_eq id "native" || str_eq id "stellar:native"
    else str_eq id code || str_eq id (stellar_name code issuer)

abbrev floor_in : Settlement → Option Money → Option String → Option (List ℕ)
floor_in s (some amount_in) (some receive_asset) =
    if names_asset amount_in.asset receive_asset s.receive_asset_issuer
    then some amount_in.amount
    else none
floor_in s _ _ = none

-- What the anchor expects, if it says so in the asset that it receives.
unfoldable pub min_dest_amount : Settlement → OpenTransaction → Option (List ℕ)
unfolding names_asset
min_dest_amount s opened = floor_in s opened.amount_in s.receive_asset

-- `StellarPathPaymentStrategy`, over the submitter's `submitPathPayment`.
unfoldable pub stellar_path_payment_strategy :
    (ℕ → SettlementRequest → Option (List ℕ) → Outcome SettlementRef) → SettlementStrategy
unfolding min_dest_amount
stellar_path_payment_strategy submit = record {
  kind = stellar_payment;
  matches = λ ctx. needs_path_payment ctx.corridor;
  settle = λ n ctx.
      submit n (build_settlement_request ctx.opened ctx.quote ctx.corridor)
        (min_dest_amount ctx.corridor.settlement ctx.opened);
}

abbrev claimant_in : DepositInstructions → Option String → Option String
claimant_in (to_claimant claimant _ _) deposit_address = some claimant
claimant_in _ deposit_address = deposit_address

-- `StellarClaimableBalanceStrategy.settle`, over its `submit`.
unfoldable pub stellar_claimable_balance_strategy :
    (ℕ → SettlementRequest → Option String → Outcome SettlementRef) → SettlementStrategy
stellar_claimable_balance_strategy submit = record {
  kind = claimable_balance;
  matches = λ ctx. true;
  settle = λ n ctx.
      submit n (build_settlement_request ctx.opened ctx.quote ctx.corridor)
        (claimant_in ctx.opened.instructions ctx.opened.deposit_address);
}

-- The balance's id is what the result says, or what was computed from the transaction.
abbrev pub claimed_ref :
    (Confirmed → Option String) → String → Outcome Confirmed → Outcome SettlementRef
claimed_ref balance_id tx_hash (err e) = err e
claimed_ref balance_id tx_hash (ok c) = ok (stellar tx_hash c.ledger c.fee_charged (balance_id c))

abbrev pub landed_ref :
    (Confirmed → Option String) → String → Outcome Confirmed → Outcome SettlementRef
landed_ref balance_id tx_hash (err e) = err (record e { cause = thrown })
landed_ref balance_id tx_hash (ok c) = ok (stellar tx_hash c.ledger c.fee_charged (balance_id c))

-- What is known of a submitted claimable balance.
unfoldable pub send_claim :
    (Confirmed → Option String)
    → (String → Option (Outcome Confirmed))
    → Submission
    → Option (Outcome SettlementRef)
send_claim balance_id confirm not_submitted = some (err retryable_thrown)
send_claim balance_id confirm (rejected tx_hash) = some (err retryable_thrown)
send_claim balance_id confirm (accepted tx_hash) =
    after_confirm (claimed_ref balance_id tx_hash) (confirm tx_hash)
send_claim balance_id confirm (unanswered tx_hash) =
    after_confirm (landed_ref balance_id tx_hash) (confirm tx_hash)

-- `StellarClaimableBalanceStrategy.submit`: no network is guarded here. `balance_id` is what the XDR
-- library reads or computes.
unfoldable pub submit_claim :
    SettlementRequest
    → Option String
    → ℕ
    → (Confirmed → Option String)
    → (String → Option (Outcome Confirmed))
    → Submission
    → Option (Outcome SettlementRef)
unfolding send_claim
submit_claim req claimant now balance_id confirm submission =
    if is_dead req.valid_until now
    then some (fail quote_expired)
    else if str_eq (or_else claimant req.to) ""
    then some (fail settlement_failed)
    else send_claim balance_id confirm submission

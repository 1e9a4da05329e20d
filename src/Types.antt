-- ===== src/Types.antt =====
-- packages/types/src/index.ts: the result type, the error codes, parties, intents and settlement
-- references. The message of an error is prose for an operator and is left out: an error is its
-- code, its `retryable` flag and what its `cause` says.
use corridor_in_a_box.Base.{
  ℕ, String, Bool, true, false, Option, none, List, present, if◌then◌else◌,
}

-- `CorridorErrorCode`.
pub data ErrorCode : Type 0 where
  manifest_invalid manifest_changed capability_mismatch amount_invalid engine_misconfigured :
      ErrorCode
  presettle_anchor_drift quote_unavailable quote_expired kyc_required kyc_rejected : ErrorCode
  anchor_unavailable settlement_failed settlement_timeout refund_unsupported : ErrorCode
  reconcile_mismatch reconcile_stalled idempotency_conflict presettle_tx_mismatch : ErrorCode
  presettle_destination_unsafe presettle_insufficient_funds presettle_quote_window : ErrorCode
  presettle_amount_out_of_range presettle_receiver_not_accepted corridor_unproven : ErrorCode
  corridor_halted dry_run_complete route_refused : ErrorCode

-- `code.startsWith("PRESETTLE_")`.
unfoldable pub is_pre_settle_code : ErrorCode → Bool
is_pre_settle_code presettle_anchor_drift = true
is_pre_settle_code presettle_tx_mismatch = true
is_pre_settle_code presettle_destination_unsafe = true
is_pre_settle_code presettle_insufficient_funds = true
is_pre_settle_code presettle_quote_window = true
is_pre_settle_code presettle_amount_out_of_range = true
is_pre_settle_code presettle_receiver_not_accepted = true
is_pre_settle_code _ = false

-- Amounts are decimal text, kept as code points because the arithmetic walks them.
pub record Money : Type 0 where
  pub asset : String
  pub amount : List ℕ

pub record PartyRef : Type 0 where
  pub id : String
  pub jurisdiction : Option String
  pub sep12_id : Option String
  pub anchor_customer_id : Option String

-- `party.anchorCustomerId || party.sep12Id || undefined`.
unfoldable pub anchor_customer_id_of : PartyRef → Option String
anchor_customer_id_of p =
    if present p.anchor_customer_id
    then p.anchor_customer_id
    else if present p.sep12_id
    then p.sep12_id
    else none

pub record PaymentIntent : Type 0 where
  pub idempotency_key : String
  pub corridor_id : String
  pub sender : PartyRef
  pub recipient : PartyRef
  pub source_amount : Money
  pub destination_fields : Option (List (String × String))

pub data SettlementRef : Type 0 where
  stellar :
      (stellar_tx_hash : String) (ledger : Option ℕ) (fee_charged : Option String)
      (claimable_balance_id : Option String)
      → SettlementRef
  adapter : (reference : String) (reported_at : ℕ) → SettlementRef

unfoldable pub settlement_id : SettlementRef → String
settlement_id (adapter reference _) = reference
settlement_id (stellar hash _ _ _) = hash

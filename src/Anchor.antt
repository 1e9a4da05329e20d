-- ===== src/Anchor.antt =====
-- packages/adapter-kit/src/index.ts: what an anchor answers, as the engine reads it.
use corridor_in_a_box.Base.{ℕ, String, Bool, Option, some, List}
use corridor_in_a_box.Types.{Money}

pub record Quote : Type 0 where
  pub id : String
  pub price : List ℕ
  pub expires_at : ℕ
  pub source_amount : Money
  pub dest_amount : Money
  pub fee : Option Money
  pub firm : Bool

pub data KycStatus : Type 0 where
  accepted pending rejected : KycStatus

pub record KycResult : Type 0 where
  pub status : KycStatus
  pub customer_id : Option String

pub data MemoType : Type 0 where
  text hash id : MemoType

-- `DepositInstructions["kind"]`.
pub data InstructionsKind : Type 0 where
  stellar_payment claimable_balance adapter_settled : InstructionsKind

pub data DepositInstructions : Type 0 where
  to_account :
      (to : String) (memo : Option String) (memo_type : Option MemoType) (asset : Option String)
      → DepositInstructions
  to_claimant :
      (claimant : String) (asset : Option String) (predicate_seconds : Option ℕ)
      → DepositInstructions
  by_adapter : (reference : Option String) → DepositInstructions

abbrev pub kind_of : DepositInstructions → InstructionsKind
kind_of (to_account _ _ _ _) = stellar_payment
kind_of (to_claimant _ _ _) = claimable_balance
kind_of (by_adapter _) = adapter_settled

pub record OpenTransaction : Type 0 where
  pub transaction_id : String
  pub instructions : DepositInstructions
  pub amount_in : Option Money
  pub deposit_address : Option String
  pub memo : Option String
  pub memo_type : Option MemoType

pub record Legacy : Type 0 where
  pub deposit_address : Option String
  pub memo : Option String
  pub memo_type : Option MemoType

legacy_of : OpenTransaction → DepositInstructions → Legacy
legacy_of tx (to_account to memo memo_type _) = record {
  deposit_address = some to;
  memo = memo;
  memo_type = memo_type;
}
legacy_of tx _ = record {
  deposit_address = tx.deposit_address;
  memo = tx.memo;
  memo_type = tx.memo_type;
}

unfoldable pub to_legacy : OpenTransaction → Legacy
unfolding legacy_of
to_legacy tx = legacy_of tx tx.instructions

pub record RefundPayment : Type 0 where
  pub id : String
  pub id_type : Option String
  pub amount : Money
  pub fee : Money

pub data Completeness : Type 0 where
  full partial unknown : Completeness

pub record RefundInfo : Type 0 where
  pub amount_refunded : Money
  pub amount_fee : Money
  pub payments : List RefundPayment
  pub completeness : Completeness

pub data Phase : Type 0 where
  anchor external : Phase

pub record TransactionStatus : Type 0 where
  pub status : String
  pub phase : Option Phase
  pub settled : Bool
  pub terminal_failure : Bool
  pub awaiting_input : Bool
  pub refunds : Option RefundInfo
  pub amount_in : Option Money
  pub deposit_address : Option String
  pub memo : Option String
  pub memo_type : Option MemoType

pub data QuoteKind : Type 0 where
  sep38_firm sep38_indicative native no_quotes : QuoteKind

-- `ComplianceMethod` of packages/manifest, the vocabulary of `capabilities().kyc`.
pub data ComplianceMethod : Type 0 where
  sep12 sep6_fields bespoke no_kyc : ComplianceMethod

pub record AdapterCapabilities : Type 0 where
  pub protocol : String
  pub quotes : List QuoteKind
  pub kyc : ComplianceMethod
  pub settlement : List InstructionsKind

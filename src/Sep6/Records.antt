-- ===== src/Sep6/Records.antt =====
-- What the adapter of packages/sep6/src/index.ts keeps, and what it reads of a transaction.
use corridor_in_a_box.Base.{
  ℕ, String, true, false, Option, none, some, List, [], ◌∷◌, if◌then◌else◌, or_else, str_eq,
}
use corridor_in_a_box.Types.{anchor_unavailable, kyc_required, kyc_rejected}
use corridor_in_a_box.Outcome.{Outcome, ok, err, fail, CorridorError}
use corridor_in_a_box.Anchor.{OpenTransaction, to_account, MemoType, TransactionStatus}
use corridor_in_a_box.Corridor.{Dest}
use corridor_in_a_box.Json.{
  Json, str, obj, Fields, end, field, text_of, non_empty, text, to_lower, is_null,
}
use corridor_in_a_box.Json
use corridor_in_a_box.AdapterKit.Http.{Call, failure, is_server_error}
use corridor_in_a_box.AdapterKit.Sep10.{Net, token}
use corridor_in_a_box.AdapterKit.Refunds.{parse_refunds, parse_amount}
use corridor_in_a_box.Sep31.Status.{Mapped, has, map_sep6_status, parse_memo_type}

-- `account` is the signer's, if there is one.
pub record Sep6Adapter : Type 0 where
  pub anchor : Dest
  pub settlement_asset : String
  pub transfer_server : String
  pub dest_asset_code : String
  pub account : Option String
  pub receiver_type : String

abbrev pub unavailable : ℕ → CorridorError
unavailable status = failure anchor_unavailable (is_server_error status)

-- `jsonBody`: an object, or nothing.
abbrev pub object_of : Option Json → Option Json
object_of (some (obj fs)) = some (obj fs)
object_of _ = none

abbrev pub field_of : String → Option Json → Option Json
field_of k none = none
field_of k (some j) = Json.get k j

abbrev pub text_at : String → Option Json → Option String
text_at k j = non_empty (text_of (field_of k j))

abbrev pub amount_at : String → Option Json → Option (List ℕ)
amount_at k j = parse_amount (text_of (field_of k j))

-- `stellarPayment`.
abbrev pub stellar_payment_to : String → String → Option String → Option MemoType → OpenTransaction
stellar_payment_to id to memo memo_type = record {
  transaction_id = id;
  instructions = to_account to memo memo_type none;
  amount_in = none;
  deposit_address = some to;
  memo = memo;
  memo_type = memo_type;
}

-- `kycRefusal`: what the type of an answer refuses.
unfoldable pub kyc_refusal : Option Json → Option CorridorError
unfolding Json.get to_lower
kyc_refusal j = by_type (text_at "type" j)
  where
    by_type : Option String → Option CorridorError
    by_type none = none
    by_type (some type) =
        if str_eq type "non_interactive_customer_info_needed"
        then some (failure kyc_required false)
        else if str_eq type "customer_info_status"
        then some (
            failure
              (if str_eq (to_lower (or_else (text_at "status" j) "")) "denied"
                then kyc_rejected
                else kyc_required)
              false)
        else if str_eq type "authentication_required"
        then some (failure anchor_unavailable true)
        else none

abbrev pub kyc_blocked : List String
kyc_blocked = "incomplete" ∷ "pending_customer_info_update" ∷ []

abbrev pub recorded : String → Option Json → Option String → Outcome OpenTransaction
recorded id tx (some to) = ok (
    stellar_payment_to id to (text_at "withdraw_memo" tx)
      (parse_memo_type (field_of "withdraw_memo_type" tx)))
recorded id tx none =
    if has kyc_blocked (to_lower (or_else (text_at "status" tx) ""))
    then fail kyc_required
    else fail anchor_unavailable

-- What the record of an opened withdrawal says when the answer named no account.
unfoldable pub from_record : String → Option Json → Outcome OpenTransaction
unfolding Json.get parse_memo_type to_lower
from_record id tx = recorded id tx (text_at "withdraw_anchor_account" tx)

abbrev pub amount_asset : Sep6Adapter → Option Json → String
amount_asset a tx = or_else (text_at "amount_in_asset" tx) a.settlement_asset

unfoldable pub status_of : Sep6Adapter → Option Json → Mapped → TransactionStatus
unfolding Json.get parse_refunds parse_amount parse_memo_type
status_of a tx m = record {
  status = m.status;
  phase = m.phase;
  settled = m.settled;
  terminal_failure = m.terminal_failure;
  awaiting_input = m.awaiting_input;
  refunds =
      parse_refunds (field_of "refunds" tx) (amount_asset a tx) (text_of (field_of "amount_in" tx));
  amount_in = elim (amount_at "amount_in" tx) [
    | none ↦ none
    | some amount ↦ some (record { asset = amount_asset a tx; amount = amount })
  ];
  deposit_address = text_at "withdraw_anchor_account" tx;
  memo = text_at "withdraw_memo" tx;
  memo_type = parse_memo_type (field_of "withdraw_memo_type" tx);
}

abbrev pub readable : Sep6Adapter → Option Json → Option String → Outcome TransactionStatus
readable a tx none = err (failure anchor_unavailable true)
readable a tx (some raw) = ok (status_of a tx (map_sep6_status raw))

-- The same handshake and cache as the shared client's.
abbrev pub auth_token : Net → Sep6Adapter → Call (Option String)
auth_token net a = token net a.anchor.endpoints.web_auth a.anchor.endpoints.home_domain a.account

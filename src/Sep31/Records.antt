-- ===== src/Sep31/Records.antt =====
-- What `Sep31Adapter` of packages/sep31/src/index.ts keeps, and what it reads of the answers.
use corridor_in_a_box.Base.{
  ℕ, String, Bool, true, false, Option, none, some, List, [], ◌∷◌, if◌then◌else◌, or_else, str_eq,
  present,
}
use corridor_in_a_box.Types.{Money, anchor_unavailable, ErrorCode}
use corridor_in_a_box.Outcome.{Outcome, ok, err, fail, CorridorError}
use corridor_in_a_box.Anchor.{
  TransactionStatus, AdapterCapabilities, sep38_firm, no_quotes, sep12, no_kyc, stellar_payment,
}
use corridor_in_a_box.Corridor.{Corridor, Dest, DestProtocol, sep31}
use corridor_in_a_box.Json.{
  Json, null, bool, str, obj, Fields, end, field, text_of, non_empty, text, is_null, fields_of,
}
use corridor_in_a_box.Json
use corridor_in_a_box.AdapterKit.Http.{failure, caught, is_server_error}
use corridor_in_a_box.AdapterKit.Refunds.{parse_refunds, parse_amount}
use corridor_in_a_box.Sep31.Status.{Mapped, parse_memo_type}

-- `account` is the signer's, if there is one; `receiver_type` is `compliance.sep12_receiver_type`.
pub record Sep31Adapter : Type 0 where
  pub anchor : Dest
  pub settlement_asset : String
  pub account : Option String
  pub receiver_type : String

abbrev pub is_sep31 : DestProtocol → Bool
is_sep31 sep31 = true
is_sep31 _ = false

-- The constructor throws on another protocol.
unfoldable pub new_adapter : Corridor → Option String → String → Option Sep31Adapter
new_adapter corridor account receiver_type =
    if is_sep31 corridor.dest.protocol
    then some (record {
      anchor = corridor.dest;
      settlement_asset = corridor.settlement.bridge_asset;
      account = account;
      receiver_type = receiver_type;
    })
    else none

unfoldable pub capabilities : Sep31Adapter → AdapterCapabilities
capabilities a = record {
  protocol = "sep31";
  quotes = (if present a.anchor.endpoints.quote_server then sep38_firm else no_quotes) ∷ [];
  kyc = if present a.anchor.endpoints.kyc_server then sep12 else no_kyc;
  settlement = stellar_payment ∷ [];
}

abbrev pub unavailable : ℕ → CorridorError
unavailable status = failure anchor_unavailable (is_server_error status)

-- One entry of `receive` in GET /info.
pub record AssetInfo : Type 0 where
  pub enabled : Option Bool
  pub min_amount : Option (List ℕ)
  pub max_amount : Option (List ℕ)
  pub fee_fixed : Option (List ℕ)
  pub fee_percent : Option (List ℕ)
  pub sender_sep12_type : Option String
  pub receiver_sep12_type : Option String

abbrev pub bool_of : Option Json → Option Bool
bool_of (some (bool b)) = some b
bool_of _ = none

abbrev pub amount_at : String → Json → Option (List ℕ)
amount_at k j = parse_amount (text_of (Json.get k j))

unfoldable pub asset_info : Json → AssetInfo
unfolding Json.get parse_amount
asset_info j = record {
  enabled = bool_of (Json.get "enabled" j);
  min_amount = amount_at "min_amount" j;
  max_amount = amount_at "max_amount" j;
  fee_fixed = amount_at "fee_fixed" j;
  fee_percent = amount_at "fee_percent" j;
  sender_sep12_type = text_of (Json.get "sender_sep12_type" j);
  receiver_sep12_type = text_of (Json.get "receiver_sep12_type" j);
}

abbrev pub is_structured : Json → Bool
is_structured (obj fs) = true
is_structured (Json.arr xs) = true
is_structured _ = false

unfoldable pub receive_of : Fields → List (String × AssetInfo)
unfolding asset_info
receive_of end = []
receive_of (field code j fs) =
    let others = receive_of fs in if is_structured j then (code, asset_info j) ∷ others else others

-- The `receive` section of /info; without one the list is empty.
unfoldable pub info_of : Json → List (String × AssetInfo)
unfolding Json.get receive_of
info_of j = receive_of (or_else (fields_of (Json.get "receive" j)) end)

-- `tx.amount_in_asset`, or the corridor's bridge asset.
abbrev pub amount_asset : Sep31Adapter → Json → String
amount_asset a tx = or_else (text "amount_in_asset" tx) a.settlement_asset

abbrev pub money_in : String → Option (List ℕ) → Option Money
money_in asset none = none
money_in asset (some amount) = some (record { asset = asset; amount = amount })

-- The record of a poll; each field is read on its own, and apart from the classification.
unfoldable pub status_of : Sep31Adapter → Json → Mapped → TransactionStatus
unfolding Json.get parse_refunds parse_amount parse_memo_type
status_of a tx m = record {
  status = m.status;
  phase = m.phase;
  settled = m.settled;
  terminal_failure = m.terminal_failure;
  awaiting_input = m.awaiting_input;
  refunds =
      parse_refunds (Json.get "refunds" tx) (amount_asset a tx) (text_of (Json.get "amount_in" tx));
  amount_in = money_in (amount_asset a tx) (amount_at "amount_in" tx);
  deposit_address = text "stellar_account_id" tx;
  memo = text "stellar_memo" tx;
  memo_type = parse_memo_type (Json.get "stellar_memo_type" tx);
}

abbrev pub transaction_in : Option Json → Outcome Json
transaction_in none = err caught
transaction_in (some tx) = if is_null tx then err caught else ok tx

abbrev pub server : Option String → Outcome String
server url = elim (non_empty url) [ none ↦ fail anchor_unavailable | some s ↦ ok s ]

abbrev pub known : ErrorCode → Option String → Outcome String
known code none = fail code
known code (some s) = if str_eq s "" then fail code else ok s

abbrev pub optional : String → Option String → Fields → Fields
optional k none fs = fs
optional k (some s) fs = field k (str s) fs

abbrev pub fields_json : List (String × String) → Fields
fields_json [] = end
fields_json ((k, v) ∷ rest) = field k (str v) (fields_json rest)

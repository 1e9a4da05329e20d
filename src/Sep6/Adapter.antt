-- ===== src/Sep6/Adapter.antt =====
-- `Sep6Adapter` of packages/sep6/src/index.ts.
pub mod Laws
use corridor_in_a_box.Base.{
  ℕ, String, Bool, true, false, not, ◌&&◌, Option, none, some, List, [], ◌∷◌, if◌then◌else◌,
  or_else, str_eq, present, is_some,
}
use corridor_in_a_box.Types.{
  Money, PaymentIntent, anchor_customer_id_of, anchor_unavailable, kyc_required, kyc_rejected,
  quote_unavailable, refund_unsupported,
}
use corridor_in_a_box.Outcome.{Outcome, ok, err, fail, CorridorError}
use corridor_in_a_box.Anchor.{
  Quote, KycResult, OpenTransaction, to_account, MemoType, TransactionStatus, AdapterCapabilities,
  sep38_firm, no_quotes, sep12, sep6_fields, stellar_payment,
}
use corridor_in_a_box.Corridor.{Corridor, Dest}
use corridor_in_a_box.Json.{
  Json, str, obj, Fields, end, field, text_of, non_empty, text, to_lower, is_null,
}
use corridor_in_a_box.Json
use corridor_in_a_box.AdapterKit.Http.{
  get, post, Call, ◌>>=◌, give, failure, is_server_error, is_success, request, exchange,
}
use corridor_in_a_box.AdapterKit.Sep10.{Net, token}
use corridor_in_a_box.AdapterKit.Sep12.{check}
use corridor_in_a_box.AdapterKit.Quotes.{sep38_sell_asset, total_price_problem}
use corridor_in_a_box.AdapterKit.Refunds.{parse_refunds, parse_amount}
use corridor_in_a_box.Sep31.Status.{Mapped, has, map_sep6_status, parse_memo_type}
use corridor_in_a_box.Sep6.Info.{Sep6Info, AssetInfo, parse_sep6_info, entry_of}
use corridor_in_a_box.Sep6.Records.{
  Sep6Adapter, unavailable, object_of, field_of, text_at, amount_at, stellar_payment_to,
  kyc_refusal, kyc_blocked, recorded, from_record, status_of, readable, auth_token,
}

abbrev is_enabled : Option AssetInfo → Bool
is_enabled none = false
is_enabled (some info) = or_else info.enabled true

-- Once /info is known, an asset that it does not list, or lists as disabled, cannot be settled.
abbrev is_settleable : Sep6Adapter → Option Sep6Info → Bool
is_settleable a none = true
is_settleable a (some info) = is_enabled (entry_of a.dest_asset_code info.withdraw_exchange)

unfoldable pub capabilities : Sep6Adapter → Option Sep6Info → AdapterCapabilities
unfolding entry_of
capabilities a cached = record {
  protocol = "sep6";
  quotes = (if present a.anchor.endpoints.quote_server then sep38_firm else no_quotes) ∷ [];
  kyc = if present a.anchor.endpoints.kyc_server then sep12 else sep6_fields;
  settlement = if is_settleable a cached then stellar_payment ∷ [] else [];
}

module _ (net : Net) (date_of : String → Option ℕ) (number_text : ℕ → Option (List ℕ))
    (a : Sep6Adapter) where
  -- `info`: what is cached unless a new one is forced.
  abbrev fetch_info : Call Sep6Info
  fetch_info = do
    j ←
        request net.fetch unavailable (record {
          method = get;
          url = a.transfer_server ∷ "/info" ∷ [];
          bearer = none;
          body = end;
        })
    give (ok (parse_sep6_info number_text j))

  unfoldable pub info : Bool → Option Sep6Info → Call Sep6Info
  unfolding give request parse_sep6_info ◌>>=◌
  info false (some cached) = give (ok cached)
  info force cached = fetch_info

  abbrev ask_customer : PaymentIntent → Option String → Call KycResult
  ask_customer intent none = give (fail kyc_required)
  ask_customer intent (some kyc_server) =
      check net (auth_token net a) kyc_server (anchor_customer_id_of intent.recipient)
        a.receiver_type

  unfoldable pub ensure_compliance : PaymentIntent → Call KycResult
  unfolding give check anchor_customer_id_of token
  ensure_compliance intent = ask_customer intent (non_empty a.anchor.endpoints.kyc_server)

  abbrev pub read_record : String → ℕ × Option Json → Outcome OpenTransaction
  read_record id (status, body) =
      if not (is_success status)
      then err (unavailable status)
      else from_record id (field_of "transaction" (object_of body))

  -- `instructionsFromRecord`: one follow-up, for the account that the answer did not name.
  unfoldable pub instructions_from_record : String → Option String → Call OpenTransaction
  unfolding give exchange from_record Json.get ◌>>=◌
  instructions_from_record id bearer = do
    reply ← exchange net.fetch (record {
      method = get;
      url = a.transfer_server ∷ "/transaction" ∷ id ∷ [];
      bearer = bearer;
      body = end;
    })
    give (read_record id reply)

  abbrev pub with_account :
      Option String → Option Json → String → Option String → Call OpenTransaction
  with_account bearer j id none = instructions_from_record id bearer
  with_account bearer j id (some to) =
      give (
        ok (stellar_payment_to id to (text_at "memo" j) (parse_memo_type (field_of "memo_type" j))))

  abbrev pub with_id : Option String → Option Json → Option String → Call OpenTransaction
  with_id bearer j none = give (fail anchor_unavailable)
  with_id bearer j (some id) = with_account bearer j id (text_at "account_id" j)

  abbrev pub after_refusal :
      Option String → ℕ → Option Json → Option CorridorError → Call OpenTransaction
  after_refusal bearer status j (some e) = give (err e)
  after_refusal bearer status j none =
      if not (is_success status)
      then give (err (unavailable status))
      else with_id bearer j (text_at "id" j)

  abbrev pub read_opened : Option String → ℕ × Option Json → Call OpenTransaction
  read_opened bearer (status, body) =
      after_refusal bearer status (object_of body) (kyc_refusal (object_of body))

  abbrev parameter : String → Option String → Fields → Fields
  parameter k none fs = fs
  parameter k (some v) fs = field k (str v) fs

  -- The anchor's own fields, behind the parameters of the protocol, which win.
  abbrev add_fields : Fields → List (String × String) → Fields
  add_fields fs [] = fs
  add_fields fs ((k, v) ∷ rest) =
      let taken = is_some (Json.lookup k fs) in
      add_fields (if taken then fs else field k (str v) fs) rest

  abbrev pub query : PaymentIntent → Quote → Corridor → Option String → Fields
  query intent quote corridor customer =
      add_fields
        (field "source_asset" (str (sep38_sell_asset corridor)) (
          field "destination_asset" (str corridor.dest.asset) (
            field "amount" (str (net.amount_text quote.source_amount.amount)) (
              parameter "quote_id" (if quote.firm then non_empty (some quote.id) else none) (
                parameter "account" (non_empty a.account)
                  (parameter "customer_id" customer end))))))
        (or_else intent.destination_fields [])

  -- The query's parameters stand as the body of the request.
  abbrev pub withdraw : PaymentIntent → Quote → Corridor → Option String → Call OpenTransaction
  withdraw intent quote corridor customer = do
    bearer ← auth_token net a
    reply ← exchange net.fetch (record {
      method = get;
      url = a.transfer_server ∷ "/withdraw-exchange" ∷ [];
      bearer = bearer;
      body = query intent quote corridor customer;
    })
    read_opened bearer reply

  -- Without an account and without the customer's id nothing is sent.
  unfoldable pub open_transaction : PaymentIntent → Quote → Corridor → Call OpenTransaction
  unfolding give exchange instructions_from_record kyc_refusal anchor_customer_id_of token Json.get
      sep38_sell_asset Json.lookup ◌>>=◌
  open_transaction intent quote corridor =
      let customer = anchor_customer_id_of intent.recipient in
      if not (present a.account) && not (is_some customer)
      then give (fail kyc_required)
      else withdraw intent quote corridor customer

  abbrev read_status : ℕ × Option Json → Outcome TransactionStatus
  read_status (status, body) =
      let tx = field_of "transaction" (object_of body) in
      if not (is_success status)
      then err (unavailable status)
      else readable a tx (text_of (field_of "status" tx))

  unfoldable pub get_transaction : String → Call TransactionStatus
  unfolding give exchange status_of map_sep6_status token Json.get ◌>>=◌
  get_transaction id = do
    bearer ← auth_token net a
    reply ← exchange net.fetch (record {
      method = get;
      url = a.transfer_server ∷ "/transaction" ∷ id ∷ [];
      bearer = bearer;
      body = end;
    })
    give (read_status reply)

  unfoldable pub request_refund : String → Call (Unit {0})
  unfolding give
  request_refund id = give (fail refund_unsupported)

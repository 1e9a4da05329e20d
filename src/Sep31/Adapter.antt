-- ===== src/Sep31/Adapter.antt =====
-- `Sep31Adapter` of packages/sep31/src/index.ts.
pub mod Laws
use corridor_in_a_box.Base.{
  ℕ, String, Bool, true, false, Option, none, some, List, [], ◌∷◌, if◌then◌else◌, or_else, str_eq,
  codes, present,
}
use corridor_in_a_box.Types.{
  Money, PaymentIntent, anchor_customer_id_of, anchor_unavailable, kyc_required, refund_unsupported,
  ErrorCode,
}
use corridor_in_a_box.Outcome.{Outcome, ok, err, fail, CorridorError}
use corridor_in_a_box.Anchor.{
  Quote, KycResult, accepted, OpenTransaction, to_account, TransactionStatus, AdapterCapabilities,
  sep38_firm, no_quotes, sep12, no_kyc, stellar_payment, RefundInfo,
}
use corridor_in_a_box.Corridor.{Corridor, Dest, DestProtocol, sep31}
use corridor_in_a_box.Json.{
  Json, null, bool, str, obj, Fields, end, field, text_of, non_empty, text, is_null, fields_of,
}
use corridor_in_a_box.Json
use corridor_in_a_box.AdapterKit.Http.{
  Request, get, post, put, Call, ◌>>=◌, give, failure, caught, is_server_error, an_object, request,
  send,
}
use corridor_in_a_box.AdapterKit.Sep10.{Net, token}
use corridor_in_a_box.AdapterKit.Sep12.{check}
use corridor_in_a_box.AdapterKit.Quotes.{Sep38Options, sep38_quote}
use corridor_in_a_box.AdapterKit.Refunds.{parse_refunds, parse_amount}
use corridor_in_a_box.Sep31.Status.{Mapped, map_sep31_status, raw_status, parse_memo_type}
use corridor_in_a_box.Sep31.Records.{
  Sep31Adapter, is_sep31, new_adapter, capabilities, unavailable, AssetInfo, bool_of, amount_at,
  asset_info, is_structured, receive_of, info_of, amount_asset, money_in, status_of, transaction_in,
  server, known, optional, fields_json,
}

module _ (net : Net) (a : Sep31Adapter) where
  abbrev pub auth_token : Call (Option String)
  auth_token = token net a.anchor.endpoints.web_auth a.anchor.endpoints.home_domain a.account

  unfoldable pub request_quote : PaymentIntent → Corridor → Call Quote
  unfolding give sep38_quote ◌>>=◌
  request_quote intent corridor = do
    base ← give (server a.anchor.endpoints.transfer_server_sep31)
    sep38_quote net
        (record {
          context = "sep31";
          quote_server = a.anchor.endpoints.quote_server;
          auth = auth_token;
        })
        intent corridor

  abbrev ask_customer : PaymentIntent → Option String → Call KycResult
  ask_customer intent none = give (ok (record { status = accepted; customer_id = none }))
  ask_customer intent (some kyc_server) =
      check net auth_token kyc_server (anchor_customer_id_of intent.recipient) a.receiver_type

  -- The recipient's status at the anchor; without a KYC server there is none to ask for.
  unfoldable pub ensure_compliance : PaymentIntent → Call KycResult
  unfolding give check anchor_customer_id_of
  ensure_compliance intent = ask_customer intent (non_empty a.anchor.endpoints.kyc_server)

  -- PUT /customer, of the sending side.
  unfoldable pub register_customer : Fields → Option String → Option String → Call String
  unfolding give request an_object ◌>>=◌ token
  register_customer fields type account = do
    kyc ← give (known kyc_required a.anchor.endpoints.kyc_server)
    bearer ← auth_token
    j ←
        request net.fetch (λ status. failure kyc_required (is_server_error status))
          (record {
            method = put;
            url = kyc ∷ "/customer" ∷ [];
            bearer = bearer;
            body = optional "account" (non_empty account) (optional "type" (non_empty type) fields);
          })
    answer ← give (an_object j)
    give (known kyc_required (text_of (Json.get "id" answer)))

  abbrev open_body : PaymentIntent → Quote → Corridor → String → Fields
  open_body intent quote corridor receiver =
      field "amount" (str (net.amount_text quote.source_amount.amount)) (
        field "asset_code" (str corridor.settlement.bridge_asset) (
          field "asset_issuer" (str corridor.settlement.asset_issuer) (
            field "destination_asset" (str corridor.dest.asset) (
              field "quote_id" (str quote.id) (
                field "receiver_id" (str receiver) (
                  optional "sender_id" (anchor_customer_id_of intent.sender) (
                    field "fields"
                      (obj (
                        field "transaction"
                          (obj (fields_json (or_else intent.destination_fields []))) end))
                      end)))))))

  abbrev text_required : Option String → Outcome String
  text_required none = err caught
  text_required (some s) = ok s

  -- The answer of POST /transactions, at the type that the code casts it to.
  unfoldable pub opened_of : Quote → Corridor → Json → Outcome OpenTransaction
  unfolding Json.get parse_memo_type
  opened_of quote corridor j =
      opened (text_of (Json.get "id" j)) (text_of (Json.get "stellar_account_id" j))
    where
      memo : Option String
      memo = text_of (Json.get "stellar_memo" j)

      opened : Option String → Option String → Outcome OpenTransaction
      opened (some id) (some account) = ok (record {
        transaction_id = id;
        instructions =
            to_account account memo (parse_memo_type (Json.get "stellar_memo_type" j)) none;
        amount_in = some (record {
          asset = corridor.settlement.bridge_asset;
          amount = quote.source_amount.amount;
        });
        deposit_address = some account;
        memo = memo;
        memo_type = parse_memo_type (Json.get "stellar_memo_type" j);
      })
      opened _ _ = err caught

  -- The anchor is told whom it pays out to; without that nothing is sent.
  unfoldable pub open_transaction : PaymentIntent → Quote → Corridor → Call OpenTransaction
  unfolding give request opened_of anchor_customer_id_of token ◌>>=◌
  open_transaction intent quote corridor = do
    base ← give (server a.anchor.endpoints.transfer_server_sep31)
    receiver ← give (known kyc_required (anchor_customer_id_of intent.recipient))
    bearer ← auth_token
    j ← request net.fetch unavailable (record {
      method = post;
      url = base ∷ "/transactions" ∷ [];
      bearer = bearer;
      body = open_body intent quote corridor receiver;
    })
    give (opened_of quote corridor j)

  unfoldable pub register_callback : String → String → Call (Unit {0})
  unfolding give send token ◌>>=◌
  register_callback id url = do
    base ← give (server a.anchor.endpoints.transfer_server_sep31)
    bearer ← auth_token
    _ ← send net.fetch unavailable (record {
      method = put;
      url = base ∷ "/transactions/" ∷ id ∷ "/callback" ∷ [];
      bearer = bearer;
      body = field "url" (str url) end;
    })
    give (ok tt)

  -- A poll; it needs no token.
  unfoldable pub get_transaction : String → Call TransactionStatus
  unfolding give request an_object status_of map_sep31_status Json.get ◌>>=◌
  get_transaction id = do
    base ← give (server a.anchor.endpoints.transfer_server_sep31)
    j ← request net.fetch unavailable (record {
      method = get;
      url = base ∷ "/transactions/" ∷ id ∷ [];
      bearer = none;
      body = end;
    })
    answer ← give (an_object j)
    tx ← give (transaction_in (Json.get "transaction" answer))
    raw ← give (raw_status (Json.get "status" tx))
    give (ok (status_of a tx (map_sep31_status raw)))

  -- SEP-31 has no refund that the sender asks for.
  unfoldable pub request_refund : String → Call (Unit {0})
  unfolding give
  request_refund id = give (fail refund_unsupported)

  unfoldable pub get_info : Call (List (String × AssetInfo))
  unfolding give request info_of token ◌>>=◌
  get_info = do
    base ← give (server a.anchor.endpoints.transfer_server_sep31)
    bearer ← auth_token
    j ←
        request net.fetch unavailable
          (record { method = get; url = base ∷ "/info" ∷ []; bearer = bearer; body = end })
    give (ok (info_of j))

-- ===== src/Sep6/Quote.antt =====
-- `requestQuote` of packages/sep6/src/index.ts.
use corridor_in_a_box.Base.{
  ℕ, String, true, not, Option, none, some, List, [], ◌∷◌, if◌then◌else◌, or_else, str_eq,
}
use corridor_in_a_box.Types.{Money, PaymentIntent, quote_unavailable}
use corridor_in_a_box.Outcome.{Outcome, ok, err, fail}
use corridor_in_a_box.Anchor.{Quote}
use corridor_in_a_box.Corridor.{Corridor}
use corridor_in_a_box.Json.{
  Json, str, obj, Fields, end, field, text_of, non_empty, text, to_lower, is_null,
}
use corridor_in_a_box.Json
use corridor_in_a_box.AdapterKit.Http.{
  post, Call, ◌>>=◌, give, failure, is_server_error, is_success, exchange,
}
use corridor_in_a_box.AdapterKit.Sep10.{Net, token}
use corridor_in_a_box.AdapterKit.Quotes.{sep38_sell_asset, total_price_problem}
use corridor_in_a_box.AdapterKit.Refunds.{parse_amount}
use corridor_in_a_box.Sep6.Records.{
  Sep6Adapter, object_of, field_of, text_at, amount_at, auth_token,
}

-- What SEP-38 has to answer: an id, a price, an amount and a date.
abbrev sep6_fee : String → String → Option Json → Outcome (Option Money)
sep6_fee sell_asset asset none = ok none
sep6_fee sell_asset asset (some fee) =
    if is_null fee
    then ok none
    else if not (str_eq (or_else (text_of (Json.get "asset" fee)) "") sell_asset)
    then fail quote_unavailable
    else ok (elim (amount_at "total" (some fee)) [
      | none ↦ none
      | some total ↦ some (record { asset = asset; amount = total })
    ])

abbrev set_fee : Quote → Outcome (Option Money) → Outcome Quote
set_fee q (err e) = err e
set_fee q (ok fee) = ok (record q { fee = fee })

abbrev quote_of :
    PaymentIntent
    → Corridor
    → Option Json
    → Option String
    → Option (List ℕ)
    → Option (List ℕ)
    → Option ℕ
    → Outcome Quote
quote_of intent corridor j (some id) (some price) (some buy) (some expires_at) =
    let asset = intent.source_amount.asset in
    let sell = or_else (amount_at "sell_amount" j) intent.source_amount.amount in
    if total_price_problem (amount_at "total_price" j) buy sell
    then fail quote_unavailable
    else set_fee
        (record {
          id = id;
          price = price;
          expires_at = expires_at;
          source_amount = record { asset = asset; amount = sell };
          dest_amount = record { asset = corridor.dest.asset; amount = buy };
          fee = none;
          firm = true;
        })
        (sep6_fee (sep38_sell_asset corridor) asset (field_of "fee" j))
quote_of intent corridor j _ _ _ _ = fail quote_unavailable

module _ (net : Net) (date_of : String → Option ℕ) (a : Sep6Adapter) where
  abbrev date_at : Option String → Option ℕ
  date_at none = none
  date_at (some s) = date_of s

  abbrev read_quote : PaymentIntent → Corridor → ℕ × Option Json → Outcome Quote
  read_quote intent corridor (status, body) =
      let j = object_of body in
      if not (is_success status)
      then err (failure quote_unavailable (is_server_error status))
      else quote_of intent corridor j (text_at "id" j) (amount_at "price" j)
          (amount_at "buy_amount" j) (date_at (text_of (field_of "expires_at" j)))

  abbrev ask_quote : PaymentIntent → Corridor → String → Call Quote
  ask_quote intent corridor quote_server = do
    bearer ← auth_token net a
    reply ← exchange net.fetch (record {
      method = post;
      url = quote_server ∷ "/quote" ∷ [];
      bearer = bearer;
      body = field "context" (str "sep6") (
          field "sell_asset" (str (sep38_sell_asset corridor)) (
            field "buy_asset" (str corridor.dest.asset)
              (field "sell_amount" (str (net.amount_text intent.source_amount.amount)) end)));
    })
    give (read_quote intent corridor reply)

  abbrev quote_from : PaymentIntent → Corridor → Option String → Call Quote
  quote_from intent corridor none = give (fail quote_unavailable)
  quote_from intent corridor (some quote_server) = ask_quote intent corridor quote_server

  unfoldable pub request_quote : PaymentIntent → Corridor → Call Quote
  unfolding give exchange token sep38_sell_asset total_price_problem Json.get parse_amount ◌>>=◌
  request_quote intent corridor =
      quote_from intent corridor (non_empty a.anchor.endpoints.quote_server)

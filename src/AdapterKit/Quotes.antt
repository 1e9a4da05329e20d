-- ===== src/AdapterKit/Quotes.antt =====
-- The quote providers of packages/adapter-kit/src/index.ts. An answer of a quote server is read at the
-- type that the code casts it to; one that does not have it counts as thrown. The date of expiry is
-- a date, read by `Date.parse`.
use Prim.Native.String
use corridor_in_a_box.Base.{
  ℕ, ◌+◌, ◌*◌, String, Bool, true, false, not, ◌&&◌, ◌||◌, Option, none, some, List, [], ◌∷◌,
  if◌then◌else◌, str_eq, or_else, ◌==◌, any,
}
use corridor_in_a_box.Types.{Money, PaymentIntent, quote_unavailable}
use corridor_in_a_box.Outcome.{Outcome, ok, err, fail}
use corridor_in_a_box.Anchor.{Quote}
use corridor_in_a_box.Corridor.{Corridor, is_xlm}
use corridor_in_a_box.Money.{
  is_valid_amount, matches_amount, apply_price, sub_amounts, compare_amounts, stroop_scale, Order,
  above,
}
use corridor_in_a_box.Json.{str, end, field, non_empty}
use corridor_in_a_box.AdapterKit.Http.{
  post, Call, ◌>>=◌, give, failure, caught, is_server_error, request,
}
use corridor_in_a_box.AdapterKit.Sep10.{Net, FeeAnswer, QuoteAnswer}

-- `sep38SellAsset`.
unfoldable pub sep38_sell_asset : Corridor → String
unfolding is_xlm
sep38_sell_asset corridor =
    let code = corridor.settlement.bridge_asset in
    if is_xlm code
    then "stellar:native"
    else String.◌++◌ "stellar:"
        (String.◌++◌ code (String.◌++◌ ":" corridor.settlement.asset_issuer))

-- `QUOTE_TOLERANCE`, "0.001".
abbrev pub quote_tolerance : List ℕ
quote_tolerance = b'0' ∷ b'.' ∷ b'0' ∷ b'0' ∷ b'1' ∷ []

-- `drift.startsWith("-") ? drift.slice(1) : drift`.
abbrev pub without_sign : List ℕ → List ℕ
without_sign [] = []
without_sign (c ∷ s) = if c == b'-' then s else c ∷ s

abbrev pub is_more : Outcome Order → Bool
is_more (ok above) = true
is_more _ = false

abbrev pub drift_problem : Outcome (List ℕ) → Outcome (List ℕ) → Bool
drift_problem (ok drift) (ok tolerance) =
    is_more (compare_amounts (without_sign drift) tolerance stroop_scale)
drift_problem _ _ = false

abbrev pub implied_problem : Outcome (List ℕ) → List ℕ → Bool
implied_problem (ok implied) sell =
    drift_problem (sub_amounts implied sell stroop_scale)
      (apply_price sell quote_tolerance stroop_scale)
implied_problem (err e) sell = false

-- `totalPriceProblem`: whether `total_price` times `buy_amount` is away from `sell_amount` by more than
-- the tolerance. A total price that cannot be used is no problem.
unfoldable pub total_price_problem : Option (List ℕ) → List ℕ → List ℕ → Bool
unfolding is_valid_amount apply_price sub_amounts compare_amounts
total_price_problem none buy sell = false
total_price_problem (some total_price) buy sell =
    if not (is_valid_amount total_price) || not (is_valid_amount buy)
    then false
    else implied_problem (apply_price buy total_price stroop_scale) sell

-- The provider's options: the name of the protocol, the server and the token's supplier.
pub record Sep38Options : Type 0 where
  pub context : String
  pub quote_server : Option String
  pub auth : Call (Option String)

abbrev pub fee_check : String → String → Option FeeAnswer → Outcome (Option Money)
fee_check sell_asset asset none = ok none
fee_check sell_asset asset (some fee) =
    if not (str_eq fee.asset sell_asset)
    then fail quote_unavailable
    else if is_valid_amount fee.total
    then ok (some (record { asset = asset; amount = fee.total }))
    else ok none

abbrev pub with_fee : Outcome (Option Money) → Quote → Outcome Quote
with_fee (err e) q = err e
with_fee (ok fee) q = ok (record q { fee = fee })

-- What is made of the answer: a sell amount that is malformed, a total price that does not fit and a
-- fee in another asset are refused.
unfoldable pub check_answer : (String → ℕ) → PaymentIntent → Corridor → QuoteAnswer → Outcome Quote
unfolding is_valid_amount total_price_problem sep38_sell_asset
check_answer date_of intent corridor j =
    let sell_amount = or_else j.sell_amount intent.source_amount.amount in
    let asset = intent.source_amount.asset in
    let fee = fee_check (sep38_sell_asset corridor) asset j.fee in
    if not (is_valid_amount sell_amount)
    then fail quote_unavailable
    else if total_price_problem j.total_price j.buy_amount sell_amount
    then fail quote_unavailable
    else with_fee fee (record {
      id = j.id;
      price = j.price;
      expires_at = date_of j.expires_at;
      source_amount = record { asset = asset; amount = sell_amount };
      dest_amount = record { asset = corridor.dest.asset; amount = j.buy_amount };
      fee = none;
      firm = true;
    })

abbrev pub decoded : Option QuoteAnswer → Outcome QuoteAnswer
decoded none = err caught
decoded (some answer) = ok answer

module _ (net : Net) where
  -- The request and the answer, once there is a server.
  unfoldable pub ask_server : Sep38Options → PaymentIntent → Corridor → String → Call Quote
  unfolding request give check_answer ◌>>=◌ sep38_sell_asset
  ask_server opts intent corridor server = do
    bearer ← opts.auth
    j ←
        request net.fetch (λ status. failure quote_unavailable (is_server_error status))
          (record {
            method = post;
            url = server ∷ "/quote" ∷ [];
            bearer = bearer;
            body = field "context" (str opts.context) (
                field "sell_asset" (str (sep38_sell_asset corridor)) (
                  field "buy_asset" (str corridor.dest.asset)
                    (field "sell_amount" (str (net.amount_text intent.source_amount.amount)) end)));
          })
    answer ← give (decoded (net.decode_quote j))
    give (check_answer net.date_of intent corridor answer)

  abbrev from_server : Sep38Options → PaymentIntent → Corridor → Option String → Call Quote
  from_server opts intent corridor none = give (fail quote_unavailable)
  from_server opts intent corridor (some server) = ask_server opts intent corridor server

  -- `Sep38QuoteProvider.quote`.
  unfoldable pub sep38_quote : Sep38Options → PaymentIntent → Corridor → Call Quote
  unfolding ask_server give
  sep38_quote opts intent corridor = from_server opts intent corridor (non_empty opts.quote_server)

-- `ExternalQuote`.
pub record ExternalQuote : Type 0 where
  pub price : List ℕ
  pub dest_amount : Option Money
  pub expires_at : Option ℕ

abbrev is_minus : List ℕ → Bool
is_minus [] = false
is_minus (c ∷ s) = c == b'-'

-- `/^\d+(\.\d+)?$/.test(price)` and `Number(price) > 0`.
unfoldable pub is_positive_price : List ℕ → Bool
unfolding matches_amount
is_positive_price price =
    matches_amount price
    && not (is_minus price)
    && any (λ c. not (c == b'0') && not (c == b'.')) price

abbrev from_feed :
    (ℕ → String) → ExternalQuote → ℕ → PaymentIntent → Corridor → Outcome (List ℕ) → Outcome Quote
from_feed id_at feed now intent corridor (err e) = fail quote_unavailable
from_feed id_at feed now intent corridor (ok derived) =
    if not (is_positive_price feed.price)
    then fail quote_unavailable
    else ok (record {
      id = id_at now;
      price = feed.price;
      expires_at = or_else feed.expires_at (now + corridor.fx.quote_ttl_seconds * 1000);
      source_amount = intent.source_amount;
      dest_amount =
          or_else feed.dest_amount (record { asset = corridor.dest.asset; amount = derived });
      fee = none;
      firm = false;
    })

-- `ExternalQuoteProvider.quote`: the answer of the pricing function is none if it threw. `id_at` is
-- the id that the provider's counter gives.
unfoldable pub external_quote :
    (ℕ → String) → Option (Outcome ExternalQuote) → ℕ → PaymentIntent → Corridor → Outcome Quote
unfolding is_positive_price apply_price
external_quote id_at none now intent corridor = err (failure quote_unavailable true)
external_quote id_at (some (err e)) now intent corridor = err e
external_quote id_at (some (ok feed)) now intent corridor =
    from_feed id_at feed now intent corridor
      (apply_price intent.source_amount.amount feed.price stroop_scale)

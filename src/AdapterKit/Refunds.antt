-- ===== src/AdapterKit/Refunds.antt =====
-- `parseRefunds` of packages/adapter-kit/src/index.ts: the refund that an anchor reports.
pub mod Laws
use corridor_in_a_box.Base.{
  ℕ, String, Bool, Option, none, some, List, [], ◌∷◌, if◌then◌else◌, codes, or_else, ◌≡◌, refl,
  true, false, arith, ◌↔◌, ◌≢◌,
}
use corridor_in_a_box.Types.{Money}
use corridor_in_a_box.Outcome.{Outcome, ok, err}
use corridor_in_a_box.Anchor.{RefundPayment, RefundInfo, Completeness, full, partial, unknown}
use corridor_in_a_box.Money.{
  trim, is_valid_amount, compare_amounts, stroop_scale, Order, below, equal, above,
}
use corridor_in_a_box.Json.{
  Json, Items, nil, cons, Fields, obj, get, text, text_of, fields_of, items_of,
}

-- `parseAmt`: a text that is an amount, trimmed.
unfoldable pub parse_amount : Option String → Option (List ℕ)
unfolding trim is_valid_amount
parse_amount none = none
parse_amount (some s) = let t = trim (codes s) in if is_valid_amount t then some t else none

abbrev pub amount_at : String → Json → Option (List ℕ)
amount_at k j = parse_amount (text_of (get k j))

abbrev zero_amount : List ℕ
zero_amount = b'0' ∷ []

abbrev payment_of : String → Json → Option String → Option (List ℕ) → Option RefundPayment
payment_of asset entry (some id) (some amount) = some (record {
  id = id;
  id_type = text "id_type" entry;
  amount = record { asset = asset; amount = amount };
  fee = record { asset = asset; amount = or_else (amount_at "fee" entry) zero_amount };
})
payment_of asset entry _ _ = none

-- One entry of `payments`: an object with an id and an amount.
unfoldable pub parse_payment : String → Json → Option RefundPayment
unfolding parse_amount get
parse_payment asset (obj fs) =
    payment_of asset (obj fs) (text "id" (obj fs)) (amount_at "amount" (obj fs))
parse_payment asset _ = none

abbrev keep : Option RefundPayment → List RefundPayment → List RefundPayment
keep none ps = ps
keep (some p) ps = p ∷ ps

unfoldable pub parse_payments : String → Items → List RefundPayment
parse_payments asset nil = []
parse_payments asset (cons entry rest) =
    keep (parse_payment asset entry) (parse_payments asset rest)

abbrev pub by_order : Outcome Order → Completeness
by_order (ok below) = partial
by_order (ok _) = full
by_order (err e) = unknown

unfoldable pub completeness_of : List ℕ → Option (List ℕ) → Completeness
completeness_of refunded none = unknown
completeness_of refunded (some settled) = by_order (compare_amounts refunded settled stroop_scale)

abbrev pub refund_of : String → Fields → Option String → Option (List ℕ) → Option RefundInfo
refund_of asset fs settled none = none
refund_of asset fs settled (some refunded) = some (record {
  amount_refunded = record { asset = asset; amount = refunded };
  amount_fee = record {
    asset = asset;
    amount = or_else (amount_at "amount_fee" (obj fs)) zero_amount;
  };
  payments = parse_payments asset (items_of (get "payments" (obj fs)));
  completeness = completeness_of refunded (parse_amount settled);
})

abbrev pub read_refund : String → Option String → Option Fields → Option RefundInfo
read_refund asset settled none = none
read_refund asset settled (some fs) =
    refund_of asset fs settled (amount_at "amount_refunded" (obj fs))

unfoldable pub parse_refunds : Option Json → String → Option String → Option RefundInfo
unfolding parse_amount get parse_payments completeness_of
parse_refunds refunds asset settled = read_refund asset settled (fields_of refunds)

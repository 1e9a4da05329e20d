-- ===== src/Tests/Anchors.antt =====
-- The anchors' adapters, their checks and the router on sample answers.
use corridor_in_a_box.Base.{
  str_eq, arith, is_some, ℕ, ◌≡◌, ◌≢◌, ◌↔◌, ◌⊎◌, refl, String, true, none, some, List, [], ◌∷◌,
  codes,
}
use corridor_in_a_box.Outcome.{ok}
use corridor_in_a_box.Anchor.{
  OpenTransaction, TransactionStatus, Completeness, full, MemoType, text,
}
use corridor_in_a_box.Anchor
use corridor_in_a_box.Money.{compare_amounts}
use corridor_in_a_box.Verbs.{SettlementRequest, build_settlement_request}
use corridor_in_a_box.Engine.{GateContext}
use corridor_in_a_box.Json.{Json, field, end, str, obj, to_lower}
use corridor_in_a_box.AdapterKit.Http.{answer, Client}
use corridor_in_a_box.AdapterKit.Sep10.{Net}
use corridor_in_a_box.AdapterKit.Refunds.{parse_amount, parse_refunds}
use corridor_in_a_box.AdapterKit.Refunds.Laws.{Covers, parse_refunds-full_iff}
use corridor_in_a_box.Types.{anchor_customer_id_of}
use corridor_in_a_box.Sep6.Records.{Sep6Adapter, stellar_payment_to}
use corridor_in_a_box.Sep6.Adapter.{open_transaction}
use corridor_in_a_box.Sep6.Adapter.Laws.{IsGranted, open_transaction-IsGranted}
use corridor_in_a_box.Sep31.Records.{Sep31Adapter, AssetInfo}
use corridor_in_a_box.Sep31.Adapter.{get_transaction}
use corridor_in_a_box.Sep31.Adapter.Laws.{Answered, get_transaction_settled}
use corridor_in_a_box.Sep31.Checks.{
  Reported, reported, opened_tx_check, passed, amount_range_check, is_above, is_below,
}
use corridor_in_a_box.Sep31.Checks.Laws.{
  Agrees, IsComplete, opened_tx_check_iff, opened_tx_check_strict,
}
use corridor_in_a_box.Sep31.Checks.Range.{Within, amount_range_check_iff}
use mathlib.Core.List.{Memᴰ}
use corridor_in_a_box.Registry
use corridor_in_a_box.Registry.{Reads, source_of, live_anchors}
use corridor_in_a_box.Registry.Laws.{live_anchors_routed}
use corridor_in_a_box.Router.{
  attested, ResolverOptions, Source, aware, resolve, is_allowed, protocol_of,
}
use corridor_in_a_box.Router.Laws.{HasEvidence, resolve_iff}
use corridor_in_a_box.Tests.Sample.{
  sample_corridor, sample_intent, sample_quote, sample_opened, sample_status,
}

abbrev context : GateContext
context = record {
  intent = sample_intent;
  quote = sample_quote;
  opened = sample_opened;
  now = 0;
  attempt = 1;
}

abbrev request : SettlementRequest
request = build_settlement_request sample_opened sample_quote sample_corridor

abbrev complete_report : Reported
complete_report = record {
  status = "pending_sender";
  amount = some (codes "5.00");
  asset = some "usdc";
  deposit_address = some "GDST";
  memo = some "m1";
  memo_type = some text;
}

report_passes :
    opened_tx_check true sample_corridor context (ok complete_report) ≡ passed "anchor.tx.match"
unfolding opened_tx_check Anchor.to_legacy
report_passes = refl

opened_tx_check_iff_example :
    (complete_report.status ≡ "pending_sender")
    × Agrees request complete_report
    × (true ≡ true → IsComplete complete_report)
opened_tx_check_iff_example =
    (opened_tx_check_iff true sample_corridor context complete_report).0 report_passes

opened_tx_check_strict_example :
    opened_tx_check true sample_corridor context
      (ok (reported (record sample_status { status = "pending_sender" })))
    ≢ passed "anchor.tx.match"
opened_tx_check_strict_example =
    opened_tx_check_strict sample_corridor context
      (record sample_status { status = "pending_sender" })

abbrev usdc_info : AssetInfo
usdc_info = record {
  enabled = some true;
  min_amount = some (codes "2");
  max_amount = some (codes "100");
  fee_fixed = none;
  fee_percent = none;
  sender_sep12_type = none;
  receiver_sep12_type = none;
}

abbrev receive : List (String × AssetInfo)
receive = ("USDC", usdc_info) ∷ []

in_both_ranges :
    amount_range_check sample_corridor context (ok receive) ≡ passed "sep31.amount.range"
unfolding amount_range_check
in_both_ranges = refl

amount_range_check_iff_example :
    Within is_below (codes "5") (some (codes "1"))
    × Within is_below (codes "5") (some (codes "2"))
    × Within is_above (codes "5") (some (codes "500"))
    × Within is_above (codes "5") (some (codes "100"))
unfolding build_settlement_request
amount_range_check_iff_example =
    (amount_range_check_iff sample_corridor context receive).0 in_both_ranges

abbrev polled : Json
polled = obj (field "transaction" (obj (field "status" (str "Completed") end)) end)

abbrev net : Net
net = record {
  fetch = λ r. answer 200 (some polled);
  now = 0;
  sign_challenge = λ challenge network. none;
  exp_claim = λ token. none;
  decode_quote = λ j. none;
  date_of = λ s. 0;
  amount_text = λ cs. "";
}

abbrev anchor : Sep31Adapter
anchor = record {
  anchor = sample_corridor.dest;
  settlement_asset = "USDC";
  account = none;
  receiver_type = "sep31-receiver";
}

abbrev idle : Client
idle = record { sent = []; session = none }

poll_completed :
    (get_transaction net anchor "t1" idle).0 ≡ ok (record sample_status { status = "completed" })
unfolding get_transaction
poll_completed = refl

get_transaction_settled_example :
    (raw : String) × Answered net anchor "t1" raw × ((true ≡ true) ↔ (to_lower raw ≡ "completed"))
get_transaction_settled_example =
    get_transaction_settled net anchor "t1" idle (record sample_status { status = "completed" })
      poll_completed

abbrev refunded : Json
refunded = obj (field "amount_refunded" (str "5.0") (field "amount_fee" (str "0") end))

abbrev refund_info : Anchor.RefundInfo
refund_info = record {
  amount_refunded = record { asset = "USDC"; amount = codes "5.0" };
  amount_fee = record { asset = "USDC"; amount = codes "0" };
  payments = [];
  completeness = full;
}

refund_read : parse_refunds (some refunded) "USDC" (some "5") ≡ some refund_info
unfolding parse_refunds compare_amounts
refund_read = refl

parse_refunds-full_iff_example :
    (full ≡ full) ↔ ((s : List ℕ) × (parse_amount (some "5") ≡ some s) × Covers (codes "5.0") s)
parse_refunds-full_iff_example =
    parse_refunds-full_iff "USDC" (some "5") refund_info (some refunded) refund_read

abbrev registry : Source
registry = aware (λ domain protocol. some true) (λ domain. some 10)

abbrev resolver : ResolverOptions String
resolver = record {
  registry = registry;
  adapter_of = λ c. "adapter";
  max_staleness_ledgers = none;
  allow_unattested_domains = [];
}

vouched :
    resolve resolver sample_corridor ≡ some (record { receiving = "adapter"; trust = attested })
unfolding resolve
vouched = refl

resolve_iff_example :
    (is_allowed [] "anchor.example" ≡ true) ⊎ HasEvidence registry "anchor.example" "sep31" 120_960
unfolding protocol_of
resolve_iff_example = (resolve_iff resolver sample_corridor).0 vouched

abbrev withdrawal : Json
withdrawal = obj (field "id" (str "w1") (field "account_id" (str "GDST") end))

abbrev withdraw_net : Net
withdraw_net = record net { fetch = λ r. answer 200 (some withdrawal) }

abbrev exchange_anchor : Sep6Adapter
exchange_anchor = record {
  anchor = record sample_corridor.dest {
    endpoints = record sample_corridor.dest.endpoints { web_auth = none };
  };
  settlement_asset = "USDC";
  transfer_server = "https://anchor.example/sep6";
  dest_asset_code = "NGN";
  account = some "GSRC";
  receiver_type = "sep6-receiver";
}

abbrev opened_withdrawal : OpenTransaction
opened_withdrawal = stellar_payment_to "w1" "GDST" none none

withdrawal_opened :
    (open_transaction withdraw_net
      (λ s. none)
      (λ n. none)
      exchange_anchor
      sample_intent
      sample_quote
      sample_corridor
      idle).0
    ≡ ok opened_withdrawal
unfolding open_transaction
withdrawal_opened = refl

open_transaction-IsGranted_example :
    ((true ≡ true) ⊎ (is_some (anchor_customer_id_of sample_intent.recipient) ≡ true))
    × IsGranted withdraw_net
        (λ s. none)
        (λ n. none)
        exchange_anchor
        sample_intent
        sample_quote
        sample_corridor
        opened_withdrawal
open_transaction-IsGranted_example =
    open_transaction-IsGranted withdraw_net (λ s. none) (λ n. none) exchange_anchor sample_intent
      sample_quote sample_corridor idle opened_withdrawal withdrawal_opened

abbrev reads : Reads
reads = record {
  domains = some ("other.example" ∷ "anchor.example" ∷ []);
  serves_sep31 = λ domain. some (str_eq domain "anchor.example");
  serves_sep6 = λ domain. none;
  staleness = λ domain. some 10;
}

abbrev registry_resolver : ResolverOptions String
registry_resolver = record resolver { registry = source_of reads }

listed_live : live_anchors reads Registry.sep31 100 ≡ some ("anchor.example" ∷ [])
unfolding live_anchors
listed_live = refl

speaks_sep31 : protocol_of sample_corridor ≡ "sep31"
unfolding protocol_of
speaks_sep31 = refl

live_anchors_routed_example :
    resolve registry_resolver sample_corridor
    ≡ some (record { receiving = "adapter"; trust = attested })
live_anchors_routed_example =
    live_anchors_routed reads Registry.sep31 100 ("anchor.example" ∷ []) registry_resolver
      sample_corridor listed_live (Memᴰ.head refl) speaks_sep31 refl (omega arith)

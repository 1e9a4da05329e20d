-- ===== src/Tests/Polling.antt =====
-- The theorems on the polling loops, applied to anchors that answer every poll alike.
use corridor_in_a_box.Base.{◌≡◌, ◌≢◌, refl, true, false, none, some, arith, ◌*◌, [], ◌∷◌}
use corridor_in_a_box.Outcome.{ok}
use corridor_in_a_box.Anchor.{TransactionStatus, full}
use corridor_in_a_box.Verbs.Polling.{PollOptions, reconcile_until, refund_verdict, watch_refund}
use corridor_in_a_box.Verbs.Reconcile.{IsHonest, reconcile_until-IsHonest, reconcile_until_ends}
use corridor_in_a_box.Verbs.Refund.{IsFinal, watch_refund-IsFinal}
use corridor_in_a_box.Tests.Sample.{sample_status}

abbrev brief : PollOptions
brief = record { deadline_ms = 100; poll_ms = 10; stall_threshold = 2; external_stall_ms = 50 }

abbrev pending_status : TransactionStatus
pending_status = record sample_status { status = "pending_receiver"; settled = false }

abbrev refunded_status : TransactionStatus
refunded_status = record sample_status {
  status = "refunded";
  settled = false;
  terminal_failure = true;
  refunds = some (record {
    amount_refunded = record { asset = "USDC"; amount = 53 ∷ [] };
    amount_fee = record { asset = "USDC"; amount = 48 ∷ [] };
    payments = [];
    completeness = full;
  });
}

settled_at_once :
    reconcile_until 3 brief (λ n. n) (λ _. ok sample_status) 0 ≡ some (ok sample_status, 1)
unfolding reconcile_until
settled_at_once = refl

reconcile_until-IsHonest_example : IsHonest (λ _. ok sample_status) (ok sample_status)
reconcile_until-IsHonest_example =
    reconcile_until-IsHonest 3 brief (λ n. n) (λ _. ok sample_status) 0 1 (ok sample_status)
      settled_at_once

reconcile_until_ends_example :
    reconcile_until 8 brief (λ n. n * 20) (λ _. ok pending_status) 0 ≢ none
reconcile_until_ends_example =
    reconcile_until_ends 5 8 brief (λ n. n * 20) (λ _. ok pending_status) 0 (omega arith)
      (omega arith)

refunded_at_once :
    watch_refund 2 100 (λ n. n) (λ _. ok refunded_status) 0 ≡ some (ok refunded_status, 1)
unfolding watch_refund refund_verdict
refunded_at_once = refl

watch_refund-IsFinal_example : IsFinal (ok refunded_status)
watch_refund-IsFinal_example =
    watch_refund-IsFinal 2 100 (λ n. n) (λ _. ok refunded_status) 0 1 (ok refunded_status)
      refunded_at_once

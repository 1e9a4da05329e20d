-- ===== src/Tests/Stellar.antt =====
-- The Stellar submitter, its verifier and its checks on sample answers of Horizon.
use corridor_in_a_box.Base.{
  ap, sym, subst, ◌∙◌, unsome, max, ℕ, zero, suc, ◌*◌, ◌≤◌, ◌<◌, ◌+◌, ◌-◌, ◌≡◌, ◌⊎◌, refl, String,
  true, false, none, some, List, [], ◌∷◌, codes, arith,
}
use corridor_in_a_box.Base.Int.{ℤ, pos, ltb_ℤ}
use corridor_in_a_box.Types.{stellar}
use corridor_in_a_box.Outcome.{Outcome, ok, err}
use corridor_in_a_box.Anchor.{to_legacy}
use corridor_in_a_box.Corridor.{public}
use corridor_in_a_box.Money.{stroop_scale}
use corridor_in_a_box.Money.Exact.{StandsFor}
use corridor_in_a_box.Verbs.{SettlementRequest, build_settlement_request, needs_path_payment}
use corridor_in_a_box.Engine.{GateContext}
use corridor_in_a_box.Stellar.Facts.{ChainAsset, SettlementFacts, verify_settlement_facts}
use corridor_in_a_box.Stellar.Facts.Laws.{IsSettlement, verify_settlement_facts_iff}
use corridor_in_a_box.Stellar.Payments.{
  PaymentRecord, PaymentFact, to_payment_fact, Page, page, is_listed, is_settlement, PaymentsFrom,
  payments_from, find_existing,
}
use corridor_in_a_box.Stellar.Payments.Truncated.{IsFull, find_existing_truncated}
use corridor_in_a_box.Stellar.Payments.Found.{IsPaid, find_existing-IsPaid}
use corridor_in_a_box.Stellar.Confirm.{Confirmed, unseen, confirm_transaction}
use corridor_in_a_box.Stellar.Confirm.Laws.{confirm_transaction_ends}
use corridor_in_a_box.Stellar.Submit.{
  Submitter, not_submitted, accepted, rejected, submit, retryable_thrown, apply_slippage,
  PathRecord, best_strict_send_path, send,
}
use corridor_in_a_box.Stellar.Submit.Laws.{
  IsCleared, send_retryable, submit-IsCleared, apply_slippage_bounds,
}
use corridor_in_a_box.Stellar.Submit.Paths.{best_strict_send_path-IsBest}
use corridor_in_a_box.Stellar.Checks.{
  AccountFacts, AccountRecord, loaded, with_load_account, found, balance_check, destination_check,
  destination_of,
}
use corridor_in_a_box.Stellar.Checks.Laws.{IsSafe, destination_check_iff}
use corridor_in_a_box.Stellar.Checks.Funds.{IsFunded, balance_check_iff}
use corridor_in_a_box.Sep31.Checks.{passed}
use mathlib.Core.List.{Memᴰ}
use corridor_in_a_box.Tests.Sample.{sample_corridor, sample_intent, sample_quote, sample_opened}

abbrev request : SettlementRequest
request = build_settlement_request sample_opened sample_quote sample_corridor

abbrev usdc : ChainAsset
usdc = record { type = some "credit_alphanum4"; code = some "USDC"; issuer = some "GA5Z" }

abbrev xlm : ChainAsset
xlm = record { type = some "native"; code = none; issuer = none }

abbrev settling_facts : SettlementFacts
settling_facts = record {
  hash = "abc";
  successful = true;
  memo = some "m1";
  memo_type = "text";
  operations =
      (record {
        type = "payment";
        to = some "GDST";
        amount = some (codes "5.0000000");
        asset = usdc;
        source_amount = none;
        source_asset = usdc;
      })
      ∷ [];
}

verified : verify_settlement_facts (λ s. s) settling_facts sample_corridor request ≡ ok tt
unfolding verify_settlement_facts build_settlement_request to_legacy
verified = refl

verify_settlement_facts_iff_example : IsSettlement (λ s. s) settling_facts sample_corridor request
verify_settlement_facts_iff_example =
    (verify_settlement_facts_iff (λ s. s) settling_facts sample_corridor request).0 verified

abbrev settling_record : PaymentRecord
settling_record = record {
  type = "payment";
  transaction_hash = "abc";
  ledger = some 7;
  from = some "GSRC";
  to = some "GDST";
  to_muxed = none;
  asset = usdc;
  amount = some (codes "5.0000000");
  memo_type = "text";
  memo = some "m1";
}

abbrev one_page : ℕ → Page
one_page n = page (settling_record ∷ [])

already_paid :
    find_existing
      (λ s. s)
      (λ to. payments_from one_page 200 10 "GSRC" (some to) none)
      sample_corridor
      request
    ≡ ok (some (stellar "abc" (some 7) none none))
unfolding find_existing payments_from build_settlement_request to_legacy
already_paid = refl

find_existing-IsPaid_example :
    IsPaid (λ s. s) sample_corridor request "GSRC" one_page 10 (stellar "abc" (some 7) none none)
find_existing-IsPaid_example =
    find_existing-IsPaid (λ s. s) sample_corridor request "GSRC" one_page 10
      (stellar "abc" (some 7) none none) 200 already_paid

abbrev other_record : PaymentRecord
other_record = record settling_record { memo = some "m2" }

abbrev other_fact : PaymentFact
other_fact = record {
  type = "payment";
  transaction_hash = "abc";
  ledger = 7;
  from = "GSRC";
  to = "GDST";
  to_muxed = none;
  asset = usdc;
  amount = codes "5.0000000";
  memo_type = "text";
  memo = some "m2";
}

-- The settlement is on the second page.
abbrev late_page : ℕ → Page
late_page zero = page (other_record ∷ [])
late_page (suc n) = page (settling_record ∷ [])

other_reads : (r : PaymentRecord) → r ≡ other_record → to_payment_fact r ≡ some other_fact
unfolding to_payment_fact
other_reads r e = ap to_payment_fact e

other_unsettled : is_settlement (λ s. s) sample_corridor request other_fact ≡ false
unfolding is_settlement build_settlement_request to_legacy
other_unsettled = refl

only_other : (r : PaymentRecord) → Memᴰ r (other_record ∷ []) → r ≡ other_record
only_other r (Memᴰ.head e) = e
only_other r (Memᴰ.tail m) = elim m [ ]

first-IsFull : (k : ℕ) → k < max 1 1 → IsFull 1 (late_page k)
first-IsFull zero lt =
    (other_record ∷ [], refl, omega arith, λ r m. (other_fact, other_reads r (only_other r m)))
first-IsFull (suc k) lt = absurd (omega (arith, lt))

records_of : Page → List PaymentRecord
records_of (page rs) = rs
records_of _ = []

first_unsettled :
    (k : ℕ) (rs : List PaymentRecord) (r : PaymentRecord) (f : PaymentFact)
    → k < max 1 1
    → late_page k ≡ page rs
    → Memᴰ r rs
    → to_payment_fact r ≡ some f
    → is_listed "GSRC" (some request.to) f ≡ true
    → is_settlement (λ s. s) sample_corridor request f ≡ false
unfolding records_of
first_unsettled zero rs r f lt at m e l =
    let here = only_other r (subst (Memᴰ r) (sym (ap records_of at)) m) in
    let same = unsome (sym (other_reads r here) ∙ e) in
    subst (λ g. is_settlement (λ s. s) sample_corridor request g ≡ false) same other_unsettled
first_unsettled (suc k) rs r f lt at m e l = absurd (omega (arith, lt))

-- One page more, and the settlement is found.
second_page_settles :
    find_existing
      (λ s. s)
      (λ to. payments_from late_page 1 2 "GSRC" (some to) none)
      sample_corridor
      request
    ≡ ok (some (stellar "abc" (some 7) none none))
unfolding find_existing payments_from build_settlement_request to_legacy
second_page_settles = refl

find_existing_truncated_example :
    ((l : PaymentsFrom) × (payments_from late_page 1 1 "GSRC" (some request.to) none ≡ ok l)
      × (l.truncated ≡ true))
    × (find_existing
          (λ s. s)
          (λ to. payments_from late_page 1 1 "GSRC" (some to) none)
          sample_corridor
          request
        ≡ ok none)
find_existing_truncated_example =
    find_existing_truncated (λ s. s) sample_corridor request late_page 1 1 "GSRC" first-IsFull
      first_unsettled

confirm_transaction_ends_example :
    (r : Outcome Confirmed) × (confirm_transaction (λ n. unseen) (λ n. n * 1000) 2000 3 ≡ some r)
confirm_transaction_ends_example =
    confirm_transaction_ends (λ n. unseen) (λ n. n * 1000) 2000 3 (λ n. omega arith) (omega arith)

abbrev submitter : Submitter
submitter = record {
  allowed_networks = public ∷ [];
  local_signer = false;
  allow_local_signer_on_mainnet = false;
  root = some (some (some "Public"));
  passphrase = λ network. "Public";
  confirm_timeout_ms = 60_000;
}

abbrev in_ledger : Confirmed
in_ledger = record { ledger = some 7; fee_charged = some "100" }

submitted :
    submit submitter sample_corridor request 0 (λ tx_hash. some (ok in_ledger)) (accepted "abc")
    ≡ some (ok (stellar "abc" (some 7) (some "100") none))
unfolding submit build_settlement_request
submitted = refl

submit-IsCleared_example :
    IsCleared submitter public request.valid_until 0 × (needs_path_payment sample_corridor ≡ false)
submit-IsCleared_example =
    submit-IsCleared submitter sample_corridor request 0 (λ tx_hash. some (ok in_ledger))
      (accepted "abc") (stellar "abc" (some 7) (some "100") none) submitted

half_a_percent : apply_slippage (codes "1") 50 ≡ ok (codes "0.995")
unfolding apply_slippage
half_a_percent = refl

apply_slippage_bounds_example :
    (v : ℕ) × (r : ℕ) × StandsFor (codes "1") stroop_scale (pos v)
    × StandsFor (codes "0.995") stroop_scale (pos r)
    × (50 < 10_000)
    × (v * (10_000 - 50) ≤ r * 10_000)
    × (r * 10_000 < v * (10_000 - 50) + 10_000)
apply_slippage_bounds_example = apply_slippage_bounds (codes "1") 50 (codes "0.995") half_a_percent

was_rejected :
    send (λ h. confirm_transaction (λ n. unseen) (λ n. n * 1000) 2000 3) (rejected "abc")
    ≡ some (err retryable_thrown)
unfolding send
was_rejected = refl

send_retryable_example :
    (rejected "abc" ≡ not_submitted) ⊎ ((h : String) × (rejected "abc" ≡ rejected h))
send_retryable_example =
    send_retryable (λ h n. unseen) (λ n. n * 1000) 2000 3 (rejected "abc") retryable_thrown
      was_rejected refl

abbrev offers : List (PathRecord ChainAsset)
offers =
    (record { destination_amount = codes "4.9"; path = [] })
    ∷ (record { destination_amount = codes "5.1"; path = xlm ∷ [] })
    ∷ (record { destination_amount = codes "5.1"; path = usdc ∷ [] })
    ∷ []

best_offer : best_strict_send_path (some offers) ≡ ok (codes "5.1", xlm ∷ [])
unfolding best_strict_send_path
best_offer = refl

best_strict_send_path-IsBest_example :
    (r : PathRecord ChainAsset) × (v : ℤ) × ((xlm ∷ []) ≡ r.path)
    × StandsFor (codes "5.1") stroop_scale v
    × Memᴰ r offers
    × StandsFor r.destination_amount stroop_scale v
    × (ltb_ℤ (pos 0) v ≡ true)
    × ((q : PathRecord ChainAsset) (w : ℤ)
        → Memᴰ q offers
        → StandsFor q.destination_amount stroop_scale w
        → ltb_ℤ v w ≡ false)
best_strict_send_path-IsBest_example =
    best_strict_send_path-IsBest offers (codes "5.1") (xlm ∷ []) best_offer

abbrev context : GateContext
context = record {
  intent = sample_intent;
  quote = sample_quote;
  opened = sample_opened;
  now = 0;
  attempt = 1;
}

abbrev account : AccountFacts
account = record {
  subentry_count = 1;
  num_sponsoring = 0;
  num_sponsored = 0;
  balances =
      (record {
        asset = usdc;
        balance = codes "6";
        selling_liabilities = codes "1";
        is_authorized = some true;
      })
      ∷ (record {
        asset = xlm;
        balance = codes "2";
        selling_liabilities = codes "0";
        is_authorized = some true;
      })
      ∷ [];
}

enough :
    balance_check sample_corridor context (codes "0.00001") (codes "0.5") (found account)
    ≡ passed "chain.balance"
unfolding balance_check
enough = refl

balance_check_iff_example :
    (f : AccountFacts) × (found account ≡ found f)
    × IsFunded sample_corridor (codes "5") (codes "0.00001") (codes "0.5") f
balance_check_iff_example =
    (balance_check_iff sample_corridor context (codes "0.00001") (codes "0.5") (found account)).0
      enough

-- Horizon does not tell whether the trustline is authorized.
abbrev untold : AccountRecord
untold = record {
  subentry_count = some 1;
  num_sponsoring = none;
  num_sponsored = none;
  balances = some (
      (record {
        asset = usdc;
        balance = codes "6";
        selling_liabilities = none;
        is_authorized = none;
      })
      ∷ []);
}

open_door :
    destination_check sample_corridor context "GSRC"
      (λ to. false)
      (with_load_account (λ to. loaded untold))
    ≡ passed "chain.destination"
unfolding destination_check
open_door = refl

destination_check_iff_example :
    (to : String) × (destination_of sample_opened ≡ some to)
    × IsSafe sample_corridor "GSRC" (λ to. false) (with_load_account (λ to. loaded untold)) to
destination_check_iff_example =
    (destination_check_iff sample_corridor "GSRC" (λ to. false)
        (with_load_account (λ to. loaded untold)) context).0
      open_door

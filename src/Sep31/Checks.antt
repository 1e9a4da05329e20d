-- ===== src/Sep31/Checks.antt =====
-- The pre-settle checks of packages/sep31/src: the asset in /info and the receiver's KYC status
-- (index.ts), the opened transaction (openedTxCheck.ts) and the range of the amount
-- (amountRangeCheck.ts). A check is a function of what the adapter answered. The text and the duration
-- of a result are left out.
pub mod Laws
pub mod Range
use corridor_in_a_box.Base.{
  ℕ, String, Bool, true, false, not, ◌&&◌, ◌||◌, Option, none, some, List, [], ◌∷◌, if◌then◌else◌,
  or_else, str_eq, is_some,
}
use corridor_in_a_box.Types.{
  ErrorCode, presettle_anchor_drift, presettle_tx_mismatch, presettle_amount_out_of_range,
  settlement_failed, presettle_receiver_not_accepted,
}
use corridor_in_a_box.Outcome.{Outcome, ok, err, CheckResult, ◌>>=◌}
use corridor_in_a_box.Anchor.{
  KycResult, KycStatus, accepted, MemoType, text, hash, id, TransactionStatus,
}
use corridor_in_a_box.Corridor.{Corridor}
use corridor_in_a_box.Money.{compare_amounts, stroop_scale, Order, below, equal, above}
use corridor_in_a_box.Json.{to_upper}
use corridor_in_a_box.Verbs.{SettlementRequest, build_settlement_request}
use corridor_in_a_box.Engine.{GateContext}
use corridor_in_a_box.Sep31.Records.{AssetInfo}

abbrev pub passed : String → CheckResult
passed name = record { name = name; passed = true; code = none }

abbrev pub refused : String → ErrorCode → CheckResult
refused name code = record { name = name; passed = false; code = some code }

-- `info.receive[code]`.
abbrev pub lookup_asset : String → List (String × AssetInfo) → Option AssetInfo
lookup_asset code [] = none
lookup_asset code ((name, info) ∷ rest) =
    if str_eq name code then some info else lookup_asset code rest

abbrev is_disabled : AssetInfo → Bool
is_disabled info = elim info.enabled [ none ↦ false | some b ↦ not b ]

abbrev placed : Option AssetInfo → CheckResult
placed none = refused "sep31.info.asset" presettle_anchor_drift
placed (some info) =
    if is_disabled info
    then refused "sep31.info.asset" presettle_anchor_drift
    else passed "sep31.info.asset"

-- `sep31InfoCheck`. An empty list has no entry for the asset either, and is refused with the same code.
unfoldable pub sep31_info_check : Corridor → Outcome (List (String × AssetInfo)) → CheckResult
sep31_info_check c (err e) = refused "sep31.info.asset" presettle_anchor_drift
sep31_info_check c (ok receive) = placed (lookup_asset c.settlement.bridge_asset receive)

-- `receiverKycCheck`: none is an adapter that threw.
abbrev is_accepted : KycStatus → Bool
is_accepted accepted = true
is_accepted _ = false

unfoldable pub receiver_kyc_check : Option (Outcome KycResult) → CheckResult
receiver_kyc_check (some (ok kyc)) =
    if is_accepted kyc.status
    then passed "sep12.receiver"
    else refused "sep12.receiver" presettle_receiver_not_accepted
receiver_kyc_check _ = refused "sep12.receiver" presettle_receiver_not_accepted

-- `TransactionStatus & ReportedTransactionFields`: the fields that `openedTxCheck` reads.
pub record Reported : Type 0 where
  pub status : String
  pub amount : Option (List ℕ)
  pub asset : Option String
  pub deposit_address : Option String
  pub memo : Option String
  pub memo_type : Option MemoType

-- An adapter's status under that type. `TransactionStatus` has the amount in `amountIn`; it has no
-- field `amount` and no field `asset`.
abbrev pub reported : TransactionStatus → Reported
reported s = record {
  status = s.status;
  amount = none;
  asset = none;
  deposit_address = s.deposit_address;
  memo = s.memo;
  memo_type = s.memo_type;
}

-- What becomes of one field: not reported, as expected, or different.
pub data Verdict : Type 0 where
  unverified agrees differs : Verdict

abbrev pub judge : Bool → Verdict
judge true = agrees
judge false = differs

abbrev is_equal : Outcome Order → Bool
is_equal (ok equal) = true
is_equal _ = false

abbrev pub same_amount : List ℕ → List ℕ → Bool
same_amount expected amount = is_equal (compare_amounts expected amount stroop_scale)

abbrev pub same_asset : String → String → Bool
same_asset expected asset = str_eq (to_upper asset) (to_upper expected)

-- A field that is missing is not judged.
abbrev pub judge_by {ℓ} : {A : Type ℓ} → (A → Bool) → Option A → Verdict
judge_by test none = unverified
judge_by test (some x) = judge (test x)

abbrev pub is_text : Option String → String → Bool
is_text none s = false
is_text (some t) s = str_eq s t

abbrev pub same_type : MemoType → MemoType → Bool
same_type text text = true
same_type hash hash = true
same_type id id = true
same_type _ _ = false

-- The verdicts on the amount, the asset, the account, the memo and its type.
unfoldable pub verdicts : SettlementRequest → Reported → List Verdict
unfolding compare_amounts to_upper
verdicts req s =
    judge_by (same_amount req.amount.amount) s.amount
    ∷ judge_by (same_asset req.amount.asset) s.asset
    ∷ judge_by (λ account. str_eq account req.to) s.deposit_address
    ∷ judge_by (is_text req.memo) s.memo
    ∷ judge_by (λ t. same_type t (or_else req.memo_type text)) s.memo_type
    ∷ []

abbrev pub any_differs : List Verdict → Bool
any_differs [] = false
any_differs (differs ∷ vs) = true
any_differs (v ∷ vs) = any_differs vs

abbrev pub any_unverified : List Verdict → Bool
any_unverified [] = false
any_unverified (unverified ∷ vs) = true
any_unverified (v ∷ vs) = any_unverified vs

-- `openedTxCheck`.
unfoldable pub opened_tx_check : Bool → Corridor → GateContext → Outcome Reported → CheckResult
unfolding verdicts build_settlement_request
opened_tx_check strict c ctx (err e) = refused "anchor.tx.match" settlement_failed
opened_tx_check strict c ctx (ok s) =
    let vs = verdicts (build_settlement_request ctx.opened ctx.quote c) s in
    if not (str_eq s.status "pending_sender")
    then refused "anchor.tx.match" presettle_tx_mismatch
    else if any_differs vs
    then refused "anchor.tx.match" presettle_tx_mismatch
    else if strict && any_unverified vs
    then refused "anchor.tx.match" presettle_tx_mismatch
    else passed "anchor.tx.match"

-- `!a` of a bound: missing or empty.
abbrev pub bound_of : Option (List ℕ) → Option (List ℕ)
bound_of none = none
bound_of (some []) = none
bound_of (some (c ∷ s)) = some (c ∷ s)

abbrev pub pick_of :
    (Order → Bool) → Option (List ℕ) → Option (List ℕ) → Option (List ℕ) → Outcome (Option (List ℕ))
pick_of wins b none y = ok b
pick_of wins b (some x) none = ok (some x)
pick_of wins b (some x) (some y) = do
  order ← compare_amounts x y stroop_scale
  ok (some (if wins order then x else y))

-- `pick`: of two bounds the one that compares as `wins`.
abbrev pub pick : (Order → Bool) → Option (List ℕ) → Option (List ℕ) → Outcome (Option (List ℕ))
pick wins a b = pick_of wins b (bound_of a) (bound_of b)

abbrev pub is_above : Order → Bool
is_above above = true
is_above _ = false

abbrev pub is_below : Order → Bool
is_below below = true
is_below _ = false

abbrev pub outside : (Order → Bool) → List ℕ → Option (List ℕ) → Bool
outside bad amount none = false
outside bad amount (some bound) = elim (compare_amounts amount bound stroop_scale) [
  | ok order ↦ bad order
  | err e ↦ true
]

abbrev pub asset_min : Option AssetInfo → Option (List ℕ)
asset_min none = none
asset_min (some info) = info.min_amount

abbrev pub asset_max : Option AssetInfo → Option (List ℕ)
asset_max none = none
asset_max (some info) = info.max_amount

abbrev pub in_range : List ℕ → Outcome (Option (List ℕ)) → Outcome (Option (List ℕ)) → Bool
in_range amount (ok low) (ok high) =
    not (outside is_below amount (bound_of low)) && not (outside is_above amount (bound_of high))
in_range amount _ _ = false

-- `amountRangeCheck`: the higher of the two minima, and the lower of the two maxima.
unfoldable pub amount_range_check :
    Corridor → GateContext → Outcome (List (String × AssetInfo)) → CheckResult
unfolding compare_amounts build_settlement_request
amount_range_check c ctx (err e) = refused "sep31.amount.range" presettle_anchor_drift
amount_range_check c ctx (ok receive) =
    let amount = (build_settlement_request ctx.opened ctx.quote c).amount.amount in
    let info = lookup_asset c.settlement.bridge_asset receive in
    if in_range amount (pick is_above c.limits.min_amount (asset_min info))
      (pick is_below c.limits.max_amount (asset_max info))
    then passed "sep31.amount.range"
    else refused "sep31.amount.range" presettle_amount_out_of_range

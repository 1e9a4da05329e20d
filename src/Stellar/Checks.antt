-- ===== src/Stellar/Checks.antt =====
-- `balanceCheck` and `destinationCheck` of packages/stellar/src/index.ts, with `toAccountFacts`. The
-- text and the duration of a result are left out.
pub mod Funds
pub mod Laws
use corridor_in_a_box.Base.{
  ℕ, ◌+◌, ◌-◌, ◌*◌, String, Bool, true, false, not, ◌&&◌, ◌||◌, Option, none, some, List, [], ◌∷◌,
  if◌then◌else◌, or_else, str_eq, find, map, present,
}
use corridor_in_a_box.Base.Int.{ℤ, pos, sub_ℕ, ltb_ℤ, is_neg, ◌+ℤ◌, ◌-ℤ◌, ◌*ℤ◌}
use corridor_in_a_box.Types.{
  settlement_failed, presettle_insufficient_funds, amount_invalid, presettle_destination_unsafe,
  ErrorCode,
}
use corridor_in_a_box.Outcome.{Outcome, ok, err, CheckResult}
use corridor_in_a_box.Anchor.{
  OpenTransaction, DepositInstructions, to_account, to_claimant, by_adapter,
}
use corridor_in_a_box.Corridor.{Corridor}
use corridor_in_a_box.Money.{to_scaled, stroop_scale}
use corridor_in_a_box.Json.{to_upper}
use corridor_in_a_box.Engine.{GateContext}
use corridor_in_a_box.Stellar.Facts.{ChainAsset, same_text, is_native}
use corridor_in_a_box.Stellar.Payments.{is_native_code}
use corridor_in_a_box.Sep31.Checks.{passed, refused}

-- A balance as Horizon sends it, and as the checks read it.
pub record BalanceRecord : Type 0 where
  pub asset : ChainAsset
  pub balance : List ℕ
  pub selling_liabilities : Option (List ℕ)
  pub is_authorized : Option Bool

pub record Balance : Type 0 where
  pub asset : ChainAsset
  pub balance : List ℕ
  pub selling_liabilities : List ℕ
  pub is_authorized : Option Bool

pub record AccountFacts : Type 0 where
  pub subentry_count : ℕ
  pub num_sponsoring : ℕ
  pub num_sponsored : ℕ
  pub balances : List Balance

-- `toAccountFacts`, of one balance: a trustline is authorized only if Horizon says so.
unfoldable pub to_balance : BalanceRecord → Balance
to_balance b = record {
  asset = b.asset;
  balance = b.balance;
  selling_liabilities = or_else b.selling_liabilities (b'0' ∷ []);
  is_authorized = some (if is_native b.asset then true else or_else b.is_authorized false);
}

-- An account as Horizon sends it.
pub record AccountRecord : Type 0 where
  pub subentry_count : Option ℕ
  pub num_sponsoring : Option ℕ
  pub num_sponsored : Option ℕ
  pub balances : Option (List BalanceRecord)

-- What `loadAccount` does: it answers, or throws, for an account that is not there or otherwise.
pub data Loading : Type 0 where
  loaded : AccountRecord → Loading
  absent broken : Loading

-- What the inspector answers: the facts, an account that is not there, or a failure.
pub data Inspection : Type 0 where
  found : AccountFacts → Inspection
  missing failed : Inspection

-- The facts that `destinationCheck` reads off an answer of `loadAccount`: an authorization that
-- Horizon does not tell is taken as given.
unfoldable pub loaded_balance : BalanceRecord → Balance
loaded_balance b = record {
  asset = b.asset;
  balance = b.balance;
  selling_liabilities = or_else b.selling_liabilities (b'0' ∷ []);
  is_authorized = some (or_else b.is_authorized true);
}

unfoldable pub loaded_facts : AccountRecord → AccountFacts
unfolding loaded_balance
loaded_facts r = record {
  subentry_count = or_else r.subentry_count 0;
  num_sponsoring = or_else r.num_sponsoring 0;
  num_sponsored = or_else r.num_sponsored 0;
  balances = map loaded_balance (or_else r.balances []);
}

abbrev on_loaded : Loading → Inspection
on_loaded (loaded r) = found (loaded_facts r)
on_loaded absent = missing
on_loaded broken = failed

-- An inspector with `account`, one with `loadAccount` only, or an object with neither.
pub data Inspector : Type 0 where
  with_account : (String → Inspection) → Inspector
  with_load_account : (String → Loading) → Inspector
  with_neither : Inspector

unfoldable pub inspect : Inspector → String → Inspection
unfolding loaded_facts
inspect (with_account account) to = account to
inspect (with_load_account load) to = on_loaded (load to)
inspect with_neither to = failed

abbrev pub upper_of : Option String → Option String
upper_of none = none
upper_of (some s) = some (to_upper s)

abbrev is_other_issuer : Option String → String → Bool
is_other_issuer none issuer = false
is_other_issuer (some s) issuer =
    not (str_eq issuer "") && not (str_eq s "") && not (str_eq s issuer)

-- The balance in the bridge asset that `find` stops at.
unfoldable pub is_trustline : Corridor → Balance → Bool
unfolding to_upper
is_trustline c b =
    not (is_native b.asset)
    && same_text (upper_of b.asset.code) (some (to_upper c.settlement.bridge_asset))
    && not (is_other_issuer b.asset.issuer c.settlement.asset_issuer)

unfoldable pub is_xlm_balance : Balance → Bool
unfolding to_upper
is_xlm_balance b = is_native b.asset || same_text (upper_of b.asset.code) (some "XLM")

-- (2 + subentries + sponsoring - sponsored) entries, and none if that is negative.
unfoldable pub entries_of : AccountFacts → ℕ
entries_of f = (2 + f.subentry_count + f.num_sponsoring) - f.num_sponsored

abbrev pub balance_text : Option Balance → List ℕ
balance_text none = b'0' ∷ []
balance_text (some b) = b.balance

abbrev pub liabilities_text : Option Balance → List ℕ
liabilities_text none = b'0' ∷ []
liabilities_text (some b) = b.selling_liabilities

abbrev pub less : Outcome ℤ → Outcome ℤ → Outcome ℤ
less (ok v) (ok w) = ok (v -ℤ w)
less (ok v) (err e) = err e
less (err e) w = err e

-- What is left of a balance after its selling liabilities.
unfoldable pub free_balance : Option Balance → Outcome ℤ
unfolding to_scaled ◌-ℤ◌
free_balance b =
    less (to_scaled (balance_text b) stroop_scale) (to_scaled (liabilities_text b) stroop_scale)

-- Whether the account covers the amount and the fee: `xlm` and `bridge` are what is free in the two
-- assets, `reserve` the minimum reserve.
unfoldable pub covers : Bool → ℤ → ℤ → ℤ → ℤ → ℤ → Bool
unfolding ◌+ℤ◌ ◌-ℤ◌
covers true xlm bridge reserve amount fee = not (ltb_ℤ (xlm -ℤ reserve) (amount +ℤ fee))
covers false xlm bridge reserve amount fee =
    not (ltb_ℤ bridge amount) && not (ltb_ℤ (xlm -ℤ reserve) fee)

abbrev pub verdict_of : Bool → CheckResult
verdict_of true = passed "chain.balance"
verdict_of false = refused "chain.balance" presettle_insufficient_funds

abbrev pub invalid : CheckResult
invalid = refused "chain.balance" amount_invalid

-- The bridge balance is read only when the bridge asset is not native.
abbrev pub with_bridge : Bool → ℤ → Outcome ℤ → ℤ → ℤ → ℤ → CheckResult
with_bridge true xlm bridge reserve amount fee =
    verdict_of (covers true xlm (pos 0) reserve amount fee)
with_bridge false xlm (ok bridge) reserve amount fee =
    verdict_of (covers false xlm bridge reserve amount fee)
with_bridge false xlm (err e) reserve amount fee = invalid

abbrev pub on_amounts :
    Bool → ℕ → Outcome ℤ → Outcome ℤ → Outcome ℤ → Outcome ℤ → Outcome ℤ → CheckResult
on_amounts native entries (ok base_reserve) (ok fee) (ok xlm) (ok amount) bridge =
    with_bridge native xlm bridge (pos entries *ℤ base_reserve) amount fee
on_amounts native entries _ _ _ _ bridge = invalid

-- `balanceCheck`. The amounts that do not parse are refused with one code, in whatever order.
unfoldable pub balance_check : Corridor → GateContext → List ℕ → List ℕ → Inspection → CheckResult
unfolding to_scaled free_balance covers is_native_code is_trustline is_xlm_balance entries_of ◌*ℤ◌
balance_check c ctx fee base_reserve failed = refused "chain.balance" settlement_failed
balance_check c ctx fee base_reserve missing = refused "chain.balance" presettle_insufficient_funds
balance_check c ctx fee base_reserve (found f) =
    on_amounts (is_native_code c.settlement.bridge_asset) (entries_of f)
      (to_scaled base_reserve stroop_scale) (to_scaled fee stroop_scale)
      (free_balance (find is_xlm_balance f.balances))
      (to_scaled ctx.quote.source_amount.amount stroop_scale)
      (free_balance (find (is_trustline c) f.balances))

-- The account that is to be paid.
abbrev pub destination_in : OpenTransaction → DepositInstructions → Option String
destination_in tx (to_account to _ _ _) = some to
destination_in tx _ = tx.deposit_address

abbrev pub destination_of : OpenTransaction → Option String
destination_of tx = destination_in tx tx.instructions

abbrev pub unsafe : CheckResult
unsafe = refused "chain.destination" presettle_destination_unsafe

-- `=== false`.
abbrev pub is_false : Option Bool → Bool
is_false (some false) = true
is_false _ = false

abbrev pub on_trustline : Option Balance → CheckResult
on_trustline none = unsafe
on_trustline (some b) = if is_false b.is_authorized then unsafe else passed "chain.destination"

abbrev pub on_facts : Corridor → Inspection → CheckResult
on_facts c failed = refused "chain.destination" settlement_failed
on_facts c missing = unsafe
on_facts c (found f) =
    if is_native_code c.settlement.bridge_asset
    then passed "chain.destination"
    else on_trustline (find (is_trustline c) f.balances)

abbrev pub on_destination :
    Corridor → String → (String → Bool) → Inspector → Option String → CheckResult
on_destination c signer denied inspector none = unsafe
on_destination c signer denied inspector (some to) =
    if str_eq to ""
    then unsafe
    else if str_eq to signer
    then unsafe
    else if denied to
    then unsafe
    else on_facts c (inspect inspector to)

-- `destinationCheck`. `denied` is the operator's hook.
unfoldable pub destination_check :
    Corridor → GateContext → String → (String → Bool) → Inspector → CheckResult
unfolding is_native_code is_trustline inspect
destination_check c ctx signer denied inspector =
    on_destination c signer denied inspector (destination_of ctx.opened)

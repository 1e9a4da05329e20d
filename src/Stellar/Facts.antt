-- ===== src/Stellar/Facts.antt =====
-- `verifySettlementFacts` and `createChainVerifier` of packages/stellar/src/index.ts: whether a
-- transaction on chain pays what was asked for.
pub mod Laws
use corridor_in_a_box.Base.{
  ℕ, String, Bool, true, false, not, ◌&&◌, ◌||◌, Option, none, some, List, [], ◌∷◌, if◌then◌else◌,
  or_else, str_eq, codes, present,
}
use corridor_in_a_box.Types.{SettlementRef, stellar, adapter, reconcile_mismatch}
use corridor_in_a_box.Outcome.{Outcome, ok, err, fail, ◌>>=◌}
use corridor_in_a_box.Anchor.{MemoType, text, hash, id}
use corridor_in_a_box.Corridor.{Corridor, Settlement, is_xlm}
use corridor_in_a_box.Money.{compare_amounts, stroop_scale, Order, below, equal, above}
use corridor_in_a_box.Verbs.{SettlementRequest, needs_path_payment}

-- An asset as Horizon names it.
pub record ChainAsset : Type 0 where
  pub type : Option String
  pub code : Option String
  pub issuer : Option String

-- `SettlementOperationFacts`: of a path payment `source_amount` and `source_asset` are what was sent.
pub record Operation : Type 0 where
  pub type : String
  pub to : Option String
  pub amount : Option (List ℕ)
  pub asset : ChainAsset
  pub source_amount : Option (List ℕ)
  pub source_asset : ChainAsset

pub record SettlementFacts : Type 0 where
  pub hash : String
  pub successful : Bool
  pub memo : Option String
  pub memo_type : String
  pub operations : List Operation

-- `===` on texts that may be undefined.
abbrev pub same_text : Option String → Option String → Bool
same_text none none = true
same_text (some s) (some t) = str_eq s t
same_text _ _ = false

abbrev pub is_native : ChainAsset → Bool
is_native a = same_text a.type (some "native")

-- `assetMismatch` finds nothing.
unfoldable pub is_asset : String → Option String → ChainAsset → Bool
unfolding is_xlm
is_asset code issuer a =
    if is_xlm code
    then is_native a
    else not (is_native a) && same_text a.code (some code) && same_text a.issuer issuer

abbrev pub is_equal : Outcome Order → Bool
is_equal (ok equal) = true
is_equal _ = false

-- `compareAmounts(expected, actual ?? "")` finds them equal.
unfoldable pub is_amount : List ℕ → Option (List ℕ) → Bool
unfolding compare_amounts
is_amount expected actual = is_equal (compare_amounts expected (or_else actual []) stroop_scale)

abbrev pub type_name : MemoType → String
type_name text = "text"
type_name hash = "hash"
type_name id = "id"

-- The type of memo that the request asks for: none without a memo.
abbrev pub expected_type : SettlementRequest → String
expected_type req = if present req.memo then type_name (or_else req.memo_type text) else "none"

-- Horizon's form of the memo: `reencode` reads base64 and writes it again.
abbrev pub expected_memo : (String → String) → SettlementRequest → String
expected_memo reencode req =
    let memo = or_else req.memo "" in
    if str_eq (expected_type req) "hash" then reencode memo else memo

abbrev pub is_memo : (String → String) → SettlementRequest → SettlementFacts → Bool
is_memo reencode req facts =
    str_eq facts.memo_type (expected_type req)
    && (not (present req.memo) || same_text facts.memo (some (expected_memo reencode req)))

abbrev pub pays_plain : Settlement → SettlementRequest → Operation → Bool
pays_plain s req op =
    is_amount req.amount.amount op.amount && is_asset s.bridge_asset (some s.asset_issuer) op.asset

abbrev pub pays_path : Settlement → SettlementRequest → Operation → Bool
pays_path s req op =
    is_amount req.amount.amount op.source_amount
    && is_asset s.bridge_asset (some s.asset_issuer) op.source_asset
    && is_asset (or_else s.receive_asset "") s.receive_asset_issuer op.asset

abbrev pub mismatch : Outcome (Unit {0})
mismatch = fail reconcile_mismatch

abbrev verify_operation :
    (String → String)
    → Corridor
    → SettlementRequest
    → SettlementFacts
    → Operation
    → Outcome (Unit {0})
verify_operation reencode c req facts op =
    let path = needs_path_payment c in
    if not (str_eq op.type (if path then "path_payment_strict_send" else "payment"))
    then mismatch
    else if not (same_text op.to (some req.to))
    then mismatch
    else if not (if path then pays_path c.settlement req op else pays_plain c.settlement req op)
    then mismatch
    else if not (is_memo reencode req facts)
    then mismatch
    else ok tt

abbrev verify_operations :
    (String → String)
    → Corridor
    → SettlementRequest
    → SettlementFacts
    → List Operation
    → Outcome (Unit {0})
verify_operations reencode c req facts (op ∷ []) = verify_operation reencode c req facts op
verify_operations reencode c req facts _ = mismatch

-- `verifySettlementFacts`.
unfoldable pub verify_settlement_facts :
    (String → String) → SettlementFacts → Corridor → SettlementRequest → Outcome (Unit {0})
unfolding is_asset is_amount needs_path_payment
verify_settlement_facts reencode facts c req =
    if not facts.successful
    then mismatch
    else verify_operations reencode c req facts facts.operations

-- `createChainVerifier`, over the inspector's `settlementFacts`; it has nothing to read of a
-- settlement off chain.
unfoldable pub chain_verifier :
    (String → String)
    → (String → Outcome SettlementFacts)
    → SettlementRef
    → Corridor
    → SettlementRequest
    → Outcome (Unit {0})
unfolding verify_settlement_facts
chain_verifier reencode settlement_facts (adapter _ _) c req = ok tt
chain_verifier reencode settlement_facts (stellar tx_hash _ _ _) c req = do
  facts ← settlement_facts tx_hash
  verify_settlement_facts reencode facts c req

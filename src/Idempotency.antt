-- ===== src/Idempotency.antt =====
-- packages/engine/src/idempotency.ts: the stored run, the two gates that read it, and the in-memory
-- store of runs and of their out-of-band resolutions.
pub mod Laws
pub mod Postgres
use corridor_in_a_box.Base.{
  ℕ, String, Bool, true, false, not, ◌&&◌, ◌||◌, Option, none, some, List, [], ◌∷◌, str_eq,
  if◌then◌else◌, is_some, present, orelse, or_else, min, max,
}
use corridor_in_a_box.Types.{ErrorCode, Money, SettlementRef}
use corridor_in_a_box.Anchor.{MemoType}
use corridor_in_a_box.State.{CorridorState, held, is}

pub data SettlementKind : Type 0 where
  stellar adapter : SettlementKind

-- What the settle leg was asked to pay.
pub record RecordedSettlement : Type 0 where
  pub to : String
  pub memo : Option String
  pub memo_type : Option MemoType
  pub amount : Money

-- `lastError` is kept by its code: the text behind it is prose. A manifest hash is a number.
pub record StoredRun : Type 0 where
  pub idempotency_key : String
  pub corridor_id : String
  pub manifest_hash : Option ℕ
  pub state : CorridorState
  pub version : ℕ
  pub transaction_id : Option String
  pub source_transaction_id : Option String
  pub quote_id : Option String
  pub quote_expires_at : Option ℕ
  pub quote_firm : Option Bool
  pub settlement_amount : Option (List ℕ)
  pub stellar_tx_hash : Option String
  pub settlement_kind : Option SettlementKind
  pub settlement_ref : Option SettlementRef
  pub deposit_address : Option String
  pub memo : Option String
  pub memo_type : Option MemoType
  pub refund_id : Option String
  pub settlement : Option RecordedSettlement
  pub last_error : Option ErrorCode
  pub owner : Option String

unfoldable pub has_requested_refund : StoredRun → Bool
has_requested_refund run = present run.refund_id

unfoldable pub has_settlement_ref : StoredRun → Bool
has_settlement_ref run = is_some run.settlement_ref || present run.stellar_tx_hash

pub data ResolutionOutcome : Type 0 where
  refunded_offchain paid_out_manually written_off : ResolutionOutcome

pub record Resolution : Type 0 where
  pub idempotency_key : String
  pub outcome : ResolutionOutcome
  pub note : String
  pub resolved_by : String
  pub resolved_at : ℕ

pub record Store : Type 0 where
  pub runs : List StoredRun
  pub resolutions : List Resolution

lookup : String → List StoredRun → Option StoredRun
lookup key [] = none
lookup key (r ∷ rs) = if str_eq r.idempotency_key key then some r else lookup key rs

-- `this.map.set(run.idempotencyKey, …)`.
replace : StoredRun → List StoredRun → List StoredRun
replace run [] = run ∷ []
replace run (r ∷ rs) =
    if str_eq r.idempotency_key run.idempotency_key then run ∷ rs else r ∷ replace run rs

unfoldable pub get : String → Store → Option StoredRun
unfolding lookup
get key store = lookup key store.runs

abbrev source_of : Option StoredRun → Option String
source_of none = none
source_of (some r) = r.source_transaction_id

-- A source deposit reference that is written is never erased.
unfoldable pub put : StoredRun → Store → Store
unfolding replace lookup
put run store =
    let known = source_of (lookup run.idempotency_key store.runs) in
    record store {
      runs =
          replace (record run { source_transaction_id = orelse known run.source_transaction_id })
            store.runs;
    }

-- The conditional insert: whether this caller claimed the key.
unfoldable pub create : StoredRun → Store → Store × Bool
unfolding replace lookup
create run store =
    if is_some (lookup run.idempotency_key store.runs)
    then (store, false)
    else (record store { runs = replace run store.runs }, true)

unfoldable pub get_resolution : String → List Resolution → Option Resolution
get_resolution key [] = none
get_resolution key (r ∷ rs) = if str_eq r.idempotency_key key then some r else get_resolution key rs

abbrev is_held : Option StoredRun → Bool
is_held none = false
is_held (some r) = is r.state held

unfoldable pub record_resolution : Resolution → Store → Store × Bool
unfolding get_resolution lookup
record_resolution res store =
    if is_some (get_resolution res.idempotency_key store.resolutions)
      || not (is_held (lookup res.idempotency_key store.runs))
    then (store, false)
    else (record store { resolutions = res ∷ store.resolutions }, true)

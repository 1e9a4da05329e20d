-- ===== src/Sep31/Status.antt =====
-- The status vocabularies of packages/sep31/src/index.ts and packages/sep6/src/index.ts, and what
-- both adapters read of a transaction record.
use corridor_in_a_box.Base.{
  String, Bool, true, false, Option, none, some, List, [], ◌∷◌, if◌then◌else◌, str_eq, any,
}
use corridor_in_a_box.Outcome.{Outcome, ok, err}
use corridor_in_a_box.Anchor.{Phase, external, MemoType}
use corridor_in_a_box.Anchor
use corridor_in_a_box.Json.{Json, null, str, to_lower, text_of}
use corridor_in_a_box.AdapterKit.Http.{caught}

-- `set.has(status)`.
abbrev pub has : List String → String → Bool
has names status = any (str_eq status) names

pub record Mapped : Type 0 where
  pub status : String
  pub phase : Option Phase
  pub settled : Bool
  pub terminal_failure : Bool
  pub awaiting_input : Bool

-- The vocabulary of a protocol; what is in none of its sets is in flight.
pub record Vocabulary : Type 0 where
  pub failures : List String
  pub awaiting : List String
  pub in_flight : List String
  pub outside : List String

abbrev pub sep31_vocabulary : Vocabulary
sep31_vocabulary = record {
  failures = "refunded" ∷ "expired" ∷ "error" ∷ [];
  awaiting = "incomplete" ∷ "pending_customer_info_update" ∷ "pending_transaction_info_update" ∷ [];
  in_flight =
      "pending_sender" ∷ "pending_receiver" ∷ "pending_external" ∷ "pending_anchor"
      ∷ "pending_stellar" ∷ [];
  outside = "pending_external" ∷ "pending_receiver" ∷ [];
}

abbrev pub sep6_vocabulary : Vocabulary
sep6_vocabulary = record {
  failures = "error" ∷ "expired" ∷ "refunded" ∷ "no_market" ∷ "too_small" ∷ "too_large" ∷ [];
  awaiting =
      "incomplete" ∷ "pending_user" ∷ "pending_user_transfer_start" ∷ "pending_customer_info_update"
      ∷ "pending_transaction_info_update" ∷ [];
  in_flight =
      "pending_external" ∷ "pending_anchor" ∷ "pending_stellar" ∷ "pending_trust"
      ∷ "pending_user_transfer_complete" ∷ "on_hold" ∷ [];
  outside = "pending_external" ∷ [];
}

abbrev mapped : String → Option Phase → Bool → Bool → Bool → Mapped
mapped status phase settled failure awaiting = record {
  status = status;
  phase = phase;
  settled = settled;
  terminal_failure = failure;
  awaiting_input = awaiting;
}

-- The order of the tests of both functions.
unfoldable pub classify : Vocabulary → String → Mapped
classify v status =
    if str_eq status "completed"
    then mapped status none true false false
    else if has v.failures status
    then mapped status none false true false
    else if has v.awaiting status
    then mapped status none false false true
    else if has v.in_flight status
    then mapped status (if has v.outside status then some external else none) false false false
    else mapped status none false false false

unfoldable pub map_sep31_status : String → Mapped
unfolding classify to_lower
map_sep31_status raw = classify sep31_vocabulary (to_lower raw)

unfoldable pub map_sep6_status : String → Mapped
unfolding classify to_lower
map_sep6_status raw = classify sep6_vocabulary (to_lower raw)

-- `(raw ?? "").toLowerCase()` throws on a value that is neither missing nor a text.
abbrev pub raw_status : Option Json → Outcome String
raw_status none = ok ""
raw_status (some null) = ok ""
raw_status (some (str s)) = ok s
raw_status (some _) = err caught

abbrev memo_type_named : String → Option MemoType
memo_type_named s =
    if str_eq s "hash"
    then some Anchor.hash
    else if str_eq s "id"
    then some Anchor.id
    else if str_eq s "text"
    then some Anchor.text
    else none

abbrev memo_type_of : Option String → Option MemoType
memo_type_of none = none
memo_type_of (some s) = memo_type_named (to_lower s)

-- `parseMemoType`.
unfoldable pub parse_memo_type : Option Json → Option MemoType
unfolding to_lower
parse_memo_type v = memo_type_of (text_of v)

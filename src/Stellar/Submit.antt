-- ===== src/Stellar/Submit.antt =====
-- `StellarSettlementSubmitter` of packages/stellar/src/index.ts: what is refused before anything is
-- signed, the submission of one operation, and the path of a path payment.
pub mod Laws
pub mod Paths
use corridor_in_a_box.Base.{
  ℕ, zero, suc, ◌+◌, ◌-◌, ◌*◌, ◌/◌, String, Bool, true, false, not, ◌&&◌, ◌||◌, Option, none, some,
  List, [], ◌∷◌, if◌then◌else◌, or_else, str_eq, any, leb, ltb, min, present, is_some,
}
use corridor_in_a_box.Base.Int.{ℤ, pos, negsuc, ltb_ℤ, ◌*ℤ◌, ◌+ℤ◌, div_towards_zero}
use corridor_in_a_box.Types.{
  SettlementRef, stellar, settlement_failed, quote_expired, refund_unsupported, Money,
}
use corridor_in_a_box.Outcome.{Outcome, ok, err, fail, CorridorError, nothing, thrown, ◌>>=◌}
use corridor_in_a_box.Anchor.{OpenTransaction}
use corridor_in_a_box.Corridor.{Corridor, Network, public, testnet, is_public, is_xlm}
use corridor_in_a_box.Money.{to_scaled, from_scaled, compare_amounts, stroop_scale, Order, below}
use corridor_in_a_box.Json.{to_upper}
use corridor_in_a_box.Verbs.{SettlementRequest, needs_path_payment}
use corridor_in_a_box.Stellar.Confirm.{Confirmed, Poll, confirm_transaction}

-- The submitter's options. `root` is what reading the endpoint's root gives: none if there is nothing
-- to read it with, and inside it none if the read throws; `passphrase` is the SDK's, by network.
pub record Submitter : Type 0 where
  pub allowed_networks : List Network
  pub local_signer : Bool
  pub allow_local_signer_on_mainnet : Bool
  pub root : Option (Option (Option String))
  pub passphrase : Network → String
  pub confirm_timeout_ms : ℕ

abbrev pub same_network : Network → Network → Bool
same_network public public = true
same_network testnet testnet = true
same_network _ _ = false

abbrev pub retryable : CorridorError
retryable = record { code = settlement_failed; retryable = true; cause = nothing }

-- `{ retryable: true, cause }`.
abbrev pub retryable_thrown : CorridorError
retryable_thrown = record { code = settlement_failed; retryable = true; cause = thrown }

abbrev check_root : String → Option (Option (Option String)) → Outcome (Unit {0})
check_root expected none = ok tt
check_root expected (some none) = err retryable_thrown
check_root expected (some (some root)) =
    if not (str_eq (or_else root "") expected) then fail settlement_failed else ok tt

-- `guardNetwork`.
unfoldable pub guard_network : Submitter → Network → Outcome (Unit {0})
guard_network s network =
    if not (any (same_network network) s.allowed_networks)
    then fail settlement_failed
    else if is_public network && s.local_signer && not s.allow_local_signer_on_mainnet
    then fail settlement_failed
    else check_root (s.passphrase network) s.root

abbrev pub is_dead : Option ℕ → ℕ → Bool
is_dead none now = false
is_dead (some until) now = leb until now

-- `preflight`.
unfoldable pub preflight : Submitter → Corridor → SettlementRequest → ℕ → Outcome (Unit {0})
unfolding guard_network
preflight s c req now = do
  _ ← guard_network s c.settlement.network
  if is_dead req.valid_until now then fail quote_expired else ok tt

-- The transaction's upper time bound, in seconds.
unfoldable pub max_time : Corridor → SettlementRequest → ℕ → ℕ
max_time c req now =
    let ttl = now / 1000 + c.fx.quote_ttl_seconds in
    elim req.valid_until [ none ↦ ttl | some until ↦ min (until / 1000) ttl ]

-- How building, signing and submitting under the lock ends: nothing reached Horizon, or it accepted,
-- rejected or did not answer the transaction with the given hash.
pub data Submission : Type 0 where
  not_submitted : Submission
  accepted : String → Submission
  rejected : String → Submission
  unanswered : String → Submission

abbrev confirmed_ref : String → Outcome Confirmed → Outcome SettlementRef
confirmed_ref tx_hash (err e) = err e
confirmed_ref tx_hash (ok c) = ok (stellar tx_hash c.ledger c.fee_charged none)

abbrev ambiguous_ref : String → Outcome Confirmed → Outcome SettlementRef
ambiguous_ref tx_hash (err e) = err (record e { cause = thrown })
ambiguous_ref tx_hash (ok c) = ok (stellar tx_hash c.ledger c.fee_charged none)

abbrev pub after_confirm :
    (Outcome Confirmed → Outcome SettlementRef)
    → Option (Outcome Confirmed)
    → Option (Outcome SettlementRef)
after_confirm f none = none
after_confirm f (some r) = some (f r)

-- `send`: what is known to have failed may be tried again; what may have been applied is looked up
-- by its hash and never sent again. `confirm` is the polling loop on that hash.
unfoldable pub send :
    (String → Option (Outcome Confirmed)) → Submission → Option (Outcome SettlementRef)
send confirm not_submitted = some (err retryable_thrown)
send confirm (rejected tx_hash) = some (err retryable_thrown)
send confirm (accepted tx_hash) = after_confirm (confirmed_ref tx_hash) (confirm tx_hash)
send confirm (unanswered tx_hash) = after_confirm (ambiguous_ref tx_hash) (confirm tx_hash)

abbrev when_clear :
    Outcome (Unit {0}) → Bool → Option (Outcome SettlementRef) → Option (Outcome SettlementRef)
when_clear (err e) by_path sent = some (err e)
when_clear (ok u) by_path sent = if by_path then some (fail settlement_failed) else sent

-- `submit`: none is a run that was still polling when its fuel ran out.
unfoldable pub submit :
    Submitter
    → Corridor
    → SettlementRequest
    → ℕ
    → (String → Option (Outcome Confirmed))
    → Submission
    → Option (Outcome SettlementRef)
unfolding preflight send needs_path_payment
submit s c req now confirm submission =
    when_clear (preflight s c req now) (needs_path_payment c) (send confirm submission)

-- A payment on chain cannot be taken back by its sender.
unfoldable pub refund : SettlementRef → Outcome SettlementRef
refund original = fail refund_unsupported

-- A record of Horizon's strict-send paths.
pub record PathRecord {ℓ} (Asset : Type ℓ) : Type ℓ where
  pub destination_amount : List ℕ
  pub path : List Asset

abbrev pub usable : Outcome ℤ → Option ℤ
usable (err e) = none
usable (ok v) = if ltb_ℤ (pos 0) v then some v else none

module _ {ℓ} {Asset : Type ℓ} where
  abbrev pub better :
      PathRecord Asset → Option ℤ → Option (PathRecord Asset × ℤ) → Option (PathRecord Asset × ℤ)
  better r none best = best
  better r (some v) none = some (r, v)
  better r (some v) (some (b, w)) = if ltb_ℤ w v then some (r, v) else some (b, w)

  -- The loop over the records: the first that delivers the most.
  unfoldable pub best_path :
      List (PathRecord Asset) → Option (PathRecord Asset × ℤ) → Option (PathRecord Asset × ℤ)
  unfolding to_scaled
  best_path [] best = best
  best_path (r ∷ rs) best =
      best_path rs (better r (usable (to_scaled r.destination_amount stroop_scale)) best)

  abbrev pub taken : Option (PathRecord Asset × ℤ) → Outcome (List ℕ × List Asset)
  taken none = fail settlement_failed
  taken (some (r, v)) = ok (from_scaled v stroop_scale, r.path)

  -- `bestStrictSendPath`: none is a query that threw. The amount and the path of the best record.
  unfoldable pub best_strict_send_path :
      Option (List (PathRecord Asset)) → Outcome (List ℕ × List Asset)
  unfolding best_path from_scaled
  best_strict_send_path none = err retryable_thrown
  best_strict_send_path (some records) = taken (best_path records none)

-- `(scaled * (10000 - bps) + 9999) / 10000`.
unfoldable pub floor_of : ℤ → ℕ → ℤ
unfolding ◌*ℤ◌ ◌+ℤ◌
floor_of scaled bps = div_towards_zero (scaled *ℤ pos (10_000 - bps) +ℤ pos 9_999) 10_000

abbrev slipped : ℕ → Outcome ℤ → Outcome (List ℕ)
slipped bps (err e) = fail settlement_failed
slipped bps (ok v) =
    if not (ltb_ℤ (pos 0) v)
    then fail settlement_failed
    else if leb 10_000 bps
    then fail settlement_failed
    else ok (from_scaled (floor_of v bps) stroop_scale)

-- `applySlippage`.
unfoldable pub apply_slippage : List ℕ → ℕ → Outcome (List ℕ)
unfolding to_scaled from_scaled floor_of
apply_slippage expected bps = slipped bps (to_scaled expected stroop_scale)

abbrev pub default_max_slippage_bps : ℕ
default_max_slippage_bps = 50

abbrev too_low : Outcome Order → Bool
too_low (ok below) = true
too_low (ok _) = false
too_low (err e) = true

abbrev undercuts : List ℕ → Option (List ℕ) → Bool
undercuts dest_min none = false
undercuts dest_min (some required) = too_low (compare_amounts dest_min required stroop_scale)

-- The floor of a path payment: the best path less the slippage, unless the anchor requires more.
unfoldable pub dest_min_of {ℓ} :
    {Asset : Type ℓ}
    → Option (List (PathRecord Asset))
    → ℕ
    → Option (List ℕ)
    → Outcome (List ℕ × List Asset)
unfolding best_strict_send_path apply_slippage compare_amounts
dest_min_of records bps required = do
  (amount, path) ← best_strict_send_path records
  dest_min ← apply_slippage amount bps
  if undercuts dest_min required then fail settlement_failed else ok (dest_min, path)

-- `submitPathPayment`; `submission` is what becomes of the operation with the floor and the path.
unfoldable pub submit_path_payment {ℓ} :
    {Asset : Type ℓ}
    → Submitter
    → Corridor
    → SettlementRequest
    → ℕ
    → Option ℕ
    → Option (List (PathRecord Asset))
    → Option (List ℕ)
    → (String → Option (Outcome Confirmed))
    → (List ℕ → List Asset → Submission)
    → Option (Outcome SettlementRef)
unfolding preflight dest_min_of send
submit_path_payment s c req now bps records required confirm submission =
    elim (preflight s c req now >>= λ u.
    dest_min_of records (or_else bps default_max_slippage_bps) required) [
      | err e ↦ some (err e)
      | ok (dest_min, path) ↦ send confirm (submission dest_min path)
    ]

-- ===== src/Stellar/Submit/Laws.antt =====
-- What the submitter of packages/stellar/src/index.ts promises: the floor of a path payment, and when
-- a settlement may be tried again.
use corridor_in_a_box.Base.{
  ℕ, ◌+◌, ◌-◌, ◌*◌, ◌/◌, ◌≤◌, ◌<◌, ◌≡◌, ◌≢◌, ◌⊎◌, inl, inr, refl, sym, ap, ◌∙◌, List, String,
  Option, none, some, Bool, true, false, arith, Bool-cases, true_not_false, not, ◌&&◌,
  if◌then◌else◌, any,
}
use corridor_in_a_box.Base.Int.{ℤ, pos, negsuc, ltb_ℤ, ◌+ℤ◌, ◌*ℤ◌}
use corridor_in_a_box.Types.{SettlementRef, quote_expired}
use corridor_in_a_box.Outcome.{Outcome, ok, err, fail, CorridorError, ◌>>=◌, err-ne-ok}
use corridor_in_a_box.Corridor.{Corridor, Network, is_public}
use corridor_in_a_box.Verbs.{SettlementRequest, needs_path_payment}
use corridor_in_a_box.Money.{to_scaled, from_scaled, stroop_scale}
use corridor_in_a_box.Money.RoundTrip.{to_scaled-from_scaled}
use corridor_in_a_box.Money.Exact.{StandsFor}
use corridor_in_a_box.Stellar.Confirm.{Confirmed, Poll, confirm_transaction}
use corridor_in_a_box.Stellar.Confirm.Laws.{confirm_not_retryable}
use corridor_in_a_box.Stellar.Submit.{
  floor_of, slipped, apply_slippage, Submission, not_submitted, accepted, rejected, unanswered,
  send, Submitter, guard_network, preflight, submit, same_network, when_clear, after_confirm,
  check_root, is_dead, confirmed_ref, ambiguous_ref,
}

floor_of-pos : (v bps : ℕ) → floor_of (pos v) bps ≡ pos ((v * (10_000 - bps) + 9_999) / 10_000)
unfolding floor_of ◌*ℤ◌ ◌+ℤ◌
floor_of-pos v bps = ground arith

not_positive : (v : ℕ) → ltb_ℤ (pos 0) (negsuc v) ≡ false
not_positive v = ground arith

negative_refused : (bps v : ℕ) (t : List ℕ) → slipped bps (ok (negsuc v)) ≢ ok t
negative_refused bps v t = rw (not_positive v) (λ h. cc)

slipped_ok :
    (bps : ℕ) (u : Outcome ℤ) (t : List ℕ)
    → slipped bps u ≡ ok t
    → (v : ℕ) × (u ≡ ok (pos v))
      × (bps < 10_000)
      × (from_scaled (floor_of (pos v) bps) stroop_scale ≡ t)
slipped_ok bps (err e) t h = cc
slipped_ok bps (ok (pos v)) t h = (v, refl, ground arith, ground arith)
slipped_ok bps (ok (negsuc v)) t h = absurd (negative_refused bps v t h)

-- The floor of a path payment: an accepted slippage is below 10000 basis points, and what it leaves of
-- the expected amount is rounded up to a whole stroop and by less than one.
pub apply_slippage_bounds :
    (expected : List ℕ) (bps : ℕ) (t : List ℕ)
    → apply_slippage expected bps ≡ ok t
    → (v : ℕ) × (r : ℕ) × StandsFor expected stroop_scale (pos v)
      × StandsFor t stroop_scale (pos r)
      × (bps < 10_000)
      × (v * (10_000 - bps) ≤ r * 10_000)
      × (r * 10_000 < v * (10_000 - bps) + 10_000)
unfolding apply_slippage
apply_slippage_bounds expected bps t h =
    let (v, e, small, printed) = slipped_ok bps (to_scaled expected stroop_scale) t h in
    let r = (v * (10_000 - bps) + 9_999) / 10_000 in
    (
      v,
      r,
      e,
      ap (λ s. to_scaled s stroop_scale) (sym printed)
          ∙ to_scaled-from_scaled (floor_of (pos v) bps) stroop_scale
          ∙ ap ok (floor_of-pos v bps),
      small,
      omega arith,
      omega arith,
    )

none_sent : {A : Type 0} {e : CorridorError} {a : A} → some (Outcome.err e) ≢ some (ok a)
none_sent h = cc

confirmed_final :
    (h : String) (r : Option (Outcome Confirmed)) (e : CorridorError)
    → ((f : CorridorError) → r ≡ some (err f) → f.retryable ≡ false)
    → after_confirm (confirmed_ref h) r ≡ some (err e)
    → e.retryable ≡ false
confirmed_final h none e final r = cc
confirmed_final h (some (ok c)) e final r = cc
confirmed_final h (some (err f)) e final r = ground (arith, final f refl)

ambiguous_final :
    (h : String) (r : Option (Outcome Confirmed)) (e : CorridorError)
    → ((f : CorridorError) → r ≡ some (err f) → f.retryable ≡ false)
    → after_confirm (ambiguous_ref h) r ≡ some (err e)
    → e.retryable ≡ false
ambiguous_final h none e final r = cc
ambiguous_final h (some (ok c)) e final r = cc
ambiguous_final h (some (err f)) e final r = ground (arith, final f refl)

module _ (polls : String → ℕ → Poll) (now : ℕ → ℕ) (timeout_ms fuel : ℕ) where
  abbrev confirm_by : String → Option (Outcome Confirmed)
  confirm_by h = confirm_transaction (polls h) now timeout_ms fuel

  -- A settlement that may be tried again has certainly not been applied: nothing was submitted, or
  -- Horizon rejected it. What may have been applied is looked up, and is never tried again.
  pub send_retryable :
      (s : Submission) (e : CorridorError)
      → send confirm_by s ≡ some (err e)
      → e.retryable ≡ true
      → (s ≡ not_submitted) ⊎ ((h : String) × (s ≡ rejected h))
  unfolding send
  send_retryable not_submitted e r again = inl refl
  send_retryable (rejected h) e r again = inr (h, refl)
  send_retryable (accepted h) e r again = absurd (
      true_not_false again (
        confirmed_final h (confirm_by h) e (confirm_not_retryable (polls h) now timeout_ms fuel) r))
  send_retryable (unanswered h) e r again = absurd (
      true_not_false again (
        ambiguous_final h (confirm_by h) e (confirm_not_retryable (polls h) now timeout_ms fuel) r))

-- What has to hold before anything is signed: the network is allowed, a local key does not sign on the
-- public network unless that was allowed, an endpoint whose root was read is on the network, and the
-- quote is alive.
pub record IsCleared (s : Submitter) (network : Network) (until : Option ℕ) (now : ℕ) : Type 0 where
  pub allowed : any (same_network network) s.allowed_networks ≡ true
  pub signer : (is_public network && s.local_signer && not s.allow_local_signer_on_mainnet) ≡ false
  pub endpoint : check_root (s.passphrase network) s.root ≡ ok tt
  pub alive : is_dead until now ≡ false

guard_network_ok :
    (s : Submitter) (network : Network) (until : Option ℕ) (now : ℕ)
    → guard_network s network ≡ ok tt
    → is_dead until now ≡ false
    → IsCleared s network until now
unfolding guard_network
guard_network_ok s network until now h alive =
    elim (Bool-cases (any (same_network network) s.allowed_networks)) [
      | inl yes_allowed ↦
          elim (Bool-cases
            (is_public network && s.local_signer && not s.allow_local_signer_on_mainnet)) [
              | inl local ↦ absurd (err-ne-ok (rw (yes_allowed, local) at h))
              | inr remote ↦ record {
                allowed = yes_allowed;
                signer = remote;
                endpoint = rw (yes_allowed, remote) at h;
                alive = alive;
              }
            ]
      | inr not_allowed ↦ absurd (err-ne-ok (rw not_allowed at h))
    ]

guard_then :
    (g : Outcome (Unit {0})) (dead : Bool)
    → (g >>= λ (u : Unit {0}). if dead then fail quote_expired else ok (tt {0})) ≡ ok (tt {0})
    → (g ≡ ok (tt {0})) × (dead ≡ false)
guard_then (err e) dead h = absurd (err-ne-ok h)
guard_then (ok u) true h = absurd (err-ne-ok h)
guard_then (ok u) false h = (refl, refl)

sent_when_clear :
    (p : Outcome (Unit {0})) (by_path : Bool) (sent : Option (Outcome SettlementRef))
    (ref : SettlementRef)
    → when_clear p by_path sent ≡ some (ok ref)
    → (p ≡ ok tt) × (by_path ≡ false)
sent_when_clear (err e) by_path sent ref h = absurd (none_sent h)
sent_when_clear (ok u) true sent ref h = absurd (none_sent h)
sent_when_clear (ok u) false sent ref h = (refl, refl)

preflight_ok :
    (s : Submitter) (c : Corridor) (req : SettlementRequest) (now : ℕ)
    → preflight s c req now ≡ ok tt
    → IsCleared s c.settlement.network req.valid_until now
unfolding preflight
preflight_ok s c req now h =
    let (clear, alive) =
      guard_then (guard_network s c.settlement.network) (is_dead req.valid_until now) h in
    guard_network_ok s c.settlement.network req.valid_until now clear alive

-- A settlement succeeds only where the submitter was cleared to sign it, and for a corridor whose
-- anchor receives the bridge asset itself.
pub submit-IsCleared :
    (s : Submitter) (c : Corridor) (req : SettlementRequest) (now : ℕ)
    (confirm : String → Option (Outcome Confirmed)) (submission : Submission) (ref : SettlementRef)
    → submit s c req now confirm submission ≡ some (ok ref)
    → IsCleared s c.settlement.network req.valid_until now × (needs_path_payment c ≡ false)
unfolding submit
submit-IsCleared s c req now confirm submission ref h =
    let (clear, plain) =
      sent_when_clear (preflight s c req now) (needs_path_payment c) (send confirm submission) ref
        h in
    (preflight_ok s c req now clear, plain)

-- ===== src/Liveness.antt =====
-- packages/manifest/src/liveness.ts: what is known of a corridor's ability to move money. A warning
-- is a constructor, without its prose.
pub mod Laws
use corridor_in_a_box.Base.{
  ℕ, ◌+◌, ◌-◌, ◌*◌, String, Bool, true, false, not, ◌&&◌, ◌||◌, Option, none, some, List, [], ◌∷◌,
  ◌++◌, if◌then◌else◌, ltb, leb, present,
}
use corridor_in_a_box.Corridor.{
  Corridor, DestProtocol, sep31, sep6, custom, DestEndpoints, QuoteSource, sep38, native, external,
  Proof, Recovery,
}

pub data LivenessState : Type 0 where
  proven verified unverified not_runnable : LivenessState

pub data Warning : Type 0 where
  no_required_endpoint endpoints_unverified no_quote_server external_quote no_web_auth : Warning
  no_kyc_server stall_never_fires timeout_first proof_not_a_date proof_in_future proof_stale :
      Warning

pub record Liveness : Type 0 where
  pub state : LivenessState
  pub runnable : Bool
  pub warnings : List Warning
  -- whether "quote" is among the gaps
  pub quote_gap : Bool

-- `REQUIRED_DEST_ENDPOINT[protocol] ?? "base_url"`, read from the endpoints.
unfoldable pub required_endpoint : DestProtocol → DestEndpoints → Option String
required_endpoint sep31 e = e.transfer_server_sep31
required_endpoint sep6 e = e.transfer_server
required_endpoint (custom _) e = e.base_url

-- `protocol === "sep31" || protocol === "sep6"`.
abbrev is_sep : DestProtocol → Bool
is_sep (custom _) = false
is_sep _ = true

abbrev warn_if : Bool → Warning → List Warning
warn_if b w = if b then w ∷ [] else []

abbrev is_sep38 : QuoteSource → Bool
is_sep38 sep38 = true
is_sep38 _ = false

abbrev is_external : QuoteSource → Bool
is_external external = true
is_external _ = false

stall_too_late : Option ℕ → Option ℕ → ℕ → Bool
stall_too_late (some poll) (some polls) timeout = ltb 0 polls && leb timeout (poll * polls)
stall_too_late _ _ timeout = false

abbrev day_ms : ℕ
day_ms = 24 * 60 * 60 * 1000

-- The proof of a verified lane at the time `now`: the state that it earns, and what is warned of.
read_proof : ℕ → Option ℕ → ℕ → LivenessState × List Warning
read_proof now none max_age = (verified, proof_not_a_date ∷ [])
read_proof now (some completed) max_age =
    if ltb now completed
    then (verified, proof_in_future ∷ [])
    else if ltb (max_age * day_ms) (now - completed)
    then (verified, proof_stale ∷ [])
    else (proven, [])

weigh : ℕ → Bool → Bool → Option Proof → LivenessState × List Warning
unfolding read_proof
weigh now false checked proof = (not_runnable, [])
weigh now true false proof = (unverified, [])
weigh now true true none = (verified, [])
weigh now true true (some p) = read_proof now p.canary_completed_at p.max_age_days

abbrev is_runnable : LivenessState → Bool
is_runnable verified = true
is_runnable proven = true
is_runnable _ = false

unfoldable pub liveness : Corridor → ℕ → Liveness
unfolding required_endpoint stall_too_late weigh
liveness c now =
    let e = c.dest.endpoints in
    let sep = is_sep c.dest.protocol in
    let has_required = present (required_endpoint c.dest.protocol e) in
    let checked = present e.endpoints_verified_at in
    let rc = c.recovery.reconcile in
    let (state, about_proof) = weigh now has_required checked c.proof in
    record {
      state = state;
      runnable = is_runnable state;
      warnings =
          (if not has_required
            then no_required_endpoint ∷ []
            else warn_if (not checked) endpoints_unverified)
          ++ (warn_if (is_sep38 c.fx.quote_source && not (present e.quote_server) && sep)
                no_quote_server
              ++ (warn_if (is_external c.fx.quote_source) external_quote
                  ++ (warn_if (sep && not (present e.web_auth)) no_web_auth
                      ++ (warn_if (not (present e.kyc_server) && sep) no_kyc_server
                          ++ (warn_if
                                (stall_too_late rc.poll_seconds rc.stall_polls
                                  c.recovery.timeout_seconds)
                                stall_never_fires
                              ++ (warn_if (leb c.recovery.timeout_seconds rc.external_stall_seconds)
                                    timeout_first
                                  ++ about_proof))))));
      quote_gap = is_external c.fx.quote_source;
    }

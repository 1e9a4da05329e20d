-- ===== src/Corridor.antt =====
-- packages/manifest/src/index.ts: the fields of a validated corridor manifest that the engine reads.
-- An amount is decimal text (code points), a duration a number of seconds.
use corridor_in_a_box.Base.{
  ℕ, String, Bool, true, false, ◌&&◌, ◌||◌, Option, List, [], ◌∷◌, codes, ◌==◌,
}
use corridor_in_a_box.Anchor.{ComplianceMethod}

pub data DestProtocol : Type 0 where
  sep31 sep6 : DestProtocol
  custom : String → DestProtocol

pub record DestEndpoints : Type 0 where
  pub home_domain : String
  pub transfer_server_sep31 : Option String
  pub transfer_server : Option String
  pub base_url : Option String
  pub web_auth : Option String
  pub kyc_server : Option String
  pub quote_server : Option String
  pub endpoints_verified_at : Option String

pub record Dest : Type 0 where
  pub asset : String
  pub protocol : DestProtocol
  pub endpoints : DestEndpoints

pub data SourceProtocol : Type 0 where
  prefunded sep6 sep24 : SourceProtocol
  custom : String → SourceProtocol

abbrev pub is_prefunded : SourceProtocol → Bool
is_prefunded prefunded = true
is_prefunded _ = false

pub data QuoteSource : Type 0 where
  sep38 native external : QuoteSource

pub data RiskHolder : Type 0 where
  sender sending_anchor receiving_anchor : RiskHolder

pub record Fx : Type 0 where
  pub quote_source : QuoteSource
  pub who_holds_risk : RiskHolder
  pub quote_ttl_seconds : ℕ
  pub min_quote_remaining_seconds : ℕ

pub data Network : Type 0 where
  public testnet : Network

abbrev pub is_public : Network → Bool
is_public public = true
is_public testnet = false

pub record Settlement : Type 0 where
  pub bridge_asset : String
  pub network : Network
  pub asset_issuer : String
  pub receive_asset : Option String
  pub receive_asset_issuer : Option String

pub record Limits : Type 0 where
  pub min_amount : Option (List ℕ)
  pub max_amount : Option (List ℕ)

pub record ReconcilePolicy : Type 0 where
  pub poll_seconds : Option ℕ
  pub stall_polls : Option ℕ
  pub external_stall_seconds : ℕ

pub data Rollback : Type 0 where
  refund_sender hold manual : Rollback

pub record Recovery : Type 0 where
  pub max_retries : ℕ
  pub timeout_seconds : ℕ
  pub refund_wait_seconds : ℕ
  pub rollback : Rollback
  pub reconcile : ReconcilePolicy
  -- `breaker.consecutive_failures`
  pub breaker_failures : ℕ

-- `canary_completed_at` is the time that `new Date(...)` reads: none where it is not a date.
pub record Proof : Type 0 where
  pub canary_completed_at : Option ℕ
  pub max_age_days : ℕ
  pub canary_max_amount : Option (List ℕ)

pub record Corridor : Type 0 where
  pub id : String
  pub source_protocol : SourceProtocol
  pub dest : Dest
  pub fx : Fx
  pub compliance_method : Option ComplianceMethod
  pub settlement : Settlement
  pub recovery : Recovery
  pub limits : Limits
  pub proof : Option Proof

-- `s.toUpperCase() === "XLM"`.
is_xlm_codes : List ℕ → Bool
is_xlm_codes (x ∷ l ∷ m ∷ []) =
    (x == b'X' || x == b'x') && (l == b'L' || l == b'l') && (m == b'M' || m == b'm')
is_xlm_codes _ = false

unfoldable pub is_xlm : String → Bool
unfolding is_xlm_codes
is_xlm s = is_xlm_codes (codes s)

-- ===== src/Registry.antt =====
-- `AnchorRegistry` of packages/registry/src/index.ts, over the reads of the contract, and the pure
-- functions on what it answers. A read that throws is none. The parts of the client that page
-- through events, and the metadata of an anchor, are left out.
pub mod Laws
use corridor_in_a_box.Base.{
  ℕ, suc, ◌+◌, ◌*◌, ◌/◌, ◌%◌, ◌^◌, String, Bool, true, false, not, ◌&&◌, ◌||◌, ◌==◌, Option, none,
  some, List, [], ◌∷◌, if◌then◌else◌, str_eq, any, all, ltb, leb,
}
use corridor_in_a_box.Router.{Source, aware}

-- The read-only calls of the contract.
pub record Reads : Type 0 where
  pub domains : Option (List String)
  pub serves_sep31 : String → Option Bool
  pub serves_sep6 : String → Option Bool
  pub staleness : String → Option ℕ

pub data Protocol : Type 0 where
  sep31 sep6 : Protocol

abbrev pub protocol_name : Protocol → String
protocol_name sep31 = "sep31"
protocol_name sep6 = "sep6"

-- `serves`.
unfoldable pub serves_of : Reads → String → Protocol → Option Bool
serves_of reads domain sep31 = reads.serves_sep31 domain
serves_of reads domain sep6 = reads.serves_sep6 domain

-- The registry as the resolver's source of attestations; the switch has no case for another protocol.
abbrev by_name : Reads → String → String → Option Bool
by_name reads domain protocol =
    if str_eq protocol "sep31"
    then reads.serves_sep31 domain
    else if str_eq protocol "sep6"
    then reads.serves_sep6 domain
    else none

unfoldable pub source_of : Reads → Source
source_of reads = aware (by_name reads) reads.staleness

abbrev pub is_live : Option Bool → Option ℕ → ℕ → Option Bool
is_live (some serves) (some age) limit = some (serves && leb age limit)
is_live _ _ limit = none

abbrev pub keep_live : Option Bool → String → Option (List String) → Option (List String)
keep_live (some true) domain (some rest) = some (domain ∷ rest)
keep_live (some false) domain (some rest) = some rest
keep_live _ domain _ = none

-- The loop of `liveAnchors` over the domains.
unfoldable pub live_among : Reads → Protocol → ℕ → List String → Option (List String)
unfolding serves_of
live_among reads protocol limit [] = some []
live_among reads protocol limit (domain ∷ rest) =
    keep_live (is_live (serves_of reads domain protocol) (reads.staleness domain) limit) domain
      (live_among reads protocol limit rest)

-- `liveAnchors`.
unfoldable pub live_anchors : Reads → Protocol → ℕ → Option (List String)
unfolding live_among
live_anchors reads protocol limit = elim reads.domains [
  | none ↦ none
  | some all ↦ live_among reads protocol limit all
]

-- `decodeBits`: the names whose bits are set.
abbrev decode_from : ℕ → List ℕ → ℕ → List ℕ
decode_from mask [] i = []
decode_from mask (name ∷ names) i =
    let rest = decode_from mask names (suc i) in if mask / 2 ^ i % 2 == 1 then name ∷ rest else rest

unfoldable pub decode_bits : ℕ → List ℕ → List ℕ
decode_bits mask names = decode_from mask names 0

-- What `filterAttestations` reads of a record; SEPs and probes by their numbers.
pub record Attestation : Type 0 where
  pub domain : String
  pub seps : List ℕ
  pub probes_passed : List ℕ
  pub receive_assets : Option (List String)
  pub country : Option String

pub record Filter : Type 0 where
  pub sep : Option (List ℕ)
  pub passed : Option (List ℕ)
  pub max_age : Option ℕ
  pub country : Option String
  pub asset : Option (List String)

abbrev pub has_all : Option (List ℕ) → List ℕ → Bool
has_all none present = true
has_all (some asked) present = all (λ n. any (λ m. m == n) present) asked

abbrev pub is_young : Option ℕ → Option ℕ → Bool
is_young none age = true
is_young (some limit) none = false
is_young (some limit) (some age) = not (ltb limit age)

abbrev pub is_from : Option String → Option String → Bool
is_from none country = true
is_from (some asked) none = false
is_from (some asked) (some country) = str_eq country asked

abbrev pub receives_all : Option (List String) → Option (List String) → Bool
receives_all none received = true
receives_all (some []) received = true
receives_all (some (c ∷ cs)) none = false
receives_all (some (c ∷ cs)) (some received) = all (λ code. any (str_eq code) received) (c ∷ cs)

unfoldable pub matches : (String → Option ℕ) → Filter → Attestation → Bool
matches age_of opts r =
    has_all opts.sep r.seps
    && has_all opts.passed r.probes_passed
    && is_young opts.max_age (age_of r.domain)
    && is_from opts.country r.country
    && receives_all opts.asset r.receive_assets

-- `filterAttestations`.
unfoldable pub filter_attestations :
    List Attestation → (String → Option ℕ) → Filter → List Attestation
unfolding matches
filter_attestations [] age_of opts = []
filter_attestations (r ∷ rs) age_of opts =
    let rest = filter_attestations rs age_of opts in
    if matches age_of opts r then r ∷ rest else rest

-- `findStale`, by the record's age.
pub data Staleness : Type 0 where
  stale : ℕ → Staleness
  never_attested : Staleness

abbrev pub stale_of : Bool → Option ℕ → ℕ → Option Staleness
stale_of true age threshold = some never_attested
stale_of false none threshold = some never_attested
stale_of false (some age) threshold = if ltb threshold age then some (stale age) else none

unfoldable pub find_stale : List (String × Bool × Option ℕ) → ℕ → List (String × Staleness)
find_stale [] threshold = []
find_stale ((domain, never, age) ∷ rs) threshold =
    let rest = find_stale rs threshold in
    elim (stale_of never age threshold) [ none ↦ rest | some s ↦ (domain, s) ∷ rest ]

-- ===== src/Router.antt =====
-- packages/router/src: the registry of adapters (adapters.ts), the resolver that trusts the manifest
-- (index.ts) and the one that asks the on-chain registry (registry-resolver.ts). An adapter is any
-- type; a resolver that answers none has thrown.
pub mod Laws
use corridor_in_a_box.Base.{
  ℕ, String, Bool, true, false, not, ◌&&◌, ◌||◌, Option, none, some, List, [], ◌∷◌, if◌then◌else◌,
  or_else, str_eq, any, ltb,
}
use corridor_in_a_box.Corridor.{Corridor, DestProtocol, sep31, sep6, custom}
use Prim.Native.String

-- `protocolOf`.
abbrev protocol_name : DestProtocol → String
protocol_name sep31 = "sep31"
protocol_name sep6 = "sep6"
protocol_name (custom id) = String.◌++◌ "custom:" id

unfoldable pub protocol_of : Corridor → String
protocol_of c = protocol_name c.dest.protocol

abbrev pub Factories {ℓ} : Type ℓ → Type ℓ
Factories Adapter = List (String × (Corridor → Adapter))

module _ {ℓ} {Adapter : Type ℓ} where
  unfoldable pub lookup : String → Factories Adapter → Option (Corridor → Adapter)
  lookup protocol [] = none
  lookup protocol ((p, factory) ∷ rest) =
      if str_eq p protocol then some factory else lookup protocol rest

  -- `factories.set`.
  unfoldable pub register : String → (Corridor → Adapter) → Factories Adapter → Factories Adapter
  register protocol factory [] = (protocol, factory) ∷ []
  register protocol factory ((p, f) ∷ rest) =
      if str_eq p protocol
      then (protocol, factory) ∷ rest
      else (p, f) ∷ register protocol factory rest

  unfoldable pub has : Corridor → Factories Adapter → Bool
  unfolding lookup protocol_of
  has c fs = elim (lookup (protocol_of c) fs) [ none ↦ false | some f ↦ true ]

  -- `adapterFor`: none is the error of a protocol that nobody registered.
  unfoldable pub adapter_for : Corridor → Factories Adapter → Option Adapter
  unfolding lookup protocol_of
  adapter_for c fs = elim (lookup (protocol_of c) fs) [ none ↦ none | some f ↦ some (f c) ]

pub data Trust : Type 0 where
  attested manifest : Trust

pub record Decision {ℓ} (Adapter : Type ℓ) : Type ℓ where
  pub receiving : Adapter
  pub trust : Trust

-- Either shape of attestation source; a lookup that answers none has thrown.
pub data Source : Type 0 where
  aware : (serves : String → String → Option Bool) (staleness : String → Option ℕ) → Source
  legacy : (serves_sep31 : String → Option Bool) (staleness : String → Option ℕ) → Source

-- `asAttestationSource`: a source of the older shape does not speak for another protocol.
unfoldable pub serves : Source → String → String → Option Bool
serves (aware answers _) domain protocol = answers domain protocol
serves (legacy answers _) domain protocol =
    if str_eq protocol "sep31" then answers domain else some false

unfoldable pub staleness : Source → String → Option ℕ
staleness (aware _ age) domain = age domain
staleness (legacy _ age) domain = age domain

unfoldable pub is_attested_protocol : String → Bool
is_attested_protocol protocol = str_eq protocol "sep31" || str_eq protocol "sep6"

pub record ResolverOptions {ℓ} (Adapter : Type ℓ) : Type ℓ where
  pub registry : Source
  pub adapter_of : Corridor → Adapter
  pub max_staleness_ledgers : Option ℕ
  pub allow_unattested_domains : List String

abbrev pub week_of_ledgers : ℕ
week_of_ledgers = 120_960

abbrev pub is_allowed : List String → String → Bool
is_allowed domains domain = any (str_eq domain) domains

-- What the gate makes of the two lookups.
abbrev pub is_evidence : Option Bool → Option ℕ → ℕ → Bool
is_evidence (some true) (some age) limit = not (ltb limit age)
is_evidence _ _ limit = false

module _ {ℓ} {Adapter : Type ℓ} where
  -- `RegistryRouteResolver.resolve`.
  unfoldable pub resolve : ResolverOptions Adapter → Corridor → Option (Decision Adapter)
  unfolding protocol_of serves staleness is_attested_protocol
  resolve opts c =
      let domain = c.dest.endpoints.home_domain in
      let protocol = protocol_of c in
      let route = some (record { receiving = opts.adapter_of c; trust = attested }) in
      if is_allowed opts.allow_unattested_domains domain
      then route
      else if not (is_attested_protocol protocol)
      then none
      else if is_evidence (serves opts.registry domain protocol) (staleness opts.registry domain)
          (or_else opts.max_staleness_ledgers week_of_ledgers)
      then route
      else none

  -- `StaticRouteResolver`: the constructor throws without the explicit option.
  unfoldable pub static_resolve : Bool → (Corridor → Adapter) → Corridor → Option (Decision Adapter)
  static_resolve trust_manifest adapter_of c =
      if trust_manifest then some (record { receiving = adapter_of c; trust = manifest }) else none

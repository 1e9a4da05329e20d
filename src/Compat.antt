-- ===== src/Compat.antt =====
-- packages/engine/src/compat.ts: whether an adapter and the configured strategies can honour a
-- corridor, checked before anything is quoted or opened.
use corridor_in_a_box.Base.{
  ◌≡◌, ◌≢◌, ◌↔◌, Bool, true, false, not, Option, none, some, List, [], ◌∷◌, if◌then◌else◌, any, all,
  arith,
}
use corridor_in_a_box.Types.{capability_mismatch}
use corridor_in_a_box.Outcome.{Outcome, ok, fail}
use corridor_in_a_box.Anchor.{
  QuoteKind, sep38_firm, sep38_indicative, ComplianceMethod, sep12, sep6_fields, bespoke, no_kyc,
  AdapterCapabilities, InstructionsKind,
}
use corridor_in_a_box.Corridor.{Corridor, QuoteSource, sep38}
use corridor_in_a_box.Verbs.{SettlementStrategy, same_kind}

abbrev pub is_sep38_kind : QuoteKind → Bool
is_sep38_kind sep38_firm = true
is_sep38_kind sep38_indicative = true
is_sep38_kind _ = false

abbrev pub same_method : ComplianceMethod → ComplianceMethod → Bool
same_method sep12 sep12 = true
same_method sep6_fields sep6_fields = true
same_method bespoke bespoke = true
same_method no_kyc no_kyc = true
same_method _ _ = false

abbrev pub quotes_fit : QuoteSource → List QuoteKind → Bool
quotes_fit sep38 quotes = any is_sep38_kind quotes
quotes_fit _ quotes = true

-- Only a method that the manifest names is checked.
abbrev pub method_fits : Option ComplianceMethod → ComplianceMethod → Bool
method_fits none kyc = true
method_fits (some m) kyc = same_method m kyc

abbrev is_empty : List InstructionsKind → Bool
is_empty [] = true
is_empty (k ∷ ks) = false

abbrev pub is_covered : List SettlementStrategy → InstructionsKind → Bool
is_covered strategies kind = any (λ s. same_kind s.kind kind) strategies

unfoldable pub check_compatibility :
    Corridor → AdapterCapabilities → List SettlementStrategy → Outcome (Unit {0})
check_compatibility corridor caps strategies =
    if not (quotes_fit corridor.fx.quote_source caps.quotes)
    then fail capability_mismatch
    else if not (method_fits corridor.compliance_method caps.kyc)
    then fail capability_mismatch
    else if is_empty caps.settlement
    then fail capability_mismatch
    else if not (all (is_covered strategies) caps.settlement)
    then fail capability_mismatch
    else ok tt

-- A corridor passes exactly when its quote source and its declared KYC method are ones that the
-- adapter offers, and some configured strategy covers each settlement kind of the adapter, of which
-- there is one at least.
pub check_compatibility-ok_iff :
    (c : Corridor) (caps : AdapterCapabilities) (strategies : List SettlementStrategy)
    → (check_compatibility c caps strategies ≡ ok tt) ↔ (
        (quotes_fit c.fx.quote_source caps.quotes ≡ true)
        × (method_fits c.compliance_method caps.kyc ≡ true)
        × (caps.settlement ≢ [])
        × (all (is_covered strategies) caps.settlement ≡ true))
unfolding check_compatibility
check_compatibility-ok_iff c caps strategies = ground arith

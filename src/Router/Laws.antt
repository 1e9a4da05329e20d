-- ===== src/Router/Laws.antt =====
-- What the gate of packages/router/src/registry-resolver.ts lets through.
use corridor_in_a_box.Base.{
  ℕ, ◌≤◌, ◌≡◌, ◌↔◌, ◌⊎◌, inl, inr, refl, String, Bool, true, false, not, ◌||◌, Option, none, some,
  or_else, if◌then◌else◌, arith, str_eq, eq_iff, ltb, Bool-cases, untrue, none-ne-some, unsome,
}
use corridor_in_a_box.Corridor.{Corridor}
use corridor_in_a_box.Router.{
  Decision, attested, Source, serves, staleness, ResolverOptions, resolve, is_allowed, is_evidence,
  is_attested_protocol, protocol_of, week_of_ledgers,
}

-- The registry speaks for the anchor: it attests the protocol that the corridor declares, and the
-- attestation is not older than the limit.
abbrev pub HasEvidence : Source → String → String → ℕ → Type 0
HasEvidence source domain protocol limit =
    ((protocol ≡ "sep31") ⊎ (protocol ≡ "sep6"))
    × (serves source domain protocol ≡ some true)
    × ((age : ℕ) × (staleness source domain ≡ some age) × (age ≤ limit))

young : (age other limit : ℕ) → age ≡ other → other ≤ limit → not (ltb limit age) ≡ true
young age other limit e h = ground arith

evidence_iff :
    (s : Option Bool) (a : Option ℕ) (limit : ℕ)
    → (is_evidence s a limit ≡ true)
      ↔ ((s ≡ some true) × ((age : ℕ) × (a ≡ some age) × (age ≤ limit)))
evidence_iff none a limit = (λ h. absurd (untrue h), λ h. absurd (none-ne-some h.0))
evidence_iff (some false) a limit = (λ h. absurd (untrue h), λ h. absurd (untrue (unsome h.0)))
evidence_iff (some true) none limit = (λ h. absurd (untrue h), λ h. absurd (none-ne-some h.1.1))
evidence_iff (some true) (some age) limit =
    (λ h. (refl, (age, refl, ground arith)), λ h. young age h.1.0 limit (unsome h.1.1) h.1.2)

protocol_iff : (p : String) → (is_attested_protocol p ≡ true) ↔ ((p ≡ "sep31") ⊎ (p ≡ "sep6"))
unfolding is_attested_protocol
protocol_iff p = (to, from)
  where
    to : (str_eq p "sep31" || str_eq p "sep6") ≡ true → (p ≡ "sep31") ⊎ (p ≡ "sep6")
    to h = elim (Bool-cases (str_eq p "sep31")) [
      | inl e ↦ inl ((eq_iff p "sep31").0 e)
      | inr n ↦ inr ((eq_iff p "sep6").0 (rw n at h))
    ]

    from : (p ≡ "sep31") ⊎ (p ≡ "sep6") → (str_eq p "sep31" || str_eq p "sep6") ≡ true
    from (inl e) = rw ((eq_iff p "sep31").1 e) refl
    from (inr e) = rw e refl

routed_iff {ℓ} :
    {D : Type ℓ} (r : D) (exempt known evidence : Bool)
    → ((if exempt then some r else if not known then none else if evidence then some r else none)
        ≡ some r)
      ↔ ((exempt ≡ true) ⊎ ((known ≡ true) × (evidence ≡ true)))
routed_iff r true known evidence = (λ _. inl refl, λ _. refl)
routed_iff r false true true = (λ _. inr (refl, refl), λ _. refl)
routed_iff r false true false = (
  λ n. absurd (none-ne-some n),
  λ h. elim h [ inl n ↦ absurd (untrue n) | inr e ↦ absurd (untrue e.1) ],
)
routed_iff r false false evidence = (
  λ n. absurd (none-ne-some n),
  λ h. elim h [ inl n ↦ absurd (untrue n) | inr e ↦ absurd (untrue e.0) ],
)

module _ {ℓ} {Adapter : Type ℓ} (opts : ResolverOptions Adapter) (c : Corridor) where
  abbrev route : Option (Decision Adapter)
  route = some (record { receiving = opts.adapter_of c; trust = attested })

  -- The gate routes a corridor, to the adapter of its protocol, exactly when its domain is exempt or
  -- the registry vouches for it: the protocol is one the registry knows, the registry says that the
  -- domain serves it, and the attestation has an age within the limit (a week of ledgers when the
  -- options give none). A lookup that throws and a missing age refuse.
  pub resolve_iff : (resolve opts c ≡ route) ↔ (
      (is_allowed opts.allow_unattested_domains c.dest.endpoints.home_domain ≡ true)
      ⊎ HasEvidence opts.registry c.dest.endpoints.home_domain
          (protocol_of c)
          (or_else opts.max_staleness_ledgers week_of_ledgers))
  unfolding resolve
  resolve_iff =
      let domain = c.dest.endpoints.home_domain in
      let limit = or_else opts.max_staleness_ledgers week_of_ledgers in
      let known = protocol_iff (protocol_of c) in
      let evidence =
        evidence_iff (serves opts.registry domain (protocol_of c)) (staleness opts.registry domain)
          limit in
      let routed =
        routed_iff {D = Decision Adapter}
          (record { receiving = opts.adapter_of c; trust = attested })
          (is_allowed opts.allow_unattested_domains domain) (is_attested_protocol (protocol_of c))
          (is_evidence (serves opts.registry domain (protocol_of c))
            (staleness opts.registry domain) limit) in
      (
        λ h. elim (routed.0 h) [
          | inl e ↦ inl e
          | inr b ↦ inr (known.0 b.0, (evidence.0 b.1).0, (evidence.0 b.1).1)
        ],
        λ h. elim h [
          | inl e ↦ routed.1 (inl e)
          | inr b ↦ routed.1 (inr (known.1 b.0, evidence.1 (b.1, b.2)))
        ],
      )

-- ===== src/Registry/Laws.antt =====
-- That an anchor that packages/registry lists as live is one that the resolver of packages/router
-- routes to.
use corridor_in_a_box.Base.{
  ℕ, ◌≤◌, ◌≡◌, ◌⊎◌, inl, inr, refl, sym, subst, ◌∙◌, String, Bool, true, false, Option, none, some,
  List, [], ◌∷◌, untrue, none-ne-some, unsome, leb, arith, or_else,
}
use corridor_in_a_box.Corridor.{Corridor}
use corridor_in_a_box.Router.{
  attested, ResolverOptions, resolve, protocol_of, serves, staleness, week_of_ledgers,
}
use corridor_in_a_box.Router.Laws.{HasEvidence, resolve_iff}
use corridor_in_a_box.Registry.{
  Reads, Protocol, sep31, sep6, protocol_name, serves_of, source_of, is_live, keep_live, live_among,
  live_anchors,
}
use mathlib.Core.List.{Memᴰ}

is_live-true :
    (s : Option Bool) (a : Option ℕ) (limit : ℕ)
    → is_live s a limit ≡ some true
    → (s ≡ some true) × ((age : ℕ) × (a ≡ some age) × (age ≤ limit))
is_live-true none a limit h = absurd (none-ne-some h)
is_live-true (some s) none limit h = absurd (none-ne-some h)
is_live-true (some true) (some age) limit h = (refl, (age, refl, small (unsome h)))
  where
    small : leb age limit ≡ true → age ≤ limit
    small k = ground arith
is_live-true (some false) (some age) limit h = absurd (untrue (unsome h))

module _ (reads : Reads) (protocol : Protocol) (limit : ℕ) where
  abbrev pub IsLive : String → Type 0
  IsLive domain =
      (serves_of reads domain protocol ≡ some true)
      × ((age : ℕ) × (reads.staleness domain ≡ some age) × (age ≤ limit))

  among-IsLive :
      (all ds : List String) (domain : String)
      → live_among reads protocol limit all ≡ some ds
      → Memᴰ domain ds
      → Memᴰ domain all × IsLive domain
  unfolding live_among
  among-IsLive [] ds domain h m = elim (subst (Memᴰ domain) (sym (unsome h)) m) [ ]
  among-IsLive (d ∷ rest) ds domain h m =
      step (is_live (serves_of reads d protocol) (reads.staleness d) limit)
        (live_among reads protocol limit rest) (λ kept e n. among-IsLive rest kept domain e n) refl
        refl h
    where
      step :
          (l : Option Bool) (r : Option (List String))
          → ((kept : List String)
              → live_among reads protocol limit rest ≡ some kept
              → Memᴰ domain kept
              → Memᴰ domain rest × IsLive domain)
          → is_live (serves_of reads d protocol) (reads.staleness d) limit ≡ l
          → live_among reads protocol limit rest ≡ r
          → keep_live l d r ≡ some ds
          → Memᴰ domain (d ∷ rest) × IsLive domain
      step none r ih e f k = absurd (none-ne-some k)
      step (some true) none ih e f k = absurd (none-ne-some k)
      step (some false) none ih e f k = absurd (none-ne-some k)
      step (some false) (some kept) ih e f k =
          let (n, live) = ih kept f (subst (Memᴰ domain) (sym (unsome k)) m) in (Memᴰ.tail n, live)
      step (some true) (some kept) ih e f k = here (subst (Memᴰ domain) (sym (unsome k)) m)
        where
          here : Memᴰ domain (d ∷ kept) → Memᴰ domain (d ∷ rest) × IsLive domain
          here (Memᴰ.head same) =
              (Memᴰ.head same, subst IsLive (sym same) (is_live-true _ _ limit e))
          here (Memᴰ.tail t) = let (n, live) = ih kept f t in (Memᴰ.tail n, live)

  -- What is listed as live is one of the domains of the registry, serves the protocol by the contract,
  -- and has an attestation within the limit.
  pub live_anchors-IsLive :
      (ds : List String) (domain : String)
      → live_anchors reads protocol limit ≡ some ds
      → Memᴰ domain ds
      → (all : List String) × (reads.domains ≡ some all) × Memᴰ domain all × IsLive domain
  unfolding live_anchors
  live_anchors-IsLive ds domain h m = read reads.domains refl h
    where
      read :
          (o : Option (List String))
          → reads.domains ≡ o
          → elim o as (λ _. Option (List String)) [
            | none ↦ none
            | some all ↦ live_among reads protocol limit all
          ]
            ≡ some ds
          → (all : List String) × (reads.domains ≡ some all) × Memᴰ domain all × IsLive domain
      read none e k = absurd (none-ne-some k)
      read (some all) e k = let (n, live) = among-IsLive all ds domain k m in (all, e, n, live)

served :
    (reads : Reads) (protocol : Protocol) (domain : String)
    → serves (source_of reads) domain (protocol_name protocol) ≡ serves_of reads domain protocol
unfolding serves source_of serves_of
served reads sep31 domain = refl
served reads sep6 domain = refl

attested_name :
    (protocol : Protocol) → (protocol_name protocol ≡ "sep31") ⊎ (protocol_name protocol ≡ "sep6")
attested_name sep31 = inl refl
attested_name sep6 = inr refl

-- An anchor that the registry lists as live for a protocol, within a limit that is no laxer than the
-- resolver's, is routed to: the resolver over the same registry answers, as attested, with the
-- adapter of a corridor that names the anchor and the protocol.
pub live_anchors_routed {ℓ} :
    {Adapter : Type ℓ} (reads : Reads) (protocol : Protocol) (limit : ℕ) (ds : List String)
    (opts : ResolverOptions Adapter) (c : Corridor)
    → live_anchors reads protocol limit ≡ some ds
    → Memᴰ c.dest.endpoints.home_domain ds
    → protocol_of c ≡ protocol_name protocol
    → opts.registry ≡ source_of reads
    → limit ≤ or_else opts.max_staleness_ledgers week_of_ledgers
    → resolve opts c ≡ some (record { receiving = opts.adapter_of c; trust = attested })
unfolding staleness source_of
live_anchors_routed reads protocol limit ds opts c h m named same small =
    let domain = c.dest.endpoints.home_domain in
    let most = or_else opts.max_staleness_ledgers week_of_ledgers in
    let (all, e, n, live) = live_anchors-IsLive reads protocol limit ds domain h m in
    let (serving, (age, aged, young)) = live in
    let evidence : HasEvidence (source_of reads) domain (protocol_name protocol) most = (
      attested_name protocol,
      served reads protocol domain ∙ serving,
      (age, aged, omega (arith, young, small)),
    ) in
    (resolve_iff opts c).1 (
      inr (
        subst (λ r. HasEvidence r domain (protocol_of c) most) (sym same)
          (subst (λ p. HasEvidence (source_of reads) domain p most) (sym named) evidence)))

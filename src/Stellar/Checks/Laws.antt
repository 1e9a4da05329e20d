-- ===== src/Stellar/Checks/Laws.antt =====
-- What `balanceCheck` and `destinationCheck` of packages/stellar/src/index.ts let through.
use corridor_in_a_box.Base.{
  ◌≡◌, ◌≢◌, ◌↔◌, ◌⊎◌, inl, inr, refl, sym, subst, ap, ◌∙◌, String, Bool, true, false, Option, none,
  some, find, if◌then◌else◌, str_eq, eq_iff, Bool-cases, untrue, none-ne-some, unsome,
}
use corridor_in_a_box.Outcome.{CheckResult}
use corridor_in_a_box.Corridor.{Corridor}
use corridor_in_a_box.Engine.{GateContext}
use corridor_in_a_box.Stellar.Payments.{is_native_code}
use corridor_in_a_box.Sep31.Checks.{passed}
use corridor_in_a_box.Stellar.Checks.{
  Balance, AccountFacts, Inspection, Inspector, inspect, is_false, found, missing, failed,
  is_trustline, unsafe, destination_of, on_trustline, on_facts, on_destination, destination_check,
}

abbrev safe : CheckResult
safe = passed "chain.destination"

-- The account can hold the bridge asset: it is native, or there is a trustline that is not known to
-- lack its authorization.
abbrev pub CanHold : Corridor → AccountFacts → Type 0
CanHold c f =
    (is_native_code c.settlement.bridge_asset ≡ true)
    ⊎ ((b : Balance) × (find (is_trustline c) f.balances ≡ some b) × (b.is_authorized ≢ some false))

unpassed : {r : CheckResult} → r.passed ≡ false → r ≢ safe
unpassed h e = untrue (sym h ∙ ap (λ r. r.passed) e)

is_false_iff : (o : Option Bool) → (is_false o ≡ false) ↔ (o ≢ some false)
is_false_iff none = (λ h e. cc, λ n. refl)
is_false_iff (some true) = (λ h e. cc, λ n. refl)
is_false_iff (some false) = (λ h. absurd (untrue (sym h)), λ n. absurd (n refl))

on_trustline_iff :
    (o : Option Balance)
    → (on_trustline o ≡ safe) ↔ ((b : Balance) × (o ≡ some b) × (b.is_authorized ≢ some false))
on_trustline_iff none = (λ h. absurd (unpassed refl h), λ h. absurd (none-ne-some h.1))
on_trustline_iff (some b) = (
  λ h. elim (Bool-cases (is_false b.is_authorized)) [
    | inl e ↦ absurd (unpassed refl (rw e at h))
    | inr n ↦ (b, refl, (is_false_iff b.is_authorized).0 n)
  ],
  λ (d, e, a).
      (let known : is_false b.is_authorized ≡ false =
          (is_false_iff b.is_authorized).1
            (subst (λ t. t.is_authorized ≢ some false) (sym (unsome e)) a) in
        rw known refl),
)

on_facts_iff :
    (c : Corridor) (i : Inspection)
    → (on_facts c i ≡ safe) ↔ ((f : AccountFacts) × (i ≡ found f) × CanHold c f)
on_facts_iff c failed = (λ h. absurd (unpassed refl h), λ h. cc)
on_facts_iff c missing = (λ h. absurd (unpassed refl h), λ h. cc)
on_facts_iff c (found f) = elim (Bool-cases (is_native_code c.settlement.bridge_asset)) [
  | inl e ↦ (λ _. (f, refl, inl e), λ _. rw e refl)
  | inr n ↦ (
    λ h. (f, refl, inr ((on_trustline_iff (find (is_trustline c) f.balances)).0 (rw n at h))),
    λ (g, e, can). elim can [
      | inl y ↦ absurd (untrue (sym n ∙ y))
      | inr t ↦ rw n (
          (on_trustline_iff (find (is_trustline c) f.balances)).1 (
            subst
              (λ x.
                (b : Balance) × (find (is_trustline c) x.balances ≡ some b)
                × (b.is_authorized ≢ some false))
              (sym (same_facts e)) t))
    ],
  )
]
  where
    same_facts : {a b : AccountFacts} → found a ≡ found b → a ≡ b
    same_facts e = cc

module _ (c : Corridor) (signer : String) (denied : String → Bool) (inspector : Inspector) where
  -- What is asked of an account that is to be paid.
  abbrev pub IsSafe : String → Type 0
  IsSafe to =
      (to ≢ "")
      × (to ≢ signer)
      × (denied to ≡ false)
      × ((f : AccountFacts) × (inspect inspector to ≡ found f) × CanHold c f)

  guarded_iff :
      (empty own deny : Bool) (r : CheckResult)
      → ((if empty then unsafe else if own then unsafe else if deny then unsafe else r) ≡ safe)
        ↔ ((empty ≡ false) × (own ≡ false) × (deny ≡ false) × (r ≡ safe))
  guarded_iff true own deny r = (λ h. absurd (unpassed refl h), λ h. absurd (untrue (sym h.0)))
  guarded_iff false true deny r = (λ h. absurd (unpassed refl h), λ h. absurd (untrue (sym h.1)))
  guarded_iff false false true r = (λ h. absurd (unpassed refl h), λ h. absurd (untrue (sym h.2)))
  guarded_iff false false false r = (λ h. (refl, refl, refl, h), λ h. h.3)

  differs_iff : (a b : String) → (str_eq a b ≡ false) ↔ (a ≢ b)
  differs_iff a b = (
    λ h e. untrue (sym h ∙ (eq_iff a b).1 e),
    λ n. elim (Bool-cases (str_eq a b)) [ inl e ↦ absurd (n ((eq_iff a b).0 e)) | inr h ↦ h ],
  )

  safe_iff :
      (o : Option String)
      → (on_destination c signer denied inspector o ≡ safe)
        ↔ ((to : String) × (o ≡ some to) × IsSafe to)
  safe_iff none = (λ h. absurd (unpassed refl h), λ h. absurd (none-ne-some h.1))
  safe_iff (some to) =
      let guards =
        guarded_iff (str_eq to "") (str_eq to signer) (denied to)
          (on_facts c (inspect inspector to)) in
      (
        λ h.
            (let g = guards.0 h in
              (
                to,
                refl,
                (
                  (differs_iff to "").0 g.0,
                  (differs_iff to signer).0 g.1,
                  g.2,
                  (on_facts_iff c (inspect inspector to)).0 g.3,
                ),
              )),
        λ (t, e, k).
            (let s = subst IsSafe (sym (unsome e)) k in
              guards.1 (
                (differs_iff to "").1 s.0,
                (differs_iff to signer).1 s.1,
                s.2,
                (on_facts_iff c (inspect inspector to)).1 s.3,
              )),
      )

  -- The destination check passes exactly when the instructions name an account to pay that is not
  -- empty, not the signer's own and not denied, that the inspector finds, and that can hold the
  -- bridge asset: the asset is native, or there is a trustline for it, and the first one is not known
  -- to lack its authorization. An authorization that is not known passes.
  pub destination_check_iff :
      (ctx : GateContext)
      → (destination_check c ctx signer denied inspector ≡ passed "chain.destination")
        ↔ ((to : String) × (destination_of ctx.opened ≡ some to) × IsSafe to)
  unfolding destination_check
  destination_check_iff ctx = safe_iff (destination_of ctx.opened)

-- ===== src/Stellar/Checks/Funds.antt =====
-- What `balanceCheck` of packages/stellar/src/index.ts lets through.
use corridor_in_a_box.Base.{
  ◌+◌, ◌-◌, Option, ℕ, ◌≡◌, ◌≢◌, ◌↔◌, refl, sym, subst, ap, ◌∙◌, Bool, true, false, not, List, find,
  untrue, both,
}
use corridor_in_a_box.Base.Int.{ℤ, pos, ◌*ℤ◌, ◌+ℤ◌, ◌-ℤ◌, ltb_ℤ}
use corridor_in_a_box.Outcome.{Outcome, ok, err, CheckResult, unwrap, err-ne-ok}
use corridor_in_a_box.Corridor.{Corridor}
use corridor_in_a_box.Money.{to_scaled, stroop_scale}
use corridor_in_a_box.Engine.{GateContext}
use corridor_in_a_box.Stellar.Payments.{is_native_code}
use corridor_in_a_box.Sep31.Checks.{passed}
use corridor_in_a_box.Money.Exact.{StandsFor}
use corridor_in_a_box.Stellar.Checks.{
  Balance, balance_text, liabilities_text, less, AccountFacts, Inspection, found, missing, failed,
  is_trustline, is_xlm_balance, entries_of, free_balance, covers, verdict_of, with_bridge,
  on_amounts, balance_check,
}

abbrev funded : CheckResult
funded = passed "chain.balance"

abbrev pub NotBelow : ℤ → ℤ → Type 0
NotBelow a b = ltb_ℤ a b ≡ false

-- What is free covers the payment: XLM above the reserve pays the fee, and the amount too when the
-- bridge asset is native; otherwise the bridge balance pays the amount.
abbrev pub Pays : Bool → ℤ → Outcome ℤ → ℤ → ℤ → ℤ → Type 0
Pays true xlm bridge reserve amount fee = NotBelow (xlm -ℤ reserve) (amount +ℤ fee)
Pays false xlm bridge reserve amount fee =
    (free : ℤ) × (bridge ≡ ok free) × NotBelow free amount × NotBelow (xlm -ℤ reserve) fee

unfunded : {r : CheckResult} → r.passed ≡ false → r ≢ funded
unfunded h e = untrue (sym h ∙ ap (λ r. r.passed) e)

not_iff : (b : Bool) → (not b ≡ true) ↔ (b ≡ false)
not_iff false = (λ _. refl, λ _. refl)
not_iff true = (λ h. absurd (untrue h), λ h. absurd (untrue (sym h)))

verdict_iff : (b : Bool) → (verdict_of b ≡ funded) ↔ (b ≡ true)
verdict_iff true = (λ _. refl, λ _. refl)
verdict_iff false = (λ h. absurd (unfunded refl h), λ h. absurd (untrue h))

covers_iff :
    (xlm bridge reserve amount fee : ℤ)
    → (covers false xlm bridge reserve amount fee ≡ true)
      ↔ (NotBelow bridge amount × NotBelow (xlm -ℤ reserve) fee)
unfolding covers
covers_iff xlm bridge reserve amount fee = (
  λ h. (let k = both _ _ h in ((not_iff _).0 k.0, (not_iff _).0 k.1)),
  λ h. rw ((not_iff _).1 h.0, (not_iff _).1 h.1) refl,
)

with_bridge_iff :
    (native : Bool) (xlm : ℤ) (bridge : Outcome ℤ) (reserve amount fee : ℤ)
    → (with_bridge native xlm bridge reserve amount fee ≡ funded)
      ↔ Pays native xlm bridge reserve amount fee
unfolding covers
with_bridge_iff true xlm bridge reserve amount fee =
    (λ h. (not_iff _).0 ((verdict_iff _).0 h), λ h. (verdict_iff _).1 ((not_iff _).1 h))
with_bridge_iff false xlm (err e) reserve amount fee =
    (λ h. absurd (unfunded refl h), λ h. absurd (err-ne-ok h.1))
with_bridge_iff false xlm (ok free) reserve amount fee =
    let paid = covers_iff xlm free reserve amount fee in
    (
      λ h. (free, refl, (paid.0 ((verdict_iff _).0 h)).0, (paid.0 ((verdict_iff _).0 h)).1),
      λ (b, e, p, q).
          (let same : b ≡ free = sym (unwrap e) in
            (verdict_iff _).1 (paid.1 (subst (λ t. NotBelow t amount) same p, q))),
    )

-- The five amounts are decimals whose values pay.
abbrev pub Funded : Bool → ℕ → Outcome ℤ → Outcome ℤ → Outcome ℤ → Outcome ℤ → Outcome ℤ → Type 0
Funded native entries base_reserve fee xlm amount bridge =
    (r : ℤ) × (e : ℤ) × (x : ℤ) × (a : ℤ) × (base_reserve ≡ ok r)
    × (fee ≡ ok e)
    × (xlm ≡ ok x)
    × (amount ≡ ok a)
    × Pays native x bridge (pos entries *ℤ r) a e

on_amounts_iff :
    (native : Bool) (entries : ℕ) (base_reserve fee xlm amount bridge : Outcome ℤ)
    → (on_amounts native entries base_reserve fee xlm amount bridge ≡ funded)
      ↔ Funded native entries base_reserve fee xlm amount bridge
on_amounts_iff native entries (err g) fee xlm amount bridge =
    (λ h. absurd (unfunded refl h), λ (r, e, x, a, p, q, s, t, k). absurd (err-ne-ok p))
on_amounts_iff native entries (ok r) (err g) xlm amount bridge =
    (λ h. absurd (unfunded refl h), λ (r, e, x, a, p, q, s, t, k). absurd (err-ne-ok q))
on_amounts_iff native entries (ok r) (ok e) (err g) amount bridge =
    (λ h. absurd (unfunded refl h), λ (r, e, x, a, p, q, s, t, k). absurd (err-ne-ok s))
on_amounts_iff native entries (ok r) (ok e) (ok x) (err g) bridge =
    (λ h. absurd (unfunded refl h), λ (r, e, x, a, p, q, s, t, k). absurd (err-ne-ok t))
on_amounts_iff native entries (ok r) (ok e) (ok x) (ok a) bridge =
    let paid = with_bridge_iff native x bridge (pos entries *ℤ r) a e in
    (
      λ h. (r, e, x, a, refl, refl, refl, refl, paid.0 h),
      λ (r2, e2, x2, a2, p, q, s, t, k). paid.1 (rw (unwrap p, unwrap q, unwrap s, unwrap t) k),
    )

-- What is free of a balance: its value without that of its selling liabilities; a balance that is
-- not there counts as zero.
abbrev pub Free : Option Balance → ℤ → Type 0
Free b v =
    (x : ℤ) × (y : ℤ) × StandsFor (balance_text b) stroop_scale x
    × StandsFor (liabilities_text b) stroop_scale y
    × (v ≡ x -ℤ y)

Free-iff : (b : Option Balance) (v : ℤ) → (free_balance b ≡ ok v) ↔ Free b v
unfolding free_balance
Free-iff b v = (
  to (to_scaled (balance_text b) stroop_scale) (to_scaled (liabilities_text b) stroop_scale) refl
      refl,
  from,
)
  where
    to :
        (p q : Outcome ℤ)
        → to_scaled (balance_text b) stroop_scale ≡ p
        → to_scaled (liabilities_text b) stroop_scale ≡ q
        → less p q ≡ ok v
        → Free b v
    to (ok x) (ok y) e f h = (x, y, e, f, sym (unwrap h))
    to (ok x) (err g) e f h = absurd (err-ne-ok h)
    to (err g) q e f h = absurd (err-ne-ok h)

    from : Free b v → free_balance b ≡ ok v
    from (x, y, e, f, k) = rw (e, f, k) refl

abbrev pub Meets : Bool → ℤ → Option Balance → ℤ → ℤ → ℤ → Type 0
Meets true xlm bridge reserve amount fee = NotBelow (xlm -ℤ reserve) (amount +ℤ fee)
Meets false xlm bridge reserve amount fee =
    (free : ℤ) × Free bridge free × NotBelow free amount × NotBelow (xlm -ℤ reserve) fee

Meets-iff :
    (native : Bool) (xlm : ℤ) (b : Option Balance) (reserve amount fee : ℤ)
    → Pays native xlm (free_balance b) reserve amount fee ↔ Meets native xlm b reserve amount fee
Meets-iff true xlm b reserve amount fee = (λ h. h, λ h. h)
Meets-iff false xlm b reserve amount fee =
    (λ (v, e, p, q). (v, (Free-iff b v).0 e, p, q), λ (v, e, p, q). (v, (Free-iff b v).1 e, p, q))

-- What an account has to pay with: `r` a reserve for each of its entries, `e` the fee, `a` the amount.
abbrev pub IsFunded : Corridor → List ℕ → List ℕ → List ℕ → AccountFacts → Type 0
IsFunded c amount fee base_reserve f =
    (r : ℤ) × (e : ℤ) × (x : ℤ) × (a : ℤ) × StandsFor base_reserve stroop_scale r
    × StandsFor fee stroop_scale e
    × Free (find is_xlm_balance f.balances) x
    × StandsFor amount stroop_scale a
    × Meets (is_native_code c.settlement.bridge_asset) x (find (is_trustline c) f.balances)
        (pos ((2 + f.subentry_count + f.num_sponsoring) - f.num_sponsored) *ℤ r) a e

-- The balance check passes exactly when the inspector finds the signer's account, every amount read
-- is a decimal, and what is free of selling liabilities pays: XLM above the reserve of the account's
-- entries covers the fee, and the amount as well when the bridge asset is native; otherwise the
-- first bridge balance covers the amount.
pub balance_check_iff :
    (c : Corridor) (ctx : GateContext) (fee base_reserve : List ℕ) (i : Inspection)
    → (balance_check c ctx fee base_reserve i ≡ passed "chain.balance") ↔ (
        (f : AccountFacts) × (i ≡ found f)
        × IsFunded c ctx.quote.source_amount.amount fee base_reserve f)
unfolding balance_check entries_of
balance_check_iff c ctx fee base_reserve failed = (λ h. absurd (unfunded refl h), λ h. cc)
balance_check_iff c ctx fee base_reserve missing = (λ h. absurd (unfunded refl h), λ h. cc)
balance_check_iff c ctx fee base_reserve (found f) = (
  λ h. (f, refl, (funded_iff f).0 h),
  λ (g, e, k).
      (funded_iff f).1
        (subst (IsFunded c ctx.quote.source_amount.amount fee base_reserve) (sym (same_facts e)) k),
)
  where
    same_facts : {a b : AccountFacts} → found a ≡ found b → a ≡ b
    same_facts e = cc

    funded_iff :
        (f : AccountFacts)
        → (balance_check c ctx fee base_reserve (found f) ≡ funded)
          ↔ IsFunded c ctx.quote.source_amount.amount fee base_reserve f
    funded_iff f =
        let native = is_native_code c.settlement.bridge_asset in
        let xlm = find is_xlm_balance f.balances in
        let bridge = find (is_trustline c) f.balances in
        let amounts =
          on_amounts_iff native (entries_of f) (to_scaled base_reserve stroop_scale)
            (to_scaled fee stroop_scale) (free_balance xlm)
            (to_scaled ctx.quote.source_amount.amount stroop_scale) (free_balance bridge) in
        (
          λ h.
              (let (r, e, x, a, p, q, s, t, k) = amounts.0 h in
                (
                  r,
                  e,
                  x,
                  a,
                  p,
                  q,
                  (Free-iff xlm x).0 s,
                  t,
                  (Meets-iff native x bridge (pos (entries_of f) *ℤ r) a e).0 k,
                )),
          λ (r, e, x, a, p, q, s, t, k). amounts.1 (
            r,
            e,
            x,
            a,
            p,
            q,
            (Free-iff xlm x).1 s,
            t,
            (Meets-iff native x bridge (pos (entries_of f) *ℤ r) a e).1 k,
          ),
        )

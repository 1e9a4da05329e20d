-- ===== src/Stellar/Facts/Laws.antt =====
-- What `verifySettlementFacts` of packages/stellar/src/index.ts lets pass.
use corridor_in_a_box.Base.{
  String, Bool, true, false, not, ◌&&◌, ◌||◌, ◌≡◌, ◌↔◌, refl, Option, none, some, List, [], ◌∷◌,
  if◌then◌else◌, arith, eq_iff, str_eq, present, ℕ, ◌≢◌, ◌⊎◌, inl, inr, or_else, ap, sym, ◌∙◌,
  Bool-cases, both, true_not_false, not_true,
}
use corridor_in_a_box.Base.Int.{ℤ}
use corridor_in_a_box.Money.{compare_amounts, stroop_scale, Order, below, equal, above}
use corridor_in_a_box.Money.Exact.{StandsFor}
use corridor_in_a_box.Money.Compare.{
  compare_amounts_exact, compare_amounts_of, order_of_self, equal-order_of,
}
use corridor_in_a_box.Outcome.{Outcome, ok, err, err-ne-ok}
use corridor_in_a_box.Corridor.{Corridor, is_xlm}
use corridor_in_a_box.Verbs.{SettlementRequest, needs_path_payment}
use corridor_in_a_box.Stellar.Facts.{
  ChainAsset, is_native, is_equal, Operation, SettlementFacts, same_text, pays_plain, pays_path,
  is_memo, mismatch, verify_operations, verify_settlement_facts, is_asset, is_amount, expected_type,
  expected_memo,
}

-- Two texts stand for one amount.
abbrev pub IsSameAmount : List ℕ → Option (List ℕ) → Type 0
IsSameAmount expected actual =
    (v : ℤ) × StandsFor expected stroop_scale v × StandsFor (or_else actual []) stroop_scale v

-- An asset on chain is the native one, for XLM, or has the code and the issuer.
abbrev pub IsAssetOf : String → Option String → ChainAsset → Type 0
IsAssetOf code issuer a =
    ((is_xlm code ≡ true) × (a.type ≡ some "native"))
    ⊎ ((is_xlm code ≡ false)
        × (a.type ≢ some "native")
        × (a.code ≡ some code)
        × (a.issuer ≡ issuer))

pub same_text_iff : (s t : Option String) → (same_text s t ≡ true) ↔ (s ≡ t)
same_text_iff none none = (λ h. refl, λ h. refl)
same_text_iff none (some t) = (λ h. cc, λ h. cc)
same_text_iff (some s) none = (λ h. cc, λ h. cc)
same_text_iff (some s) (some t) = (λ h. ap some ((eq_iff s t).0 h), λ h. (eq_iff s t).1 (cc))

is_equal_ok : (u : Outcome Order) → is_equal u ≡ true → u ≡ ok equal
is_equal_ok (ok equal) h = refl
is_equal_ok (ok below) h = cc
is_equal_ok (ok above) h = cc
is_equal_ok (err e) h = cc

pub is_amount_iff : (e : List ℕ) (a : Option (List ℕ)) → (is_amount e a ≡ true) ↔ IsSameAmount e a
unfolding is_amount
is_amount_iff e a = (to, from)
  where
    to : is_equal (compare_amounts e (or_else a []) stroop_scale) ≡ true → IsSameAmount e a
    to h =
        let (x, y, ex, ay, o) =
          compare_amounts_exact e (or_else a []) stroop_scale equal
            (is_equal_ok (compare_amounts e (or_else a []) stroop_scale) h) in
        let same = equal-order_of x y o in (x, ex, ay ∙ ap ok (sym same))

    from : IsSameAmount e a → is_equal (compare_amounts e (or_else a []) stroop_scale) ≡ true
    from (v, ev, av) =
        ap is_equal
          (compare_amounts_of e (or_else a []) stroop_scale v v ev av ∙ ap ok (order_of_self v))

asset_by :
    (xlm native code issuer : Bool)
    → (if xlm then native else not native && code && issuer) ≡ true
    → ((xlm ≡ true) × (native ≡ true))
      ⊎ ((xlm ≡ false) × (native ≡ false) × (code ≡ true) × (issuer ≡ true))
asset_by true native code issuer h = inl (refl, h)
asset_by false native code issuer h = inr (refl, ground arith, ground arith, ground arith)

is_asset_iff :
    (code : String) (issuer : Option String) (a : ChainAsset)
    → (is_asset code issuer a ≡ true) ↔ IsAssetOf code issuer a
unfolding is_asset
is_asset_iff code issuer a = (to, from)
  where
    native : (is_native a ≡ true) ↔ (a.type ≡ some "native")
    native = same_text_iff a.type (some "native")

    to :
        (if is_xlm code
            then is_native a
            else not (is_native a) && same_text a.code (some code) && same_text a.issuer issuer)
          ≡ true
        → IsAssetOf code issuer a
    to h =
        elim (asset_by (is_xlm code) (is_native a) (same_text a.code (some code))
          (same_text a.issuer issuer) h) [
            | inl (x, n) ↦ inl (x, native.0 n)
            | inr (x, n, c, i) ↦ inr (
              x,
              (λ k. true_not_false (native.1 k) n),
              (same_text_iff a.code (some code)).0 c,
              (same_text_iff a.issuer issuer).0 i,
            )
          ]

    from :
        IsAssetOf code issuer a
        → (if is_xlm code
            then is_native a
            else not (is_native a) && same_text a.code (some code) && same_text a.issuer issuer)
          ≡ true
    from (inl (x, n)) = rw x (native.1 n)
    from (inr (x, n, c, i)) =
        rw
          (
            x,
            not_true (is_native a) (λ k. n (native.0 k)),
            (same_text_iff a.code (some code)).1 c,
            (same_text_iff a.issuer issuer).1 i,
          )
          refl

-- What is sent is the request's amount of the bridge asset; of a path payment what arrives is in the
-- asset that the anchor receives.
abbrev pub Pays : Corridor → SettlementRequest → Operation → Type 0
Pays c req op =
    ((needs_path_payment c ≡ false)
      × IsSameAmount req.amount.amount op.amount
      × IsAssetOf c.settlement.bridge_asset (some c.settlement.asset_issuer) op.asset)
    ⊎ ((needs_path_payment c ≡ true)
        × IsSameAmount req.amount.amount op.source_amount
        × IsAssetOf c.settlement.bridge_asset (some c.settlement.asset_issuer) op.source_asset
        × IsAssetOf (or_else c.settlement.receive_asset "") c.settlement.receive_asset_issuer
            op.asset)

abbrev pub kind_of : Corridor → String
kind_of c = if needs_path_payment c then "path_payment_strict_send" else "payment"

-- The memo is the request's in Horizon's form, or there is none.
abbrev pub HasMemo : (String → String) → SettlementRequest → SettlementFacts → Type 0
HasMemo reencode req facts =
    (facts.memo_type ≡ expected_type req)
    × ((present req.memo ≡ false) ⊎ (facts.memo ≡ some (expected_memo reencode req)))

-- What a transaction has to be to settle a request: applied, with one operation, of the corridor's
-- kind, to the account asked for, paying what was asked for, under the memo asked for.
pub record IsSettlement (reencode : String → String) (facts : SettlementFacts) (c : Corridor)
    (req : SettlementRequest) : Type 0 where
  pub applied : facts.successful ≡ true
  pub op : Operation
  pub alone : facts.operations ≡ op ∷ []
  pub kind : op.type ≡ kind_of c
  pub destination : op.to ≡ some req.to
  pub paid : Pays c req op
  pub memo : HasMemo reencode req facts

abbrev pays : Corridor → SettlementRequest → Operation → Bool
pays c req op =
    if needs_path_payment c then pays_path c.settlement req op else pays_plain c.settlement req op

module _ (c : Corridor) (req : SettlementRequest) (op : Operation) where
  pays_plain-Pays :
      needs_path_payment c ≡ false → pays_plain c.settlement req op ≡ true → Pays c req op
  pays_plain-Pays n h =
      let (amount, asset) = both _ _ h in
      inl (n, (is_amount_iff _ _).0 amount, (is_asset_iff _ _ _).0 asset)

  pays_path-Pays :
      needs_path_payment c ≡ true → pays_path c.settlement req op ≡ true → Pays c req op
  pays_path-Pays n h =
      let (sent, received) = both _ _ h in
      let (amount, asset) = both _ _ sent in
      inr (
        n,
        (is_amount_iff _ _).0 amount,
        (is_asset_iff _ _ _).0 asset,
        (is_asset_iff _ _ _).0 received,
      )

  pays_iff : (pays c req op ≡ true) ↔ Pays c req op
  pays_iff = (to, from)
    where
      to : pays c req op ≡ true → Pays c req op
      to h = elim (Bool-cases (needs_path_payment c)) [
        | inl n ↦ pays_path-Pays n (rw n at h)
        | inr n ↦ pays_plain-Pays n (rw n at h)
      ]

      from : Pays c req op → pays c req op ≡ true
      from (inl (n, amount, asset)) =
          rw n (rw ((is_amount_iff _ _).1 amount) ((is_asset_iff _ _ _).1 asset))
      from (inr (n, amount, asset, received)) = rw n (
          rw ((is_amount_iff _ _).1 amount)
            (rw ((is_asset_iff _ _ _).1 asset) ((is_asset_iff _ _ _).1 received)))

chosen :
    (b1 b2 b3 b4 : Bool)
    → (if not b1
        then mismatch
        else if not b2
        then mismatch
        else if not b3
        then mismatch
        else if not b4
        then mismatch
        else ok (tt {0}))
      ≡ ok (tt {0})
    → (b1 ≡ true) × (b2 ≡ true) × (b3 ≡ true) × (b4 ≡ true)
chosen b1 b2 b3 b4 h = ground arith

memo_by : (a p q : Bool) → (a && (not p || q)) ≡ true → (a ≡ true) × ((p ≡ false) ⊎ (q ≡ true))
memo_by true false q h = (refl, inl refl)
memo_by true true q h = (refl, inr h)
memo_by false p q h = cc

module _ (reencode : String → String) (facts : SettlementFacts) (c : Corridor)
    (req : SettlementRequest) where
  is_memo_iff : (is_memo reencode req facts ≡ true) ↔ HasMemo reencode req facts
  is_memo_iff = (to, from)
    where
      to : is_memo reencode req facts ≡ true → HasMemo reencode req facts
      to h =
          let (t, m) = memo_by _ _ _ h in
          (
            (eq_iff facts.memo_type (expected_type req)).0 t,
            elim m [ inl p ↦ inl p | inr q ↦ inr ((same_text_iff facts.memo _).0 q) ],
          )

      from : HasMemo reencode req facts → is_memo reencode req facts ≡ true
      from (t, inl p) = rw ((eq_iff facts.memo_type (expected_type req)).1 t, p) refl
      from (t, inr q) =
          rw ((eq_iff facts.memo_type (expected_type req)).1 t)
            (rw ((same_text_iff facts.memo _).1 q) (ground arith))

  settles :
      (ops : List Operation)
      → facts.operations ≡ ops
      → facts.successful ≡ true
      → verify_operations reencode c req facts ops ≡ ok tt
      → IsSettlement reencode facts c req
  settles [] e s h = cc
  settles (op ∷ o ∷ ops) e s h = cc
  settles (op ∷ []) e s h =
      let (k, d, p, m) =
        chosen (str_eq op.type (kind_of c)) (same_text op.to (some req.to)) (pays c req op)
          (is_memo reencode req facts) h in
      record {
        applied = s;
        op = op;
        alone = e;
        kind = (eq_iff op.type (kind_of c)).0 k;
        destination = (same_text_iff op.to (some req.to)).0 d;
        paid = (pays_iff c req op).0 p;
        memo = is_memo_iff.0 m;
      }

  verifies :
      IsSettlement reencode facts c req → verify_settlement_facts reencode facts c req ≡ ok tt
  unfolding verify_settlement_facts
  verifies s =
      rw (s.applied, s.alone)
        (rw ((eq_iff s.op.type (kind_of c)).1 s.kind) (
          rw ((same_text_iff s.op.to (some req.to)).1 s.destination)
            (rw ((pays_iff c req s.op).1 s.paid) (rw (is_memo_iff.1 s.memo) refl))))

  settled : verify_settlement_facts reencode facts c req ≡ ok tt → IsSettlement reencode facts c req
  unfolding verify_settlement_facts
  settled h = elim (Bool-cases facts.successful) [
    | inl applied ↦ settles facts.operations refl applied (rw applied at h)
    | inr rejected ↦ absurd (err-ne-ok (rw rejected at h))
  ]

  -- A verification succeeds exactly for a transaction that settles the request: it was applied, has one
  -- operation, of the corridor's kind and to the account asked for, which pays the amount and the
  -- assets asked for, under the memo asked for.
  pub verify_settlement_facts_iff :
      (verify_settlement_facts reencode facts c req ≡ ok tt) ↔ IsSettlement reencode facts c req
  verify_settlement_facts_iff = (settled, verifies)

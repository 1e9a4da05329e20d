-- ===== src/Sep31/Checks/Laws.antt =====
-- What the checks of packages/sep31/src/openedTxCheck.ts let through.
use corridor_in_a_box.Base.{
  ℕ, ◌≡◌, ◌≢◌, ◌↔◌, refl, sym, subst, ap, String, Bool, true, false, not, ◌&&◌, Option, none, some,
  List, ◌∷◌, or_else, if◌then◌else◌, str_eq, eq_iff, untrue, none-ne-some, unsome, is_some,
}
use corridor_in_a_box.Types.{presettle_tx_mismatch}
use corridor_in_a_box.Outcome.{Outcome, ok, err}
use corridor_in_a_box.Money.{compare_amounts, stroop_scale, Order, below, equal, above}
use corridor_in_a_box.Anchor.{MemoType, text, hash, id, TransactionStatus}
use corridor_in_a_box.Corridor.{Corridor}
use corridor_in_a_box.Json.{to_upper}
use corridor_in_a_box.Verbs.{SettlementRequest, build_settlement_request}
use corridor_in_a_box.Engine.{GateContext}
use corridor_in_a_box.Sep31.Checks.{
  Reported, reported, Verdict, unverified, agrees, differs, judge, judge_by, same_amount,
  same_asset, is_text, same_type, is_equal, verdicts, any_differs, any_unverified, opened_tx_check,
  passed, refused,
}

-- Every field that the anchor reports is as the request has it.
abbrev pub Agrees : SettlementRequest → Reported → Type 0
Agrees req s =
    ((x : List ℕ) → s.amount ≡ some x → compare_amounts req.amount.amount x stroop_scale ≡ ok equal)
    × ((x : String) → s.asset ≡ some x → to_upper x ≡ to_upper req.amount.asset)
    × ((x : String) → s.deposit_address ≡ some x → x ≡ req.to)
    × ((x : String) → s.memo ≡ some x → req.memo ≡ some x)
    × ((x : MemoType) → s.memo_type ≡ some x → x ≡ or_else req.memo_type text)

-- The anchor reports all of the fields.
abbrev pub IsComplete : Reported → Type 0
IsComplete s =
    (is_some s.amount ≡ true)
    × (is_some s.asset ≡ true)
    × (is_some s.deposit_address ≡ true)
    × (is_some s.memo ≡ true)
    × (is_some s.memo_type ≡ true)

abbrev is_different : Verdict → Bool
is_different differs = true
is_different _ = false

any_differs_iff :
    (v : Verdict) (vs : List Verdict)
    → (any_differs (v ∷ vs) ≡ false) ↔ ((is_different v ≡ false) × (any_differs vs ≡ false))
any_differs_iff unverified vs = (λ h. (refl, h), λ h. h.1)
any_differs_iff agrees vs = (λ h. (refl, h), λ h. h.1)
any_differs_iff differs vs = (λ h. (h, absurd (untrue (sym h))), λ h. h.0)

any_unverified_iff {ℓ} :
    {A : Type ℓ} (test : A → Bool) (o : Option A) (vs : List Verdict)
    → (any_unverified (judge_by test o ∷ vs) ≡ false)
      ↔ ((is_some o ≡ true) × (any_unverified vs ≡ false))
any_unverified_iff test none vs = (λ h. absurd (untrue (sym h)), λ h. absurd (untrue h.0))
any_unverified_iff test (some x) vs = judged (test x)
  where
    judged :
        (b : Bool)
        → (any_unverified (judge b ∷ vs) ≡ false) ↔ ((true ≡ true) × (any_unverified vs ≡ false))
    judged true = (λ h. (refl, h), λ h. h.1)
    judged false = (λ h. (refl, h), λ h. h.1)

judged_iff : (b : Bool) → (is_different (judge b) ≡ false) ↔ (b ≡ true)
judged_iff true = (λ _. refl, λ _. refl)
judged_iff false = (λ h. absurd (untrue (sym h)), λ h. absurd (untrue h))

judge_by_iff {ℓ κ} :
    {A : Type ℓ} (test : A → Bool) (P : A → Type κ)
    → ((x : A) → (test x ≡ true) ↔ P x)
    → (o : Option A) → (is_different (judge_by test o) ≡ false) ↔ ((x : A) → o ≡ some x → P x)
judge_by_iff test P same none = (λ _ x h. absurd (none-ne-some h), λ _. refl)
judge_by_iff test P same (some y) = (
  λ h x e. subst P (unsome e) ((same y).0 ((judged_iff (test y)).0 h)),
  λ h. (judged_iff (test y)).1 ((same y).1 (h y refl)),
)

is_equal_iff : (r : Outcome Order) → (is_equal r ≡ true) ↔ (r ≡ ok equal)
is_equal_iff (ok equal) = (λ _. refl, λ _. refl)
is_equal_iff (ok below) = (λ h. absurd (untrue h), λ h. cc)
is_equal_iff (ok above) = (λ h. absurd (untrue h), λ h. cc)
is_equal_iff (err e) = (λ h. absurd (untrue h), λ h. cc)

is_text_iff : (o : Option String) (s : String) → (is_text o s ≡ true) ↔ (o ≡ some s)
is_text_iff none s = (λ h. absurd (untrue h), λ h. absurd (none-ne-some h))
is_text_iff (some t) s =
    (λ h. ap some (sym ((eq_iff s t).0 h)), λ h. (eq_iff s t).1 (sym (unsome h)))

same_type_iff : (a b : MemoType) → (same_type a b ≡ true) ↔ (a ≡ b)
same_type_iff text text = (λ _. refl, λ _. refl)
same_type_iff hash hash = (λ _. refl, λ _. refl)
same_type_iff id id = (λ _. refl, λ _. refl)
same_type_iff text hash = (λ h. absurd (untrue h), λ h. cc)
same_type_iff text id = (λ h. absurd (untrue h), λ h. cc)
same_type_iff hash text = (λ h. absurd (untrue h), λ h. cc)
same_type_iff hash id = (λ h. absurd (untrue h), λ h. cc)
same_type_iff id text = (λ h. absurd (untrue h), λ h. cc)
same_type_iff id hash = (λ h. absurd (untrue h), λ h. cc)

Agrees-iff :
    (req : SettlementRequest) (s : Reported) → (any_differs (verdicts req s) ≡ false) ↔ Agrees req s
unfolding verdicts
Agrees-iff req s =
    let amount =
      judge_by_iff (same_amount req.amount.amount)
        (λ x. compare_amounts req.amount.amount x stroop_scale ≡ ok equal)
        (λ x. is_equal_iff (compare_amounts req.amount.amount x stroop_scale)) s.amount in
    let asset =
      judge_by_iff (same_asset req.amount.asset) (λ x. to_upper x ≡ to_upper req.amount.asset)
        (λ x. eq_iff (to_upper x) (to_upper req.amount.asset)) s.asset in
    let account =
      judge_by_iff (λ x. str_eq x req.to) (λ x. x ≡ req.to) (λ x. eq_iff x req.to)
        s.deposit_address in
    let memo =
      judge_by_iff (is_text req.memo) (λ x. req.memo ≡ some x) (is_text_iff req.memo) s.memo in
    let type =
      judge_by_iff (λ t. same_type t (or_else req.memo_type text))
        (λ t. t ≡ or_else req.memo_type text) (λ t. same_type_iff t (or_else req.memo_type text))
        s.memo_type in
    (
      λ h.
          (let a = (any_differs_iff _ _).0 h in
            let b = (any_differs_iff _ _).0 a.1 in
            let c = (any_differs_iff _ _).0 b.1 in
            let d = (any_differs_iff _ _).0 c.1 in
            let e = (any_differs_iff _ _).0 d.1 in
            (amount.0 a.0, asset.0 b.0, account.0 c.0, memo.0 d.0, type.0 e.0)),
      λ h. (any_differs_iff _ _).1 (
        amount.1 h.0,
        (any_differs_iff _ _).1 (
          asset.1 h.1,
          (any_differs_iff _ _).1 (
            account.1 h.2,
            (any_differs_iff _ _).1 (memo.1 h.3, (any_differs_iff _ _).1 (type.1 h.4, refl)),
          ),
        ),
      ),
    )

IsComplete-iff :
    (req : SettlementRequest) (s : Reported)
    → (any_unverified (verdicts req s) ≡ false) ↔ IsComplete s
unfolding verdicts
IsComplete-iff req s = (
  λ h.
      (let a = (any_unverified_iff (same_amount req.amount.amount) s.amount _).0 h in
        let b = (any_unverified_iff (same_asset req.amount.asset) s.asset _).0 a.1 in
        let c = (any_unverified_iff (λ x. str_eq x req.to) s.deposit_address _).0 b.1 in
        let d = (any_unverified_iff (is_text req.memo) s.memo _).0 c.1 in
        let e =
          (any_unverified_iff (λ t. same_type t (or_else req.memo_type text)) s.memo_type _).0
            d.1 in
        (a.0, b.0, c.0, d.0, e.0)),
  λ h. (any_unverified_iff _ s.amount _).1 (
    h.0,
    (any_unverified_iff _ s.asset _).1 (
      h.1,
      (any_unverified_iff _ s.deposit_address _).1 (
        h.2,
        (any_unverified_iff _ s.memo _).1 (h.3, (any_unverified_iff _ s.memo_type _).1 (h.4, refl)),
      ),
    ),
  ),
)

tx_result :
    (pending different strict incomplete : Bool)
    → ((if not pending
          then refused "anchor.tx.match" presettle_tx_mismatch
          else if different
          then refused "anchor.tx.match" presettle_tx_mismatch
          else if strict && incomplete
          then refused "anchor.tx.match" presettle_tx_mismatch
          else passed "anchor.tx.match")
        ≡ passed "anchor.tx.match")
      ↔ ((pending ≡ true) × (different ≡ false) × (strict ≡ true → incomplete ≡ false))
tx_result false d s i = (λ h. absurd (untrue (ap (λ r. r.passed) h)), λ h. absurd (untrue h.0))
tx_result true true s i =
    (λ h. absurd (untrue (ap (λ r. r.passed) h)), λ h. absurd (untrue (sym h.1)))
tx_result true false true true =
    (λ h. absurd (untrue (ap (λ r. r.passed) h)), λ h. absurd (untrue (sym (h.2 refl))))
tx_result true false true false = (λ _. (refl, refl, λ _. refl), λ _. refl)
tx_result true false false i = (λ _. (refl, refl, λ n. absurd (untrue n)), λ _. refl)

module _ (strict : Bool) (c : Corridor) (ctx : GateContext) where
  -- The check of the opened transaction passes exactly when the anchor waits for the sender and every
  -- field that it reports agrees with the request that will be submitted (the amount by its value,
  -- the asset without regard to case); under `strict` it must report every field as well.
  pub opened_tx_check_iff :
      (s : Reported)
      → (opened_tx_check strict c ctx (ok s) ≡ passed "anchor.tx.match") ↔ (
          (s.status ≡ "pending_sender")
          × Agrees (build_settlement_request ctx.opened ctx.quote c) s
          × (strict ≡ true → IsComplete s))
  unfolding opened_tx_check
  opened_tx_check_iff s =
      let req = build_settlement_request ctx.opened ctx.quote c in
      let result =
        tx_result (str_eq s.status "pending_sender") (any_differs (verdicts req s)) strict
          (any_unverified (verdicts req s)) in
      (
        λ h.
            (let r = result.0 h in
              (
                (eq_iff s.status "pending_sender").0 r.0,
                (Agrees-iff req s).0 r.1,
                λ e. (IsComplete-iff req s).0 (r.2 e),
              )),
        λ h. result.1 (
          (eq_iff s.status "pending_sender").1 h.0,
          (Agrees-iff req s).1 h.1,
          λ e. (IsComplete-iff req s).1 (h.2 e),
        ),
      )

-- On a status as the adapters give it, the strict check of the opened transaction never passes:
-- it reads the amount and the asset under names that the status does not have.
pub opened_tx_check_strict :
    (c : Corridor) (ctx : GateContext) (s : TransactionStatus)
    → opened_tx_check true c ctx (ok (reported s)) ≢ passed "anchor.tx.match"
opened_tx_check_strict c ctx s h =
    untrue (((opened_tx_check_iff true c ctx (reported s)).0 h).2 refl).0

-- ===== src/Stellar/Payments/Matches.antt =====
-- What `findExisting` of packages/stellar/src/index.ts compares of a payment, spelled out: its asset
-- and its memo.
use corridor_in_a_box.Base.{
  ◌≡◌, ◌≢◌, ◌⊎◌, inl, inr, refl, ap, sym, ◌∙◌, String, Bool, true, false, not, ◌||◌, ◌&&◌, Option,
  none, some, str_eq, eq_iff, both, unsome, present, or_else, if◌then◌else◌, Bool-cases,
  true_not_false, untrue, not_true, subst, arith,
}
use corridor_in_a_box.Anchor.{MemoType, text, hash, id}
use corridor_in_a_box.Corridor.{Corridor, is_xlm}
use corridor_in_a_box.Json.{to_upper, to_lower}
use corridor_in_a_box.Verbs.{SettlementRequest}
use corridor_in_a_box.Stellar.Facts.{ChainAsset, same_text, type_name}
use corridor_in_a_box.Stellar.Facts.Laws.{same_text_iff}
use corridor_in_a_box.Stellar.Payments.{
  PaymentFact, is_native_code, upper_of, differs_if_known, is_bridge, typed_memo, is_same_memo,
}

-- The asset of a payment is the corridor's: XLM for a native one, and otherwise the code up to case,
-- from the issuer of the manifest where both name one.
abbrev pub IsBridgeAsset : Corridor → ChainAsset → Type 0
IsBridgeAsset c a =
    (((is_xlm c.settlement.bridge_asset ≡ true) ⊎ (to_lower c.settlement.bridge_asset ≡ "native"))
      × ((a.type ≡ some "native") ⊎ ((k : String) × (a.code ≡ some k) × (to_upper k ≡ "XLM"))))
    ⊎ ((is_xlm c.settlement.bridge_asset ≡ false)
        × (to_lower c.settlement.bridge_asset ≢ "native")
        × ((k : String) × (a.code ≡ some k) × (to_upper k ≡ to_upper c.settlement.bridge_asset))
        × ((i : String)
            → a.issuer ≡ some i
            → i ≢ ""
            → c.settlement.asset_issuer ≢ ""
            → i ≡ c.settlement.asset_issuer))

-- The texts of two memos of a type: of a hash in the form that `normalize` gives.
abbrev pub IsMemoText : (String → String) → MemoType → String → PaymentFact → Type 0
IsMemoText normalize hash m p =
    ((q : String) × (p.memo ≡ some q) × (normalize m ≡ normalize q))
    ⊎ ((present p.memo ≡ false) × (normalize m ≡ ""))
IsMemoText normalize _ m p = p.memo ≡ some m

-- The payment has the memo of the request, of the same type, and none if none is asked for.
abbrev pub IsUnderMemo : (String → String) → SettlementRequest → PaymentFact → Type 0
IsUnderMemo normalize req p =
    ((present req.memo ≡ false) × ((present p.memo ≡ false) ⊎ (p.memo_type ≡ "none")))
    ⊎ ((m : String) × (req.memo ≡ some m)
        × (p.memo_type ≡ type_name (or_else req.memo_type text))
        × IsMemoText normalize (or_else req.memo_type text) m p)

pub either : (a b : Bool) → (a || b) ≡ true → (a ≡ true) ⊎ (b ≡ true)
either true b h = inl refl
either false b h = inr h

neither : (a b : Bool) → (a || b) ≡ false → (a ≡ false) × (b ≡ false)
neither true b h = cc
neither false b h = (refl, h)

pub kinds :
    (t : String)
    → (str_eq t "payment"
        || (str_eq t "path_payment_strict_receive"
            || (str_eq t "path_payment_strict_send" || false)))
      ≡ true
    → (t ≡ "payment") ⊎ (t ≡ "path_payment_strict_receive") ⊎ (t ≡ "path_payment_strict_send")
kinds t h = elim (either _ _ h) [
  | inl e ↦ inl ((eq_iff t _).0 e)
  | inr k ↦ elim (either _ _ k) [
    | inl e ↦ inr (inl ((eq_iff t _).0 e))
    | inr l ↦ elim (either _ _ l) [
      | inl e ↦ inr (inr ((eq_iff t _).0 e))
      | inr n ↦ absurd (untrue n)
    ]
  ]
]

code_of :
    (o : Option String) (u : String)
    → same_text (upper_of o) (some u) ≡ true
    → (k : String) × (o ≡ some k) × (to_upper k ≡ u)
code_of none u h = cc
code_of (some k) u h = (k, refl, (eq_iff (to_upper k) u).0 h)

no_text : (s : String) → s ≢ "" → str_eq s "" ≡ false
no_text s n = not_true (str_eq s "") (λ e. n ((eq_iff s "").0 e))

issuer_of :
    (o : Option String) (issuer i : String)
    → not (differs_if_known o issuer) ≡ true
    → o ≡ some i
    → i ≢ ""
    → issuer ≢ ""
    → i ≡ issuer
issuer_of none issuer i h e n m = cc
issuer_of (some s) issuer i h e n m = elim (Bool-cases (str_eq s issuer)) [
  | inl same ↦ sym (unsome e) ∙ (eq_iff s issuer).0 same
  | inr other ↦
      let known : s ≢ "" = λ z. n (sym (unsome e) ∙ z) in
      absurd (untrue (rw (no_text issuer m, no_text s known, other) at h))
]

pub is_bridge-IsBridgeAsset :
    (c : Corridor) (a : ChainAsset) → is_bridge c a ≡ true → IsBridgeAsset c a
unfolding is_bridge is_native_code
is_bridge-IsBridgeAsset c a h = elim (Bool-cases (is_native_code c.settlement.bridge_asset)) [
  | inl native ↦ inl (
    elim (either _ _ native) [ inl x ↦ inl x | inr l ↦ inr ((eq_iff _ _).0 l) ],
    elim (either _ _ (rw native at h)) [
      | inl n ↦ inl ((same_text_iff a.type (some "native")).0 n)
      | inr k ↦ inr (code_of a.code "XLM" k)
    ],
  )
  | inr other ↦
      let (x, l) = neither _ _ other in
      let (code, issuer) = both _ _ (rw other at h) in
      inr (
        x,
        (λ e. true_not_false ((eq_iff _ _).1 e) l),
        code_of a.code (to_upper c.settlement.bridge_asset) code,
        (λ i e n m. issuer_of a.issuer c.settlement.asset_issuer i issuer e n m),
      )
]

memo_of : (o : Option String) → present o ≡ true → (m : String) × (o ≡ some m) × (or_else o "" ≡ m)
memo_of none h = cc
memo_of (some m) h = (m, refl, refl)

hash_of :
    (normalize : String → String) (m : String) (o : Option String)
    → str_eq (normalize m) (if present o then normalize (or_else o "") else "") ≡ true
    → ((q : String) × (o ≡ some q) × (normalize m ≡ normalize q))
      ⊎ ((present o ≡ false) × (normalize m ≡ ""))
hash_of normalize m o h = elim (Bool-cases (present o)) [
  | inl y ↦ let (q, e, k) = memo_of o y in inl (q, e, (eq_iff _ _).0 (rw y at h) ∙ ap normalize k)
  | inr n ↦ inr (n, (eq_iff _ _).0 (rw n at h))
]

typed_memo-IsMemoText :
    (normalize : String → String) (m : String) (t : MemoType) (p : PaymentFact)
    → typed_memo normalize m t p ≡ true
    → (p.memo_type ≡ type_name t) × IsMemoText normalize t m p
typed_memo-IsMemoText normalize m hash p h =
    let (t, e) = both _ _ h in ((eq_iff p.memo_type "hash").0 t, hash_of normalize m p.memo e)
typed_memo-IsMemoText normalize m id p h =
    let (t, e) = both _ _ h in ((eq_iff p.memo_type "id").0 t, (same_text_iff p.memo (some m)).0 e)
typed_memo-IsMemoText normalize m text p h =
    let (t, e) = both _ _ h in
    ((eq_iff p.memo_type "text").0 t, (same_text_iff p.memo (some m)).0 e)

no_memo : (a b : Bool) → not (a && not b) ≡ true → (a ≡ false) ⊎ (b ≡ true)
no_memo true b h = inr (ground arith)
no_memo false b h = inl refl

pub is_same_memo-IsUnderMemo :
    (normalize : String → String) (req : SettlementRequest) (p : PaymentFact)
    → is_same_memo normalize req p ≡ true
    → IsUnderMemo normalize req p
unfolding is_same_memo
is_same_memo-IsUnderMemo normalize req p h = elim (Bool-cases (present req.memo)) [
  | inl y ↦
      let (m, e, k) = memo_of req.memo y in
      let typed =
        typed_memo-IsMemoText normalize (or_else req.memo "") (or_else req.memo_type text) p
          (rw y at h) in
      inr (m, e, typed.0, subst_memo k typed.1)
  | inr n ↦ inl (
    n,
    elim (no_memo _ _ (rw n at h)) [
      | inl none_there ↦ inl none_there
      | inr none_type ↦ inr ((eq_iff p.memo_type "none").0 none_type)
    ],
  )
]
  where
    subst_memo :
        {m : String}
        → or_else req.memo "" ≡ m
        → IsMemoText normalize (or_else req.memo_type text) (or_else req.memo "") p
        → IsMemoText normalize (or_else req.memo_type text) m p
    subst_memo k x = subst (λ t. IsMemoText normalize (or_else req.memo_type text) t p) k x

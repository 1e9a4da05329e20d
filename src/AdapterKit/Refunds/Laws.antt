-- ===== src/AdapterKit/Refunds/Laws.antt =====
-- What `parseRefunds` of packages/adapter-kit/src/index.ts calls a full refund.
use corridor_in_a_box.Base.{
  ℕ, ◌≡◌, ◌≢◌, ◌↔◌, refl, sym, subst, ◌∙◌, String, Option, none, some, List, none-ne-some, unsome,
}
use corridor_in_a_box.Base.Int.{ℤ}
use corridor_in_a_box.Outcome.{Outcome, ok, err, err-ne-ok, unwrap}
use corridor_in_a_box.Anchor.{RefundInfo, full, unknown}
use corridor_in_a_box.Money.{compare_amounts, stroop_scale, Order, below, equal, above, order_of}
use corridor_in_a_box.Money.Exact.{StandsFor}
use corridor_in_a_box.Money.Compare.{compare_amounts_exact, compare_amounts_of}
use corridor_in_a_box.Json.{Json, Fields, obj, fields_of}
use corridor_in_a_box.AdapterKit.Refunds.{
  parse_amount, parse_refunds, completeness_of, by_order, read_refund, refund_of, amount_at,
}

-- The first amount is not below the second, by the values of the decimals.
abbrev pub Covers : List ℕ → List ℕ → Type 0
Covers a b =
    (v : ℤ) × (w : ℤ) × StandsFor a stroop_scale v
    × StandsFor b stroop_scale w
    × (order_of v w ≢ below)

by_order_iff :
    (a b : List ℕ) (r : Outcome Order)
    → compare_amounts a b stroop_scale ≡ r
    → (by_order r ≡ full) ↔ Covers a b
by_order_iff a b (err e) k = (
  λ h. absurd (unknown-ne-full h),
  λ (v, w, p, q, o). absurd (err-ne-ok (sym k ∙ compare_amounts_of a b stroop_scale v w p q)),
)
  where
    unknown-ne-full : unknown ≢ full
    unknown-ne-full h = cc
by_order_iff a b (ok o) k = (
  λ h.
      (let (v, w, p, q, e) = compare_amounts_exact a b stroop_scale o k in
        (v, w, p, q, λ l. not_below o h (sym e ∙ l))),
  λ (v, w, p, q, n).
      is_full o (λ l. n (unwrap (sym (compare_amounts_of a b stroop_scale v w p q) ∙ k) ∙ l)),
)
  where
    not_below : (o : Order) → by_order (ok o) ≡ full → o ≢ below
    not_below below h = cc
    not_below equal h = λ l. cc
    not_below above h = λ l. cc

    is_full : (o : Order) → o ≢ below → by_order (ok o) ≡ full
    is_full below n = absurd (n refl)
    is_full equal n = refl
    is_full above n = refl

completeness_iff :
    (a : List ℕ) (settled : Option (List ℕ))
    → (completeness_of a settled ≡ full) ↔ ((s : List ℕ) × (settled ≡ some s) × Covers a s)
unfolding completeness_of
completeness_iff a none = (λ h. cc, λ h. absurd (none-ne-some h.1))
completeness_iff a (some s) =
    let compared = by_order_iff a s (compare_amounts a s stroop_scale) refl in
    (λ h. (s, refl, compared.0 h), λ (t, e, c). compared.1 (subst (Covers a) (sym (unsome e)) c))

module _ (asset : String) (settled : Option String) (info : RefundInfo) where
  read_lem :
      (fs : Option Fields)
      → read_refund asset settled fs ≡ some info
      → info.completeness ≡ completeness_of info.amount_refunded.amount (parse_amount settled)
  read_lem none h = absurd (none-ne-some h)
  read_lem (some fs) h = refund_lem (amount_at "amount_refunded" (obj fs)) h
    where
      refund_lem :
          (refunded : Option (List ℕ))
          → refund_of asset fs settled refunded ≡ some info
          → info.completeness ≡ completeness_of info.amount_refunded.amount (parse_amount settled)
      refund_lem none h = absurd (none-ne-some h)
      refund_lem (some refunded) h =
          subst
            (λ i. i.completeness ≡ completeness_of i.amount_refunded.amount (parse_amount settled))
            (unsome h) refl

  -- A refund that the anchor reports is called full exactly when the amount that was settled is
  -- known and the refunded amount is not below it, by the values of the two decimals.
  pub parse_refunds-full_iff :
      (refunds : Option Json)
      → parse_refunds refunds asset settled ≡ some info
      → (info.completeness ≡ full)
        ↔ ((s : List ℕ) × (parse_amount settled ≡ some s) × Covers info.amount_refunded.amount s)
  unfolding parse_refunds
  parse_refunds-full_iff refunds h =
      let same = read_lem (fields_of refunds) h in
      let known = completeness_iff info.amount_refunded.amount (parse_amount settled) in
      (λ f. known.0 (sym same ∙ f), λ k. same ∙ known.1 k)

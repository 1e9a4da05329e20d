-- ===== src/Sep31/Checks/Range.antt =====
-- What the check of packages/sep31/src/amountRangeCheck.ts lets through.
use corridor_in_a_box.Base.{
  ℕ, String, ◌≡◌, ◌↔◌, refl, sym, subst, ap, ◌∙◌, Bool, true, false, not, ◌&&◌, Option, none, some,
  List, [], ◌∷◌, if◌then◌else◌, untrue, none-ne-some, unsome, both, arith,
}
use corridor_in_a_box.Base.Int.{ℤ}
use corridor_in_a_box.Types.{presettle_amount_out_of_range}
use corridor_in_a_box.Outcome.{Outcome, ok, err, ◌>>=◌, err-ne-ok, unwrap}
use corridor_in_a_box.Money.{compare_amounts, stroop_scale, Order, order_of}
use corridor_in_a_box.Money.Exact.{StandsFor}
use corridor_in_a_box.Money.Compare.{compare_amounts_exact, compare_amounts_of}
use corridor_in_a_box.Corridor.{Corridor}
use corridor_in_a_box.Verbs.{build_settlement_request}
use corridor_in_a_box.Engine.{GateContext}
use corridor_in_a_box.Sep31.Records.{AssetInfo}
use corridor_in_a_box.Sep31.Checks.{
  bound_of, pick, pick_of, is_above, is_below, outside, in_range, asset_min, asset_max,
  lookup_asset, amount_range_check, passed, refused,
}

-- The amount and the bound are decimals, and their values stand in an order that is not bad.
abbrev pub Fits : (Order → Bool) → List ℕ → List ℕ → Type 0
Fits bad amount bound =
    (v : ℤ) × (w : ℤ) × StandsFor amount stroop_scale v
    × StandsFor bound stroop_scale w
    × (bad (order_of v w) ≡ false)

-- A bound that is there holds; a missing or empty one asks for nothing.
abbrev pub Within : (Order → Bool) → List ℕ → Option (List ℕ) → Type 0
Within bad amount bound = (b : List ℕ) → bound_of bound ≡ some b → Fits bad amount b

abbrev clears : (Order → Bool) → List ℕ → Outcome (Option (List ℕ)) → Bool
clears bad amount (ok bound) = not (outside bad amount (bound_of bound))
clears bad amount (err e) = false

and_false : (b : Bool) → (b && false) ≡ false
and_false true = refl
and_false false = refl

in_range_lem :
    (amount : List ℕ) (low high : Outcome (Option (List ℕ)))
    → in_range amount low high ≡ (clears is_below amount low && clears is_above amount high)
in_range_lem amount (ok low) (ok high) = refl
in_range_lem amount (ok low) (err e) = sym (and_false (clears is_below amount (ok low)))
in_range_lem amount (err e) high = refl

bound_of-some :
    (o : Option (List ℕ)) (b : List ℕ) → bound_of o ≡ some b → bound_of (some b) ≡ some b
bound_of-some (some (c ∷ s)) b h = subst (λ t. bound_of (some t) ≡ some t) (unsome h) refl
bound_of-some none b h = absurd (none-ne-some h)
bound_of-some (some []) b h = absurd (none-ne-some h)

outside_iff :
    (bad : Order → Bool) (amount b : List ℕ)
    → (not (outside bad amount (some b)) ≡ true) ↔ Fits bad amount b
outside_iff bad amount b = compared (compare_amounts amount b stroop_scale) refl
  where
    compared :
        (r : Outcome Order)
        → compare_amounts amount b stroop_scale ≡ r
        → (not (elim r [ ok order ↦ bad order | err e ↦ true ]) ≡ true) ↔ Fits bad amount b
    compared (ok o) e = (
      λ h.
          (let (v, w, p, q, k) = compare_amounts_exact amount b stroop_scale o e in
            (v, w, p, q, subst (λ x. bad x ≡ false) (sym k) (kept (bad o) h))),
      λ (v, w, p, q, k).
          subst (λ x. not (bad x) ≡ true)
            (unwrap (sym (compare_amounts_of amount b stroop_scale v w p q) ∙ e)) (rw k refl),
    )
      where
        kept : (x : Bool) → not x ≡ true → x ≡ false
        kept false h = refl
        kept true h = absurd (untrue h)
    compared (err x) e = (
      λ h. absurd (untrue h),
      λ (v, w, p, q, k).
          absurd (err-ne-ok (sym e ∙ compare_amounts_of amount b stroop_scale v w p q)),
    )

Within-iff :
    (bad : Order → Bool) (amount : List ℕ) (o : Option (List ℕ))
    → (clears bad amount (ok o) ≡ true) ↔ Within bad amount o
Within-iff bad amount o = bounded (bound_of o)
  where
    bounded :
        (x : Option (List ℕ))
        → (not (outside bad amount x) ≡ true) ↔ ((b : List ℕ) → x ≡ some b → Fits bad amount b)
    bounded none = (λ h b e. absurd (none-ne-some e), λ h. refl)
    bounded (some x) = (
      λ h b e. subst (Fits bad amount) (unsome e) ((outside_iff bad amount x).0 h),
      λ h. (outside_iff bad amount x).1 (h x refl),
    )

-- An amount that keeps the bound that wins keeps the other one.
abbrev Carries : (Order → Bool) → (Order → Bool) → Type 0
Carries bad wins =
    (v x y : ℤ)
    → ((wins (order_of x y) ≡ true → bad (order_of v x) ≡ false → bad (order_of v y) ≡ false)
        × (wins (order_of x y) ≡ false → bad (order_of v y) ≡ false → bad (order_of v x) ≡ false))

module _ (bad wins : Order → Bool) (carries : Carries bad wins) (amount : List ℕ) where
  Fits-carried :
      (x y : List ℕ) (o : Order)
      → compare_amounts x y stroop_scale ≡ ok o
      → ((wins o ≡ true → Fits bad amount x → Fits bad amount y)
          × (wins o ≡ false → Fits bad amount y → Fits bad amount x))
  Fits-carried x y o e =
      let (vx, vy, sx, sy, k) = compare_amounts_exact x y stroop_scale o e in
      (
        λ won (v, w, p, q, fine). (
          v,
          vy,
          p,
          sy,
          (carries v vx vy).0 (subst (λ t. wins t ≡ true) (sym k) won)
              (subst (λ t. bad (order_of v t) ≡ false) (unwrap (sym q ∙ sx)) fine),
        ),
        λ lost (v, w, p, q, fine). (
          v,
          vx,
          p,
          sx,
          (carries v vx vy).1 (subst (λ t. wins t ≡ false) (sym k) lost)
              (subst (λ t. bad (order_of v t) ≡ false) (unwrap (sym q ∙ sy)) fine),
        ),
      )

  picked_iff :
      (x y : List ℕ) (b : Option (List ℕ))
      → bound_of (some x) ≡ some x
      → bound_of (some y) ≡ some y
      → (clears bad amount (pick_of wins b (some x) (some y)) ≡ true)
        ↔ (Fits bad amount x × Fits bad amount y)
  picked_iff x y b nx ny = compared (compare_amounts x y stroop_scale) refl
    where
      compared :
          (r : Outcome Order)
          → compare_amounts x y stroop_scale ≡ r
          → (clears bad amount (r >>= λ order. ok (some (if wins order then x else y))) ≡ true)
            ↔ (Fits bad amount x × Fits bad amount y)
      compared (err f) e = (
        λ h. absurd (untrue h),
        λ ((v, w, p, q, k), (v2, w2, p2, q2, k2)).
            absurd (err-ne-ok (sym e ∙ compare_amounts_of x y stroop_scale w w2 q q2)),
      )
      compared (ok o) e = chosen (wins o) refl
        where
          chosen :
              (won : Bool)
              → wins o ≡ won
              → (clears bad amount (ok (some (if won then x else y))) ≡ true)
                ↔ (Fits bad amount x × Fits bad amount y)
          chosen true k = (
            λ h.
                (let fit = (Within-iff bad amount (some x)).0 h x nx in
                  (fit, (Fits-carried x y o e).0 k fit)),
            λ h.
                (Within-iff bad amount (some x)).1
                  (λ z t. subst (Fits bad amount) (unsome (sym nx ∙ t)) h.0),
          )
          chosen false k = (
            λ h.
                (let fit = (Within-iff bad amount (some y)).0 h y ny in
                  ((Fits-carried x y o e).1 k fit, fit)),
            λ h.
                (Within-iff bad amount (some y)).1
                  (λ z t. subst (Fits bad amount) (unsome (sym ny ∙ t)) h.1),
          )

  pick_iff :
      (a b : Option (List ℕ))
      → (clears bad amount (pick wins a b) ≡ true) ↔ (Within bad amount a × Within bad amount b)
  pick_iff a b = bounded (bound_of a) (bound_of b) refl refl
    where
      bounded :
          (x y : Option (List ℕ))
          → bound_of a ≡ x
          → bound_of b ≡ y
          → (clears bad amount (pick_of wins b x y) ≡ true)
            ↔ (Within bad amount a × Within bad amount b)
      bounded none y ex ey = (
        λ h. (λ z e. absurd (none-ne-some (sym ex ∙ e)), (Within-iff bad amount b).0 h),
        λ h. (Within-iff bad amount b).1 h.1,
      )
      bounded (some x) none ex ey = (
        λ h. (
          λ z e. (Within-iff bad amount (some x)).0 h z (bound_of-some a x ex ∙ sym ex ∙ e),
          λ z e. absurd (none-ne-some (sym ey ∙ e)),
        ),
        λ h.
            (Within-iff bad amount (some x)).1 (λ z e. h.0 z (ex ∙ sym (bound_of-some a x ex) ∙ e)),
      )
      bounded (some x) (some y) ex ey =
          let both_fit = picked_iff x y b (bound_of-some a x ex) (bound_of-some b y ey) in
          (
            λ h. (
              λ z e. subst (Fits bad amount) (unsome (sym ex ∙ e)) (both_fit.0 h).0,
              λ z e. subst (Fits bad amount) (unsome (sym ey ∙ e)) (both_fit.0 h).1,
            ),
            λ h. both_fit.1 (h.0 x ex, h.1 y ey),
          )

low-Carries : Carries is_below is_above
low-Carries v x y = (λ h k. ground arith, λ h k. ground arith)

high-Carries : Carries is_above is_below
high-Carries v x y = (λ h k. ground arith, λ h k. ground arith)

range_result :
    (b : Bool)
    → ((if b
          then passed "sep31.amount.range"
          else refused "sep31.amount.range" presettle_amount_out_of_range)
        ≡ passed "sep31.amount.range")
      ↔ (b ≡ true)
range_result true = (λ _. refl, λ _. refl)
range_result false = (λ h. absurd (untrue (ap (λ r. r.passed) h)), λ h. absurd (untrue h))

-- The range check passes exactly when the amount that will be submitted keeps, by the values of the
-- decimals, each bound that is there: the minimum and the maximum of the corridor, and those that
-- the anchor gives for the bridge asset.
pub amount_range_check_iff :
    (c : Corridor) (ctx : GateContext) (receive : List (String × AssetInfo))
    → (amount_range_check c ctx (ok receive) ≡ passed "sep31.amount.range") ↔ (
        let amount = (build_settlement_request ctx.opened ctx.quote c).amount.amount in
        let info = lookup_asset c.settlement.bridge_asset receive in
        Within is_below amount c.limits.min_amount
        × Within is_below amount (asset_min info)
        × Within is_above amount c.limits.max_amount
        × Within is_above amount (asset_max info))
unfolding amount_range_check
amount_range_check_iff c ctx receive =
    let amount = (build_settlement_request ctx.opened ctx.quote c).amount.amount in
    let info = lookup_asset c.settlement.bridge_asset receive in
    let low = pick_iff is_below is_above low-Carries amount c.limits.min_amount (asset_min info) in
    let high =
      pick_iff is_above is_below high-Carries amount c.limits.max_amount (asset_max info) in
    let split =
      in_range_lem amount (pick is_above c.limits.min_amount (asset_min info))
        (pick is_below c.limits.max_amount (asset_max info)) in
    (
      λ h.
          (let k = both _ _ (sym split ∙ (range_result _).0 h) in
            ((low.0 k.0).0, (low.0 k.0).1, (high.0 k.1).0, (high.0 k.1).1)),
      λ h. (range_result _).1 (split ∙ rw (low.1 (h.0, h.1), high.1 (h.2, h.3)) refl),
    )

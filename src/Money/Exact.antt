-- ===== src/Money/Exact.antt =====
-- The arithmetic of packages/types/src/money.ts on the integers that its amounts stand for.
use corridor_in_a_box.Base.{ℕ, ◌+◌, ◌*◌, ◌/◌, ◌≤◌, ◌<◌, ◌≡◌, refl, sym, ap, ◌∙◌, List, arith}
use corridor_in_a_box.Base.Int.{ℤ, pos, ◌+ℤ◌, ◌-ℤ◌, ◌*ℤ◌}
use corridor_in_a_box.Outcome.{Outcome, ok, err, ◌>>=◌}
use corridor_in_a_box.Money.{
  to_scaled, from_scaled, combine, add_amounts, sub_amounts, apply_price, round_scaled,
  stroop_scale,
}
use corridor_in_a_box.Money.RoundTrip.{to_scaled-from_scaled}

-- An amount that stands for an integer at a scale.
abbrev pub StandsFor : List ℕ → ℕ → ℤ → Type 0
StandsFor s scale v = to_scaled s scale ≡ ok v

pub both_of :
    {A : Type 0} (u v : Outcome ℤ) (f : ℤ → ℤ → A) (r : A)
    → (u >>= λ x. v >>= λ y. ok (f x y)) ≡ ok r
    → (x : ℤ) × (y : ℤ) × (u ≡ ok x) × (v ≡ ok y) × (f x y ≡ r)
both_of (ok x) (ok y) f r h = (x, y, refl, refl, cc)
both_of (ok x) (err e) f r h = cc
both_of (err e) v f r h = cc

module _ (a b : List ℕ) (scale : ℕ) (r : List ℕ) where
  combined :
      (op : ℤ → ℤ → ℤ)
      → combine a b op scale ≡ ok r
      → (x : ℤ) × (y : ℤ) × StandsFor a scale x × StandsFor b scale y × StandsFor r scale (op x y)
  unfolding combine
  combined op h =
      let (x, y, ax, yb, printed) =
        both_of (to_scaled a scale) (to_scaled b scale) (λ x y. from_scaled (op x y) scale) r h in
      (
        x,
        y,
        ax,
        yb,
        ap (λ t. to_scaled t scale) (sym printed) ∙ to_scaled-from_scaled (op x y) scale,
      )

  -- A sum that is computed stands for the sum of what its terms stand for: nothing is rounded.
  pub add_amounts_exact :
      add_amounts a b scale ≡ ok r
      → (x : ℤ) × (y : ℤ) × StandsFor a scale x × StandsFor b scale y × StandsFor r scale (x +ℤ y)
  unfolding add_amounts
  add_amounts_exact h = combined ◌+ℤ◌ h

  pub sub_amounts_exact :
      sub_amounts a b scale ≡ ok r
      → (x : ℤ) × (y : ℤ) × StandsFor a scale x × StandsFor b scale y × StandsFor r scale (x -ℤ y)
  unfolding sub_amounts
  sub_amounts_exact h = combined ◌-ℤ◌ h

-- `r` is a product of scaled integers, rounded to the nearest stroop.
abbrev pub IsNearest : ℕ → ℕ → Type 0
IsNearest product r =
    (r * 10_000_000 ≤ product + 5_000_000) × (product < r * 10_000_000 + 5_000_000)

mul_pos : (x y : ℕ) → pos x *ℤ pos y ≡ pos (x * y)
unfolding ◌*ℤ◌
mul_pos x y = ground arith

round_scaled-pos : (n : ℕ) → round_scaled (pos n) 10_000_000 ≡ pos ((n + 5_000_000) / 10_000_000)
unfolding round_scaled ◌+ℤ◌
round_scaled-pos n = ground arith

unwrap : {A : Type 0} (a b : A) → Outcome.ok a ≡ ok b → a ≡ b
unwrap a b h = cc

converted :
    (amount price r : List ℕ) (x y n : ℕ)
    → StandsFor amount stroop_scale (pos x)
    → StandsFor price stroop_scale (pos y)
    → round_scaled (pos x *ℤ pos y) 10_000_000 ≡ pos n
    → apply_price amount price stroop_scale ≡ ok r
    → Outcome.ok (from_scaled (pos n) stroop_scale) ≡ ok r
unfolding apply_price
converted amount price r x y n ax py product h =
    let (u, v, au, pv, printed) =
      both_of (to_scaled amount stroop_scale) (to_scaled price stroop_scale)
        (λ u v. from_scaled (round_scaled (u *ℤ v) 10_000_000) stroop_scale) r h in
    let left : u ≡ pos x = cc in
    let right : v ≡ pos y = cc in
    ap (λ t. ok (from_scaled t stroop_scale))
      (sym product
        ∙ ap (λ t. round_scaled (t *ℤ pos y) 10_000_000) (sym left)
        ∙ ap (λ t. round_scaled (u *ℤ t) 10_000_000) (sym right))
    ∙ ap ok printed

-- A converted amount stands for the product of amount and price, rounded to the nearest stroop, for an
-- amount and a price that are not negative.
pub apply_price-IsNearest :
    (amount price r : List ℕ) (x y : ℕ)
    → StandsFor amount stroop_scale (pos x)
    → StandsFor price stroop_scale (pos y)
    → apply_price amount price stroop_scale ≡ ok r
    → (v : ℕ) × StandsFor r stroop_scale (pos v) × IsNearest (x * y) v
apply_price-IsNearest amount price r x y ax py h =
    let n = (x * y + 5_000_000) / 10_000_000 in
    let product = ap (λ t. round_scaled t 10_000_000) (mul_pos x y) ∙ round_scaled-pos (x * y) in
    let printed =
      unwrap (from_scaled (pos n) stroop_scale) r
        (converted amount price r x y n ax py product h) in
    (
      n,
      ap (λ t. to_scaled t stroop_scale) (sym printed) ∙ to_scaled-from_scaled (pos n) stroop_scale,
      (omega arith, omega arith),
    )

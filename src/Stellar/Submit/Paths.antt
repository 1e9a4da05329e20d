-- ===== src/Stellar/Submit/Paths.antt =====
-- The choice among the paths that Horizon offers, in packages/stellar/src/index.ts.
use corridor_in_a_box.Base.{
  ℕ, ◌≡◌, ◌⊎◌, inl, inr, refl, sym, subst, ap, ◌∙◌, true, false, Option, none, some, List, [], ◌∷◌,
  Bool-cases, none-ne-some, unsome, arith,
}
use corridor_in_a_box.Base.Int.{ℤ, pos, ltb_ℤ}
use corridor_in_a_box.Outcome.{Outcome, ok, err, unwrap, err-ne-ok}
use corridor_in_a_box.Money.{to_scaled, from_scaled, stroop_scale}
use corridor_in_a_box.Money.Exact.{StandsFor}
use corridor_in_a_box.Money.RoundTrip.{to_scaled-from_scaled}
use corridor_in_a_box.Stellar.Submit.{
  PathRecord, best_path, better, usable, taken, best_strict_send_path,
}
use mathlib.Core.List.{Memᴰ}

lt_trans : (a b c : ℤ) → ltb_ℤ a b ≡ false → ltb_ℤ b c ≡ false → ltb_ℤ a c ≡ false
lt_trans a b c h k = ground arith

lt_asym : (a b : ℤ) → ltb_ℤ a b ≡ true → ltb_ℤ b a ≡ false
lt_asym a b h = ground arith

lt_irrefl : (a : ℤ) → ltb_ℤ a a ≡ false
lt_irrefl a = ground arith

usable_value : (o : Outcome ℤ) (w : ℤ) → usable o ≡ some w → (o ≡ ok w) × (ltb_ℤ (pos 0) w ≡ true)
usable_value (err e) w h = absurd (none-ne-some h)
usable_value (ok v) w h = elim (Bool-cases (ltb_ℤ (pos 0) v)) [
  | inl e ↦
      (let same : v ≡ w = unsome (rw e at h) in
        (ap ok same, subst (λ t. ltb_ℤ (pos 0) t ≡ true) same e))
  | inr n ↦ absurd (none-ne-some (rw n at h))
]

usable_positive : (o : Outcome ℤ) (w : ℤ) → o ≡ ok w → ltb_ℤ (pos 0) w ≡ true → usable o ≡ some w
usable_positive o w h k = rw (h, k) refl

lt_positive : (v w : ℤ) → ltb_ℤ (pos 0) v ≡ true → ltb_ℤ (pos 0) w ≡ false → ltb_ℤ v w ≡ false
lt_positive v w h k = ground arith

module _ {ℓ} {Asset : Type ℓ} where
  abbrev pub value_of : PathRecord Asset → Outcome ℤ
  value_of r = to_scaled r.destination_amount stroop_scale

  kept :
      (q : PathRecord Asset) (o : Option ℤ) (b : PathRecord Asset) (u : ℤ)
      → (d : PathRecord Asset) × (v : ℤ) × (better q o (some (b, u)) ≡ some (d, v))
        × (ltb_ℤ v u ≡ false)
  kept q none b u = (b, u, refl, lt_irrefl u)
  kept q (some v) b u = elim (Bool-cases (ltb_ℤ u v)) [
    | inl e ↦ (q, v, rw e refl, lt_asym u v e)
    | inr n ↦ (b, u, rw n refl, lt_irrefl u)
  ]

  offered :
      (q : PathRecord Asset) (w : ℤ) (best : Option (PathRecord Asset × ℤ))
      → (d : PathRecord Asset) × (v : ℤ) × (better q (some w) best ≡ some (d, v))
        × (ltb_ℤ v w ≡ false)
  offered q w none = (q, w, refl, lt_irrefl w)
  offered q w (some (b, u)) = elim (Bool-cases (ltb_ℤ u w)) [
    | inl e ↦ (q, w, rw e refl, lt_irrefl w)
    | inr n ↦ (b, u, rw n refl, n)
  ]

  chosen :
      (q : PathRecord Asset) (o : Option ℤ) (best : Option (PathRecord Asset × ℤ))
      → (better q o best ≡ best) ⊎ ((w : ℤ) × (o ≡ some w) × (better q o best ≡ some (q, w)))
  chosen q none best = inl refl
  chosen q (some w) none = inr (w, refl, refl)
  chosen q (some w) (some (b, u)) = elim (Bool-cases (ltb_ℤ u w)) [
    | inl e ↦ inr (w, refl, rw e refl)
    | inr n ↦ inl (rw n refl)
  ]

  module _ (r : PathRecord Asset) (v : ℤ) where
    best_grows :
        (rs : List (PathRecord Asset)) (b : PathRecord Asset) (u : ℤ)
        → best_path rs (some (b, u)) ≡ some (r, v)
        → ltb_ℤ v u ≡ false
    unfolding best_path
    best_grows [] b u h = subst (λ t. ltb_ℤ t.1 u ≡ false) (unsome h) (lt_irrefl u)
    best_grows (q ∷ rs) b u h =
        let (d, w, e, k) = kept q (usable (value_of q)) b u in
        lt_trans v w u (best_grows rs d w (rw e at h)) k

    best_given :
        (rs : List (PathRecord Asset)) (best : Option (PathRecord Asset × ℤ))
        → best_path rs best ≡ some (r, v)
        → (best ≡ some (r, v)) ⊎ (Memᴰ r rs × (value_of r ≡ ok v) × (ltb_ℤ (pos 0) v ≡ true))
    unfolding best_path
    best_given [] best h = inl h
    best_given (q ∷ rs) best h = elim (best_given rs (better q (usable (value_of q)) best) h) [
      | inr (m, k, g) ↦ inr (Memᴰ.tail m, k, g)
      | inl e ↦ elim (chosen q (usable (value_of q)) best) [
        | inl same ↦ inl (sym same ∙ e)
        | inr (w, o, taken) ↦
            (let same : (q, w) ≡ (r, v) = unsome (sym taken ∙ e) in
              let (k, g) = usable_value (value_of q) w o in
              inr (
                Memᴰ.head (sym (ap (λ t. t.0) same)),
                subst (λ t. value_of t.0 ≡ ok t.1) same k,
                subst (λ t. ltb_ℤ (pos 0) t.1 ≡ true) same g,
              ))
      ]
    ]

    best_beats :
        (rs : List (PathRecord Asset)) (best : Option (PathRecord Asset × ℤ))
        → best_path rs best ≡ some (r, v)
        → ltb_ℤ (pos 0) v ≡ true
        → (q : PathRecord Asset) (w : ℤ) → Memᴰ q rs
        → value_of q ≡ ok w
        → ltb_ℤ v w ≡ false
    unfolding best_path
    best_beats (p ∷ rs) best h positive q w (Memᴰ.tail m) e =
        best_beats rs (better p (usable (value_of p)) best) h positive q w m e
    best_beats (p ∷ rs) best h positive q w (Memᴰ.head same) e =
        elim (Bool-cases (ltb_ℤ (pos 0) w)) [
          | inl g ↦
              (let (d, u, k, l) = offered p w best in
                let taken =
                  usable_positive (value_of p) w (subst (λ t. value_of t ≡ ok w) same e) g in
                lt_trans v u w (best_grows rs d u (rw (taken, k) at h)) l)
          | inr n ↦ lt_positive v w positive n
        ]
    best_beats [] best h positive q w m e = elim m [ ]

  -- A path that is chosen is one of those offered, its amount is the value of its decimal and is
  -- positive, and no offered path delivers more.
  best_path-IsBest :
      (rs : List (PathRecord Asset)) (r : PathRecord Asset) (v : ℤ)
      → best_path rs none ≡ some (r, v)
      → Memᴰ r rs
        × StandsFor r.destination_amount stroop_scale v
        × (ltb_ℤ (pos 0) v ≡ true)
        × ((q : PathRecord Asset) (w : ℤ)
            → Memᴰ q rs
            → StandsFor q.destination_amount stroop_scale w
            → ltb_ℤ v w ≡ false)
  best_path-IsBest rs r v h = elim (best_given r v rs none h) [
    | inl n ↦ absurd (none-ne-some n)
    | inr (m, e, positive) ↦ (m, e, positive, best_beats r v rs none h positive)
  ]

  -- The path that the quote takes is that of an offered record whose amount is positive, and that no
  -- offered record exceeds; the amount it names stands for the same value.
  pub best_strict_send_path-IsBest :
      (rs : List (PathRecord Asset)) (t : List ℕ) (path : List Asset)
      → best_strict_send_path (some rs) ≡ ok (t, path)
      → (r : PathRecord Asset) × (v : ℤ) × (path ≡ r.path)
        × StandsFor t stroop_scale v
        × Memᴰ r rs
        × StandsFor r.destination_amount stroop_scale v
        × (ltb_ℤ (pos 0) v ≡ true)
        × ((q : PathRecord Asset) (w : ℤ)
            → Memᴰ q rs
            → StandsFor q.destination_amount stroop_scale w
            → ltb_ℤ v w ≡ false)
  unfolding best_strict_send_path
  best_strict_send_path-IsBest rs t path h = picked (best_path rs none) refl h
    where
      picked :
          (o : Option (PathRecord Asset × ℤ))
          → best_path rs none ≡ o
          → taken o ≡ ok (t, path)
          → (r : PathRecord Asset) × (v : ℤ) × (path ≡ r.path)
            × StandsFor t stroop_scale v
            × Memᴰ r rs
            × StandsFor r.destination_amount stroop_scale v
            × (ltb_ℤ (pos 0) v ≡ true)
            × ((q : PathRecord Asset) (w : ℤ)
                → Memᴰ q rs
                → StandsFor q.destination_amount stroop_scale w
                → ltb_ℤ v w ≡ false)
      picked none e h = absurd (err-ne-ok h)
      picked (some (r, v)) e h =
          let same : (from_scaled v stroop_scale, r.path) ≡ (t, path) = unwrap h in
          let (m, k, g, beats) = best_path-IsBest rs r v e in
          (
            r,
            v,
            sym (ap (λ p. p.1) same),
            subst (λ s. StandsFor s stroop_scale v) (ap (λ p. p.0) same)
                (to_scaled-from_scaled v stroop_scale),
            m,
            k,
            g,
            beats,
          )

-- ===== src/Engine/Admission/Laws.antt =====
-- What the guards at the head of `execute` in packages/engine/src/run.ts let through.
use corridor_in_a_box.Base.{
  ℕ, ◌≡◌, refl, Bool, true, false, not, ◌&&◌, ◌||◌, Option, none, some, List, is_some, arith, ap,
  ◌∙◌, subst, sym, [], ◌∷◌, if◌then◌else◌,
}
use corridor_in_a_box.Base.Int.{ℤ, pos}
use corridor_in_a_box.Types.{
  engine_misconfigured, ErrorCode, PaymentIntent, amount_invalid, corridor_unproven,
}
use corridor_in_a_box.Outcome.{Outcome, ok, err, fail, ◌>>=◌}
use corridor_in_a_box.Corridor.{Corridor, is_public}
use corridor_in_a_box.Money.{
  is_settleable_amount, compare_amounts, to_scaled, stroop_scale, Order, above, order_of,
}
use corridor_in_a_box.Liveness.{LivenessState, liveness}
use corridor_in_a_box.Engine.{EngineDeps}
use corridor_in_a_box.Engine.Admission.{
  set_text, is_proven, is_unchecked, canary_cap, smaller_cap, effective_cap, reject_when, is_below,
  is_above, within, within_limits, admit_lane, admission,
}

-- The amount compares with the bound, if there is one, and not in the way that is refused.
abbrev pub IsWithin : (Order → Bool) → List ℕ → Option (List ℕ) → Type 0
IsWithin bad amount none = Unit {0}
IsWithin bad amount (some bound) =
    (o : Order) × (compare_amounts amount bound stroop_scale ≡ ok o) × (bad o ≡ false)

rejected_not :
    (bad : Order → Bool) (code : ErrorCode) (o : Outcome Order)
    → reject_when bad code o ≡ ok tt
    → (order : Order) × (o ≡ ok order) × (bad order ≡ false)
unfolding reject_when
rejected_not bad code (err e) h = cc
rejected_not bad code (ok order) h = (order, refl, ground arith)

within-IsWithin :
    (amount : List ℕ) (bad : Order → Bool) (code : ErrorCode) (bound : Option (List ℕ))
    → within amount bad code bound ≡ ok tt
    → IsWithin bad amount bound
unfolding within
within-IsWithin amount bad code none h = tt
within-IsWithin amount bad code (some bound) h = rejected_not bad code _ h

bind_ok :
    {A B : Type 0} (o : Outcome A) (k : A → Outcome B) (b : B)
    → (o >>= k) ≡ ok b
    → (a : A) × (o ≡ ok a) × (k a ≡ ok b)
bind_ok (ok a) k b h = (a, refl, h)
bind_ok (err e) k b h = cc

-- The limits on the amount.
abbrev IsLimited : Corridor → List ℕ → Bool → Option (List ℕ) → Type 0
IsLimited c amount is_proven_lane cap =
    IsWithin is_below amount (set_text c.limits.min_amount)
    × IsWithin is_above amount (set_text c.limits.max_amount)
    × IsWithin is_above amount (if is_proven_lane then none else set_text cap)

within_limits-IsLimited :
    (c : Corridor) (amount : List ℕ) (p : Bool) (cap : Option (List ℕ))
    → within_limits c amount p cap ≡ ok tt
    → IsLimited c amount p cap
unfolding within_limits
within_limits-IsLimited c amount p cap h =
    let (u, floor, rest) = bind_ok _ _ _ h in
    let (v, ceiling, last) = bind_ok _ _ _ rest in
    (
      within-IsWithin amount is_below amount_invalid _ floor,
      within-IsWithin amount is_above amount_invalid _ ceiling,
      within-IsWithin amount is_above corridor_unproven _ last,
    )

order_trans :
    (a b d : ℤ)
    → is_above (order_of a b) ≡ false
    → is_above (order_of b d) ≡ false
    → is_above (order_of a d) ≡ false
order_trans (pos a) (pos b) (pos d) h k = ground arith
order_trans a b d h k = ground arith

parts_of :
    (u v : Outcome ℤ) (o : Order)
    → (u >>= λ a. v >>= λ b. ok (order_of a b)) ≡ ok o
    → (a : ℤ) × (b : ℤ) × (u ≡ ok a) × (v ≡ ok b) × (order_of a b ≡ o)
parts_of (ok a) (ok b) o h = (a, b, refl, refl, cc)
parts_of (ok a) (err e) o h = cc
parts_of (err e) v o h = cc

compared :
    (x y : List ℕ) (o : Order)
    → compare_amounts x y stroop_scale ≡ ok o
    → (a : ℤ) × (b : ℤ) × (to_scaled x stroop_scale ≡ ok a)
      × (to_scaled y stroop_scale ≡ ok b)
      × (order_of a b ≡ o)
unfolding compare_amounts
compared x y o h = parts_of (to_scaled x stroop_scale) (to_scaled y stroop_scale) o h

compares :
    (x y : List ℕ) (a b : ℤ)
    → to_scaled x stroop_scale ≡ ok a
    → to_scaled y stroop_scale ≡ ok b
    → compare_amounts x y stroop_scale ≡ ok (order_of a b)
unfolding compare_amounts
compares x y a b h k = rw (h, k) refl

same_value : (u : Outcome ℤ) (a b : ℤ) → u ≡ ok a → u ≡ ok b → a ≡ b
same_value u a b h k = cc

-- An amount that is not above a bound is not above a bound that the first one is not above.
IsWithin-trans :
    (x y z : List ℕ)
    → IsWithin is_above x (some y)
    → IsWithin is_above y (some z)
    → IsWithin is_above x (some z)
IsWithin-trans x y z (o, e, n) (o2, e2, n2) =
    let (a, b, xa, yb, ab) = compared x y o e in
    let (b2, d, yb2, zd, bd) = compared y z o2 e2 in
    let same = same_value (to_scaled y stroop_scale) b b2 yb yb2 in
    (
      order_of a d,
      compares x z a d xa zd,
      order_trans a b d (ap is_above ab ∙ n)
          (ap (λ t. is_above (order_of t d)) same ∙ ap is_above bd ∙ n2),
    )

unwrap : {A : Type 0} (a b : A) → Outcome.ok a ≡ ok b → a ≡ b
unwrap a b h = cc

IsWithin-set_text :
    (amount bound : List ℕ)
    → IsWithin is_above amount (some bound)
    → IsWithin is_above amount (set_text (some bound))
IsWithin-set_text amount [] h = tt
IsWithin-set_text amount (d ∷ ds) h = h

abbrev lower : Order → List ℕ → List ℕ → List ℕ
lower above most canary = canary
lower _ most canary = most

lower_of :
    (order : Order) (most canary : List ℕ) (cap : Option (List ℕ))
    → Outcome.ok (some (elim order [ above ↦ canary | _ ↦ most ])) ≡ ok cap
    → some (lower order most canary) ≡ cap
lower_of above most canary cap h = cc
lower_of order most canary cap h = ground arith

by_order :
    (amount most canary : List ℕ) (cap : Option (List ℕ)) (order : Order)
    → compare_amounts most canary stroop_scale ≡ ok order
    → some (lower order most canary) ≡ cap
    → IsWithin is_above amount (some most)
    → IsWithin is_above amount (set_text cap)
    → IsWithin is_above amount (set_text (some canary))
by_order amount most canary cap above e r ceiling last =
    subst (λ t. IsWithin is_above amount (set_text t)) (sym r) last
by_order amount most canary cap order e r ceiling last =
    IsWithin-set_text amount canary (IsWithin-trans amount most canary ceiling (order, e, refl))

smaller_cap-IsWithin :
    (amount : List ℕ) (most : Option (List ℕ)) (canary : List ℕ) (cap : Option (List ℕ))
    → smaller_cap most canary ≡ ok cap
    → IsWithin is_above amount most
    → IsWithin is_above amount (set_text cap)
    → IsWithin is_above amount (set_text (some canary))
unfolding smaller_cap
smaller_cap-IsWithin amount none canary cap h ceiling last =
    subst (λ t. IsWithin is_above amount (set_text t)) (sym (unwrap (some canary) cap h)) last
smaller_cap-IsWithin amount (some most) canary cap h ceiling last =
    let (order, e, r) =
      bind_ok (compare_amounts most canary stroop_scale)
        (λ order. ok (some (elim order [ above ↦ canary | _ ↦ most ]))) cap h in
    by_order amount most canary cap order e (lower_of order most canary cap r) ceiling last

-- What the guards let through. A lane that is not proven also keeps to the canary cap.
pub record IsAdmitted (deps : EngineDeps) (amount : List ℕ) (c : Corridor) (live : LivenessState)
    : Type 0 where
  pub gated : (is_some deps.gate || deps.unsafe_skip_gate) ≡ true
  pub payable : is_settleable_amount amount stroop_scale ≡ true
  pub attended : (is_public c.settlement.network && is_unchecked live) ≡ false
  pub floor : IsWithin is_below amount (set_text c.limits.min_amount)
  pub ceiling : IsWithin is_above amount (set_text c.limits.max_amount)
  pub canary :
      IsWithin is_above amount
        (if is_proven live then none else set_text (some (canary_cap deps c)))

if_ok :
    (b : Bool) (code : ErrorCode) (o : Outcome (Unit {0}))
    → (if b then fail code else o) ≡ ok tt
    → (b ≡ false) × (o ≡ ok tt)
if_ok true code o h = cc
if_ok false code o h = (refl, h)

IsWithin-canary :
    (deps : EngineDeps) (amount : List ℕ) (c : Corridor) (p : Bool) (cap : Option (List ℕ))
    → effective_cap deps c p ≡ ok cap
    → IsWithin is_above amount (set_text c.limits.max_amount)
    → IsWithin is_above amount (if p then none else set_text cap)
    → IsWithin is_above amount (if p then none else set_text (some (canary_cap deps c)))
unfolding effective_cap
IsWithin-canary deps amount c true cap e ceiling last = tt
IsWithin-canary deps amount c false cap e ceiling last =
    smaller_cap-IsWithin amount (set_text c.limits.max_amount) (canary_cap deps c) cap e ceiling
      last

lane_admitted :
    (deps : EngineDeps) (amount : List ℕ) (c : Corridor) (live : LivenessState)
    → (effective_cap deps c (is_proven live) >>= admit_lane c amount live) ≡ ok tt
    → ((is_public c.settlement.network && is_unchecked live) ≡ false)
      × IsWithin is_below amount (set_text c.limits.min_amount)
      × IsWithin is_above amount (set_text c.limits.max_amount)
      × IsWithin is_above amount
          (if is_proven live then none else set_text (some (canary_cap deps c)))
unfolding admit_lane
lane_admitted deps amount c live h =
    let (cap, e, r) =
      bind_ok (effective_cap deps c (is_proven live)) (admit_lane c amount live) tt h in
    let (attended, limits) =
      if_ok (is_public c.settlement.network && is_unchecked live) corridor_unproven
        (within_limits c amount (is_proven live) cap) r in
    let (floor, ceiling, last) = within_limits-IsLimited c amount (is_proven live) cap limits in
    (attended, floor, ceiling, IsWithin-canary deps amount c (is_proven live) cap e ceiling last)

-- A payment is admitted only with a gate or the explicit opt-out, for an amount that can be settled,
-- on a lane whose endpoints were checked if it is public, within the corridor's limits, and, on a lane
-- that is not proven, not above the canary cap.
pub admission-IsAdmitted :
    (deps : EngineDeps) (intent : PaymentIntent) (c : Corridor) (at : ℕ)
    → admission deps intent c at ≡ ok tt
    → IsAdmitted deps intent.source_amount.amount c (liveness c at).state
unfolding admission
admission-IsAdmitted deps intent c at h =
    let amount = intent.source_amount.amount in
    let (has, rest) =
      if_ok (not (is_some deps.gate) && not deps.unsafe_skip_gate) engine_misconfigured _ h in
    let (pays, lane) =
      if_ok (not (is_settleable_amount amount stroop_scale)) amount_invalid _ rest in
    let (attended, floor, ceiling, canary) =
      lane_admitted deps amount c (liveness c at).state lane in
    record {
      gated = ground arith;
      payable = ground arith;
      attended = attended;
      floor = floor;
      ceiling = ceiling;
      canary = canary;
    }

-- ===== src/Engine/Admission.antt =====
-- The guards at the head of `execute` in packages/engine/src/run.ts: which payments are admitted
-- before a key is claimed.
pub mod Laws
use corridor_in_a_box.Base.{
  ℕ, Bool, true, false, not, ◌&&◌, Option, none, some, List, [], ◌∷◌, codes, or_else, if◌then◌else◌,
  is_some,
}
use corridor_in_a_box.Types.{
  ErrorCode, PaymentIntent, engine_misconfigured, amount_invalid, corridor_unproven,
}
use corridor_in_a_box.Outcome.{Outcome, ok, err, fail, ◌>>=◌}
use corridor_in_a_box.Corridor.{Corridor, Proof, is_public}
use corridor_in_a_box.Money.{
  is_settleable_amount, compare_amounts, stroop_scale, Order, below, above,
}
use corridor_in_a_box.Liveness.{LivenessState, proven, unverified, not_runnable, liveness}
use corridor_in_a_box.Engine.{EngineDeps}

-- A field that is set and not empty, as `if (max)` reads it.
abbrev pub set_text : Option (List ℕ) → Option (List ℕ)
set_text none = none
set_text (some []) = none
set_text (some (c ∷ s)) = some (c ∷ s)

abbrev pub is_proven : LivenessState → Bool
is_proven proven = true
is_proven _ = false

abbrev pub is_unchecked : LivenessState → Bool
is_unchecked unverified = true
is_unchecked not_runnable = true
is_unchecked _ = false

abbrev proof_cap : Option Proof → Option (List ℕ)
proof_cap none = none
proof_cap (some p) = p.canary_max_amount

-- `corridor.proof?.canary_max_amount ?? deps.unprovenMaxAmount ?? "10"`.
unfoldable pub canary_cap : EngineDeps → Corridor → List ℕ
canary_cap deps c = or_else (proof_cap c.proof) (or_else deps.unproven_max_amount (codes "10"))

-- The smaller of the corridor's ceiling and the canary cap.
smaller_cap : Option (List ℕ) → List ℕ → Outcome (Option (List ℕ))
smaller_cap none cap = ok (some cap)
smaller_cap (some most) cap = do
  order ← compare_amounts most cap stroop_scale
  ok (some (elim order [ above ↦ cap | _ ↦ most ]))

unfoldable pub effective_cap : EngineDeps → Corridor → Bool → Outcome (Option (List ℕ))
unfolding smaller_cap canary_cap
effective_cap deps c true = ok c.limits.max_amount
effective_cap deps c false = smaller_cap (set_text c.limits.max_amount) (canary_cap deps c)

reject_when : (Order → Bool) → ErrorCode → Outcome Order → Outcome (Unit {0})
reject_when bad code (err e) = err e
reject_when bad code (ok order) = if bad order then fail code else ok tt

abbrev is_below : Order → Bool
is_below below = true
is_below _ = false

abbrev is_above : Order → Bool
is_above above = true
is_above _ = false

-- `if (bound) { const cmp = compareAmounts(amount, bound); … }`.
unfoldable pub within : List ℕ → (Order → Bool) → ErrorCode → Option (List ℕ) → Outcome (Unit {0})
unfolding reject_when
within amount bad code none = ok tt
within amount bad code (some bound) =
    reject_when bad code (compare_amounts amount bound stroop_scale)

-- The limits on the amount, once the cap is known.
unfoldable pub within_limits : Corridor → List ℕ → Bool → Option (List ℕ) → Outcome (Unit {0})
unfolding within
within_limits c amount is_proven_lane cap = do
  floor ← within amount is_below amount_invalid (set_text c.limits.min_amount)
  ceiling ← within amount is_above amount_invalid (set_text c.limits.max_amount)
  within amount is_above corridor_unproven (if is_proven_lane then none else set_text cap)

-- A public lane whose endpoints nobody has checked takes no payment.
unfoldable pub admit_lane : Corridor → List ℕ → LivenessState → Option (List ℕ) → Outcome (Unit {0})
admit_lane c amount live cap =
    if is_public c.settlement.network && is_unchecked live
    then fail corridor_unproven
    else within_limits c amount (is_proven live) cap

unfoldable pub admission : EngineDeps → PaymentIntent → Corridor → ℕ → Outcome (Unit {0})
admission deps intent c at =
    let amount = intent.source_amount.amount in
    let live = (liveness c at).state in
    if not (is_some deps.gate) && not deps.unsafe_skip_gate
    then fail engine_misconfigured
    else if not (is_settleable_amount amount stroop_scale)
    then fail amount_invalid
    else do cap ← effective_cap deps c (is_proven live); admit_lane c amount live cap

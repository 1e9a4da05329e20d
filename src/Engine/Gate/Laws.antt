-- ===== src/Engine/Gate/Laws.antt =====
-- When the gate of packages/engine/src/gate.ts lets a payment pass.
use corridor_in_a_box.Base.{
  both, ℕ, ◌+◌, ◌*◌, ◌≤◌, ◌<◌, ◌≡◌, ◌↔◌, ◌⊎◌, refl, arith, String, true, false, Option, none, some,
  List, [], ◌∷◌, map, all, leb, if◌then◌else◌,
}
use corridor_in_a_box.Outcome.{CheckResult}
use corridor_in_a_box.Corridor.{Corridor}
use corridor_in_a_box.Engine.{GateContext}
use corridor_in_a_box.Engine.Gate.{
  CheckAnswer, resolves, rejects, pending, GateCheck, with_timeout, timeout_of, caught, run_one,
  evaluate, quote_window,
}

-- A check passed in time.
abbrev pub IsPassed : GateContext → ℕ → GateCheck → Type 0
IsPassed ctx ms check =
    (at : ℕ) × (result : CheckResult) × (check.run ctx ≡ resolves at result)
    × (at ≤ ms)
    × (result.passed ≡ true)

pub data AllPassed (ctx : GateContext) (ms : ℕ) : List GateCheck → Type 0 where
  no_checks : AllPassed ctx ms []
  one_more :
      {check : GateCheck}
      → {checks : List GateCheck} → IsPassed ctx ms check
      → AllPassed ctx ms checks
      → AllPassed ctx ms (check ∷ checks)

module _ (ctx : GateContext) (ms : ℕ) where
  early_enough :
      (name : String) (at : ℕ) (result : CheckResult)
      → (caught name (if leb at ms then some result else none)).passed ≡ true
      → (at ≤ ms) × (result.passed ≡ true)
  early_enough name at result h = ground arith

  early-passed :
      (name : String) (at : ℕ) (result : CheckResult)
      → at ≤ ms
      → result.passed ≡ true
      → (caught name (if leb at ms then some result else none)).passed ≡ true
  early-passed name at result early passed = ground arith

  in_time :
      (name : String) (answer : CheckAnswer)
      → (caught name (with_timeout answer ms)).passed ≡ true
      → (at : ℕ) × (result : CheckResult) × (answer ≡ resolves at result)
        × (at ≤ ms)
        × (result.passed ≡ true)
  unfolding with_timeout
  in_time name (resolves at result) h =
      let (early, passed) = early_enough name at result h in (at, result, refl, early, passed)
  in_time name (rejects at) h = cc
  in_time name pending h = cc

  run_one-IsPassed :
      (check : GateCheck) → (run_one ctx ms check).passed ≡ true → IsPassed ctx ms check
  unfolding run_one
  run_one-IsPassed check h = in_time check.name (check.run ctx) h

  IsPassed-run_one :
      (check : GateCheck) → IsPassed ctx ms check → (run_one ctx ms check).passed ≡ true
  unfolding run_one with_timeout
  IsPassed-run_one check (at, result, e, early, passed) =
      rw e (early-passed check.name at result early passed)

  all-AllPassed :
      (checks : List GateCheck)
      → all (λ r. r.passed) (map (run_one ctx ms) checks) ≡ true
      → AllPassed ctx ms checks
  all-AllPassed [] h = no_checks
  all-AllPassed (check ∷ checks) h =
      let (first, others) = both (run_one ctx ms check).passed _ h in
      one_more (run_one-IsPassed check first) (all-AllPassed checks others)

  AllPassed-all :
      {checks : List GateCheck}
      → AllPassed ctx ms checks
      → all (λ r. r.passed) (map (run_one ctx ms) checks) ≡ true
  AllPassed-all no_checks = refl
  AllPassed-all (one_more {check = check} p ps) =
      rw (IsPassed-run_one check p, AllPassed-all ps) refl

-- The gate passes exactly when every one of its checks resolved within the timeout with a result that
-- is passed: a check that throws or runs late blocks the payment.
pub evaluate_iff :
    (checks : List GateCheck) (timeout_ms : Option ℕ) (ctx : GateContext)
    → ((evaluate checks timeout_ms ctx).0 ≡ true) ↔ AllPassed ctx (timeout_of timeout_ms) checks
unfolding evaluate
evaluate_iff checks timeout_ms ctx =
    (all-AllPassed ctx (timeout_of timeout_ms) checks, AllPassed-all ctx (timeout_of timeout_ms))

-- The quote's window lets a firm quote pass exactly when it has not expired and is still good for the
-- corridor's margin; an indicative quote always passes.
pub quote_window_iff :
    (c : Corridor) (ctx : GateContext)
    → ((quote_window c ctx).passed ≡ true) ↔ (
        (ctx.quote.firm ≡ false)
        ⊎ ((ctx.now < ctx.quote.expires_at)
            × (ctx.now + c.fx.min_quote_remaining_seconds * 1000 ≤ ctx.quote.expires_at)))
unfolding quote_window
quote_window_iff c ctx = (λ h. ground arith, λ h. ground arith)

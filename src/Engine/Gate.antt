-- ===== src/Engine/Gate.antt =====
-- The pre-settle gate of packages/engine/src/gate.ts, and its check of the quote's window in
-- packages/engine/src/quoteWindow.ts. The promise of a check settles after a number of milliseconds
-- or never; a thrown value is the same as a rejection. The text and the duration of a result are left
-- out.
pub mod Laws
use corridor_in_a_box.Base.{
  ℕ, ◌+◌, ◌*◌, ◌≤◌, ◌<◌, ◌≡◌, ◌↔◌, ◌⊎◌, inl, inr, refl, ap, arith, String, Bool, true, false, not,
  ◌&&◌, ◌||◌, Option, none, some, List, [], ◌∷◌, map, all, leb, length, if◌then◌else◌,
}
use corridor_in_a_box.Types.{settlement_failed, presettle_quote_window}
use corridor_in_a_box.Outcome.{CheckResult}
use corridor_in_a_box.Corridor.{Corridor}
use corridor_in_a_box.Engine.{GateContext}

-- How the promise of a check settles, and after how many milliseconds.
pub data CheckAnswer : Type 0 where
  resolves : ℕ → CheckResult → CheckAnswer
  rejects : ℕ → CheckAnswer
  pending : CheckAnswer

pub record GateCheck : Type 0 where
  pub name : String
  pub run : GateContext → CheckAnswer

-- `withTimeout`: what the promise settles with, or nothing when the timer is first. A promise that
-- settles in the timer's millisecond is first, since it was started before the timer.
unfoldable pub with_timeout : CheckAnswer → ℕ → Option CheckResult
with_timeout (resolves at result) ms = if leb at ms then some result else none
with_timeout (rejects at) ms = none
with_timeout pending ms = none

-- `default_timeout_ms` is `DEFAULT_TIMEOUT_MS`.
abbrev pub default_timeout_ms : ℕ
default_timeout_ms = 5000

abbrev pub timeout_of : Option ℕ → ℕ
timeout_of none = default_timeout_ms
timeout_of (some ms) = ms

abbrev caught : String → Option CheckResult → CheckResult
caught name none = record { name = name; passed = false; code = some settlement_failed }
caught name (some result) = result

-- `CompositeGate.runOne`.
unfoldable pub run_one : GateContext → ℕ → GateCheck → CheckResult
run_one ctx ms check = caught check.name (with_timeout (check.run ctx) ms)

-- `CompositeGate.evaluate`.
unfoldable pub evaluate : List GateCheck → Option ℕ → GateContext → Bool × List CheckResult
evaluate checks timeout_ms ctx =
    let results = map (run_one ctx (timeout_of timeout_ms)) checks in
    (all (λ r. r.passed) results, results)

-- A result of the quote's window check.
abbrev window_result : Bool → CheckResult
window_result true = record { name = "quote.window"; passed = true; code = none }
window_result false = record {
  name = "quote.window";
  passed = false;
  code = some presettle_quote_window;
}

-- `quoteWindowCheck`: an indicative quote passes; a firm one has to be unexpired with the corridor's
-- margin left.
unfoldable pub quote_window : Corridor → GateContext → CheckResult
quote_window c ctx =
    if not ctx.quote.firm
    then window_result true
    else if leb ctx.quote.expires_at ctx.now
    then window_result false
    else if not (leb (ctx.now + c.fx.min_quote_remaining_seconds * 1000) ctx.quote.expires_at)
    then window_result false
    else window_result true

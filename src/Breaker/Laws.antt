-- ===== src/Breaker/Laws.antt =====
-- What the circuit breaker of packages/engine/src/breaker.ts guarantees: when a lane halts, that it
-- stays halted, and that lanes do not mix.
use corridor_in_a_box.Base.{
  ℕ, ◌+◌, ◌≤◌, ◌<◌, ◌≡◌, ◌≢◌, ◌↔◌, refl, String, true, Option, some, List, [], ◌∷◌, str_eq, eq_iff,
  arith, leb, if◌then◌else◌, length,
}
use corridor_in_a_box.Types.{ErrorCode}
use corridor_in_a_box.State.{CorridorState, is_terminal, completed}
use corridor_in_a_box.Breaker.{
  closed, open_lane, success, failure, neutral, BreakerRecord, Rows, get, is_open, next_row,
  breaker_outcome_for, put,
}

-- Only a resolved run says anything about a lane.
pub breaker_outcome_for-ne-neutral :
    (s : CorridorState) (code : Option ErrorCode)
    → breaker_outcome_for s code ≢ neutral
    → is_terminal s ≡ true
unfolding breaker_outcome_for is_terminal
breaker_outcome_for-ne-neutral completed code h = refl
breaker_outcome_for-ne-neutral s code h = ground arith

-- The rows behave as a map from corridors to rows.
pub get-put :
    (id : String) (r : BreakerRecord) (rows : Rows)
    → get id (put r rows) ≡ (if str_eq r.corridor_id id then some r else get id rows)
unfolding get put
get-put id r [] = refl
get-put id r (x ∷ rows) = ground (
  arith,
  eq_iff r.corridor_id id,
  eq_iff x.corridor_id id,
  eq_iff x.corridor_id r.corridor_id,
  get-put id r rows,
)

-- A list of failures, each with its time and its error, recorded in order on one row.
abbrev pub Failures : Type 0
Failures = List (ℕ × Option ErrorCode)

abbrev pub after_failures : BreakerRecord → ℕ → Failures → BreakerRecord
after_failures r threshold [] = r
after_failures r threshold ((at, e) ∷ fs) =
    after_failures (next_row failure r at threshold e) threshold fs

after_failures_count :
    (r : BreakerRecord) (threshold : ℕ) (fs : Failures)
    → (after_failures r threshold fs).consecutive_failures ≡ r.consecutive_failures + length fs
unfolding next_row
after_failures_count r threshold [] = omega arith
after_failures_count r threshold ((at, e) ∷ fs) =
    omega (arith, after_failures_count (next_row failure r at threshold e) threshold fs)

-- A halted lane stays halted under any further failures, and keeps the time of its trip.
pub open_sticky :
    (r : BreakerRecord) (threshold t : ℕ) (fs : Failures)
    → r.state ≡ open_lane
    → r.tripped_at ≡ some t
    → ((after_failures r threshold fs).state ≡ open_lane)
      × ((after_failures r threshold fs).tripped_at ≡ some t)
unfolding next_row
open_sticky r threshold t [] o p = (o, p)
open_sticky r threshold t ((at, e) ∷ fs) o p =
    open_sticky (next_row failure r at threshold e) threshold t fs (ground arith) (ground arith)

-- The row is open exactly when its count has reached the threshold.
abbrev Agrees : ℕ → BreakerRecord → Type 0
Agrees threshold r = is_open r.state ≡ leb threshold r.consecutive_failures

after_failures-Agrees :
    (r : BreakerRecord) (threshold : ℕ) (fs : Failures)
    → Agrees threshold r
    → Agrees threshold (after_failures r threshold fs)
unfolding next_row
after_failures-Agrees r threshold [] h = h
after_failures-Agrees r threshold ((at, e) ∷ fs) h =
    after_failures-Agrees (next_row failure r at threshold e) threshold fs (ground arith)

-- From a closed row with fewer failures than the threshold, a run of failures opens the lane exactly
-- when the count reaches the threshold.
pub trips_at_threshold :
    (r : BreakerRecord) (threshold : ℕ) (fs : Failures)
    → r.state ≡ closed
    → r.consecutive_failures < threshold
    → ((after_failures r threshold fs).state ≡ open_lane)
      ↔ (threshold ≤ r.consecutive_failures + length fs)
trips_at_threshold r threshold fs c h = ground (
  arith,
  after_failures-Agrees r threshold fs (ground arith),
  after_failures_count r threshold fs,
)

-- A success at any time closes the lane and clears the count, and leaves the time of an old trip.
pub success_clears :
    (r : BreakerRecord) (at threshold : ℕ) (e : Option ErrorCode)
    → ((next_row success r at threshold e).state ≡ closed)
      × ((next_row success r at threshold e).consecutive_failures ≡ 0)
      × ((next_row success r at threshold e).tripped_at ≡ r.tripped_at)
unfolding next_row
success_clears r at threshold e = (refl, refl, refl)

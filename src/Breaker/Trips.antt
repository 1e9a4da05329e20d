-- ===== src/Breaker/Trips.antt =====
-- The trip counter around the circuit breaker of packages/engine/src/breaker.ts: when it counts a
-- trip, and which trip it misses.
use corridor_in_a_box.Base.{
  ℕ, ◌+◌, ◌≤◌, ◌<◌, ◌≡◌, refl, String, Bool, true, false, none, some, [], ◌∷◌, arith, leb,
  Bool-cases, inl, inr, if◌then◌else◌, length,
}
use corridor_in_a_box.Breaker.{
  closed, open_lane, failure, BreakerRecord, Rows, next_row, just_tripped, metered_record_outcome,
}
use corridor_in_a_box.Breaker.Laws.{Failures}

-- How often the metered store counts a trip over a list of failures.
abbrev pub one_if : Bool → ℕ
one_if true = 1
one_if false = 0

abbrev pub trips_counted : BreakerRecord → ℕ → Failures → ℕ
trips_counted r threshold [] = 0
trips_counted r threshold ((at, e) ∷ fs) =
    one_if (just_tripped (next_row failure r at threshold e) at)
    + trips_counted (next_row failure r at threshold e) threshold fs

-- Every failure comes later than `t`, and later than the one before it.
abbrev pub IsLater : ℕ → Failures → Type 0
IsLater t [] = Unit
IsLater t ((at, e) ∷ fs) = (t < at) × IsLater at fs

counted_when_open :
    (r : BreakerRecord) (threshold t s : ℕ) (fs : Failures)
    → r.state ≡ open_lane
    → r.tripped_at ≡ some t
    → t ≤ s
    → IsLater s fs
    → trips_counted r threshold fs ≡ 0
unfolding next_row just_tripped
counted_when_open r threshold t s [] o p le l = refl
counted_when_open r threshold t s ((at, e) ∷ fs) o p le (lt, l) = ground (
  arith,
  counted_when_open (next_row failure r at threshold e) threshold t at fs (ground arith)
      (ground arith) (omega arith) l,
)

-- A lane that never tripped, under failures at increasing times, counts one trip if the failures
-- reach the threshold, and none if they do not.
pub trip_counted_once :
    (r : BreakerRecord) (threshold s : ℕ) (fs : Failures)
    → r.state ≡ closed
    → r.tripped_at ≡ none
    → r.consecutive_failures < threshold
    → IsLater s fs
    → trips_counted r threshold fs
      ≡ (if leb threshold (r.consecutive_failures + length fs) then 1 else 0)
unfolding next_row just_tripped
trip_counted_once r threshold s [] c p h l = ground arith
trip_counted_once r threshold s ((at, e) ∷ fs) c p h (lt, l) =
    elim (Bool-cases (leb threshold (r.consecutive_failures + 1))) [
      | inl trips ↦ ground (
        arith,
        counted_when_open (next_row failure r at threshold e) threshold at at fs (ground arith)
            (ground arith) (omega arith) l,
      )
      | inr below ↦ ground (
        arith,
        trip_counted_once (next_row failure r at threshold e) threshold at fs (ground arith)
            (ground arith) (ground arith) l,
      )
    ]

-- What the metered store makes of a list of failures: the rows, and by how much its counter goes up.
abbrev pub metered : String → ℕ → Failures → Rows → Rows × ℕ
metered id threshold [] rows = (rows, 0)
metered id threshold ((at, e) ∷ fs) rows =
    let (rows', r, n) = metered_record_outcome id failure at threshold e rows in
    let (rows'', m) = metered id threshold fs rows' in (rows'', n + m)

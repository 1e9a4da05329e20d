-- ===== src/Breaker/Postgres.antt =====
-- packages/engine/src/breaker-pg.ts: the `case` expressions of the upsert in `recordOutcome`, as a
-- function of the stored row, and when they agree with the in-memory store.
use corridor_in_a_box.Base.{
  ℕ, ◌+◌, ◌≡◌, Bool, true, false, ◌&&◌, Option, none, some, leb, if◌then◌else◌, is_some, arith,
  String, ◌⊎◌,
}
use corridor_in_a_box.Types.{ErrorCode}
use corridor_in_a_box.Breaker.{
  closed, open_lane, BreakerOutcome, success, failure, BreakerRecord, is_open, closed_record,
  next_row,
}

-- `on conflict (corridor_id) do update set …`; `$2` is `outcome === "failure"`.
abbrev is_failure : BreakerOutcome → Bool
is_failure failure = true
is_failure _ = false

unfoldable pub upsert_row :
    BreakerOutcome → BreakerRecord → ℕ → ℕ → Option ErrorCode → BreakerRecord
upsert_row outcome row at threshold error =
    let fails = is_failure outcome in
    let reaches = leb threshold (row.consecutive_failures + 1) in
    record row {
      consecutive_failures = if fails then row.consecutive_failures + 1 else 0;
      state = if fails && reaches then open_lane else if fails then row.state else closed;
      tripped_at =
          if fails && reaches && (if is_open row.state then false else true)
          then some at
          else row.tripped_at;
      last_error = if fails then error else row.last_error;
      updated_at = at;
    }

-- `insert into corridor_breakers … values …`, for a corridor that has no row.
unfoldable pub insert_row : BreakerOutcome → String → ℕ → ℕ → Option ErrorCode → BreakerRecord
unfolding closed_record
insert_row outcome id at threshold error =
    let fails = is_failure outcome in
    let trips = fails && leb threshold 1 in
    record (closed_record id at) {
      consecutive_failures = if fails then 1 else 0;
      state = if trips then open_lane else closed;
      tripped_at = if trips then some at else none;
      last_error = if fails then error else none;
    }

-- The two stores write the same row for a run's outcome, if the failure carries its error and the
-- row shows a trip time exactly while it is open.
pub upsert_row-eq-next_row :
    (outcome : BreakerOutcome) (row : BreakerRecord) (at threshold : ℕ) (code : ErrorCode)
    → is_open row.state ≡ is_some row.tripped_at
    → ((outcome ≡ success) ⊎ (outcome ≡ failure))
    → upsert_row outcome row at threshold (some code)
      ≡ next_row outcome row at threshold (some code)
unfolding upsert_row next_row
upsert_row-eq-next_row outcome row at threshold code h o = ground arith

-- So do they for a corridor that has no row yet.
pub insert_row-eq-next_row :
    (outcome : BreakerOutcome) (id : String) (at threshold : ℕ) (error : Option ErrorCode)
    → ((outcome ≡ success) ⊎ (outcome ≡ failure))
    → insert_row outcome id at threshold error
      ≡ next_row outcome (closed_record id at) at threshold error
unfolding insert_row next_row closed_record
insert_row-eq-next_row outcome id at threshold error o = ground arith

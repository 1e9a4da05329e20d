-- ===== src/Verbs/Polling.antt =====
-- packages/engine/src/verbs.ts: `reconcileUntil` and `watchRefund`, the loops that poll an anchor.
-- A poll reads the clock once: `now n` is the time of the call `n`, by which time has passed as the
-- sleeps and the anchor made it pass. `none` means that the fuel ran out while the loop still polled.
use corridor_in_a_box.Base.{
  ℕ, zero, suc, ◌+◌, ◌*◌, min, max, String, Bool, true, false, not, ◌&&◌, ◌||◌, Option, none, some,
  if◌then◌else◌, ltb, leb, str_eq, or_else,
}
use corridor_in_a_box.Types.{reconcile_mismatch, reconcile_stalled, settlement_timeout}
use corridor_in_a_box.Outcome.{Outcome, ok, err, fail, Cause, a_status, an_error}
use corridor_in_a_box.Anchor.{TransactionStatus, Phase, external, RefundInfo, full}

pub record PollOptions : Type 0 where
  pub deadline_ms : ℕ
  pub poll_ms : ℕ
  pub stall_threshold : ℕ
  pub external_stall_ms : ℕ

-- The variables of the loop.
pub record PollState : Type 0 where
  pub last_status : String
  pub same_count : ℕ
  pub last_phase : Option Phase
  pub external_started_at : Option ℕ
  pub next_poll_ms : ℕ

unfoldable pub first_poll : PollOptions → PollState
first_poll opts = record {
  last_status = "unknown";
  same_count = 0;
  last_phase = none;
  external_started_at = none;
  next_poll_ms = opts.poll_ms;
}

abbrev pub is_external : Option Phase → Bool
is_external (some external) = true
is_external _ = false

-- What a poll that the anchor answered leaves in the variables.
unfoldable pub see_status : PollOptions → PollState → TransactionStatus → ℕ → PollState
see_status opts st s at =
    let same = str_eq s.status st.last_status in
    record {
      last_status = s.status;
      same_count = if same then st.same_count + 1 else 0;
      last_phase = s.phase;
      external_started_at =
          if is_external s.phase then some (or_else st.external_started_at at) else none;
      next_poll_ms = if is_external s.phase && same then st.next_poll_ms else opts.poll_ms;
    }

unfoldable pub observe : PollOptions → PollState → Outcome TransactionStatus → ℕ → PollState
unfolding see_status
observe opts st (ok s) at = see_status opts st s at
observe opts st (err e) at = st

stalls_outside : PollOptions → PollState → Option ℕ → ℕ → Bool
stalls_outside opts st none at = false
stalls_outside opts st (some t) at =
    is_external st.last_phase && leb (t + opts.external_stall_ms) at

-- The two stall budgets.
unfoldable pub is_stalled : PollOptions → PollState → ℕ → Bool
unfolding stalls_outside
is_stalled opts st at =
    stalls_outside opts st st.external_started_at at
    || (not (is_external st.last_phase)
        && ltb 0 opts.stall_threshold
        && leb opts.stall_threshold st.same_count)

-- A transient error of the anchor is passed on at the deadline, any other end is a timeout.
at_deadline : Outcome TransactionStatus → Outcome TransactionStatus
at_deadline (err e) = err e
at_deadline (ok s) = fail settlement_timeout

waits : PollOptions → PollState → Outcome TransactionStatus → ℕ → Option (Outcome TransactionStatus)
waits opts st s at =
    if is_stalled opts st at
    then some (fail reconcile_stalled)
    else if leb opts.deadline_ms at
    then some (at_deadline s)
    else none

-- The answer of the loop after a poll, or none if it polls again.
unfoldable pub verdict :
    PollOptions → PollState → Outcome TransactionStatus → ℕ → Option (Outcome TransactionStatus)
unfolding waits is_stalled at_deadline
verdict opts st (err e) at = waits opts st (err e) at
verdict opts st (ok s) at =
    if s.settled
    then some (ok s)
    else if s.terminal_failure
    then some (err (record { code = reconcile_mismatch; retryable = false; cause = a_status s }))
    else waits opts st (ok s) at

-- How long the loop sleeps before it polls again, and the delay that it keeps for the next time.
unfoldable pub delay_ms : PollOptions → PollState → ℕ
delay_ms opts st =
    if is_external st.last_phase
    then min st.next_poll_ms (max opts.poll_ms 60_000)
    else opts.poll_ms

unfoldable pub slept : PollOptions → PollState → PollState
unfolding delay_ms
slept opts st = record st {
  next_poll_ms =
      if is_external st.last_phase
      then min (delay_ms opts st * 2) (max opts.poll_ms 60_000)
      else opts.poll_ms;
}

-- The loop from the call `n` on: its answer, and the number of the next call.
unfoldable pub reconcile_from :
    ℕ
    → PollOptions
    → (ℕ → ℕ)
    → (ℕ → Outcome TransactionStatus)
    → PollState
    → ℕ
    → Option (Outcome TransactionStatus × ℕ)
unfolding observe verdict slept
reconcile_from zero opts now query st n = none
reconcile_from (suc fuel) opts now query st n =
    let seen = observe opts st (query n) (now n) in
    let rest = reconcile_from fuel opts now query (slept opts seen) (suc n) in
    elim (verdict opts seen (query n) (now n)) [ some r ↦ some (r, suc n) | none ↦ rest ]

unfoldable pub reconcile_until :
    ℕ
    → PollOptions
    → (ℕ → ℕ)
    → (ℕ → Outcome TransactionStatus)
    → ℕ
    → Option (Outcome TransactionStatus × ℕ)
unfolding reconcile_from first_poll
reconcile_until fuel opts now query n = reconcile_from fuel opts now query (first_poll opts) n

-- `watchRefund`: whether the anchor reports a refund on its transaction.
reports_refund : TransactionStatus → Option RefundInfo → Bool
reports_refund s none = false
reports_refund s (some r) = str_eq s.status "refunded" || s.terminal_failure

refund_answer : TransactionStatus → Option RefundInfo → Outcome TransactionStatus
refund_answer s (some r) = elim r.completeness [
  | full ↦ ok s
  | _ ↦ err (record { code = reconcile_mismatch; retryable = false; cause = a_status s })
]
refund_answer s none = ok s

cause_of : Outcome TransactionStatus → Cause
cause_of (ok s) = a_status s
cause_of (err e) = an_error e.code

times_out : ℕ → Outcome TransactionStatus → ℕ → Option (Outcome TransactionStatus)
unfolding cause_of
times_out deadline s at =
    if leb deadline at
    then some (err (record { code = settlement_timeout; retryable = false; cause = cause_of s }))
    else none

unfoldable pub refund_verdict :
    ℕ → Outcome TransactionStatus → ℕ → Option (Outcome TransactionStatus)
unfolding reports_refund refund_answer times_out
refund_verdict deadline (err e) at = times_out deadline (err e) at
refund_verdict deadline (ok s) at =
    if reports_refund s s.refunds
    then some (refund_answer s s.refunds)
    else times_out deadline (ok s) at

unfoldable pub watch_refund :
    ℕ → ℕ → (ℕ → ℕ) → (ℕ → Outcome TransactionStatus) → ℕ → Option (Outcome TransactionStatus × ℕ)
unfolding refund_verdict
watch_refund zero deadline now query n = none
watch_refund (suc fuel) deadline now query n =
    let rest = watch_refund fuel deadline now query (suc n) in
    elim (refund_verdict deadline (query n) (now n)) [ some r ↦ some (r, suc n) | none ↦ rest ]

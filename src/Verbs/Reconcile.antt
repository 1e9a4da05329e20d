-- ===== src/Verbs/Reconcile.antt =====
-- What `reconcileUntil` of packages/engine/src/verbs.ts guarantees: what a success and an error mean,
-- that it ends, when it finds a stall, and how long it sleeps.
use corridor_in_a_box.Base.{
  ℕ, zero, suc, ◌+◌, ◌≤◌, ◌<◌, ◌≡◌, ◌≢◌, ◌⊎◌, inl, inr, refl, true, false, none, some, arith, max,
  Option-cases, Bool-cases,
}
use native.Mathlib.Nat.{add-zero}
use corridor_in_a_box.Outcome.{Outcome, ok, err}
use corridor_in_a_box.Anchor.{TransactionStatus}
use corridor_in_a_box.Verbs.Polling.{
  PollOptions, PollState, first_poll, observe, verdict, slept, delay_ms, reconcile_from,
  reconcile_until, is_external, is_stalled,
}

shift : (n k : ℕ) → n + suc k ≡ suc n + k
shift n k = omega arith

-- What an answer of the loop says of the polls `query`.
abbrev pub IsHonest : (ℕ → Outcome TransactionStatus) → Outcome TransactionStatus → Type 0
IsHonest query (ok s) = (s.settled ≡ true) × ((m : ℕ) × (query m ≡ ok s))
IsHonest query (err e) = (e.retryable ≡ false) ⊎ ((m : ℕ) × (query m ≡ err e))

verdict-IsHonest :
    (opts : PollOptions) (st : PollState) (query : ℕ → Outcome TransactionStatus) (n at : ℕ)
    (s r : Outcome TransactionStatus)
    → query n ≡ s
    → verdict opts st s at ≡ some r
    → IsHonest query r
unfolding verdict
verdict-IsHonest opts st query n at (ok s) (ok t) q h = (ground arith, (n, ground arith))
verdict-IsHonest opts st query n at (ok s) (err e) q h = inl (ground arith)
verdict-IsHonest opts st query n at (err x) (ok t) q h = ground arith
verdict-IsHonest opts st query n at (err x) (err e) q h =
    elim (Bool-cases (is_stalled opts st at)) [
      | inl y ↦ inl (ground arith)
      | inr y ↦ inr (n, ground arith)
    ]

reconcile_from-IsHonest :
    (fuel : ℕ) (opts : PollOptions) (now : ℕ → ℕ) (query : ℕ → Outcome TransactionStatus)
    (st : PollState) (n m : ℕ) (r : Outcome TransactionStatus)
    → reconcile_from fuel opts now query st n ≡ some (r, m)
    → IsHonest query r
unfolding reconcile_from
reconcile_from-IsHonest zero opts now query st n m r h = cc
reconcile_from-IsHonest (suc fuel) opts now query st n m r h =
    elim (Option-cases (verdict opts (observe opts st (query n) (now n)) (query n) (now n))) [
      | inl more ↦
          reconcile_from-IsHonest fuel opts now query
            (slept opts (observe opts st (query n) (now n))) (suc n) m r (ground arith)
      | inr (a, stop) ↦
          verdict-IsHonest opts (observe opts st (query n) (now n)) query n (now n) (query n) r refl
            (ground arith)
    ]

-- If the loop answers with a status, some poll reported that status and it is settled. If it answers
-- with an error, the error is not retryable, or it is one that the anchor itself answered to a poll.
pub reconcile_until-IsHonest :
    (fuel : ℕ) (opts : PollOptions) (now : ℕ → ℕ) (query : ℕ → Outcome TransactionStatus) (n m : ℕ)
    (r : Outcome TransactionStatus)
    → reconcile_until fuel opts now query n ≡ some (r, m)
    → IsHonest query r
unfolding reconcile_until
reconcile_until-IsHonest fuel opts now query n m r h =
    reconcile_from-IsHonest fuel opts now query (first_poll opts) n m r h

verdict-deadline :
    (opts : PollOptions) (st : PollState) (s : Outcome TransactionStatus) (at : ℕ)
    → opts.deadline_ms ≤ at
    → verdict opts st s at ≢ none
unfolding verdict
verdict-deadline opts st (ok s) at h = ground arith
verdict-deadline opts st (err e) at h = ground arith

reconcile_from-ends :
    (k fuel : ℕ) (opts : PollOptions) (now : ℕ → ℕ) (query : ℕ → Outcome TransactionStatus)
    (st : PollState) (n : ℕ)
    → k < fuel
    → opts.deadline_ms ≤ now (n + k)
    → reconcile_from fuel opts now query st n ≢ none
unfolding reconcile_from
reconcile_from-ends k zero opts now query st n lt h = elim lt [ ]
reconcile_from-ends zero (suc fuel) opts now query st n lt h =
    let here : opts.deadline_ms ≤ now n = rw (← add-zero n) h in
    ground (arith, verdict-deadline opts (observe opts st (query n) (now n)) (query n) (now n) here)
reconcile_from-ends (suc k) (suc fuel) opts now query st n lt h =
    let later : opts.deadline_ms ≤ now (suc n + k) = rw (← shift n k) h in
    ground (
      arith,
      reconcile_from-ends k fuel opts now query (slept opts (observe opts st (query n) (now n)))
          (suc n) (omega arith) later,
    )

-- The loop ends: if the clock has passed the deadline by the call `k` after the first, any fuel
-- above `k` gives an answer, whatever the anchor says.
pub reconcile_until_ends :
    (k fuel : ℕ) (opts : PollOptions) (now : ℕ → ℕ) (query : ℕ → Outcome TransactionStatus) (n : ℕ)
    → k < fuel
    → opts.deadline_ms ≤ now (n + k)
    → reconcile_until fuel opts now query n ≢ none
unfolding reconcile_until
reconcile_until_ends k fuel opts now query n lt h =
    reconcile_from-ends k fuel opts now query (first_poll opts) n lt h

-- The delay that the loop keeps lies between the corridor's poll interval and its cap.
abbrev pub IsPaced : PollOptions → PollState → Type 0
IsPaced opts st = (opts.poll_ms ≤ st.next_poll_ms) × (st.next_poll_ms ≤ max opts.poll_ms 60_000)

-- Before every poll the loop sleeps at least the corridor's poll interval, and at most that interval
-- or a minute, whichever is longer; and the delay that it keeps stays in that range.
pub delay_ms_bounds :
    (opts : PollOptions) (st : PollState) (s : Outcome TransactionStatus) (at : ℕ)
    → IsPaced opts st
    → let seen = observe opts st s at in
      (opts.poll_ms ≤ delay_ms opts seen)
      × (delay_ms opts seen ≤ max opts.poll_ms 60_000)
      × IsPaced opts (slept opts seen)
unfolding observe slept
delay_ms_bounds opts st (ok s) at h = ground arith
delay_ms_bounds opts st (err e) at h = ground arith

-- A status that keeps the loop polling: not settled, not a failure, and not in an external phase.
abbrev pub IsStuck : TransactionStatus → Type 0
IsStuck s = (s.settled ≡ false) × (s.terminal_failure ≡ false) × (is_external s.phase ≡ false)

-- ===== src/Verbs/Refund.antt =====
-- What `watchRefund` of packages/engine/src/verbs.ts guarantees.
use corridor_in_a_box.Base.{
  ℕ, zero, suc, ◌+◌, ◌≤◌, ◌<◌, ◌≡◌, ◌≢◌, ◌⊎◌, inl, inr, refl, true, false, Option, none, some,
  arith, eq_iff, Option-cases,
}
use native.Mathlib.Nat.{add-zero}
use corridor_in_a_box.Outcome.{Outcome, ok, err}
use corridor_in_a_box.Anchor.{TransactionStatus, RefundInfo, full}
use corridor_in_a_box.Verbs.Polling.{refund_verdict, watch_refund}

-- A status by which the anchor has returned everything.
abbrev pub IsFullRefund : TransactionStatus → Type 0
IsFullRefund s =
    ((r : RefundInfo) × (s.refunds ≡ some r) × (r.completeness ≡ full))
    × ((s.status ≡ "refunded") ⊎ (s.terminal_failure ≡ true))

-- What an answer of the watch says.
abbrev pub IsFinal : Outcome TransactionStatus → Type 0
IsFinal (ok s) = IsFullRefund s
IsFinal (err e) = e.retryable ≡ false

full-answer :
    (s t : TransactionStatus) (deadline at : ℕ) (o : Option RefundInfo)
    → s.refunds ≡ o
    → refund_verdict deadline (ok s) at ≡ some (ok t)
    → IsFullRefund t
unfolding refund_verdict
full-answer s t deadline at none e h = ground arith
full-answer s t deadline at (some r) e h =
    let same : s ≡ t = ground arith in
    ((r, ground arith, ground arith), ground (arith, eq_iff s.status "refunded"))

refund_verdict-IsFinal :
    (deadline : ℕ) (s r : Outcome TransactionStatus) (at : ℕ)
    → refund_verdict deadline s at ≡ some r
    → IsFinal r
unfolding refund_verdict
refund_verdict-IsFinal deadline (err x) (err e) at h = ground arith
refund_verdict-IsFinal deadline (err x) (ok t) at h = ground arith
refund_verdict-IsFinal deadline (ok s) (ok t) at h = full-answer s t deadline at s.refunds refl h
refund_verdict-IsFinal deadline (ok s) (err e) at h = ground arith

-- The watch succeeds only on a status that reports a full refund of a transaction that is refunded
-- or has failed for good; every error that it gives is not retryable.
pub watch_refund-IsFinal :
    (fuel deadline : ℕ) (now : ℕ → ℕ) (query : ℕ → Outcome TransactionStatus) (n m : ℕ)
    (r : Outcome TransactionStatus)
    → watch_refund fuel deadline now query n ≡ some (r, m)
    → IsFinal r
unfolding watch_refund
watch_refund-IsFinal zero deadline now query n m r h = cc
watch_refund-IsFinal (suc fuel) deadline now query n m r h =
    elim (Option-cases (refund_verdict deadline (query n) (now n))) [
      | inl more ↦ watch_refund-IsFinal fuel deadline now query (suc n) m r (ground arith)
      | inr (a, stop) ↦ refund_verdict-IsFinal deadline (query n) r (now n) (ground arith)
    ]

refund_verdict-deadline :
    (deadline : ℕ) (s : Outcome TransactionStatus) (at : ℕ)
    → deadline ≤ at
    → refund_verdict deadline s at ≢ none
unfolding refund_verdict
refund_verdict-deadline deadline (ok s) at h = ground arith
refund_verdict-deadline deadline (err e) at h = ground arith

-- The watch ends: if the clock has passed the deadline by the call `k` after the first, any fuel
-- above `k` gives an answer.
pub watch_refund_ends :
    (k fuel deadline : ℕ) (now : ℕ → ℕ) (query : ℕ → Outcome TransactionStatus) (n : ℕ)
    → k < fuel
    → deadline ≤ now (n + k)
    → watch_refund fuel deadline now query n ≢ none
unfolding watch_refund
watch_refund_ends k zero deadline now query n lt h = elim lt [ ]
watch_refund_ends zero (suc fuel) deadline now query n lt h =
    let here : deadline ≤ now n = rw (← add-zero n) h in
    ground (arith, refund_verdict-deadline deadline (query n) (now n) here)
watch_refund_ends (suc k) (suc fuel) deadline now query n lt h =
    let step : n + suc k ≡ suc n + k = omega arith in
    let later : deadline ≤ now (suc n + k) = rw (← step) h in
    ground (arith, watch_refund_ends k fuel deadline now query (suc n) (omega arith) later)

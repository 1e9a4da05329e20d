-- ===== src/Stellar/Confirm/Laws.antt =====
-- The polling loop of packages/stellar/src/index.ts ends, and never with an error that may be retried.
use corridor_in_a_box.Base.{
  ℕ, zero, suc, ◌+◌, ◌*◌, ◌≤◌, ◌<◌, ◌≡◌, Bool, true, false, Option, some, refl, arith, leb,
}
use corridor_in_a_box.Outcome.{Outcome, err, CorridorError}
use corridor_in_a_box.Stellar.Confirm.{
  Confirmed, Poll, applied, rejected, unseen, after_poll, confirm_from, confirm_transaction,
}

module _ (poll : ℕ → Poll) (now : ℕ → ℕ) where
  round_ends :
      (p : Poll) (late : Bool) (rest : Option (Outcome Confirmed))
      → (late ≡ false → (r : Outcome Confirmed) × (rest ≡ some r))
      → (r : Outcome Confirmed) × (after_poll p late rest ≡ some r)
  round_ends (applied c) late rest h = (_, refl)
  round_ends rejected late rest h = (_, refl)
  round_ends unseen true rest h = (_, refl)
  round_ends unseen false rest h = h refl

  ends_from :
      (deadline : ℕ)
      → ((n : ℕ) → now n + 1000 ≤ now (suc n))
      → (fuel n : ℕ) → now n ≤ deadline
      → deadline < now n + fuel * 1000
      → (r : Outcome Confirmed) × (confirm_from poll now deadline fuel n ≡ some r)
  unfolding confirm_from
  ends_from deadline ticks zero n early h = absurd (omega arith)
  ends_from deadline ticks (suc fuel) n early h =
      let tick = ticks n in
      round_ends (poll n) (leb deadline (now (suc n))) (confirm_from poll now deadline fuel (suc n))
        (λ in_time. ends_from deadline ticks fuel (suc n) (ground arith) (ground arith))

  -- On a clock that a second's sleep moves by a second, polling ends: one round for each second of the
  -- timeout, and one more, is enough.
  pub confirm_transaction_ends :
      (timeout_ms fuel : ℕ)
      → ((n : ℕ) → now n + 1000 ≤ now (suc n))
      → timeout_ms < fuel * 1000
      → (r : Outcome Confirmed) × (confirm_transaction poll now timeout_ms fuel ≡ some r)
  unfolding confirm_transaction
  confirm_transaction_ends timeout_ms fuel ticks h =
      ends_from (now 0 + timeout_ms) ticks fuel 0 (omega arith) (omega arith)

  round_not_retryable :
      (p : Poll) (late : Bool) (rest : Option (Outcome Confirmed)) (e : CorridorError)
      → (rest ≡ some (err e) → e.retryable ≡ false)
      → after_poll p late rest ≡ some (err e)
      → e.retryable ≡ false
  round_not_retryable (applied c) late rest e h r = cc
  round_not_retryable rejected late rest e h r = ground arith
  round_not_retryable unseen true rest e h r = ground arith
  round_not_retryable unseen false rest e h r = h r

  not_retryable_from :
      (deadline fuel n : ℕ) (e : CorridorError)
      → confirm_from poll now deadline fuel n ≡ some (err e)
      → e.retryable ≡ false
  unfolding confirm_from
  not_retryable_from deadline zero n e h = cc
  not_retryable_from deadline (suc fuel) n e h =
      round_not_retryable (poll n) (leb deadline (now (suc n)))
        (confirm_from poll now deadline fuel (suc n)) e (not_retryable_from deadline fuel (suc n) e)
        h

  pub confirm_not_retryable :
      (timeout_ms fuel : ℕ) (e : CorridorError)
      → confirm_transaction poll now timeout_ms fuel ≡ some (err e)
      → e.retryable ≡ false
  unfolding confirm_transaction
  confirm_not_retryable timeout_ms fuel e h = not_retryable_from (now 0 + timeout_ms) fuel 0 e h

-- ===== src/Stellar/Strategies/Laws.antt =====
-- How the strategies of packages/stellar/src/index.ts stand beside the default ones, and when a
-- claimable balance may be submitted again.
use corridor_in_a_box.Base.{
  ℕ, ◌≡◌, ◌⊎◌, inl, inr, refl, String, true, false, Option, none, some, List, ◌∷◌, Bool-cases,
  true_not_false, arith,
}
use corridor_in_a_box.Types.{SettlementRef}
use corridor_in_a_box.Outcome.{Outcome, ok, err, CorridorError}
use corridor_in_a_box.Anchor.{kind_of, stellar_payment}
use corridor_in_a_box.Verbs.{
  SettlementRequest, SettlementContext, SettlementStrategy, stellar_payment_strategy, settle,
  same_kind, needs_path_payment,
}
use corridor_in_a_box.Stellar.Confirm.{Confirmed, Poll, confirm_transaction}
use corridor_in_a_box.Stellar.Confirm.Laws.{confirm_not_retryable}
use corridor_in_a_box.Stellar.Submit.{
  Submission, not_submitted, accepted, rejected, unanswered, after_confirm,
}
use corridor_in_a_box.Stellar.Strategies.{
  stellar_path_payment_strategy, claimed_ref, landed_ref, send_claim,
}

module _ (plain : ℕ → SettlementRequest → Outcome SettlementRef)
    (by_path : ℕ → SettlementRequest → Option (List ℕ) → Outcome SettlementRef) where
  -- The strategies for plain and for path payments may stand in either order, as neither accepts a
  -- corridor of the other: a settlement comes out the same.
  pub settle_either_order :
      (others : List SettlementStrategy) (ctx : SettlementContext) (n : ℕ)
      → settle
          (stellar_payment_strategy plain ∷ stellar_path_payment_strategy by_path ∷ others)
          ctx
          n
        ≡ settle
            (stellar_path_payment_strategy by_path ∷ stellar_payment_strategy plain ∷ others)
            ctx
            n
  unfolding settle stellar_payment_strategy stellar_path_payment_strategy
  settle_either_order others ctx n =
      elim (Bool-cases (same_kind stellar_payment (kind_of ctx.opened.instructions))) [
        | inl k ↦ elim (Bool-cases (needs_path_payment ctx.corridor)) [
          | inl p ↦ rw (k, p) refl
          | inr p ↦ rw (k, p) refl
        ]
        | inr k ↦ rw k refl
      ]

-- Confirming never leaves an error that may be tried again, in either way of reading it.
claimed_final :
    (balance_id : Confirmed → Option String) (h : String) (r : Option (Outcome Confirmed))
    (e : CorridorError)
    → ((f : CorridorError) → r ≡ some (err f) → f.retryable ≡ false)
    → (after_confirm (claimed_ref balance_id h) r ≡ some (err e))
      ⊎ (after_confirm (landed_ref balance_id h) r ≡ some (err e))
    → e.retryable ≡ false
claimed_final balance_id h none e final k = elim k [ inl r ↦ cc | inr r ↦ cc ]
claimed_final balance_id h (some (ok c)) e final k = elim k [ inl r ↦ cc | inr r ↦ cc ]
claimed_final balance_id h (some (err f)) e final k = elim k [
  | inl r ↦ ground (arith, final f refl)
  | inr r ↦ ground (arith, final f refl)
]

module _ (balance_id : Confirmed → Option String) (polls : String → ℕ → Poll) (now : ℕ → ℕ)
    (timeout_ms fuel : ℕ) where
  abbrev confirm_by : String → Option (Outcome Confirmed)
  confirm_by h = confirm_transaction (polls h) now timeout_ms fuel

  -- A claimable balance that may be submitted again has certainly not been created: nothing was
  -- submitted, or Horizon rejected it.
  pub send_claim_retryable :
      (s : Submission) (e : CorridorError)
      → send_claim balance_id confirm_by s ≡ some (err e)
      → e.retryable ≡ true
      → (s ≡ not_submitted) ⊎ ((h : String) × (s ≡ rejected h))
  unfolding send_claim
  send_claim_retryable not_submitted e r again = inl refl
  send_claim_retryable (rejected h) e r again = inr (h, refl)
  send_claim_retryable (accepted h) e r again = absurd (
      true_not_false again (
        claimed_final balance_id h (confirm_by h) e
          (confirm_not_retryable (polls h) now timeout_ms fuel) (inl r)))
  send_claim_retryable (unanswered h) e r again = absurd (
      true_not_false again (
        claimed_final balance_id h (confirm_by h) e
          (confirm_not_retryable (polls h) now timeout_ms fuel) (inr r)))

-- ===== src/Stellar/Confirm.antt =====
-- `confirmTransaction` of packages/stellar/src/index.ts: polling Horizon until a transaction is in a
-- ledger. A poll is a function of its number, and the clock one of the number of its reading.
pub mod Laws
use corridor_in_a_box.Base.{
  ℕ, zero, suc, ◌+◌, ◌*◌, ◌≤◌, ◌<◌, ◌≡◌, Bool, true, false, Option, none, some, if◌then◌else◌, leb,
  refl, arith, String,
}
use corridor_in_a_box.Types.{settlement_failed, settlement_timeout}
use corridor_in_a_box.Outcome.{Outcome, ok, err, fail}

pub record Confirmed : Type 0 where
  pub ledger : Option ℕ
  pub fee_charged : Option String

-- What a poll sees: the transaction applied, applied and failed, or not yet visible.
pub data Poll : Type 0 where
  applied : Confirmed → Poll
  rejected unseen : Poll

abbrev pub after_poll : Poll → Bool → Option (Outcome Confirmed) → Option (Outcome Confirmed)
after_poll (applied c) late rest = some (ok c)
after_poll rejected late rest = some (fail settlement_failed)
after_poll unseen late rest = if late then some (fail settlement_timeout) else rest

-- The rounds of the loop from the one with number `n`, on fuel; none when it runs out.
unfoldable pub confirm_from : (ℕ → Poll) → (ℕ → ℕ) → ℕ → ℕ → ℕ → Option (Outcome Confirmed)
confirm_from poll now deadline zero n = none
confirm_from poll now deadline (suc fuel) n =
    let rest = confirm_from poll now deadline fuel (suc n) in
    after_poll (poll n) (leb deadline (now (suc n))) rest

-- `confirmTransaction`: the first reading of the clock sets the deadline.
unfoldable pub confirm_transaction : (ℕ → Poll) → (ℕ → ℕ) → ℕ → ℕ → Option (Outcome Confirmed)
unfolding confirm_from
confirm_transaction poll now timeout_ms fuel = confirm_from poll now (now 0 + timeout_ms) fuel 0

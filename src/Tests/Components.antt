-- ===== src/Tests/Components.antt =====
-- The theorems on the components of the engine, applied to concrete inputs.
use corridor_in_a_box.Base.{◌≡◌, ◌≢◌, ◌↔◌, inr, refl, true, false, none, some, List, [], ◌∷◌}
use corridor_in_a_box.Types.{reconcile_mismatch}
use corridor_in_a_box.State.{settled, recovering, held, settling, can_transition}
use corridor_in_a_box.State.Graph.{IsWalk, end_of, settling_unreachable}
use corridor_in_a_box.Breaker.{BreakerRecord, open_lane, failure, next_row}
use corridor_in_a_box.Breaker
use corridor_in_a_box.Breaker.Postgres.{upsert_row, upsert_row-eq-next_row}
use corridor_in_a_box.Idempotency.{get, create}
use corridor_in_a_box.Idempotency.Laws.{create-create}
use corridor_in_a_box.Idempotency.Postgres.{Keeps, writes, writes-Keeps}
use corridor_in_a_box.Tests.Sample.{
  sample_intent, sample_quote, sample_opened, sample_row, empty_store,
}
use corridor_in_a_box.Engine.{GateContext}
use corridor_in_a_box.Engine.Gate.{GateCheck, resolves, pending, timeout_of, evaluate}
use corridor_in_a_box.Engine.Gate.Laws.{AllPassed, evaluate_iff}

-- States.

recovery_legal : IsWalk settled (recovering ∷ held ∷ [])
unfolding can_transition
recovery_legal = (refl, (refl, tt))

settling_unreachable_example : end_of settled (recovering ∷ held ∷ []) ≢ settling
settling_unreachable_example =
    settling_unreachable settled (recovering ∷ held ∷ []) refl recovery_legal

-- The circuit breaker.

abbrev tripped : BreakerRecord
tripped = record {
  corridor_id = "usdc-ngn";
  state = open_lane;
  consecutive_failures = 3;
  tripped_at = some 70;
  last_error = none;
  updated_at = 70;
  reset_by = none;
  reset_reason = none;
  reset_at = none;
}

upsert_row-eq-next_row_example :
    upsert_row failure tripped 75 3 (some reconcile_mismatch)
    ≡ next_row failure tripped 75 3 (some reconcile_mismatch)
upsert_row-eq-next_row_example =
    upsert_row-eq-next_row failure tripped 75 3 reconcile_mismatch refl (inr refl)

-- The store of runs.

key_free : get "k1" empty_store ≡ none
unfolding get
key_free = refl

create-create_example :
    ((create sample_row empty_store).1 ≡ true)
    × (create (record sample_row { version = 4 }) (create sample_row empty_store).0
        ≡ ((create sample_row empty_store).0, false))
    × (get "k1" (create sample_row empty_store).0 ≡ some sample_row)
create-create_example =
    create-create sample_row (record sample_row { version = 4 }) empty_store key_free refl

writes-Keeps_example :
    Keeps
      (record sample_row { refund_id = some "r1" })
      (writes
        (record sample_row { refund_id = some "r1" })
        (record sample_row { version = 9; refund_id = some "r2" } ∷ sample_row ∷ []))
writes-Keeps_example =
    writes-Keeps (record sample_row { refund_id = some "r1" })
      (record sample_row { version = 9; refund_id = some "r2" } ∷ sample_row ∷ [])

-- The gate.

abbrev sample_context : GateContext
sample_context = record {
  intent = sample_intent;
  quote = sample_quote;
  opened = sample_opened;
  now = 100;
  attempt = 0;
}

-- A check that passes in time, and one that never answers.
abbrev sample_checks : List GateCheck
sample_checks =
    record {
      name = "chain.balance";
      run = λ ctx. resolves 20 (record { name = "chain.balance"; passed = true; code = none });
    }
    ∷ record { name = "quote.window"; run = λ ctx. pending }
    ∷ []

evaluate_iff_example :
    ((evaluate sample_checks none sample_context).0 ≡ true)
    ↔ AllPassed sample_context (timeout_of none) sample_checks
evaluate_iff_example = evaluate_iff sample_checks none sample_context

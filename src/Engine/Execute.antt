-- ===== src/Engine/Execute.antt =====
-- packages/engine/src/run.ts: `execute`, the entry point: the guards, the idempotency gate with the
-- resume of an unfinished run, the circuit breaker, and the claim of the key.
use corridor_in_a_box.Base.{ℕ, Bool, false, not, ◌&&◌, Option, none, some, [], ◌∷◌, if◌then◌else◌}
use corridor_in_a_box.Types.{idempotency_conflict, corridor_halted, PaymentIntent}
use corridor_in_a_box.Outcome.{ok, fail}
use corridor_in_a_box.Corridor.{Corridor}
use corridor_in_a_box.State.{created, completed, is, is_terminal}
use corridor_in_a_box.Idempotency.{StoredRun, Store, get, create}
use corridor_in_a_box.Breaker.{BreakerRecord, Rows, is_open}
use corridor_in_a_box.Breaker
use corridor_in_a_box.Engine.{
  EngineDeps, ExecuteOptions, claimed, World, Res, more, M, ◌>>=◌, ◌>>◌, finish, look, ask, unless,
  to_result,
}
use corridor_in_a_box.Engine.Admission.{admission}
use corridor_in_a_box.Engine.Fresh.{fresh}
use corridor_in_a_box.Engine.Resume.{or_return, resume}

unfoldable pub new_run : EngineDeps → ExecuteOptions → PaymentIntent → Corridor → StoredRun
new_run deps opts intent c = record {
  idempotency_key = intent.idempotency_key;
  corridor_id = c.id;
  manifest_hash = some (deps.hash_corridor c);
  state = created;
  version = 0;
  transaction_id = none;
  source_transaction_id = none;
  quote_id = none;
  quote_expires_at = none;
  quote_firm = none;
  settlement_amount = none;
  stellar_tx_hash = none;
  settlement_kind = none;
  settlement_ref = none;
  deposit_address = none;
  memo = none;
  memo_type = none;
  refund_id = none;
  settlement = none;
  last_error = none;
  owner = opts.owner;
}

-- The world as a call of `execute` finds it, with the run that it would start.
unfoldable pub begin : StoredRun → Store → Rows → ℕ → World
begin run store rows calls = record {
  calls = calls;
  run = run;
  trail = run.state ∷ [];
  gate_checks = none;
  route_trust = none;
  store = store;
  rows = rows;
  log = [];
}

abbrev lane_open : Option BreakerRecord → Bool
lane_open none = false
lane_open (some r) = is_open r.state

unfoldable pub is_halted : EngineDeps → Corridor → World → Bool
is_halted deps c w = deps.has_health && lane_open (Breaker.get c.id w.rows)

-- `store.create(run)`, after what concurrent callers did.
unfoldable pub claim : EngineDeps → M Bool
claim deps w =
    let (store, mine) = create w.run (deps.rivals w.store) in
    (more mine, record w { store = store; log = if mine then claimed w.run ∷ w.log else w.log })

-- A resumed run goes on from the stored row, with a trail of its own.
unfoldable pub adopt : StoredRun → M (Unit {0})
adopt row w = (more tt, record w { run = row; trail = row.state ∷ [] })

module _ (deps : EngineDeps) (corridor : Corridor) (fuel : ℕ) where
  -- New work: refused on a halted lane before the key is claimed.
  unfoldable pub start_new : ExecuteOptions → PaymentIntent → M (Unit {0})
  start_new opts intent = do
    halted ← look (is_halted deps corridor)
    unless (not halted) (finish (fail corridor_halted))
    mine ← claim deps
    unless mine (finish (fail idempotency_conflict))
    fresh deps corridor fuel opts intent

  unfoldable pub go_on : ExecuteOptions → PaymentIntent → Option StoredRun → M (Unit {0})
  go_on opts intent none = start_new opts intent
  go_on opts intent (some row) =
      if is row.state completed
      then finish (ok (to_result row (row.state ∷ [])))
      else if is_terminal row.state
      then finish (fail idempotency_conflict)
      else (do adopt row; resume deps corridor fuel opts intent)

  unfoldable pub execute_from : ExecuteOptions → PaymentIntent → M (Unit {0})
  execute_from opts intent = do
    at ← ask deps.now
    or_return (admission deps intent corridor at)
    existing ← look (λ w. get intent.idempotency_key w.store)
    go_on opts intent existing

  unfoldable pub execute :
      ExecuteOptions → PaymentIntent → Store → Rows → ℕ → Res (Unit {0}) × World
  unfolding new_run begin
  execute opts intent store rows calls =
      execute_from opts intent (begin (new_run deps opts intent corridor) store rows calls)

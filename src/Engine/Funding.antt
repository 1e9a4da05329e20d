-- ===== src/Engine/Funding.antt =====
-- packages/engine/src/run.ts: the helpers by which a run stops, writes its row and polls, and the
-- funding of a corridor whose operator is not prefunded.
pub mod Kept
use corridor_in_a_box.Base.{
  ℕ, suc, ◌+◌, ◌*◌, min, String, Bool, true, false, not, Option, none, some, List, [], ◌∷◌,
  if◌then◌else◌, or_else, orelse,
}
use corridor_in_a_box.Types.{engine_misconfigured, PaymentIntent}
use corridor_in_a_box.Outcome.{Outcome, ok, err, refusal, CheckResult, CorridorError}
use corridor_in_a_box.Anchor.{TransactionStatus}
use corridor_in_a_box.Corridor.{Corridor}
use corridor_in_a_box.State.{CorridorState, funding, funded}
use corridor_in_a_box.Idempotency.{StoredRun, put}
use corridor_in_a_box.Verbs.Polling.{PollOptions, reconcile_until}
use corridor_in_a_box.Engine.{
  EngineDeps, Effect, wrote, deposit_opened, World, more, M, pure, ◌>>=◌, ◌>>◌, finish, ask, emit,
  note, poll,
}
use corridor_in_a_box.Engine.Context.{no_meta, advance, die_with}
use corridor_in_a_box.Engine.Refunding.{finish_failure}

-- The run ends with the error that a handler of failures returns.
unfoldable pub stop : {A : Type 0} → M CorridorError → M A
stop handler = do e ← handler; finish (err e)

-- `if (!x.ok) return handler(x.error)`.
unfoldable pub or_stop : {A : Type 0} → (CorridorError → M CorridorError) → Outcome A → M A
or_stop handler (ok a) = pure a
or_stop handler (err e) = stop (handler e)

abbrev seconds : Option ℕ → Option ℕ
seconds none = none
seconds (some s) = some (s * 1000)

unfoldable pub poll_ms_of : EngineDeps → Corridor → ℕ
poll_ms_of deps c =
    or_else (seconds c.recovery.reconcile.poll_seconds) (or_else deps.reconcile_poll_ms 2000)

unfoldable pub stall_threshold_of : EngineDeps → Corridor → ℕ
stall_threshold_of deps c =
    or_else c.recovery.reconcile.stall_polls (or_else deps.stall_threshold 10)

-- `externalStallBudgetMs`.
unfoldable pub external_stall_budget_ms : Corridor → ℕ
external_stall_budget_ms c =
    min c.recovery.reconcile.external_stall_seconds c.recovery.timeout_seconds * 1000

unfoldable pub poll_options : EngineDeps → Corridor → ℕ → ℕ → PollOptions
poll_options deps c deadline external_stall = record {
  deadline_ms = deadline;
  poll_ms = poll_ms_of deps c;
  stall_threshold = stall_threshold_of deps c;
  external_stall_ms = external_stall;
}

-- `run.version += 1; await store.put(run)`, after an assignment.
unfoldable pub save : (StoredRun → StoredRun) → M (Unit {0})
save f w =
    let run = record (f w.run) { version = (f w.run).version + 1 } in
    (more tt, record w { run = run; store = put run w.store; log = wrote run ∷ w.log })

unfoldable pub set_source : String → StoredRun → StoredRun
set_source id run = record run { source_transaction_id = some id }

module _ (deps : EngineDeps) (corridor : Corridor) (fuel : ℕ) where
  unfoldable pub die : {A : Type 0} → CorridorError → M A
  die e = stop (die_with deps corridor e none)

  unfoldable pub fail_over : {A : Type 0} → CorridorError → M A
  fail_over e = stop (finish_failure deps corridor fuel e)

  -- A transition that must succeed, or the run dies.
  unfoldable pub must_advance : CorridorState → M (Unit {0})
  must_advance to = do
    moved ← advance deps corridor to no_meta
    or_stop (λ e. die_with deps corridor e none) moved

  -- `waitForSourceDeposit`, which leaves the external stall budget at its default of six hours.
  unfoldable pub wait_for_deposit : String → M (Unit {0})
  wait_for_deposit id = do
    at ← ask deps.now
    arrived ← poll (
        reconcile_until fuel
          (poll_options deps corridor (at + corridor.recovery.timeout_seconds * 1000) 21_600_000)
          deps.now (deps.get_deposit id))
    status ← or_stop (finish_failure deps corridor fuel) arrived
    pure tt

  -- `openDeposit`, whose reference is written before anything waits on it.
  unfoldable pub open_deposit : PaymentIntent → M String
  open_deposit intent = do
    deposit ← ask (λ n. deps.open_deposit n intent corridor)
    emit (deposit_opened deposit)
    id ← or_stop (finish_failure deps corridor fuel) deposit
    save (set_source id)
    pure id

  unfoldable pub fund : PaymentIntent → M (Unit {0})
  fund intent = do
    must_advance funding
    id ← open_deposit intent
    wait_for_deposit id
    must_advance funded

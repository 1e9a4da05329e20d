-- ===== src/Tests/Engine.antt =====
-- Calls of `execute` on the sample corridor, and the theorems on its safety applied to them.
use corridor_in_a_box.Base.{
  unsome, ap, Bool-cases, inl, inr, Option, if◌then◌else◌, sym, ◌∙◌, ◌++◌, arith, ◌+◌, ◌≤◌, ◌≡◌,
  ◌⊎◌, refl, true, false, none, some, List, [], ◌∷◌,
}
use corridor_in_a_box.State.{
  CorridorState, can_transition, created, quoted, compliant, opened, verifying, settling, settled,
  reconciled, completed,
}
use corridor_in_a_box.State.Graph.{IsWalk, end_of}
use corridor_in_a_box.Idempotency.{Store, get, create, put}
use corridor_in_a_box.Engine.{
  Effect, paid, World, ExecuteOptions, RunResult, done, ◌>>=◌, ask, pure, look, finish, to_result,
  set_trust, emit, note, poll, strategies_of,
}
use corridor_in_a_box.Engine.Protocol.Crashes.{IsSaved}
use corridor_in_a_box.Engine.Protocol.{is_payment, last_row, payments, refunds, strays, state_of}
use corridor_in_a_box.Engine.Protocol.{is_committed}
use corridor_in_a_box.Engine.Execute.{
  execute, execute_from, go_on, start_new, claim, begin, new_run, is_halted,
}
use corridor_in_a_box.Engine.Resume.{or_return}
use corridor_in_a_box.Engine.Admission.{
  admission, effective_cap, admit_lane, within_limits, canary_cap,
}
use corridor_in_a_box.Money.{is_settleable_amount, compare_amounts, to_scaled}
use corridor_in_a_box.Liveness.{liveness}
use corridor_in_a_box.Engine.Fresh.{
  fresh, prepare, take_route, get_quote, open_at_anchor, fund_source, complete, settle_and_complete,
  provider_problem, set_quote, set_opened, needs_opt_in,
}
use corridor_in_a_box.Engine.Funding.{
  stop, or_stop, must_advance, poll_options, poll_ms_of, stall_threshold_of,
  external_stall_budget_ms,
}
use corridor_in_a_box.Engine.Context.{advance, move, keep_checks, carry, record_run}
use corridor_in_a_box.Engine.Settling.{
  settle_loop, try_settle, check_expiry, pass_gate, pay, finish_settled, verify_on_chain,
  confirm_payout, set_settlement, is_expired, fee_of,
}
use corridor_in_a_box.Compat.{check_compatibility}
use corridor_in_a_box.Verbs.{
  check_quote, build_settlement_request, settle_quote_problem, sells_bridge_asset, settle,
  stellar_payment_strategy, needs_path_payment,
}
use corridor_in_a_box.Verbs.Polling.{reconcile_until, reconcile_from, verdict, observe, first_poll}
use corridor_in_a_box.Breaker.{breaker_outcome_for, record_outcome}
use corridor_in_a_box.Breaker
use corridor_in_a_box.Types
use corridor_in_a_box.Idempotency.{stellar}
use corridor_in_a_box.Outcome.{ok}
use corridor_in_a_box.Engine.Safety.Money.{
  left_by, cut_off, execute_twice, execute-IsSparing, execute-IsTrail, execute-IsCommitted,
  execute_resumed, execute_dry_run, execute-IsGated,
}
use corridor_in_a_box.Engine.Settling.Rounds.{settle_loop_rounds}
use corridor_in_a_box.Engine.Admission.Laws.{IsAdmitted}
use corridor_in_a_box.Engine.Safety.Refusals.{IsRefusal, execute_halted, execute-IsAdmitted}
use corridor_in_a_box.Outcome.{refusal}
use corridor_in_a_box.Breaker.{Rows}
use corridor_in_a_box.Tests.Sample.{
  sample_ref, sample_quote, sample_opened, sample_row, sample_corridor, sample_intent, sample_deps,
  sample_options, empty_store, no_rows,
}

abbrev sample_end : World
sample_end =
    left_by sample_deps sample_corridor 5 sample_options sample_intent empty_store no_rows 0

execute-IsSparing_example : (payments sample_end.log ≤ 1) × (refunds sample_end.log ≤ 1)
execute-IsSparing_example =
    execute-IsSparing sample_deps sample_corridor 5 sample_options sample_intent empty_store no_rows
      0

execute-IsTrail_example :
    (s : CorridorState) × (ts : List CorridorState) × (sample_end.trail ≡ s ∷ ts)
    × IsWalk s ts
    × (end_of s ts ≡ sample_end.run.state)
execute-IsTrail_example =
    execute-IsTrail sample_deps sample_corridor 5 sample_options sample_intent empty_store no_rows 0

execute-IsCommitted_example :
    ((payments sample_end.log ≡ 0)
      ⊎ ((is_committed sample_end.run.state ≡ true)
          × (state_of (get "k1" sample_end.store) ≡ some sample_end.run.state)))
    × IsSaved sample_end.log
execute-IsCommitted_example =
    execute-IsCommitted sample_deps sample_corridor 5 sample_options sample_intent empty_store
      no_rows 0

abbrev stopped_store : Store
stopped_store = record { runs = sample_row ∷ []; resolutions = [] }

stopped_found : get "k1" stopped_store ≡ some sample_row
unfolding get
stopped_found = refl

execute_resumed_example :
    payments
      (left_by sample_deps sample_corridor 5 sample_options sample_intent stopped_store no_rows
        0).log
    ≡ 0
execute_resumed_example =
    execute_resumed sample_deps sample_corridor 5 sample_options sample_intent stopped_store no_rows
      0 sample_row stopped_found refl

abbrev dry_options : ExecuteOptions
dry_options = record { owner = none; trust_manifest = false; dry_run = true }

nothing_found : get "k1" empty_store ≡ none
unfolding get
nothing_found = refl

execute_dry_run_example :
    payments
      (left_by sample_deps sample_corridor 5 dry_options sample_intent empty_store no_rows 0).log
    ≡ 0
execute_dry_run_example =
    execute_dry_run sample_deps sample_corridor 5 dry_options sample_intent empty_store no_rows 0
      refl nothing_found

execute-IsGated_example : strays sample_end.log ≡ 0
execute-IsGated_example =
    execute-IsGated sample_deps sample_corridor 5 sample_options sample_intent empty_store no_rows 0
      refl

abbrev finished_store : Store
finished_store = record { runs = record sample_row { state = completed } ∷ []; resolutions = [] }

-- The result of a run that is found completed.
abbrev replayed : RunResult
replayed = record {
  idempotency_key = "k1";
  state = completed;
  transaction_id = some "t1";
  stellar_tx_hash = none;
  settlement_kind = none;
  settlement_ref = none;
  trail = completed ∷ [];
}

replayed_here :
    (execute sample_deps sample_corridor 5 sample_options sample_intent finished_store no_rows 0).0
    ≡ done (ok replayed)
unfolding execute execute_from ◌>>=◌ ask or_return admission is_settleable_amount effective_cap
    liveness compare_amounts admit_lane within_limits pure look go_on get finish to_result to_scaled
replayed_here = refl

abbrev sample_result : RunResult
sample_result = record {
  idempotency_key = "k1";
  state = completed;
  transaction_id = some "t1";
  stellar_tx_hash = some "abc";
  settlement_kind = some stellar;
  settlement_ref = some (Types.SettlementRef.stellar "abc" (some 7) (some "100") none);
  trail =
      created ∷ quoted ∷ compliant ∷ opened ∷ verifying ∷ settling ∷ settled ∷ reconciled
      ∷ completed ∷ [];
}

-- The sample payment walks straight to `completed`, and pays once.
sample_run :
    ((execute sample_deps sample_corridor 5 sample_options sample_intent empty_store no_rows 0).0
      ≡ done (ok sample_result))
    × (payments sample_end.log ≡ 1)
unfolding execute execute_from go_on start_new claim begin new_run is_halted ◌>>=◌ ask pure look
    finish to_result set_trust emit note poll strategies_of or_return admission effective_cap
    admit_lane within_limits canary_cap is_settleable_amount compare_amounts to_scaled liveness
    fresh prepare take_route get_quote open_at_anchor fund_source complete settle_and_complete
    provider_problem set_quote set_opened needs_opt_in stop or_stop must_advance poll_options
    poll_ms_of stall_threshold_of external_stall_budget_ms advance move keep_checks carry record_run
    settle_loop try_settle check_expiry pass_gate pay finish_settled verify_on_chain confirm_payout
    set_settlement is_expired fee_of check_compatibility check_quote build_settlement_request
    settle_quote_problem sells_bridge_asset settle stellar_payment_strategy needs_path_payment
    reconcile_until reconcile_from verdict observe first_poll get create put breaker_outcome_for
    record_outcome Breaker.get can_transition
sample_run = (refl, refl)

-- The log behind the payment, and before it.
abbrev behind : List Effect → List Effect
behind [] = []
behind (e ∷ log) = if is_payment e then [] else e ∷ behind log

abbrev ahead : List Effect → List Effect
ahead [] = []
ahead (e ∷ log) = if is_payment e then log else ahead log

abbrev last_payment : List Effect → Option Effect
last_payment [] = none
last_payment (e ∷ log) = if is_payment e then some e else last_payment log

cut_there :
    (log : List Effect) (e : Effect) → last_payment log ≡ some e → log ≡ behind log ++ e ∷ ahead log
cut_there [] e h = cc
cut_there (x ∷ log) e h = elim (Bool-cases (is_payment x)) [
  | inl y ↦ rw y (ap (λ q. q ∷ log) (unsome (rw y at h)))
  | inr n ↦ rw n (ap (λ l. x ∷ l) (cut_there log e (rw n at h)))
]

abbrev sample_payment : Effect
sample_payment = paid settling (ok sample_ref)

sample_cut :
    (last_payment sample_end.log ≡ some sample_payment)
    × (last_row (ahead sample_end.log) ≡ some settling)
unfolding execute execute_from go_on start_new claim begin new_run is_halted ◌>>=◌ ask pure look
    finish to_result set_trust emit note poll strategies_of or_return admission effective_cap
    admit_lane within_limits canary_cap is_settleable_amount compare_amounts to_scaled liveness
    fresh prepare take_route get_quote open_at_anchor fund_source complete settle_and_complete
    provider_problem set_quote set_opened needs_opt_in stop or_stop must_advance poll_options
    poll_ms_of stall_threshold_of external_stall_budget_ms advance move keep_checks carry record_run
    settle_loop try_settle check_expiry pass_gate pay finish_settled verify_on_chain confirm_payout
    set_settlement is_expired fee_of check_compatibility check_quote build_settlement_request
    settle_quote_problem sells_bridge_asset settle stellar_payment_strategy needs_path_payment
    reconcile_until reconcile_from verdict observe first_poll get create put breaker_outcome_for
    record_outcome Breaker.get can_transition
sample_cut = (refl, refl)

-- What a crash leaves that comes right behind the payment.
abbrev crashed_store : Store
crashed_store = record { runs = record sample_row { state = settling } ∷ []; resolutions = [] }

crashed_row :
    (s : CorridorState)
    → last_row (ahead sample_end.log) ≡ some s
    → state_of (get "k1" crashed_store) ≡ some s
unfolding get
crashed_row s h = sym sample_cut.1 ∙ h

execute_twice_example :
    payments (sample_payment ∷ ahead sample_end.log)
      + payments
          (left_by sample_deps sample_corridor 5 sample_options sample_intent crashed_store no_rows
            50).log
    ≤ 1
execute_twice_example =
    execute_twice sample_intent sample_intent sample_deps sample_deps sample_corridor
      sample_corridor 5 5 sample_options sample_options empty_store no_rows no_rows 0 50
      (payments (sample_payment ∷ ahead sample_end.log)) crashed_store refl
      (cut_off (behind sample_end.log) (ahead sample_end.log) sample_payment crashed_store
        (cut_there sample_end.log sample_payment sample_cut.0) crashed_row)

settle_loop_rounds_example :
    settle_loop sample_deps sample_corridor 5 8 sample_options sample_intent sample_quote
      sample_opened 900 0 sample_end
    ≡ settle_loop sample_deps sample_corridor 5 3 sample_options sample_intent sample_quote
        sample_opened 900 0 sample_end
settle_loop_rounds_example =
    settle_loop_rounds sample_deps sample_corridor 5 2 7 sample_options sample_intent sample_quote
      sample_opened 900 0 sample_end (omega arith) (omega arith)

execute-IsAdmitted_example :
    IsAdmitted sample_deps sample_intent.source_amount.amount sample_corridor
      (liveness sample_corridor 0).state
execute-IsAdmitted_example =
    execute-IsAdmitted sample_deps sample_corridor 5 sample_options sample_intent empty_store
      no_rows 0 (λ none_made. omega (arith, none_made, sample_run.1))

-- The breaker's row of a lane that two consecutive failures have tripped.
abbrev tripped_rows : Rows
tripped_rows =
    record {
      corridor_id = "usdc-ngn";
      state = Breaker.open_lane;
      consecutive_failures = 2;
      tripped_at = some 10;
      last_error = some Types.settlement_failed;
      reset_by = none;
      reset_reason = none;
      reset_at = none;
      updated_at = 10;
    }
    ∷ []

sample_admitted : admission sample_deps sample_intent sample_corridor (sample_deps.now 0) ≡ ok tt
unfolding admission is_settleable_amount effective_cap liveness compare_amounts admit_lane
    within_limits canary_cap to_scaled
sample_admitted = refl

sample_halted :
    is_halted sample_deps sample_corridor (
      begin
        (new_run sample_deps sample_options sample_intent sample_corridor)
        empty_store
        tripped_rows
        0)
    ≡ true
unfolding is_halted Breaker.get begin
sample_halted = refl

execute_halted_example :
    IsRefusal (refusal Types.corridor_halted) empty_store (
      execute sample_deps sample_corridor 5 sample_options sample_intent empty_store tripped_rows 0)
execute_halted_example =
    execute_halted sample_deps sample_corridor 5 sample_options sample_intent empty_store
      tripped_rows 0 sample_admitted nothing_found sample_halted

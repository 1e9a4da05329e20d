-- ===== src/Engine/Fresh.antt =====
-- packages/engine/src/run.ts: `execute` from the claimed key to the completed payment.
pub mod Kept
use corridor_in_a_box.Base.{
  ℕ, zero, suc, ◌+◌, ◌*◌, String, Bool, true, false, not, ◌&&◌, ◌||◌, Option, none, some, List, [],
  ◌∷◌, if◌then◌else◌, any,
}
use corridor_in_a_box.Types.{
  ErrorCode, manifest_invalid, quote_unavailable, dry_run_complete, engine_misconfigured,
  route_refused, PaymentIntent, SettlementRef,
}
use corridor_in_a_box.Outcome.{Outcome, ok, err, refusal, CorridorError, Cause, dry_run}
use corridor_in_a_box.Anchor.{
  Quote, OpenTransaction, QuoteKind, native, ComplianceMethod, no_kyc, AdapterCapabilities,
  to_legacy,
}
use corridor_in_a_box.Corridor.{
  Corridor, is_prefunded, is_public, QuoteSource, external, RiskHolder, receiving_anchor,
}
use corridor_in_a_box.Corridor
use corridor_in_a_box.State.{CorridorState, quoted, compliant, opened, completed}
use corridor_in_a_box.Idempotency.{StoredRun}
use corridor_in_a_box.Verbs.{check_quote, check_compliance}
use corridor_in_a_box.Compat.{check_compatibility}
use corridor_in_a_box.Engine.{
  RouteTrust, by_manifest, RouteDecision, EngineDeps, strategies_of, ExecuteOptions, RunResult,
  World, M, pure, ◌>>=◌, ◌>>◌, finish, look, ask, set_trust, note, unless, to_result,
}
use corridor_in_a_box.Engine.Context.{no_meta, advance, die_with, fail_run, record_run}
use corridor_in_a_box.Engine.Funding.{stop, or_stop, die, must_advance, fund}
use corridor_in_a_box.Engine.Settling.{settle_loop, finish_settled}

abbrev pub trusts_manifest : RouteTrust → Bool
trusts_manifest by_manifest = true
trusts_manifest _ = false

-- A public corridor on a route that only the manifest vouches for wants an explicit opt-in.
unfoldable pub needs_opt_in : EngineDeps → ExecuteOptions → Corridor → RouteTrust → Bool
needs_opt_in deps opts c trust =
    is_public c.settlement.network
    && trusts_manifest trust
    && not deps.trust_manifest
    && not opts.trust_manifest

abbrev is_native : QuoteKind → Bool
is_native native = true
is_native _ = false

abbrev is_receiving : RiskHolder → Bool
is_receiving receiving_anchor = true
is_receiving _ = false

source_problem : EngineDeps → RiskHolder → List QuoteKind → QuoteSource → Option ErrorCode
source_problem deps risk quotes external =
    if is_receiving risk && not (any is_native quotes)
    then some manifest_invalid
    else if not deps.has_external_quote
    then some quote_unavailable
    else none
source_problem deps risk quotes Corridor.QuoteSource.native =
    if not (any is_native quotes) then some manifest_invalid else none
source_problem deps risk quotes _ = none

-- Why the corridor's quotes cannot be had from this adapter, if they cannot.
unfoldable pub provider_problem : EngineDeps → Corridor → AdapterCapabilities → Option ErrorCode
unfolding source_problem
provider_problem deps c caps =
    if deps.has_quote_provider
    then none
    else source_problem deps c.fx.who_holds_risk caps.quotes c.fx.quote_source

abbrev pub does_kyc : ComplianceMethod → Bool
does_kyc no_kyc = false
does_kyc _ = true

unfoldable pub set_quote : Quote → StoredRun → StoredRun
set_quote q run = record run {
  quote_id = some q.id;
  quote_expires_at = some q.expires_at;
  quote_firm = some q.firm;
  settlement_amount = some q.source_amount.amount;
}

unfoldable pub set_opened : OpenTransaction → StoredRun → StoredRun
set_opened o run =
    let legacy = to_legacy o in
    record run {
      transaction_id = some o.transaction_id;
      deposit_address = legacy.deposit_address;
      memo = legacy.memo;
      memo_type = legacy.memo_type;
    }

module _ (deps : EngineDeps) (corridor : Corridor) (fuel : ℕ) where
  die_on : Option ErrorCode → M (Unit {0})
  die_on none = pure tt
  die_on (some code) = die deps corridor fuel (refusal code)

  decide : Option RouteDecision → M RouteDecision
  decide (some route) = pure route
  decide none = stop (fail_run deps corridor (refusal route_refused) none)

  -- The route, and what must hold of it before anything is quoted.
  unfoldable pub take_route : ExecuteOptions → PaymentIntent → M RouteDecision
  unfolding decide die_on
  take_route opts intent = do
    answer ← ask (λ n. deps.resolve n intent corridor)
    route ← decide answer
    set_trust route.trust
    or_stop (λ e. die_with deps corridor e none)
        (check_compatibility corridor route.capabilities (strategies_of deps))
    unless (not (needs_opt_in deps opts corridor route.trust))
        (die deps corridor fuel (refusal manifest_invalid))
    die_on (provider_problem deps corridor route.capabilities)
    pure route

  unfoldable pub get_quote : PaymentIntent → M Quote
  get_quote intent = do
    at ← ask deps.now
    answer ← ask (λ n. deps.request_quote n intent corridor)
    q ← or_stop (λ e. die_with deps corridor e none) (check_quote answer at)
    note (set_quote q)
    must_advance deps corridor fuel quoted
    pure q

  unfoldable pub check_kyc : PaymentIntent → M (Unit {0})
  check_kyc intent = do
    answer ← ask (λ n. deps.ensure_compliance n intent corridor)
    result ← or_stop (λ e. die_with deps corridor e none) (check_compliance answer)
    pure tt

  unfoldable pub open_at_anchor : PaymentIntent → Quote → M OpenTransaction
  open_at_anchor intent q = do
    answer ← ask (λ n. deps.open_transaction n intent q corridor)
    o ← or_stop (λ e. die_with deps corridor e none) answer
    note (set_opened o)
    must_advance deps corridor fuel opened
    pure o

  -- Source funding, for a corridor that is not prefunded; a dry run stops before it.
  unfoldable pub fund_source : ExecuteOptions → PaymentIntent → RouteDecision → M (Unit {0})
  fund_source opts intent route = do
    unless (not (opts.dry_run && not (is_prefunded corridor.source_protocol))) (
        die deps corridor fuel
          (record { code = dry_run_complete; retryable = false; cause = dry_run [] }))
    unless (is_prefunded corridor.source_protocol) (do
      unless route.has_sending (die deps corridor fuel (refusal engine_misconfigured))
      fund deps corridor fuel intent)

  unfoldable pub complete : M (Unit {0})
  complete = do
    must_advance deps corridor fuel completed
    record_run deps corridor completed none
    w ← look (λ w. w)
    finish (ok (to_result w.run w.trail))

  -- Everything before the settle loop: the quote and the opened transaction.
  unfoldable pub prepare : ExecuteOptions → PaymentIntent → M (Quote × OpenTransaction)
  prepare opts intent = do
    route ← take_route opts intent
    q ← get_quote intent
    unless (not (does_kyc route.capabilities.kyc)) (check_kyc intent)
    must_advance deps corridor fuel compliant
    o ← open_at_anchor intent q
    fund_source opts intent route
    pure (q, o)

  -- The settle leg, and what follows it; the whole phase must end within the corridor's timeout.
  unfoldable pub settle_and_complete :
      ExecuteOptions → PaymentIntent → Quote → OpenTransaction → M (Unit {0})
  settle_and_complete opts intent q o = do
    at ← ask deps.now
    let deadline = at + corridor.recovery.timeout_seconds * 1000
    ref ←
        settle_loop deps corridor fuel (suc corridor.recovery.max_retries) opts intent q o deadline
          0
    finish_settled deps corridor fuel q o deadline ref
    complete

  unfoldable pub fresh : ExecuteOptions → PaymentIntent → M (Unit {0})
  fresh opts intent = do (q, o) ← prepare opts intent; settle_and_complete opts intent q o

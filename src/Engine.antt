-- ===== src/Engine.antt =====
-- packages/engine/src/run.ts: what a run of the engine works with. The ports (`EngineDeps`), the
-- variables of a run with all that it has done (`World`), and the monad in which the engine's steps
-- are written: a step goes on with a value, or ends the run with its answer.
pub mod Admission
pub mod Context
pub mod Refunding
pub mod Funding
pub mod Settling
pub mod Fresh
pub mod Gate
pub mod Resume
pub mod Execute
pub mod Protocol
pub mod Safety
use corridor_in_a_box.Base.{
  ℕ, zero, suc, ◌+◌, String, Bool, true, false, Option, none, some, List, [], ◌∷◌, ◌++◌,
  if◌then◌else◌, or_else,
}
use corridor_in_a_box.Types.{ErrorCode, Money, PaymentIntent, SettlementRef}
use corridor_in_a_box.Outcome.{Outcome, ok, err, CheckResult, CorridorError}
use corridor_in_a_box.Anchor.{
  Quote, KycResult, OpenTransaction, TransactionStatus, AdapterCapabilities,
}
use corridor_in_a_box.Corridor.{Corridor}
use corridor_in_a_box.State.{CorridorState}
use corridor_in_a_box.Idempotency.{StoredRun, SettlementKind, Store}
use corridor_in_a_box.Breaker.{BreakerOutcome, Rows}
use corridor_in_a_box.Verbs.{
  SettlementRequest, SettlementStrategy, stellar_payment_strategy, adapter_settled_strategy,
}

pub data RouteTrust : Type 0 where
  attested by_manifest : RouteTrust

-- What the resolver decides: how far the route is trusted, what the receiving adapter offers, and
-- whether there is a sending adapter.
pub record RouteDecision : Type 0 where
  pub trust : RouteTrust
  pub capabilities : AdapterCapabilities
  pub has_sending : Bool

pub record RefundRequest : Type 0 where
  pub original : SettlementRef
  pub amount : Money
  pub reason : ErrorCode

pub record GateContext : Type 0 where
  pub intent : PaymentIntent
  pub quote : Quote
  pub opened : OpenTransaction
  pub now : ℕ
  pub attempt : ℕ

-- The dependencies of the engine. A port is a function of the number of the call, so that an
-- adapter, the chain or the clock may answer every call in its own way. A resolver or a gate that
-- answers none has thrown. `rivals` is what concurrent callers do to the store before this one
-- claims its key.
pub record EngineDeps : Type 0 where
  pub now : ℕ → ℕ
  pub hash_corridor : Corridor → ℕ
  pub rivals : Store → Store
  pub resolve : ℕ → PaymentIntent → Corridor → Option RouteDecision
  pub request_quote : ℕ → PaymentIntent → Corridor → Outcome Quote
  pub ensure_compliance : ℕ → PaymentIntent → Corridor → Outcome KycResult
  pub open_transaction : ℕ → PaymentIntent → Quote → Corridor → Outcome OpenTransaction
  pub get_transaction : String → ℕ → Outcome TransactionStatus
  pub open_deposit : ℕ → PaymentIntent → Corridor → Outcome String
  pub get_deposit : String → ℕ → Outcome TransactionStatus
  pub gate : Option (ℕ → GateContext → Option (Bool × List CheckResult))
  pub find_existing : Option (ℕ → SettlementRequest → Outcome (Option SettlementRef))
  pub submit : ℕ → SettlementRequest → Outcome SettlementRef
  pub confirm_settlement : Option (ℕ → String → Outcome SettlementRef)
  pub refund : ℕ → RefundRequest → Outcome SettlementRef
  pub chain_verifier : Option (ℕ → SettlementRef → SettlementRequest → Outcome (Unit {0}))
  pub strategies : Option (List SettlementStrategy)
  pub unsafe_skip_gate : Bool
  pub trust_manifest : Bool
  pub has_quote_provider : Bool
  pub has_external_quote : Bool
  pub has_health : Bool
  pub unproven_max_amount : Option (List ℕ)
  pub reconcile_poll_ms : Option ℕ
  pub stall_threshold : Option ℕ

unfoldable pub strategies_of : EngineDeps → List SettlementStrategy
strategies_of deps = or_else deps.strategies (
    stellar_payment_strategy deps.submit
    ∷ adapter_settled_strategy deps.confirm_settlement deps.now
    ∷ [])

pub record ExecuteOptions : Type 0 where
  pub owner : Option String
  pub trust_manifest : Bool
  pub dry_run : Bool

pub record RunResult : Type 0 where
  pub idempotency_key : String
  pub state : CorridorState
  pub transaction_id : Option String
  pub stellar_tx_hash : Option String
  pub settlement_kind : Option SettlementKind
  pub settlement_ref : Option SettlementRef
  pub trail : List CorridorState

pub record AuditEntry : Type 0 where
  pub idempotency_key : String
  pub corridor_id : String
  pub from : CorridorState
  pub to : CorridorState
  pub version : ℕ
  pub at : ℕ
  pub error : Option ErrorCode
  pub route_trust : Option RouteTrust
  pub quote_fee : Option Money
  pub network_fee : Option String
  pub amount_refunded : Option (List ℕ)
  pub amount_fee : Option (List ℕ)
  pub checks : List CheckResult

-- What a run does to the world outside, as far as it moves money or is recorded.
pub data Effect : Type 0 where
  claimed wrote : StoredRun → Effect
  audited : AuditEntry → Effect
  alerted : CorridorState → Effect
  gate_answered : Bool → Effect
  looked_for : SettlementRequest → Effect
  paid : CorridorState → Outcome SettlementRef → Effect
  deposit_opened : Outcome String → Effect
  refund_asked : RefundRequest → Outcome SettlementRef → Effect
  counted : BreakerOutcome → Effect

-- `calls` numbers the next call of a port; `log` has the newest effect first.
pub record World : Type 0 where
  pub calls : ℕ
  pub run : StoredRun
  pub trail : List CorridorState
  pub gate_checks : Option (List CheckResult)
  pub route_trust : Option RouteTrust
  pub store : Store
  pub rows : Rows
  pub log : List Effect

-- `out_of_fuel`: a polling loop still polled when its fuel ran out. `thrown`: an exception left
-- `execute`.
pub data Res {ℓ} (A : Type ℓ) : Type ℓ where
  more : A → Res A
  done : Outcome RunResult → Res A
  out_of_fuel : Res A
  thrown : Res A

abbrev pub M : Type 0 → Type 0
M A = World → Res A × World

unfoldable pub pure : {A : Type 0} → A → M A
pure a w = (more a, w)

abbrev pub continue : {A B : Type 0} → (A → M B) → Res A × World → Res B × World
continue f (more a, w) = f a w
continue f (done r, w) = (done r, w)
continue f (out_of_fuel, w) = (out_of_fuel, w)
continue f (thrown, w) = (thrown, w)

infixl 5 ◌>>=◌ ◌>>◌
unfoldable pub ◌>>=◌ : {A B : Type 0} → M A → (A → M B) → M B
◌>>=◌ m f w = continue f (m w)

abbrev pub ◌>>◌ : {B : Type 0} → M (Unit {0}) → M B → M B
m >> k = m >>= λ _. k

-- The run ends with this answer.
unfoldable pub finish : {A : Type 0} → Outcome RunResult → M A
finish r w = (done r, w)

-- An exception that nothing catches.
unfoldable pub throw : {A : Type 0} → M A
throw w = (thrown, w)

-- The fuel of a loop ran out.
unfoldable pub starve : {A : Type 0} → M A
starve w = (out_of_fuel, w)

unfoldable pub look : {A : Type 0} → (World → A) → M A
look f w = (more (f w), w)

-- A call of a port that leaves no effect of its own.
unfoldable pub ask : {A : Type 0} → (ℕ → A) → M A
ask f w = (more (f w.calls), record w { calls = suc w.calls })

unfoldable pub set_trust : RouteTrust → M (Unit {0})
set_trust trust w = (more tt, record w { route_trust = some trust })

unfoldable pub emit : Effect → M (Unit {0})
emit e w = (more tt, record w { log = e ∷ w.log })

-- An assignment to fields of the run that does not write the row.
unfoldable pub note : (StoredRun → StoredRun) → M (Unit {0})
note f w = (more tt, record w { run = f w.run })

-- A loop that polls from the call `n` on, with its answer and the number of the call after it.
unfoldable pub poll : {A : Type 0} → (ℕ → Option (A × ℕ)) → M A
poll loop w = elim (loop w.calls) [
  | none ↦ (out_of_fuel, w)
  | some (a, n) ↦ (more a, record w { calls = n })
]

-- `if (problem) return …`.
abbrev pub unless : Bool → M (Unit {0}) → M (Unit {0})
unless true m = pure tt
unless false m = m

unfoldable pub to_result : StoredRun → List CorridorState → RunResult
to_result run trail = record {
  idempotency_key = run.idempotency_key;
  state = run.state;
  transaction_id = run.transaction_id;
  stellar_tx_hash = run.stellar_tx_hash;
  settlement_kind = run.settlement_kind;
  settlement_ref = run.settlement_ref;
  trail = trail;
}

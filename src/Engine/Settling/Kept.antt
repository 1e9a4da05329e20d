-- ===== src/Engine/Settling/Kept.antt =====
-- The settle loop of packages/engine/src/run.ts keeps to the protocol: a payment is made only in
-- `settling`, behind a gate that passed, and none is made after it.
use corridor_in_a_box.Base.{
  ℕ, zero, suc, ◌≡◌, refl, sym, ap, subst, String, Bool, true, false, not, Option, none, some, List,
  is_some, present, leb, ◌∙◌,
}
use corridor_in_a_box.Types.{PaymentIntent, SettlementRef}
use corridor_in_a_box.Types
use corridor_in_a_box.Outcome.{Outcome, ok, err, CorridorError, CheckResult}
use corridor_in_a_box.Anchor.{Quote, OpenTransaction, stellar_payment, kind_of}
use corridor_in_a_box.Corridor.{Corridor}
use corridor_in_a_box.State.{CorridorState, retrying, verifying, settling, settled, reconciled}
use corridor_in_a_box.Verbs.{
  SettlementRequest, settle_quote_problem, same_kind, RecoveryAction, retry, recover,
}
use corridor_in_a_box.Verbs.Recover.{recover-retry_iff}
use corridor_in_a_box.Engine.{
  EngineDeps, GateContext, ExecuteOptions, World, M, gate_answered, paid, emit,
}
use corridor_in_a_box.Engine.Context.{no_meta}
use corridor_in_a_box.Engine.Context.Kept.{advance-Keeps, die_with-Keeps, hold_run-Keeps, view_path}
use corridor_in_a_box.Engine.Refunding.Kept.{over, ending, finish_failure-Keeps}
use corridor_in_a_box.Engine.Funding.Kept.{
  IsOpen, stop-Keeps, or_stop-Keeps, die-Keeps, fail_over-Keeps, must_advance-Keeps,
  must_advance_with,
}
use corridor_in_a_box.Engine.Settling.{
  is_expired, Attempt, settled_by, again, set_settlement, stop_unsettled, check_expiry, verify_with,
  refuse_gate, gate_error, read_gate, through_gate, pass_gate, call_settle, use_found, look_first,
  pay, act_on, after_pay, try_settle, settle_loop, verify_ref, verify_on_chain, confirm_payout,
  finish_settled,
}
use corridor_in_a_box.Engine.Protocol.{
  expose, exposed, last_row, stray, strays, payments, last_gate, View, view, pays, answers, onward,
}
use corridor_in_a_box.Engine.Protocol.Rules.{
  Stage, when_ok, Policy, Reached, Keeps, keep-pure, keep-starve, keep-throw, bind, before,
  keep-look, keep-ask, keep-emit, keep-note, keep-poll, keep-either, keep-unless, guard,
}

-- Nothing is paid and no refund is asked for.
abbrev pub unpaid : Stage
unpaid v = (v.payments ≡ 0) × (v.refunds ≡ 0)

-- The gate has passed, if there is one.
abbrev pub passed : Policy → Stage
passed p v = unpaid v × (p.gated ≡ true → v.gate ≡ some true)

-- A payment may be made.
abbrev pub allowed : Policy → Stage
allowed p v = passed p v × (p.may_pay ≡ true)

-- The payment is about to be made: the row says so.
abbrev pub ready : Policy → Stage
ready p v =
    allowed p v × (v.state ≡ settling) × (v.stored ≡ some settling) × (v.written ≡ some settling)

-- The payment was refused, and may be tried again.
abbrev pub denied : Policy → Stage
denied p v = unpaid v × (p.may_pay ≡ true)

-- The payment is made, or may be, and no refund is asked for.
abbrev pub clean : Stage
clean v = v.refunds ≡ 0

-- The payment failed, in a way that may be tried again or not.
abbrev pub tried : Policy → Bool → Stage
tried p true = denied p
tried p false = clean

-- The settle call has been answered.
abbrev pub answered : Policy → Outcome SettlementRef → Stage
answered p (ok ref) = clean
answered p (err e) = tried p e.retryable

tried_clean : (p : Policy) (retryable : Bool) (v : View) → tried p retryable v → clean v
tried_clean p true v x = x.0.1
tried_clean p false v x = x

pub answered_clean :
    (p : Policy) (answer : Outcome SettlementRef) (v : View)
    → answered p answer v
    → when_ok clean clean answer v
answered_clean p (ok ref) v x = x
answered_clean p (err e) v x = tried_clean p e.retryable v x

pub unpaid-IsOpen : IsOpen unpaid
unpaid-IsOpen = record { stable = λ v to x. x; clean = λ v x. x.1; written = λ v x. x }

pub passed-IsOpen : (p : Policy) → IsOpen (passed p)
passed-IsOpen p = record { stable = λ v to x. x; clean = λ v x. x.0.1; written = λ v x. x }

pub allowed-IsOpen : (p : Policy) → IsOpen (allowed p)
allowed-IsOpen p = record { stable = λ v to x. x; clean = λ v x. x.0.0.1; written = λ v x. x }

pub denied-IsOpen : (p : Policy) → IsOpen (denied p)
denied-IsOpen p = record { stable = λ v to x. x; clean = λ v x. x.0.1; written = λ v x. x }

pub clean-IsOpen : IsOpen clean
clean-IsOpen = record { stable = λ v to x. x; clean = λ v x. x; written = λ v x. x }

module _ {p : Policy} where
  keep-answer :
      {X Y : Stage} (b : Bool)
      → ((v : View) → X v → Y (record v { gate = some b }))
      → Keeps p X (emit (gate_answered b)) (λ _. Y)
  unfolding emit
  keep-answer b y = record { run = λ w r x. (onward r (answers (view w) b), y (view w) x) }

  -- One more payment in the view is a step of the protocol.
  one_payment :
      (w : World)
      → Reached p (view w)
      → ready p (view w)
      → Reached p (record (view w) {
        payments = suc (payments w.log);
        strays = stray (last_gate w.log) (strays w.log);
        exposed = expose (last_row w.log) (exposed w.log);
      })
  one_payment w r (((unp, g), m), st, q, o) =
      let e =
        view_path w.run.idempotency_key w.run.state w.trail (λ i. (view w).stored)
          (
            ap suc unp.0,
            (λ i. (view w).refunds),
            (λ i. (view w).gate),
            (λ i. stray (last_gate w.log) (strays w.log)),
            (λ i. last_row w.log),
            (λ i. expose (last_row w.log) (exposed w.log)),
          ) in
      subst (Reached p) (sym e) (onward r (pays (view w) m st q o unp.0 g))

  keep-tried :
      (state : CorridorState) (e : CorridorError) (retryable : Bool)
      → e.retryable ≡ retryable
      → Keeps p (ready p) (emit (paid state (err e))) (λ _. tried p retryable)
  unfolding emit
  keep-tried state e true h = record { run = λ w r x. rw h (r, (x.0.0.0, x.0.1)) }
  keep-tried state e false h = record { run = λ w r x. rw h (one_payment w r x, x.0.0.0.1) }

  -- A payment, or the answer that refuses it.
  pub keep-paid :
      (state : CorridorState) (answer : Outcome SettlementRef)
      → Keeps p (ready p) (emit (paid state answer)) (λ _. answered p answer)
  unfolding emit
  keep-paid state (ok ref) = record { run = λ w r x. (one_payment w r x, x.0.0.0.1) }
  keep-paid state (err e) = keep-tried state e e.retryable refl

module _ {p : Policy} {X : Stage} (o : IsOpen X) (deps : EngineDeps) (c : Corridor) (fuel : ℕ) where
  pub stop_unsettled-Keeps :
      {A : Type 0} {Y : A → Stage} (e : CorridorError) (otherwise : CorridorError → M CorridorError)
      → Keeps p X (otherwise e) (λ _. over)
      → Keeps p X (stop_unsettled deps c fuel e otherwise) Y
  unfolding stop_unsettled
  stop_unsettled-Keeps e otherwise h = bind (keep-look _) (λ run. stop-Keeps (
      keep-either (present run.source_transaction_id)
        (ending (hold_run-Keeps o.stable deps c e none e e)) h))

  pub check_expiry-Keeps : (q : Quote) → Keeps p X (check_expiry deps c fuel q) (λ _. X)
  unfolding check_expiry
  check_expiry-Keeps q = bind (keep-ask _) (λ at. keep-unless (not (is_expired q at)) (
      before (λ v x. x.0)
        (stop_unsettled-Keeps _ _ (finish_failure-Keeps o.stable o.clean deps c fuel _))))

  verify_with-Keeps :
      (checks : List CheckResult) → Keeps p X (verify_with deps c fuel checks) (λ _. X)
  unfolding verify_with
  verify_with-Keeps checks =
      bind (advance-Keeps o.stable deps c verifying _ refl)
        (λ moved. or_stop-Keeps _ (λ e. die_with-Keeps o.stable deps c e none) moved)

module _ {p : Policy} (deps : EngineDeps) (c : Corridor) (fuel : ℕ) where
  refuse_gate-Keeps :
      (checks : List CheckResult) (failure : Option CorridorError)
      → Keeps p unpaid (refuse_gate deps c fuel checks failure) (λ _. passed p)
  unfolding refuse_gate
  refuse_gate-Keeps checks none = keep-throw
  refuse_gate-Keeps checks (some e) =
      stop_unsettled-Keeps unpaid-IsOpen deps c fuel _ _
        (ending (die_with-Keeps unpaid-IsOpen.stable deps c _ (some checks)))

  read_gate-Keeps :
      (answer : Option (Bool × List CheckResult))
      → Keeps p unpaid (read_gate deps c fuel answer) (λ _. passed p)
  unfolding read_gate
  read_gate-Keeps none = bind (keep-answer {Y = unpaid} false (λ v x. x)) (λ _.
      bind (advance-Keeps unpaid-IsOpen.stable deps c verifying no_meta refl) (λ moved.
        stop_unsettled-Keeps unpaid-IsOpen deps c fuel _ _
          (ending (die_with-Keeps unpaid-IsOpen.stable deps c _ none))))
  read_gate-Keeps (some (true, checks)) =
      bind (keep-answer {Y = passed p} true (λ v x. (x, λ g. refl))) (λ _.
        bind (verify_with-Keeps (passed-IsOpen p) deps c fuel checks)
          (λ _. bind (keep-pure _ (λ v x. x)) (λ _. keep-pure checks (λ v x. x))))
  read_gate-Keeps (some (false, checks)) = bind (keep-answer {Y = unpaid} false (λ v x. x)) (λ _.
      bind (verify_with-Keeps unpaid-IsOpen deps c fuel checks) (λ _.
        bind (refuse_gate-Keeps checks (gate_error checks)) (λ _. keep-pure checks (λ v x. x))))

  through_gate-Keeps :
      (gate : Option (ℕ → GateContext → Option (Bool × List CheckResult))) (ctx : GateContext)
      → p.gated ≡ is_some gate
      → Keeps p unpaid (through_gate deps c fuel gate ctx) (λ _. passed p)
  unfolding through_gate
  through_gate-Keeps none ctx h =
      bind (verify_with-Keeps unpaid-IsOpen deps c fuel _) (λ _. keep-pure _ (λ v x. (x, λ g. cc)))
  through_gate-Keeps (some evaluate) ctx h = bind (keep-ask _) (λ answer. read_gate-Keeps answer)

  pub pass_gate-Keeps :
      (intent : PaymentIntent) (q : Quote) (opened : OpenTransaction) (attempt : ℕ)
      → p.gated ≡ is_some deps.gate
      → Keeps p unpaid (pass_gate deps c fuel intent q opened attempt) (λ _. passed p)
  unfolding pass_gate
  pass_gate-Keeps intent q opened attempt h =
      bind (keep-ask _) (λ at. through_gate-Keeps deps.gate _ h)

  call_settle-Keeps :
      (q : Quote) (opened : OpenTransaction)
      → Keeps p (ready p) (call_settle deps c fuel q opened) (answered p)
  unfolding call_settle
  call_settle-Keeps q opened = bind (keep-look _) (λ state.
      bind (keep-ask _)
        (λ answer. bind (keep-paid state answer) (λ _. keep-pure answer (λ v x. x))))

  use_found-Keeps :
      (q : Quote) (opened : OpenTransaction) (found : Option SettlementRef)
      → Keeps p (ready p) (use_found deps c fuel q opened found) (answered p)
  unfolding use_found
  use_found-Keeps q opened none = call_settle-Keeps q opened
  use_found-Keeps q opened (some ref) = keep-pure _ (λ v x. x.0.0.0.1)

  look_first-Keeps :
      (lookup : Option (ℕ → SettlementRequest → Outcome (Option SettlementRef))) (q : Quote)
      (opened : OpenTransaction)
      → Keeps p (ready p) (look_first deps c fuel lookup q opened) (answered p)
  unfolding look_first
  look_first-Keeps none q opened = call_settle-Keeps q opened
  look_first-Keeps (some lookup) q opened = bind (keep-ask _) (λ answer.
      bind (keep-emit _ (λ w. refl)) (λ _.
        bind
          (or_stop-Keeps _
            (λ e.
              before (λ v x. x.0.0.0)
                (finish_failure-Keeps unpaid-IsOpen.stable unpaid-IsOpen.clean deps c fuel e))
            answer)
          (λ found. use_found-Keeps q opened found)))

  pub pay-Keeps :
      (q : Quote) (opened : OpenTransaction)
      → Keeps p (ready p) (pay deps c fuel q opened) (answered p)
  unfolding pay
  pay-Keeps q opened =
      keep-either (same_kind (kind_of opened.instructions) stellar_payment)
        (look_first-Keeps deps.find_existing q opened) (call_settle-Keeps q opened)

-- The stage after a pass of the settle loop.
abbrev attempted : Attempt → Stage
attempted (settled_by ref) = clean
attempted (again next) = unpaid

module _ {p : Policy} (deps : EngineDeps) (c : Corridor) (fuel : ℕ) where
  -- Another attempt follows only a failure that may be tried again.
  retry-Keeps :
      (retryable : Bool) (next : ℕ) (e : CorridorError)
      → retryable ≡ true
      → Keeps p (tried p retryable) (act_on deps c fuel (retry next) e) attempted
  unfolding act_on
  retry-Keeps true next e h =
      bind
        (must_advance_with (denied-IsOpen p) deps c fuel retrying (λ _ v x. (x.1, x.0.0))
          (λ v x. x.0))
        (λ _. keep-pure _ (λ v x. x))
  retry-Keeps false next e h = cc

  act_on-Keeps :
      (retryable : Bool) (a : RecoveryAction) (e : CorridorError)
      → ((next : ℕ) → a ≡ retry next → retryable ≡ true)
      → Keeps p (tried p retryable) (act_on deps c fuel a e) attempted
  unfolding act_on
  act_on-Keeps b (retry next) e h = retry-Keeps b next e (h next refl)
  act_on-Keeps b _ e h = before (tried_clean p b) (fail_over-Keeps clean-IsOpen deps c fuel e)

  after_pay-Keeps :
      (attempt : ℕ) (answer : Outcome SettlementRef)
      → Keeps p (answered p answer) (after_pay deps c fuel attempt answer) attempted
  unfolding after_pay
  after_pay-Keeps attempt (ok ref) = keep-pure _ (λ v x. x)
  after_pay-Keeps attempt (err e) =
      act_on-Keeps e.retryable (recover c e.retryable attempt) e
        (λ next a. ((recover-retry_iff c e.retryable attempt next).0 a).0)

  pub try_settle-Keeps :
      (opts : ExecuteOptions) (intent : PaymentIntent) (q : Quote) (opened : OpenTransaction)
      (deadline attempt : ℕ)
      → p.gated ≡ is_some deps.gate
      → p.may_pay ≡ not opts.dry_run
      → Keeps p unpaid (try_settle deps c fuel opts intent q opened deadline attempt) attempted
  unfolding try_settle
  try_settle-Keeps opts intent q opened deadline attempt g m = bind (keep-ask _) (λ at.
      bind
        (keep-unless (not (leb deadline at))
          (before (λ v x. x.0) (fail_over-Keeps unpaid-IsOpen deps c fuel _)))
        (λ _. bind (check_expiry-Keeps unpaid-IsOpen deps c fuel q) (λ _.
          bind
            (keep-unless (not (settle_quote_problem q c))
              (before (λ v x. x.0) (die-Keeps unpaid-IsOpen deps c fuel _)))
            (λ _. bind (pass_gate-Keeps deps c fuel intent q opened attempt g) (λ checks.
              bind
                (guard (not opts.dry_run)
                  (stop-Keeps (die_with-Keeps (passed-IsOpen p).stable deps c _ (some checks))))
                (λ _.
                  bind
                    (before (λ v x. (x.0, m ∙ x.1))
                      (check_expiry-Keeps (allowed-IsOpen p) deps c fuel q))
                    (λ _.
                      bind
                        (must_advance_with (allowed-IsOpen p) deps c fuel {Y = ready p} settling
                          (λ e. cc) (λ v x. (x, refl, refl, refl)))
                        (λ _.
                          bind (pay-Keeps deps c fuel q opened)
                            (λ answer. after_pay-Keeps attempt answer)))))))))

  pub settle_loop-Keeps :
      (rounds : ℕ) (opts : ExecuteOptions) (intent : PaymentIntent) (q : Quote)
      (opened : OpenTransaction) (deadline attempt : ℕ)
      → p.gated ≡ is_some deps.gate
      → p.may_pay ≡ not opts.dry_run
      → Keeps p unpaid
          (settle_loop deps c fuel rounds opts intent q opened deadline attempt)
          (λ _. clean)
  unfolding settle_loop
  settle_loop-Keeps zero opts intent q opened deadline attempt g m = keep-starve
  settle_loop-Keeps (suc rounds) opts intent q opened deadline attempt g m =
      bind (try_settle-Keeps opts intent q opened deadline attempt g m) (elim [
        | settled_by ref ↦ keep-pure ref (λ v x. x)
        | again next ↦ settle_loop-Keeps rounds opts intent q opened deadline next g m
      ])

pub view-settlement :
    (ref : SettlementRef) (req : SettlementRequest) (w : World)
    → view (record w { run = set_settlement ref req w.run }) ≡ view w
unfolding set_settlement
view-settlement ref req w = refl

module _ {p : Policy} {X : Stage} (o : IsOpen X) (deps : EngineDeps) (c : Corridor) (fuel : ℕ) where
  verify_ref-Keeps :
      (verifier : Option (ℕ → SettlementRef → SettlementRequest → Outcome (Unit {0})))
      (ref : SettlementRef) (req : SettlementRequest)
      → Keeps p X (verify_ref deps c fuel verifier ref req) (λ _. X)
  unfolding verify_ref
  verify_ref-Keeps (some verifier) (Types.SettlementRef.stellar h l f b) req = keep-ask _
  verify_ref-Keeps _ ref req = keep-pure _ (λ v x. x)

  pub verify_on_chain-Keeps :
      (ref : SettlementRef) (req : SettlementRequest)
      → Keeps p X (verify_on_chain deps c fuel ref req) (λ _. X)
  unfolding verify_on_chain
  verify_on_chain-Keeps ref req =
      bind (verify_ref-Keeps deps.chain_verifier ref req) (λ a. keep-pure _ (λ v x. x))

  pub confirm_payout-Keeps :
      (id : String) (deadline : ℕ) → Keeps p X (confirm_payout deps c fuel id deadline) (λ _. X)
  unfolding confirm_payout
  confirm_payout-Keeps id deadline = bind (keep-poll _) (λ a.
      bind (or_stop-Keeps _ (finish_failure-Keeps o.stable o.clean deps c fuel) a)
        (λ s. keep-pure _ (λ v x. x)))

  pub finish_settled-Keeps :
      (q : Quote) (opened : OpenTransaction) (deadline : ℕ) (ref : SettlementRef)
      → Keeps p X (finish_settled deps c fuel q opened deadline ref) (λ _. X)
  unfolding finish_settled
  finish_settled-Keeps q opened deadline ref = bind (keep-note _ (view-settlement ref _)) (λ _.
      bind (advance-Keeps o.stable deps c settled _ refl) (λ moved.
        bind (or_stop-Keeps _ (λ e. die_with-Keeps o.stable deps c e none) moved) (λ _.
          bind (verify_on_chain-Keeps ref _) (λ verified.
            bind (or_stop-Keeps _ (finish_failure-Keeps o.stable o.clean deps c fuel) verified)
              (λ _.
                bind (confirm_payout-Keeps opened.transaction_id deadline)
                  (λ _. must_advance-Keeps o deps c fuel reconciled refl))))))

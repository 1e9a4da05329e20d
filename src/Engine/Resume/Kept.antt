-- ===== src/Engine/Resume/Kept.antt =====
-- A resumed run of packages/engine/src/run.ts keeps to the protocol, and one whose row is already in
-- `settling`, or beyond it, makes no payment.
use corridor_in_a_box.Base.{
  ℕ, ◌≡◌, refl, subst, String, Bool, true, false, not, ◌||◌, Option, none, some, present, arith,
  Bool-cases, inl, inr,
}
use corridor_in_a_box.Types.{PaymentIntent}
use corridor_in_a_box.Outcome.{Outcome, ok, err}
use corridor_in_a_box.Corridor.{Corridor}
use corridor_in_a_box.State.{
  CorridorState, opened, funded, retrying, verifying, settling, settled, reconciled, is,
}
use corridor_in_a_box.Engine.{EngineDeps, RouteDecision}
use corridor_in_a_box.Engine.Context.{no_meta}
use corridor_in_a_box.Engine.Context.Kept.{advance-Keeps, die_with-Keeps, fail_run-Keeps}
use corridor_in_a_box.Engine.Funding.Kept.{
  IsOpen, stop-Keeps, or_stop-Keeps, die-Keeps, open_deposit-Keeps, wait_for_deposit-Keeps,
}
use corridor_in_a_box.Engine.Settling.Kept.{denied}
use corridor_in_a_box.Engine.Resume.{
  conflict, or_return, is_early, may_settle, differs, refuse_route, decide_resumed, reroute,
  deposit_of, resume_funding, settle_from, enter_settling,
}
use corridor_in_a_box.Engine.Protocol.{View, Reach}
use corridor_in_a_box.Engine.Protocol.{is_committed}
use corridor_in_a_box.Engine.Protocol.Invariants.{Reach-is_committed}
use corridor_in_a_box.Engine.Protocol.Rules.{
  Stage, when_ok, Policy, Reached, Keeps, keep-pure, keep-finish, bind, before, keep-look, keep-ask,
  keep-trust, keep-either, keep-unless,
}

-- The states from which `enter_settling` reaches `settling` by the gate's state.
abbrev pub is_startable : CorridorState → Bool
is_startable s = is s opened || is s funded || is s retrying || is s verifying

pub startable-verifying :
    (s : CorridorState)
    → is_startable s ≡ true
    → (is s funded || is s opened || is s retrying) ≡ false
    → s ≡ verifying
startable-verifying verifying h n = refl
startable-verifying s h n = ground arith

pub startable-settle :
    (s : CorridorState)
    → may_settle s ≡ true
    → is s settling ≡ false
    → (is_startable s ≡ true) × (is_committed s ≡ false)
startable-settle opened h n = (refl, refl)
startable-settle s h n = ground arith

-- A run may pay unless it started out committed.
abbrev pub StartsFrom : Policy → Type 0
StartsFrom p = p.may_pay ≡ not (is_committed p.start.state)

start-is_committed : (m c : Bool) → m ≡ not c → m ≡ false → c ≡ true
start-is_committed m true e f = refl
start-is_committed m false e f = cc

pub may_pay-uncommitted :
    (p : Policy) (v : View)
    → StartsFrom p
    → Reached p v
    → is_committed v.state ≡ false
    → p.may_pay ≡ true
may_pay-uncommitted p v from r n = elim (Bool-cases p.may_pay) [
  | inl y ↦ y
  | inr f ↦
      let c =
        Reach-is_committed (subst (λ b. Reach b p.gated p.start v) f r)
          (start-is_committed p.may_pay (is_committed p.start.state) from f) in
      cc
]

-- The payment may be made as soon as the run is in `settling`.
abbrev pub startable : Policy → Stage
startable p v = denied p v × (is_startable v.state ≡ true)

pub or_return_when :
    {p : Policy} {A : Type 0} (X : Stage) {Y : Stage} (o : Outcome A)
    → Keeps p (when_ok X Y o) (or_return o) (λ _. Y)
unfolding or_return
or_return_when X (ok a) = keep-pure a (λ v x. x)
or_return_when X (err e) = keep-finish _

module _ {p : Policy} {X : Stage} where
  pub conflict-Keeps : {A : Type 0} {Y : A → Stage} → Keeps p X (conflict {A = A}) Y
  unfolding conflict
  conflict-Keeps = keep-finish _

  pub or_return-Keeps : {A : Type 0} (o : Outcome A) → Keeps p X (or_return o) (λ _. X)
  unfolding or_return
  or_return-Keeps (ok a) = keep-pure a (λ v x. x)
  or_return-Keeps (err e) = keep-finish _

module _ {p : Policy} {X : Stage} (o : IsOpen X) (deps : EngineDeps) (c : Corridor) (fuel : ℕ) where
  refuse_route-Keeps : (b : Bool) → Keeps p X (refuse_route deps c fuel b) (λ _. X)
  unfolding refuse_route
  refuse_route-Keeps true = stop-Keeps (fail_run-Keeps o.stable deps c _ none)
  refuse_route-Keeps false = keep-finish _

  decide_resumed-Keeps :
      (b : Bool) (route : Option RouteDecision)
      → Keeps p X (decide_resumed deps c fuel b route) (λ _. X)
  unfolding decide_resumed
  decide_resumed-Keeps b (some route) = keep-pure route (λ v x. x)
  decide_resumed-Keeps b none = refuse_route-Keeps b

  pub reroute-Keeps : (intent : PaymentIntent) → Keeps p X (reroute deps c fuel intent) (λ _. X)
  unfolding reroute
  reroute-Keeps intent = bind (keep-look _) (λ run. bind (keep-ask _) (λ answer.
      bind (decide_resumed-Keeps _ answer) (λ route. bind (keep-trust route.trust) (λ _.
        bind
          (keep-unless
            (not (differs run.manifest_hash (deps.hash_corridor c))
              || is run.state settled
              || is run.state reconciled)
            (before (λ v x. x.0) (die-Keeps o deps c fuel _)))
          (λ _.
            bind
              (keep-unless (not (is_early run.state))
                (before (λ v x. x.0) (die-Keeps o deps c fuel _)))
              (λ _. keep-pure route (λ v x. x)))))))

  deposit_of-Keeps :
      (intent : PaymentIntent) (id : Option String)
      → Keeps p X (deposit_of deps c fuel intent id) (λ _. X)
  unfolding deposit_of
  deposit_of-Keeps intent none = open_deposit-Keeps o deps c fuel intent
  deposit_of-Keeps intent (some id) =
      keep-either (present (some id)) (keep-pure id (λ v x. x))
        (open_deposit-Keeps o deps c fuel intent)

  pub resume_funding-Keeps :
      (intent : PaymentIntent) (route : RouteDecision)
      → Keeps p X (resume_funding deps c fuel intent route) (λ _. X)
  unfolding resume_funding
  resume_funding-Keeps intent route = bind (keep-unless route.has_sending conflict-Keeps) (λ _.
      bind (keep-look _) (λ known. bind (deposit_of-Keeps intent known) (λ id.
        bind (wait_for_deposit-Keeps o deps c fuel id) (λ _.
          bind (advance-Keeps o.stable deps c funded no_meta refl)
            (λ moved. or_return-Keeps moved)))))

  -- Into `settling`, without a payment to come.
  settle_from-Keeps :
      (moved : Outcome (Unit {0})) → Keeps p X (settle_from deps c fuel moved) (λ _. X)
  unfolding settle_from
  settle_from-Keeps (err e) = keep-pure _ (λ v x. x)
  settle_from-Keeps (ok _) = bind (keep-look _) (λ state.
      keep-either (is state verifying) (advance-Keeps o.stable deps c settling no_meta refl)
        (keep-pure _ (λ v x. x)))

  pub enter_settling-Keeps : Keeps p X (enter_settling deps c fuel) (λ _. X)
  unfolding enter_settling
  enter_settling-Keeps = bind (keep-look _) (λ state.
      bind
        (keep-either (is state funded || is state opened || is state retrying)
          (advance-Keeps o.stable deps c verifying no_meta refl) (keep-pure _ (λ v x. x)))
        (λ moved.
          bind (settle_from-Keeps moved)
            (λ entered. or_stop-Keeps _ (λ e. die_with-Keeps o.stable deps c e none) entered)))

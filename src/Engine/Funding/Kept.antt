-- ===== src/Engine/Funding/Kept.antt =====
-- How a run of packages/engine/src/run.ts stops, writes its row and is funded keeps to the protocol.
use corridor_in_a_box.Base.{ℕ, ◌≡◌, refl, sym, subst, String, true, false, none}
use corridor_in_a_box.Types.{PaymentIntent}
use corridor_in_a_box.Outcome.{Outcome, ok, err, CorridorError}
use corridor_in_a_box.Corridor.{Corridor}
use corridor_in_a_box.State.{CorridorState, retrying, funding, funded, is}
use corridor_in_a_box.Engine.{EngineDeps, M}
use corridor_in_a_box.Engine.Context.{no_meta}
use corridor_in_a_box.Engine.Context.Kept.{
  advance_with, advance-Keeps, die_with-Keeps, view_path, state_of-put,
}
use corridor_in_a_box.Engine.Refunding.Kept.{finish_failure-Keeps}
use corridor_in_a_box.Engine.Funding.{
  stop, or_stop, save, set_source, die, fail_over, must_advance, wait_for_deposit, open_deposit,
  fund,
}
use corridor_in_a_box.Engine.Protocol.{View, view, moved, saved, writes, onward}
use corridor_in_a_box.Engine.Protocol.Rules.{
  Stage, when_ok, IsStable, Policy, Reached, Keeps, keep-pure, keep-finish, bind, keep-ask,
  keep-emit, keep-poll,
}

-- A stage that the writes, the transitions and the answers of the gate leave alone, and in which no
-- refund has been asked for.
pub record IsOpen (X : Stage) : Type 0 where
  pub stable : IsStable X
  pub clean : (v : View) → X v → v.refunds ≡ 0
  pub written : (v : View) → X v → X (saved v)

module _ {p : Policy} {X : Stage} {A : Type 0} {Y : A → Stage} where
  pub stop-Keeps :
      {h : M CorridorError} {Z : CorridorError → Stage} → Keeps p X h Z → Keeps p X (stop h) Y
  unfolding stop
  stop-Keeps k = bind k (λ e. keep-finish _)

-- The outcome of a call, or the end of the run.
pub or_stop-Keeps :
    {p : Policy} {X : Stage} {A : Type 0} {Z : CorridorError → CorridorError → Stage}
    (handler : CorridorError → M CorridorError)
    → ((e : CorridorError) → Keeps p X (handler e) (Z e))
    → (o : Outcome A) → Keeps p X (or_stop handler o) (λ _. X)
unfolding or_stop
or_stop-Keeps handler k (ok a) = keep-pure a (λ v x. x)
or_stop-Keeps handler k (err e) = stop-Keeps (k e)

-- The same, for the outcome of an operation whose stage depends on it.
pub or_stop_when :
    {p : Policy} {A : Type 0} {X Y : Stage} {Z : CorridorError → CorridorError → Stage}
    (handler : CorridorError → M CorridorError)
    → ((e : CorridorError) → Keeps p X (handler e) (Z e))
    → (o : Outcome A) → Keeps p (when_ok X Y o) (or_stop handler o) (λ _. Y)
unfolding or_stop
or_stop_when handler k (ok a) = keep-pure a (λ v x. x)
or_stop_when handler k (err e) = stop-Keeps (k e)

module _ {p : Policy} {X : Stage} where
  save-Keeps :
      (id : String) → ((v : View) → X v → X (saved v)) → Keeps p X (save (set_source id)) (λ _. X)
  unfolding save set_source
  save-Keeps id written = record {
    run = λ w r x.
        let q =
          view_path w.run.idempotency_key w.run.state w.trail (state_of-put _ w.store)
            (refl, refl, refl, refl, refl, refl) in
        (
          subst (Reached p) (sym q) (onward r (writes (view w))),
          subst X (sym q) (written (view w) x),
        );
  }

module _ {p : Policy} {X : Stage} (o : IsOpen X) (deps : EngineDeps) (c : Corridor) (fuel : ℕ) where
  pub die-Keeps : {A : Type 0} {Y : A → Stage} (e : CorridorError) → Keeps p X (die deps c fuel e) Y
  unfolding die
  die-Keeps e = stop-Keeps (die_with-Keeps o.stable deps c e none)

  pub fail_over-Keeps :
      {A : Type 0} {Y : A → Stage} (e : CorridorError) → Keeps p X (fail_over deps c fuel e) Y
  unfolding fail_over
  fail_over-Keeps e = stop-Keeps (finish_failure-Keeps o.stable o.clean deps c fuel e)

  pub must_advance-Keeps :
      (to : CorridorState)
      → is to retrying ≡ false
      → Keeps p X (must_advance deps c fuel to) (λ _. X)
  unfolding must_advance
  must_advance-Keeps to n =
      bind (advance-Keeps o.stable deps c to no_meta n)
        (λ moved. or_stop-Keeps _ (λ e. die_with-Keeps o.stable deps c e none) moved)

  -- A transition that must succeed, into the stage `Y`.
  pub must_advance_with :
      {Y : Stage} (to : CorridorState)
      → (is to retrying ≡ true → (v : View) → X v → (p.may_pay ≡ true) × (v.payments ≡ 0))
      → ((v : View) → X v → Y (moved to v))
      → Keeps p X (must_advance deps c fuel to) (λ _. Y)
  unfolding must_advance
  must_advance_with to retry y =
      bind (advance_with deps c to no_meta retry y)
        (λ moved. or_stop_when _ (λ e. die_with-Keeps o.stable deps c e none) moved)

  pub wait_for_deposit-Keeps : (id : String) → Keeps p X (wait_for_deposit deps c fuel id) (λ _. X)
  unfolding wait_for_deposit
  wait_for_deposit-Keeps id = bind (keep-ask _) (λ at. bind (keep-poll _) (λ arrived.
      bind (or_stop-Keeps _ (finish_failure-Keeps o.stable o.clean deps c fuel) arrived)
        (λ s. keep-pure _ (λ v x. x))))

  pub open_deposit-Keeps :
      (intent : PaymentIntent) → Keeps p X (open_deposit deps c fuel intent) (λ _. X)
  unfolding open_deposit
  open_deposit-Keeps intent = bind (keep-ask _) (λ d. bind (keep-emit _ (λ w. refl)) (λ _.
      bind (or_stop-Keeps _ (finish_failure-Keeps o.stable o.clean deps c fuel) d)
        (λ id. bind (save-Keeps id o.written) (λ _. keep-pure id (λ v x. x)))))

  -- A funded run is in `funded`.
  pub fund-Keeps :
      (intent : PaymentIntent)
      → Keeps p X (fund deps c fuel intent) (λ _ v. X v × (v.state ≡ funded))
  unfolding fund
  fund-Keeps intent = bind (must_advance-Keeps funding refl) (λ _.
      bind (open_deposit-Keeps intent) (λ id.
        bind (wait_for_deposit-Keeps id)
          (λ _. must_advance_with funded (λ e. cc) (λ v x. (o.stable v funded x, refl)))))

-- ===== src/Engine/Resume/Paying.antt =====
-- The settle leg of a resumed run, and what follows it: a payment is made only by a run that had not
-- reached `settling` when it was resumed.
use corridor_in_a_box.Base.{
  if◌then◌else◌, ℕ, ◌≡◌, refl, sym, ap, ◌∙◌, Bool, true, false, not, ◌||◌, none, is_some, present,
}
use corridor_in_a_box.Types.{quote_expired, PaymentIntent}
use corridor_in_a_box.Outcome.{Outcome, ok, err, CorridorError, refusal}
use corridor_in_a_box.Corridor.{Corridor, is_prefunded}
use corridor_in_a_box.State.{CorridorState, opened, funded, retrying, verifying, settling, is}
use corridor_in_a_box.Idempotency.{StoredRun}
use corridor_in_a_box.Engine.{pure, EngineDeps, ExecuteOptions, RouteDecision}
use corridor_in_a_box.Engine.Context.{hold_run, advance, no_meta}
use corridor_in_a_box.Engine.Context.Kept.{advance_with, die_with-Keeps, hold_run-Keeps}
use corridor_in_a_box.Engine.Refunding.Kept.{ending, finish_failure-Keeps}
use corridor_in_a_box.Engine.Funding.Kept.{stop-Keeps, or_stop_when, die-Keeps, fund-Keeps}
use corridor_in_a_box.Engine.Settling.Kept.{
  unpaid, allowed, ready, denied, clean, unpaid-IsOpen, allowed-IsOpen, denied-IsOpen, clean-IsOpen,
  answered_clean, keep-paid,
}
use corridor_in_a_box.Engine.Fresh.{needs_opt_in, does_kyc}
use corridor_in_a_box.Engine.Fresh.Kept.{check_kyc-Keeps}
use corridor_in_a_box.Engine.Resume.{
  Plan, expired, settle_from, enter_settling, fund_resumed, pay_resumed,
}
use corridor_in_a_box.Engine.Protocol.{View}
use corridor_in_a_box.Engine.Protocol.Rules.{
  Stage, when_ok, Policy, Keeps, keep-pure, bind, bind-look, after, before, keep-look, keep-ask,
  keep-if, keep-either, keep-unless, guard_then,
}
use corridor_in_a_box.Engine.Funding.{die, stop}
use corridor_in_a_box.Engine.Refunding.{finish_failure}
use corridor_in_a_box.Engine.Resume.Kept.{
  startable, is_startable, startable-verifying, conflict-Keeps,
}

not_verifying : {B : Type 0} (s : CorridorState) → is s verifying ≡ false → verifying ≡ s → B
not_verifying s h e = let k = ap (λ t. is t verifying) e in cc

ungated :
    (p : Policy) (gate : Bool)
    → p.gated ≡ gate
    → not gate ≡ true
    → {B : Type 0} → p.gated ≡ true
    → B
ungated p true g n h = cc
ungated p false g n h = cc

-- In `verifying`, or refused.
abbrev at_gate : Policy → Outcome (Unit {0}) → Stage
at_gate p = when_ok (allowed p) (λ v. allowed p v × (v.state ≡ verifying))

module _ {p : Policy} (deps : EngineDeps) (c : Corridor) (fuel : ℕ) where
  settle_from_gate :
      (moved : Outcome (Unit {0}))
      → Keeps p (at_gate p moved) (settle_from deps c fuel moved) (when_ok (allowed p) (ready p))
  unfolding settle_from
  settle_from_gate (err e) = keep-pure _ (λ v x. x)
  settle_from_gate (ok _) = bind-look _ _ (λ w.
      keep-if (is w.run.state verifying)
        (λ h.
          before (λ v x. x.0.0)
            (advance_with deps c settling no_meta (λ e. cc) (λ v x. (x, refl, refl, refl))))
        (λ h. keep-pure _ (λ v x. not_verifying w.run.state h (sym x.0.1 ∙ ap (λ u. u.state) x.2))))

  to_gate :
      (s : CorridorState)
      → Keeps p
          (λ v. (allowed p v × (is_startable v.state ≡ true)) × (v.state ≡ s))
          (if is s funded || is s opened || is s retrying
            then advance deps c verifying no_meta
            else pure (ok tt))
          (at_gate p)
  to_gate s =
      keep-if (is s funded || is s opened || is s retrying)
        (λ h.
          before (λ v x. x.0.0)
            (advance_with deps c verifying no_meta (λ e. cc) (λ v x. (x, refl))))
        (λ h.
          keep-pure _
            (λ v x. (x.0.0, x.1 ∙ startable-verifying s (ap is_startable (sym x.1) ∙ x.0.1) h)))

  -- Into `settling`, for the payment.
  enter_for_payment :
      Keeps p
        (λ v. allowed p v × (is_startable v.state ≡ true))
        (enter_settling deps c fuel)
        (λ _. ready p)
  unfolding enter_settling
  enter_for_payment = bind-look _ _ (λ w.
      bind (before (λ v x. (x.0, ap (λ u. u.state) x.2)) (to_gate w.run.state)) (λ moved.
        bind (settle_from_gate moved) (λ entered.
          or_stop_when _ (λ e. die_with-Keeps (allowed-IsOpen p).stable deps c e none) entered)))

  -- A run that is `opened`, without a source deposit, is funded first.
  fund_resumed-Keeps :
      (intent : PaymentIntent) (route : RouteDecision)
      → Keeps p (denied p) (fund_resumed deps c fuel intent route) (λ _. startable p)
  unfolding fund_resumed
  fund_resumed-Keeps intent route = bind (keep-unless route.has_sending conflict-Keeps) (λ _.
      bind (keep-look _) (λ state. bind (keep-unless (is state opened) conflict-Keeps) (λ _.
        after (fund-Keeps (denied-IsOpen p) deps c fuel intent)
          (λ a v x. (x.0, ap is_startable x.1)))))

  die_in :
      {W : Stage}
      → ((v : View) → W v → unpaid v)
      → {A : Type 0} {Y : A → Stage} (e : CorridorError) → Keeps p W (die deps c fuel e) Y
  die_in weaker e = before weaker (die-Keeps unpaid-IsOpen deps c fuel e)

  expired_away :
      {b : Bool} (run : StoredRun)
      → Keeps {A = Unit {0}} p
          (λ v. startable p v × (b ≡ false))
          (stop (
            if present run.source_transaction_id
            then hold_run deps c
                (refusal quote_expired)
                none
                (refusal quote_expired)
                (refusal quote_expired)
            else finish_failure deps c fuel (refusal quote_expired)))
          (λ _. startable p)
  expired_away run =
      before (λ v x. x.0.0.0)
        (stop-Keeps (
          keep-either (present run.source_transaction_id)
            (ending (hold_run-Keeps unpaid-IsOpen.stable deps c _ none _ _))
            (finish_failure-Keeps unpaid-IsOpen.stable unpaid-IsOpen.clean deps c fuel _)))

  pub pay_resumed-Keeps :
      (opts : ExecuteOptions) (intent : PaymentIntent) (route : RouteDecision) (pl : Plan)
      → p.gated ≡ is_some deps.gate
      → Keeps p (startable p) (pay_resumed deps c fuel opts intent route pl) (λ _. clean)
  unfolding pay_resumed
  pay_resumed-Keeps opts intent route pl g = bind (keep-ask _) (λ at.
      bind (keep-unless (not (expired pl at)) (die_in (λ v x. x.0.0.0) _)) (λ _.
        bind (keep-unless (not (needs_opt_in deps opts c route.trust)) (die_in (λ v x. x.0.0.0) _))
          (λ _. guard_then (not (is_some deps.gate)) conflict-Keeps (λ n.
            bind
              (keep-unless (not (does_kyc route.capabilities.kyc)) (
                before (λ v x. x.0)
                  (check_kyc-Keeps unpaid-IsOpen deps c fuel intent (λ v x. x.0.0))))
              (λ _. bind (keep-look _) (λ source.
                bind
                  (keep-unless (is_prefunded c.source_protocol || present source)
                    (before (λ v x. x.0.0) (fund_resumed-Keeps intent route)))
                  (λ _. bind (keep-ask _) (λ later. bind (keep-look _) (λ run.
                    bind (keep-unless (not (expired pl later)) (expired_away run)) (λ _.
                      bind
                        (before (λ v x. (((x.0.0, ungated p (is_some deps.gate) g n), x.0.1), x.1))
                          enter_for_payment)
                        (λ _. bind (keep-look _) (λ state. bind (keep-ask _) (λ answer.
                          bind (after (keep-paid state answer) (λ _. answered_clean p answer)) (λ _.
                            or_stop_when _
                              (finish_failure-Keeps clean-IsOpen.stable clean-IsOpen.clean deps c
                                fuel)
                              answer))))))))))))))

-- ===== src/Engine/Resume/Stages.antt =====
-- The parts of a resumed run, and the resumed run as a whole.
use corridor_in_a_box.Base.{
  ℕ, ◌≡◌, refl, sym, ap, ◌∙◌, Bool, true, false, not, ◌&&◌, ◌||◌, Option, none, some, is_some,
  present,
}
use corridor_in_a_box.Types.{reconcile_mismatch, PaymentIntent, SettlementRef}
use corridor_in_a_box.Outcome.{Outcome, ok, err, CorridorError, refusal}
use corridor_in_a_box.Anchor.{TransactionStatus}
use corridor_in_a_box.Corridor.{Corridor, is_prefunded}
use corridor_in_a_box.State.{
  funding, funded, settling, settled, reconciled, completed, recovering, refund_pending, refunded,
  is,
}
use corridor_in_a_box.Idempotency.{RecordedSettlement, has_requested_refund, has_settlement_ref}
use corridor_in_a_box.Engine.{EngineDeps, ExecuteOptions, RouteDecision, to_result}
use corridor_in_a_box.Engine.Context.{no_meta, refund_audit}
use corridor_in_a_box.Engine.Context.Kept.{
  advance_with, advance-Keeps, die_with-Keeps, hold_run-Keeps, record_run-Keeps,
}
use corridor_in_a_box.Engine.Refunding.Kept.{keep-reported}
use corridor_in_a_box.Engine.Funding.Kept.{IsOpen, stop-Keeps, or_stop-Keeps}
use corridor_in_a_box.Engine.Settling.Kept.{
  unpaid, clean, unpaid-IsOpen, clean-IsOpen, verify_on_chain-Keeps, confirm_payout-Keeps,
  view-settlement,
}
use corridor_in_a_box.Engine.Resume.{
  may_settle, Plan, expired, plan, known_ref, settled_on_chain, clear_error, take_found, require,
  resume_settling, verify_saved, resume_settled, resume_reconciled, end_refunded, resume_watched,
  resume_recovering, resume,
}
use corridor_in_a_box.Engine.Protocol.{View, moved}
use corridor_in_a_box.Engine.Protocol.Rules.{
  Stage, Policy, Reached, Keeps, keep-pure, keep-finish, keep-finish_ok, bind, bind-look, before,
  keep-look, keep-ask, keep-emit, keep-note, keep-poll, keep-either, keep-unless, keep-unless_with,
  guard_then,
}
use corridor_in_a_box.Engine.Resume.Kept.{
  StartsFrom, startable, startable-settle, may_pay-uncommitted, conflict-Keeps, or_return-Keeps,
  or_return_when, reroute-Keeps, resume_funding-Keeps, enter_settling-Keeps,
}
use corridor_in_a_box.Breaker.{recovered_breaker_cause}
use corridor_in_a_box.Engine.Resume.Paying.{pay_resumed-Keeps}

module _ {p : Policy} {X : Stage} where
  require-Keeps :
      {A : Type 0} (deps : EngineDeps) (c : Corridor) (fuel : ℕ) (o : Option A)
      → Keeps p X (require deps c fuel o) (λ _. X)
  unfolding require
  require-Keeps deps c fuel none = conflict-Keeps
  require-Keeps deps c fuel (some a) = keep-pure a (λ v x. x)

off : (b : Bool) → not b ≡ true → b ≡ false
off true h = cc
off false h = refl

on : (b : Bool) → not b ≡ false → b ≡ true
on true h = refl
on false h = cc

-- A run that stopped between the opened transaction and the settled payment.
abbrev unsettled : Stage
unsettled v = unpaid v × (may_settle v.state ≡ true)

unsettled-startable :
    (p : Policy) (v : View)
    → StartsFrom p
    → Reached p v
    → is v.state settling ≡ false
    → unsettled v
    → startable p v
unsettled-startable p v from r n x =
    let k = startable-settle v.state x.1 n in ((x.0, may_pay-uncommitted p v from r k.1), k.0)

module _ {p : Policy} (deps : EngineDeps) (c : Corridor) (fuel : ℕ) where
  take_found-Keeps :
      (opts : ExecuteOptions) (intent : PaymentIntent) (route : RouteDecision) (pl : Plan)
      (found : Option SettlementRef)
      → p.gated ≡ is_some deps.gate
      → StartsFrom p
      → Keeps p unsettled (take_found deps c fuel opts intent route pl found) (λ _. clean)
  unfolding take_found
  take_found-Keeps opts intent route pl (some ref) g from = bind (keep-look _) (λ source.
      bind (keep-unless (is_prefunded c.source_protocol || present source) conflict-Keeps) (λ _.
        bind (before (λ v x. x.0) (enter_settling-Keeps unpaid-IsOpen deps c fuel))
          (λ _. keep-pure ref (λ v x. x.1))))
  take_found-Keeps opts intent route pl none g from = bind-look _ _ (λ w.
      guard_then (not (is w.run.state settling)) conflict-Keeps (λ n.
        before
          (λ v x.
            unsettled-startable p v from x.1
              (ap (λ u. is u.state settling) x.2 ∙ off (is w.run.state settling) n) x.0)
          (pay_resumed-Keeps deps c fuel opts intent route pl g)))

  resume_settling-Keeps :
      (opts : ExecuteOptions) (intent : PaymentIntent) (route : RouteDecision)
      → p.gated ≡ is_some deps.gate
      → StartsFrom p
      → Keeps p unsettled (resume_settling deps c fuel opts intent route) (λ _. clean)
  unfolding resume_settling
  resume_settling-Keeps opts intent route g from = bind (keep-look _) (λ run.
      bind (require-Keeps deps c fuel (plan c run)) (λ pl. bind (keep-ask _) (λ at.
        bind
          (keep-unless (not (is run.state funded && expired pl at)) (
            before (λ v x. x.0.0)
              (stop-Keeps (hold_run-Keeps unpaid-IsOpen.stable deps c _ none _ _))))
          (λ _. bind (require-Keeps deps c fuel deps.find_existing) (λ lookup.
            bind (keep-ask _) (λ answer. bind (keep-emit _ (λ w. refl)) (λ _.
              bind (or_return-Keeps answer) (λ found.
                bind (take_found-Keeps opts intent route pl found g from) (λ ref.
                  bind (keep-note _ (view-settlement ref pl.request)) (λ _.
                    bind (advance-Keeps clean-IsOpen.stable deps c settled _ refl) (λ moved.
                      or_stop-Keeps _ (λ e. die_with-Keeps clean-IsOpen.stable deps c e none)
                        moved)))))))))))

module _ {p : Policy} {X : Stage} (o : IsOpen X) (deps : EngineDeps) (c : Corridor) (fuel : ℕ) where
  verify_saved-Keeps :
      (saved : Option RecordedSettlement) (ref : Option SettlementRef)
      → Keeps p X (verify_saved deps c fuel saved ref) (λ _. X)
  unfolding verify_saved
  verify_saved-Keeps (some saved) (some ref) = verify_on_chain-Keeps o deps c fuel ref _
  verify_saved-Keeps _ _ = keep-pure _ (λ v x. x)

  resume_settled-Keeps : Keeps p X (resume_settled deps c fuel) (λ _. X)
  unfolding resume_settled
  resume_settled-Keeps = bind (keep-look _) (λ run.
      bind (keep-unless (present run.transaction_id && has_settlement_ref run) conflict-Keeps) (λ _.
        bind
          (keep-either (settled_on_chain run.settlement_kind run.stellar_tx_hash)
            (verify_saved-Keeps run.settlement (known_ref run)) (keep-pure _ (λ v x. x)))
          (λ verified.
            bind (or_stop-Keeps _ (λ e. hold_run-Keeps o.stable deps c e none e e) verified) (λ _.
              bind (keep-ask _) (λ at. bind (confirm_payout-Keeps o deps c fuel _ _) (λ _.
                bind (advance-Keeps o.stable deps c reconciled no_meta refl)
                  (λ moved. or_return-Keeps moved)))))))

  resume_reconciled-Keeps : Keeps p X (resume_reconciled deps c fuel) (λ _. X)
  unfolding resume_reconciled to_result
  resume_reconciled-Keeps =
      bind
        (advance_with deps c {Y = λ v. X v × (v.state ≡ completed)} completed no_meta (λ e. cc)
          (λ v x. (o.stable v completed x, refl)))
        (λ moved. bind (or_return_when X moved) (λ _.
          bind (record_run-Keeps deps c completed none) (λ _.
            bind-look _ _ (λ w. keep-finish_ok _ (λ v x. sym (ap (λ u. u.state) x.2) ∙ x.0.1)))))

  end_refunded-Keeps :
      (cause : CorridorError) (moved : Outcome (Unit {0}))
      → Keeps p X (end_refunded deps c fuel cause moved) (λ _. X)
  unfolding end_refunded
  end_refunded-Keeps cause moved =
      bind (or_return-Keeps moved)
        (λ _. bind (record_run-Keeps deps c refunded (some cause.code)) (λ _. keep-finish _))

  resume_watched-Keeps :
      (cause : CorridorError) (watched : Outcome TransactionStatus)
      → Keeps p X (resume_watched deps c fuel cause watched) (λ _. X)
  unfolding resume_watched clear_error
  resume_watched-Keeps cause (err e) = stop-Keeps (hold_run-Keeps o.stable deps c e _ cause e)
  resume_watched-Keeps cause (ok s) = bind (keep-reported s.refunds) (λ _.
      bind (keep-note _ (λ w. refl)) (λ _.
        bind (advance-Keeps o.stable deps c refunded (refund_audit s.refunds) refl)
          (λ moved. end_refunded-Keeps cause moved)))

  resume_recovering-Keeps : Keeps p X (resume_recovering deps c fuel) (λ _. X)
  unfolding resume_recovering
  resume_recovering-Keeps = bind (keep-look _) (λ run.
      bind (keep-unless (present run.transaction_id) conflict-Keeps) (λ _.
        bind
          (keep-unless (not (has_requested_refund run)) (
            before (λ v x. x.0)
              (bind (advance-Keeps o.stable deps c refunded no_meta refl) (λ moved.
                end_refunded-Keeps
                  (recovered_breaker_cause run.last_error (refusal reconcile_mismatch)) moved))))
          (λ _.
            bind
              (keep-either (is run.state recovering)
                (advance-Keeps o.stable deps c refund_pending no_meta refl)
                (keep-pure _ (λ v x. x)))
              (λ waiting. bind (or_return-Keeps waiting) (λ _. bind (keep-ask _) (λ at.
                bind (keep-poll _) (λ watched.
                  resume_watched-Keeps
                    (recovered_breaker_cause run.last_error (refusal reconcile_mismatch))
                    watched)))))))

module _ {p : Policy} (deps : EngineDeps) (c : Corridor) (fuel : ℕ) where
  -- A payment is made only behind no gate, and by a run that started before `settling`.
  pub resume-Keeps :
      (opts : ExecuteOptions) (intent : PaymentIntent)
      → p.gated ≡ is_some deps.gate
      → StartsFrom p
      → Keeps p unpaid (resume deps c fuel opts intent) (λ _. clean)
  unfolding resume
  resume-Keeps opts intent g from = bind (reroute-Keeps unpaid-IsOpen deps c fuel intent) (λ route.
      bind (keep-look _) (λ s0.
        bind
          (keep-unless (not (is s0 funding))
            (before (λ v x. x.0) (resume_funding-Keeps unpaid-IsOpen deps c fuel intent route)))
          (λ _. bind-look _ _ (λ w.
            bind (keep-unless (not (is w.run.state funded && is_some deps.gate)) conflict-Keeps)
              (λ _.
                bind
                  (keep-unless_with (not (may_settle w.run.state)) (λ v x. x.0.1)
                    (before
                      (λ v x. (
                        x.0.0,
                        ap (λ u. may_settle u.state) x.0.2 ∙ on (may_settle w.run.state) x.1,
                      ))
                      (resume_settling-Keeps deps c fuel opts intent route g from)))
                  (λ _. bind (keep-look _) (λ s2.
                    bind
                      (keep-unless (not (is s2 settled))
                        (before (λ v x. x.0) (resume_settled-Keeps clean-IsOpen deps c fuel)))
                      (λ _. bind (keep-look _) (λ s3.
                        bind
                          (keep-unless (not (is s3 reconciled)) (
                            before (λ v x. x.0) (resume_reconciled-Keeps clean-IsOpen deps c fuel)))
                          (λ _.
                            bind
                              (keep-unless (not (is s3 recovering || is s3 refund_pending)) (
                                before (λ v x. x.0)
                                  (resume_recovering-Keeps clean-IsOpen deps c fuel)))
                              (λ _. conflict-Keeps)))))))))))

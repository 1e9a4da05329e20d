-- ===== src/Engine/Refunding/Kept.antt =====
-- The refund paths of packages/engine/src/run.ts keep to the protocol: they ask for one refund at
-- most, and make no payment.
use corridor_in_a_box.Base.{
  if◌then◌else◌, ℕ, suc, ◌≡◌, refl, sym, ap, subst, String, Bool, true, false, ◌||◌, ◌&&◌, Option,
  none, some, List, present,
}
use corridor_in_a_box.Types.{SettlementRef}
use corridor_in_a_box.Outcome.{Outcome, ok, err, CorridorError}
use corridor_in_a_box.Anchor.{TransactionStatus, RefundInfo}
use corridor_in_a_box.Corridor.{Corridor, Rollback, refund_sender, hold, manual}
use corridor_in_a_box.State.{refund_pending, refunded}
use corridor_in_a_box.Idempotency.{StoredRun, has_requested_refund, has_settlement_ref}
use corridor_in_a_box.Engine.{RefundRequest, EngineDeps, refund_asked, emit, note, World, M}
use corridor_in_a_box.Engine.Context.{no_meta, refund_audit}
use corridor_in_a_box.Engine.Context.Kept.{
  advance-Keeps, die_with-Keeps, step_back-Keeps, settle_account-Keeps, hold_run-Keeps, view_path,
}
use corridor_in_a_box.Engine.Refunding.{
  mark_refunded, set_last, set_refund, after_watch, watch, await_refund, after_refund,
  request_refund, reverse, refund_from, refund_run, by_rollback, finish_failure, reported_refund,
  is_adapter_kind, is_adapter_ref, is_anchor_failure,
}
use corridor_in_a_box.Engine.Protocol.{View, view, asks_refund, onward}
use corridor_in_a_box.Engine.Protocol.Rules.{
  Stage, IsStable, Policy, Reached, Keeps, bind, after, keep-look, keep-ask, keep-note, keep-poll,
  keep-either,
}

-- Nothing is known of the run but that it kept to the protocol.
abbrev pub over : Stage
over v = Unit {0}

pub over-IsStable : IsStable over
over-IsStable v to x = x

view-run_if :
    (b : Bool) (x y : StoredRun) (w : World) {v : View}
    → view (record w { run = x }) ≡ v
    → view (record w { run = y }) ≡ v
    → view (record w { run = if b then x else y }) ≡ v
view-run_if true x y w p q = p
view-run_if false x y w p q = q

view-reported :
    (i : Option RefundInfo) (w : World) → view (record w { run = reported_refund i w.run }) ≡ view w
unfolding reported_refund
view-reported none w = refl
view-reported (some i) w = view-run_if (has_requested_refund w.run) _ _ w refl refl

pub keep-reported :
    {p : Policy} {X : Stage} (i : Option RefundInfo) → Keeps p X (note (reported_refund i)) (λ _. X)
keep-reported i = keep-note (reported_refund i) (view-reported i)

pub ending :
    {p : Policy} {X : Stage} {A : Type 0} {m : M A} → Keeps p X m (λ _. X) → Keeps p X m (λ _. over)
ending h = after h (λ a v x. tt)

module _ {p : Policy} {X : Stage} where
  keep-refund :
      (req : RefundRequest) (answer : Outcome SettlementRef)
      → ((v : View) → X v → v.refunds ≡ 0)
      → Keeps p X (emit (refund_asked req answer)) (λ _. over)
  unfolding emit
  keep-refund req answer clean = record {
    run = λ w r x.
        let v = view w in
        let q =
          view_path v.key v.state v.trail (λ i. v.stored)
            (
              (λ i. v.payments),
              ap suc (clean v x),
              (λ i. v.gate),
              (λ i. v.strays),
              (λ i. v.written),
              (λ i. v.exposed),
            ) in
        (subst (Reached p) (sym q) (onward r (asks_refund v (clean v x))), tt);
  }

module _ {p : Policy} {X : Stage} (stable : IsStable X) (deps : EngineDeps) (c : Corridor) where
  pub mark_refunded-Keeps : (e : CorridorError) → Keeps p X (mark_refunded deps c e) (λ _. X)
  unfolding mark_refunded set_last
  mark_refunded-Keeps e = bind (keep-note _ (λ w. refl)) (λ _.
      bind (advance-Keeps stable deps c refunded no_meta refl)
        (λ moved. settle_account-Keeps stable deps c refunded e e moved))

  after_watch-Keeps :
      (e : CorridorError) (o : Outcome TransactionStatus)
      → Keeps p X (after_watch deps c e o) (λ _. X)
  unfolding after_watch
  after_watch-Keeps e (ok s) = bind (keep-reported s.refunds) (λ _.
      bind (advance-Keeps stable deps c refunded (refund_audit s.refunds) refl)
        (λ moved. settle_account-Keeps stable deps c refunded e e moved))
  after_watch-Keeps e (err x) = hold_run-Keeps stable deps c x _ e e

  watch-Keeps :
      (fuel : ℕ) (e : CorridorError) (id : Option String) (o : Outcome (Unit {0}))
      → Keeps p X (watch deps c fuel e id o) (λ _. X)
  unfolding watch
  watch-Keeps fuel e id (err x) = die_with-Keeps stable deps c x none
  watch-Keeps fuel e id (ok _) =
      bind (keep-ask _) (λ at. bind (keep-poll _) (λ watched. after_watch-Keeps e watched))

  await_refund-Keeps :
      (fuel : ℕ) (e : CorridorError) (id : Option String)
      → Keeps p X (await_refund deps c fuel e id) (λ _. X)
  unfolding await_refund set_last
  await_refund-Keeps fuel e id = bind (keep-note _ (λ w. refl)) (λ _.
      bind (advance-Keeps stable deps c refund_pending no_meta refl)
        (λ pending. watch-Keeps fuel e id pending))

  after_refund-Keeps :
      (e : CorridorError) (o : Outcome SettlementRef) → Keeps p X (after_refund deps c e o) (λ _. X)
  unfolding after_refund set_refund
  after_refund-Keeps e (err x) = hold_run-Keeps stable deps c x none e x
  after_refund-Keeps e (ok ref) = bind (keep-note _ (λ w. refl)) (λ _. mark_refunded-Keeps e)

module _ {p : Policy} {X : Stage} (stable : IsStable X) (clean : (v : View) → X v → v.refunds ≡ 0)
    (deps : EngineDeps) (c : Corridor) where
  request_refund-Keeps :
      (e : CorridorError) (run : StoredRun) (amount : Option (List ℕ))
      → Keeps p X (request_refund deps c e run amount) (λ _. over)
  unfolding request_refund
  request_refund-Keeps e run none = ending (hold_run-Keeps stable deps c _ none e _)
  request_refund-Keeps e run (some amount) = bind (keep-ask _) (λ answer.
      bind (keep-refund _ answer clean) (λ _. after_refund-Keeps over-IsStable deps c e answer))

  reverse-Keeps :
      (e : CorridorError) (run : StoredRun) → Keeps p X (reverse deps c e run) (λ _. over)
  unfolding reverse
  reverse-Keeps e run =
      keep-either (is_adapter_kind run.settlement_kind || is_adapter_ref run.settlement_ref)
        (ending (hold_run-Keeps stable deps c _ none e _))
        (keep-either (has_requested_refund run) (ending (mark_refunded-Keeps stable deps c e))
          (request_refund-Keeps e run _))

  refund_from-Keeps :
      (fuel : ℕ) (e : CorridorError) (o : Outcome (Unit {0}))
      → Keeps p X (refund_from deps c fuel e o) (λ _. over)
  unfolding refund_from
  refund_from-Keeps fuel e (err x) = ending (die_with-Keeps stable deps c x none)
  refund_from-Keeps fuel e (ok _) = bind (keep-look _) (λ run.
      keep-either
        (has_settlement_ref run && present run.transaction_id && is_anchor_failure e.cause)
        (ending (await_refund-Keeps stable deps c fuel e _))
        (keep-either (has_settlement_ref run) (reverse-Keeps e run)
          (ending (mark_refunded-Keeps stable deps c e))))

  refund_run-Keeps :
      (fuel : ℕ) (e : CorridorError) → Keeps p X (refund_run deps c fuel e) (λ _. over)
  unfolding refund_run
  refund_run-Keeps fuel e =
      bind (keep-look _)
        (λ state. bind (step_back-Keeps stable deps c _) (λ back. refund_from-Keeps fuel e back))

  by_rollback-Keeps :
      (r : Rollback) (fuel : ℕ) (e : CorridorError)
      → Keeps p X (by_rollback deps c r fuel e) (λ _. over)
  unfolding by_rollback
  by_rollback-Keeps refund_sender fuel e = refund_run-Keeps fuel e
  by_rollback-Keeps hold fuel e = ending (hold_run-Keeps stable deps c e none e e)
  by_rollback-Keeps manual fuel e = ending (die_with-Keeps stable deps c e none)

  pub finish_failure-Keeps :
      (fuel : ℕ) (e : CorridorError) → Keeps p X (finish_failure deps c fuel e) (λ _. over)
  unfolding finish_failure
  finish_failure-Keeps fuel e = by_rollback-Keeps c.recovery.rollback fuel e

-- ===== src/Engine/Fresh/Kept.antt =====
-- A fresh run of packages/engine/src/run.ts keeps to the protocol.
use corridor_in_a_box.Base.{sym, ap, ◌∙◌, ℕ, ◌≡◌, refl, not, ◌&&◌, Option, none, some, is_some}
use corridor_in_a_box.Types.{ErrorCode, PaymentIntent}
use corridor_in_a_box.Anchor.{Quote, OpenTransaction}
use corridor_in_a_box.Corridor.{Corridor, is_prefunded}
use corridor_in_a_box.State.{compliant, quoted, opened, completed}
use corridor_in_a_box.Verbs.{check_quote, check_compliance}
use corridor_in_a_box.Engine.{EngineDeps, ExecuteOptions, RouteDecision, World, to_result}
use corridor_in_a_box.Engine.Context.Kept.{die_with-Keeps, fail_run-Keeps, record_run-Keeps}
use corridor_in_a_box.Engine.Funding.Kept.{
  IsOpen, stop-Keeps, or_stop-Keeps, die-Keeps, must_advance-Keeps, must_advance_with, fund-Keeps,
}
use corridor_in_a_box.Engine.Settling.Kept.{
  unpaid, clean, unpaid-IsOpen, clean-IsOpen, settle_loop-Keeps, finish_settled-Keeps,
}
use corridor_in_a_box.Engine.Fresh.{
  needs_opt_in, does_kyc, set_quote, set_opened, die_on, decide, take_route, get_quote, check_kyc,
  open_at_anchor, fund_source, complete, prepare, settle_and_complete, fresh, provider_problem,
}
use corridor_in_a_box.Engine.Protocol.{View, view}
use corridor_in_a_box.Engine.Protocol.Rules.{
  Stage, Policy, Keeps, keep-pure, keep-finish_ok, bind, bind-look, after, before, keep-ask,
  keep-note, keep-trust, keep-unless,
}

view-quote : (q : Quote) (w : World) → view (record w { run = set_quote q w.run }) ≡ view w
unfolding set_quote
view-quote q w = refl

view-opened :
    (t : OpenTransaction) (w : World) → view (record w { run = set_opened t w.run }) ≡ view w
unfolding set_opened
view-opened t w = refl

module _ {p : Policy} {X : Stage} (o : IsOpen X) (deps : EngineDeps) (c : Corridor) (fuel : ℕ) where
  die_on-Keeps : (code : Option ErrorCode) → Keeps p X (die_on deps c fuel code) (λ _. X)
  unfolding die_on
  die_on-Keeps none = keep-pure _ (λ v x. x)
  die_on-Keeps (some code) = die-Keeps o deps c fuel _

  decide-Keeps : (route : Option RouteDecision) → Keeps p X (decide deps c fuel route) (λ _. X)
  unfolding decide
  decide-Keeps (some route) = keep-pure route (λ v x. x)
  decide-Keeps none = stop-Keeps (fail_run-Keeps o.stable deps c _ none)

  take_route-Keeps :
      (opts : ExecuteOptions) (intent : PaymentIntent)
      → Keeps p X (take_route deps c fuel opts intent) (λ _. X)
  unfolding take_route
  take_route-Keeps opts intent = bind (keep-ask _) (λ answer. bind (decide-Keeps answer) (λ route.
      bind (keep-trust route.trust) (λ _.
        bind (or_stop-Keeps _ (λ e. die_with-Keeps o.stable deps c e none) _) (λ _.
          bind
            (keep-unless (not (needs_opt_in deps opts c route.trust))
              (before (λ v x. x.0) (die-Keeps o deps c fuel _)))
            (λ _.
              bind (die_on-Keeps (provider_problem deps c route.capabilities))
                (λ _. keep-pure route (λ v x. x)))))))

  get_quote-Keeps : (intent : PaymentIntent) → Keeps p X (get_quote deps c fuel intent) (λ _. X)
  unfolding get_quote
  get_quote-Keeps intent = bind (keep-ask _) (λ at. bind (keep-ask _) (λ answer.
      bind (or_stop-Keeps _ (λ e. die_with-Keeps o.stable deps c e none) (check_quote answer at))
        (λ q. bind (keep-note (set_quote q) (view-quote q)) (λ _.
          bind (must_advance-Keeps o deps c fuel quoted refl) (λ _. keep-pure q (λ v x. x))))))

  pub check_kyc-Keeps :
      {W : Stage} (intent : PaymentIntent)
      → ((v : View) → W v → X v)
      → Keeps p W (check_kyc deps c fuel intent) (λ _. W)
  unfolding check_kyc
  check_kyc-Keeps intent weaker = bind (keep-ask _) (λ answer.
      bind
        (or_stop-Keeps _ (λ e. before weaker (die_with-Keeps o.stable deps c e none))
          (check_compliance answer))
        (λ r. keep-pure _ (λ v x. x)))

  open_at_anchor-Keeps :
      (intent : PaymentIntent) (q : Quote)
      → Keeps p X (open_at_anchor deps c fuel intent q) (λ _. X)
  unfolding open_at_anchor
  open_at_anchor-Keeps intent q = bind (keep-ask _) (λ answer.
      bind (or_stop-Keeps _ (λ e. die_with-Keeps o.stable deps c e none) answer) (λ t.
        bind (keep-note (set_opened t) (view-opened t))
          (λ _. bind (must_advance-Keeps o deps c fuel opened refl) (λ _. keep-pure t (λ v x. x)))))

  fund_source-Keeps :
      (opts : ExecuteOptions) (intent : PaymentIntent) (route : RouteDecision)
      → Keeps p X (fund_source deps c fuel opts intent route) (λ _. X)
  unfolding fund_source
  fund_source-Keeps opts intent route =
      bind
        (keep-unless (not (opts.dry_run && not (is_prefunded c.source_protocol)))
          (before (λ v x. x.0) (die-Keeps o deps c fuel _)))
        (λ _. keep-unless (is_prefunded c.source_protocol) (
          before (λ v x. x.0)
            (bind (keep-unless route.has_sending (before (λ v x. x.0) (die-Keeps o deps c fuel _)))
              (λ _. after (fund-Keeps o deps c fuel intent) (λ a v x. x.0)))))

  complete-Keeps : Keeps p X (complete deps c fuel) (λ _. X)
  unfolding complete to_result
  complete-Keeps =
      bind
        (must_advance_with o deps c fuel {Y = λ v. X v × (v.state ≡ completed)} completed (λ e. cc)
          (λ v x. (o.stable v completed x, refl)))
        (λ _.
          bind (record_run-Keeps deps c completed none) (λ _.
            bind-look _ _ (λ w. keep-finish_ok _ (λ v x. sym (ap (λ u. u.state) x.2) ∙ x.0.1))))

  prepare-Keeps :
      (opts : ExecuteOptions) (intent : PaymentIntent)
      → Keeps p X (prepare deps c fuel opts intent) (λ _. X)
  unfolding prepare
  prepare-Keeps opts intent = bind (take_route-Keeps opts intent) (λ route.
      bind (get_quote-Keeps intent) (λ q.
        bind
          (keep-unless (not (does_kyc route.capabilities.kyc))
            (before (λ v x. x.0) (check_kyc-Keeps intent (λ v x. x))))
          (λ _. bind (must_advance-Keeps o deps c fuel compliant refl) (λ _.
            bind (open_at_anchor-Keeps intent q) (λ t.
              bind (fund_source-Keeps opts intent route) (λ _. keep-pure (q, t) (λ v x. x)))))))

module _ {p : Policy} (deps : EngineDeps) (c : Corridor) (fuel : ℕ) where
  settle_and_complete-Keeps :
      (opts : ExecuteOptions) (intent : PaymentIntent) (q : Quote) (t : OpenTransaction)
      → p.gated ≡ is_some deps.gate
      → p.may_pay ≡ not opts.dry_run
      → Keeps p unpaid (settle_and_complete deps c fuel opts intent q t) (λ _. clean)
  unfolding settle_and_complete
  settle_and_complete-Keeps opts intent q t g m = bind (keep-ask _) (λ at.
      bind (settle_loop-Keeps deps c fuel _ opts intent q t _ 0 g m) (λ ref.
        bind (finish_settled-Keeps clean-IsOpen deps c fuel q t _ ref)
          (λ _. complete-Keeps clean-IsOpen deps c fuel)))

  -- A payment is made only if this is not a dry run, and only behind a gate that passed.
  pub fresh-Keeps :
      (opts : ExecuteOptions) (intent : PaymentIntent)
      → p.gated ≡ is_some deps.gate
      → p.may_pay ≡ not opts.dry_run
      → Keeps p unpaid (fresh deps c fuel opts intent) (λ _. clean)
  unfolding fresh
  fresh-Keeps opts intent g m =
      bind (prepare-Keeps unpaid-IsOpen deps c fuel opts intent)
        (λ pair. settle_and_complete-Keeps opts intent pair.0 pair.1 g m)

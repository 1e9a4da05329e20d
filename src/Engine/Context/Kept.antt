-- ===== src/Engine/Context/Kept.antt =====
-- The transition and failure handling of packages/engine/src/run.ts keeps to the protocol.
use corridor_in_a_box.Base.{
  ℕ, ◌≡◌, refl, sym, subst, Bool, true, false, Option, none, some, List, ◌∷◌, Bool-cases, inl, inr,
  if◌then◌else◌, ◌||◌, ◌++◌, [], String, str_eq, eq_iff, arith, not,
}
use corridor_in_a_box.Types.{ErrorCode}
use corridor_in_a_box.Outcome.{Outcome, ok, err, CorridorError, CheckResult}
use corridor_in_a_box.Anchor.{RefundInfo}
use corridor_in_a_box.Corridor.{Corridor}
use corridor_in_a_box.State.{
  CorridorState, retrying, held, refund_pending, failed, recovering, is, can_transition,
}
use corridor_in_a_box.Idempotency.{StoredRun, Store, get, put}
use corridor_in_a_box.Idempotency.Laws.{get-put}
use corridor_in_a_box.Engine.{EngineDeps, World}
use corridor_in_a_box.Engine.Context.{
  Meta, no_meta, refund_audit, move, keep_checks, carry, advance, mark_failed, fail_run, record_run,
  count_outcome, die_with, step_back, settle_account, hold_from, hold_run, set_error, with_checks,
}
use corridor_in_a_box.Engine.Protocol.{View, view, moved, moves, onward, refunds, state_of}
use corridor_in_a_box.Engine.Protocol.Rules.{
  Stage, when_ok, Policy, Reached, Keeps, keep-pure, keep-quiet, bind, bind-look, after, before,
  keep-look, keep-note, keep-if, IsStable,
}

-- The stored state, after a write of the run.
pub state_of-put :
    (run : StoredRun) (store : Store)
    → state_of (get run.idempotency_key (put run store)) ≡ some run.state
state_of-put run store =
    rw (get-put run.idempotency_key run store)
      (elim (Bool-cases (str_eq run.idempotency_key run.idempotency_key)) [
        | inl y ↦ rw y refl
        | inr n ↦ ground (arith, eq_iff run.idempotency_key run.idempotency_key)
      ])

abbrev pub view_of :
    String
    → CorridorState
    → List CorridorState
    → Option CorridorState
    → ℕ
    → ℕ
    → Option Bool
    → ℕ
    → Option CorridorState
    → ℕ
    → View
view_of key s trail stored m j g n w x = record {
  key = key;
  state = s;
  trail = trail;
  stored = stored;
  payments = m;
  refunds = j;
  gate = g;
  strays = n;
  written = w;
  exposed = x;
}

pub view_path :
    (key : String) (s : CorridorState) (trail : List CorridorState) {a b c d : Option CorridorState}
    {m n j k x y e f : ℕ} {g h : Option Bool}
    → a ≡ b
    → (m ≡ n) × (j ≡ k) × (g ≡ h) × (x ≡ y) × (c ≡ d) × (e ≡ f)
    → view_of key s trail a m j g x c e ≡ view_of key s trail b n k h y d f
view_path key s trail p (q, r, t, u, v, w) =
    λ i. view_of key s trail (p i) (q i) (r i) (t i) (u i) (v i) (w i)

pub view-move :
    (to : CorridorState) (error : Option ErrorCode) (meta : Meta) (at : ℕ) (w : World)
    → view (move to error meta at w) ≡ moved to (view w)
unfolding move
view-move to error meta at w = elim (Bool-cases (is to held || is to refund_pending)) [
  | inl y ↦ rw y (
      view_path w.run.idempotency_key to (w.trail ++ to ∷ []) (state_of-put _ w.store)
        (refl, refl, refl, refl, refl, refl))
  | inr n ↦ rw n (
      view_path w.run.idempotency_key to (w.trail ++ to ∷ []) (state_of-put _ w.store)
        (refl, refl, refl, refl, refl, refl))
]

view_if :
    (b : Bool) (x y : World) {v : View} → view x ≡ v → view y ≡ v → view (if b then x else y) ≡ v
view_if true x y p q = p
view_if false x y p q = q

view-record_run :
    (deps : EngineDeps) (c : Corridor) (state : CorridorState) (error : Option ErrorCode)
    (w : World)
    → view (record_run deps c state error w).1 ≡ view w
unfolding record_run count_outcome
view-record_run deps c state error w = view_if _ _ w refl refl

module _ {p : Policy} {X : Stage} (deps : EngineDeps) (c : Corridor) where
  pub record_run-Keeps :
      (state : CorridorState) (error : Option ErrorCode)
      → Keeps p X (record_run deps c state error) (λ _. X)
  unfolding record_run
  record_run-Keeps state error = keep-quiet (λ w. (view-record_run deps c state error w, tt))

  -- The general rule of a transition.
  pub advance_with :
      {Y : Stage} (to : CorridorState) (meta : Meta)
      → (is to retrying ≡ true → (v : View) → X v → (p.may_pay ≡ true) × (v.payments ≡ 0))
      → ((v : View) → X v → Y (moved to v))
      → Keeps p X (advance deps c to meta) (when_ok X Y)
  unfolding advance keep_checks
  advance_with {Y = Y} to meta retry y = record {
    run = λ w r x. elim (Bool-cases (can_transition w.run.state to)) [
      | inl e ↦
          (let q = view-move to none (carry to meta w) (deps.now w.calls) (keep_checks to meta w) in
            rw e (
              subst (Reached p) (sym q) (onward r (moves (view w) to e (λ t. retry t (view w) x))),
              subst Y (sym q) (y (view w) x),
            ))
      | inr n ↦ rw n (r, x)
    ];
  }

pub any_outcome : (X : Stage) (o : Outcome (Unit {0})) (v : View) → when_ok X X o v → X v
any_outcome X (ok a) v x = x
any_outcome X (err e) v x = x

module _ {p : Policy} {X : Stage} (stable : IsStable X) (deps : EngineDeps) (c : Corridor) where
  -- A transition other than a retry, refused or not.
  pub advance-Keeps :
      (to : CorridorState) (meta : Meta)
      → is to retrying ≡ false
      → Keeps p X (advance deps c to meta) (λ _. X)
  advance-Keeps to meta n =
      after (advance_with deps c to meta (λ e. cc) (λ v x. stable v to x)) (any_outcome X)

  mark_failed-Keeps :
      (e : CorridorError) (checks : Option (List CheckResult))
      → Keeps p
          (λ v. X v × (can_transition v.state failed ≡ true))
          (mark_failed deps c e checks)
          (λ _. X)
  unfolding mark_failed
  mark_failed-Keeps e checks = record {
    run = λ w r x.
        let q =
          view-move failed (some e.code) (with_checks checks) (deps.now w.calls)
            (record w { run = record (w.run) { last_error = some e.code } }) in
        (
          subst (Reached p) (sym q) (onward r (moves (view w) failed x.1 (λ t. cc))),
          subst X (sym q) (stable (view w) failed x.0),
        );
  }

  pub fail_run-Keeps :
      (e : CorridorError) (checks : Option (List CheckResult))
      → Keeps p X (fail_run deps c e checks) (λ _. X)
  unfolding fail_run
  fail_run-Keeps e checks = bind-look _ _ (λ w.
      keep-if (not (can_transition w.run.state failed)) (λ h. keep-pure _ (λ v x. x.0))
        (λ h.
          bind (before (λ v x. (x.0, ground arith)) (mark_failed-Keeps e checks)) (λ _.
            bind (record_run-Keeps deps c failed (some e.code)) (λ _. keep-pure _ (λ v x. x)))))

  pub die_with-Keeps :
      (e : CorridorError) (checks : Option (List CheckResult))
      → Keeps p X (die_with deps c e checks) (λ _. X)
  unfolding die_with
  die_with-Keeps e checks = bind (keep-look _) (λ own. fail_run-Keeps e own)

  pub step_back-Keeps : (b : Bool) → Keeps p X (step_back deps c b) (λ _. X)
  unfolding step_back
  step_back-Keeps true = keep-pure _ (λ v x. x)
  step_back-Keeps false = advance-Keeps recovering no_meta refl

  pub settle_account-Keeps :
      (state : CorridorState) (cause answer : CorridorError) (o : Outcome (Unit {0}))
      → Keeps p X (settle_account deps c state cause answer o) (λ _. X)
  unfolding settle_account
  settle_account-Keeps state cause answer (err e) = die_with-Keeps e none
  settle_account-Keeps state cause answer (ok _) =
      bind (record_run-Keeps deps c state (some cause.code)) (λ _. keep-pure _ (λ v x. x))

  hold_from-Keeps :
      (e : CorridorError) (refunds : Option RefundInfo) (cause answer : CorridorError)
      (o : Outcome (Unit {0}))
      → Keeps p X (hold_from deps c e refunds cause answer o) (λ _. X)
  unfolding hold_from set_error
  hold_from-Keeps e refunds cause answer (err x) = die_with-Keeps x none
  hold_from-Keeps e refunds cause answer (ok _) = bind (keep-note _ (λ w. refl)) (λ _.
      bind (advance-Keeps held (refund_audit refunds) refl)
        (λ moved. settle_account-Keeps held cause answer moved))

  pub hold_run-Keeps :
      (e : CorridorError) (refunds : Option RefundInfo) (cause answer : CorridorError)
      → Keeps p X (hold_run deps c e refunds cause answer) (λ _. X)
  unfolding hold_run
  hold_run-Keeps e refunds cause answer =
      bind (keep-look _)
        (λ state. bind (step_back-Keeps _) (λ back. hold_from-Keeps e refunds cause answer back))

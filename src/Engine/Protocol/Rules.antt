-- ===== src/Engine/Protocol/Rules.antt =====
-- A logic for the engine's monad: what a step of a run keeps to, from one stage of the run to the
-- next, with a rule for every operation of the monad.
use corridor_in_a_box.Base.{
  if◌then◌else◌, ℕ, ◌≡◌, refl, sym, subst, Bool, true, false, Option, Option-cases, inl, inr, ◌∷◌,
}
use corridor_in_a_box.Outcome.{CorridorError, Outcome, ok, err}
use corridor_in_a_box.Engine.{
  Res, more, done, out_of_fuel, thrown, M, World, Effect, pure, continue, ◌>>=◌, ◌>>◌, finish,
  starve, throw, look, ask, emit, note, poll, unless, RunResult, set_trust, RouteTrust,
}
use corridor_in_a_box.Idempotency.{StoredRun}
use corridor_in_a_box.State.{CorridorState, completed}
use corridor_in_a_box.Engine.Protocol.{View, moved, view, Reach}

-- A stage of a run.
abbrev pub Stage : Type 1
Stage = View → Type 0

-- What holds of the answer of a step: of a step that goes on, `Y`, and of a run that ends in success,
-- that it is completed.
abbrev pub Post : {A : Type 0} → (A → Stage) → Res A → View → Type 0
Post Y (more a) v = Y a v
Post Y (done (ok r)) v = r.state ≡ completed
Post Y _ v = Unit

-- The stage of an operation that may be refused.
abbrev pub when_ok : {A : Type 0} → Stage → Stage → Outcome A → Stage
when_ok X Y (ok a) = Y
when_ok X Y (err e) = X

-- What is fixed for a run: whether it may pay, whether it has a gate, and the view it starts from.
pub record Policy : Type 0 where
  pub may_pay : Bool
  pub gated : Bool
  pub start : View

abbrev pub Reached : Policy → View → Type 0
Reached p v = Reach p.may_pay p.gated p.start v

abbrev pub Ends : {A : Type 0} → Policy → (A → Stage) → Res A × World → Type 0
Ends p Y (r, w) = Reached p (view w) × Post Y r (view w)

-- From the stage `X`, the step keeps to the protocol, and is at the stage `Y` if the run goes on.
pub record Keeps {A : Type 0} (p : Policy) (X : Stage) (m : M A) (Y : A → Stage) : Type 0 where
  pub run : (w : World) → Reached p (view w) → X (view w) → Ends p Y (m w)

-- The answer of a step that does not end the run.
abbrev IsOn : {A : Type 0} → Res A → Type 0
IsOn (done r) = ⊥
IsOn _ = Unit {0}

Post-kept : {A : Type 0} (X : Stage) (r : Res A) (v : View) → IsOn r → X v → Post (λ _. X) r v
Post-kept X (more a) v o x = x
Post-kept X (done d) v o x = elim o [ ]
Post-kept X out_of_fuel v o x = tt
Post-kept X thrown v o x = tt

module _ {p : Policy} {A : Type 0} {X : Stage} where
  pub keep-pure : {Y : A → Stage} (a : A) → ((v : View) → X v → Y a v) → Keeps p X (pure a) Y
  unfolding pure
  keep-pure a h = record { run = λ w r x. (r, h (view w) x) }

  pub keep-finish : (e : CorridorError) {Y : A → Stage} → Keeps p X (finish (err e)) Y
  unfolding finish
  keep-finish e = record { run = λ w h x. (h, tt) }

  -- A run that ends in success is completed.
  pub keep-finish_ok :
      (r : RunResult) {Y : A → Stage}
      → ((v : View) → X v → r.state ≡ completed)
      → Keeps p X (finish (ok r)) Y
  unfolding finish
  keep-finish_ok r c = record { run = λ w h x. (h, c (view w) x) }

  pub keep-starve : {Y : A → Stage} → Keeps p X starve Y
  unfolding starve
  keep-starve = record { run = λ w h x. (h, tt) }

  pub keep-throw : {Y : A → Stage} → Keeps p X throw Y
  unfolding throw
  keep-throw = record { run = λ w h x. (h, tt) }

  -- A step that leaves the view as it is.
  pub keep-quiet :
      {m : M A} → ((w : World) → (view ((m w).1) ≡ view w) × IsOn (m w).0) → Keeps p X m (λ _. X)
  keep-quiet {m = m} h = record {
    run = λ w r x. (
      subst (Reached p) (sym (h w).0) r,
      Post-kept X (m w).0 (view ((m w).1)) (h w).1 (subst X (sym (h w).0) x),
    );
  }

continue-Ends :
    {p : Policy} {A B : Type 0} {Y : A → Stage} {Z : B → Stage} {k : A → M B}
    → ((a : A) → Keeps p (Y a) (k a) Z)
    → (q : Res A × World) → Ends p Y q
    → Ends p Z (continue k q)
continue-Ends h (more a, w) (r, y) = (h a).run w r y
continue-Ends h (done (ok d), w) (r, y) = (r, y)
continue-Ends h (done (err e), w) (r, y) = (r, tt)
continue-Ends h (out_of_fuel, w) (r, y) = (r, tt)
continue-Ends h (thrown, w) (r, y) = (r, tt)

module _ {p : Policy} {A B : Type 0} {X : Stage} where
  pub bind :
      {m : M A} {Y : A → Stage} {k : A → M B} {Z : B → Stage}
      → Keeps p X m Y
      → ((a : A) → Keeps p (Y a) (k a) Z)
      → Keeps p X (m >>= k) Z
  unfolding ◌>>=◌
  bind {m = m} f h = record { run = λ w r x. continue-Ends h (m w) (f.run w r x) }

  -- The world that is looked at is the one that the rest starts from.
  pub bind-look :
      (f : World → A) (k : A → M B) {Z : B → Stage}
      → ((w : World) → Keeps p (λ v. X v × Reached p v × (v ≡ view w)) (k (f w)) Z)
      → Keeps p X (look f >>= k) Z
  unfolding look ◌>>=◌
  bind-look f k h = record { run = λ w r x. (h w).run w r (x, r, refl) }

weaken-Ends :
    {p : Policy} {A : Type 0} {Y Z : A → Stage}
    → ((a : A) (v : View) → Y a v → Z a v)
    → (q : Res A × World) → Ends p Y q
    → Ends p Z q
weaken-Ends h (more a, w) (r, y) = (r, h a (view w) y)
weaken-Ends h (done (ok d), w) (r, y) = (r, y)
weaken-Ends h (done (err e), w) (r, y) = (r, tt)
weaken-Ends h (out_of_fuel, w) (r, y) = (r, tt)
weaken-Ends h (thrown, w) (r, y) = (r, tt)

module _ {p : Policy} {A : Type 0} {X : Stage} where
  -- A weaker stage after, and a stronger one before.
  pub after :
      {m : M A} {Y Z : A → Stage}
      → Keeps p X m Y
      → ((a : A) (v : View) → Y a v → Z a v)
      → Keeps p X m Z
  after {m = m} f h = record { run = λ w r x. weaken-Ends h (m w) (f.run w r x) }

  pub before :
      {m : M A} {W : Stage} {Y : A → Stage}
      → ((v : View) → W v → X v)
      → Keeps p X m Y
      → Keeps p W m Y
  before h f = record { run = λ w r x. f.run w r (h (view w) x) }

  pub keep-look : (f : World → A) → Keeps p X (look f) (λ _. X)
  unfolding look
  keep-look f = keep-quiet (λ w. (refl, tt))

  pub keep-ask : (f : ℕ → A) → Keeps p X (ask f) (λ _. X)
  unfolding ask
  keep-ask f = keep-quiet (λ w. (refl, tt))

  pub keep-poll : (loop : ℕ → Option (A × ℕ)) → Keeps p X (poll loop) (λ _. X)
  unfolding poll
  keep-poll loop = keep-quiet (λ w. elim (Option-cases (loop w.calls)) [
    | inl e ↦ rw (poll, e) (refl, tt)
    | inr (a, e) ↦ rw (poll, e) (refl, tt)
  ])

module _ {p : Policy} {X : Stage} where
  pub keep-trust : (t : RouteTrust) → Keeps p X (set_trust t) (λ _. X)
  unfolding set_trust
  keep-trust t = keep-quiet (λ w. (refl, tt))

  pub keep-emit :
      (e : Effect)
      → ((w : World) → view (record w { log = e ∷ w.log }) ≡ view w)
      → Keeps p X (emit e) (λ _. X)
  unfolding emit
  keep-emit e h = keep-quiet (λ w. (h w, tt))

  pub keep-note :
      (f : StoredRun → StoredRun)
      → ((w : World) → view (record w { run = f w.run }) ≡ view w)
      → Keeps p X (note f) (λ _. X)
  unfolding note
  keep-note f h = keep-quiet (λ w. (h w, tt))

  -- A guard that ends the run if the condition fails.
  pub keep-unless :
      (b : Bool) {m : M (Unit {0})}
      → Keeps p (λ v. X v × (b ≡ false)) m (λ _. X)
      → Keeps p X (unless b m) (λ _ v. X v)
  keep-unless true h = keep-pure _ (λ v x. x)
  keep-unless false h = before (λ v x. (x, refl)) h

  pub keep-unless_with :
      {Y : Stage} (b : Bool) {m : M (Unit {0})}
      → ((v : View) → X v → Y v)
      → Keeps p (λ v. X v × (b ≡ false)) m (λ _. Y)
      → Keeps p X (unless b m) (λ _ v. Y v)
  keep-unless_with true weaker h = keep-pure _ weaker
  keep-unless_with false weaker h = before (λ v x. (x, refl)) h

  pub guard :
      (b : Bool) {m : M (Unit {0})}
      → Keeps p X m (λ _ _. ⊥)
      → Keeps p X (unless b m) (λ _ v. X v × (b ≡ true))
  guard true h = keep-pure _ (λ v x. (x, refl))
  guard false h = after h (λ a v y. elim y [ ])

  -- What follows a guard may count on its condition.
  pub guard_then :
      {B : Type 0} (b : Bool) {m : M (Unit {0})} {k : M B} {Z : B → Stage}
      → Keeps p X m (λ _ _. ⊥)
      → (b ≡ true → Keeps p X k Z)
      → Keeps p X (unless b m >> k) Z
  guard_then true h f = bind (keep-pure _ (λ v x. x)) (λ _. f refl)
  guard_then false h f = bind h (λ _. record { run = λ w r x. elim x [ ] })

  pub keep-if :
      {A : Type 0} {m k : M A} {Y : A → Stage} (b : Bool)
      → (b ≡ true → Keeps p X m Y)
      → (b ≡ false → Keeps p X k Y)
      → Keeps p X (if b then m else k) Y
  keep-if true h g = h refl
  keep-if false h g = g refl

  pub keep-either :
      {A : Type 0} {m k : M A} {Y : A → Stage} (b : Bool)
      → Keeps p X m Y
      → Keeps p X k Y
      → Keeps p X (if b then m else k) Y
  keep-either true h g = h
  keep-either false h g = g

-- A stage that no transition leaves.
abbrev pub IsStable : Stage → Type 0
IsStable X = (v : View) (to : CorridorState) → X v → X (moved to v)

-- ===== src/Engine/Settling/Rounds.antt =====
-- The settle loop of packages/engine/src/run.ts is bounded by the policy: how many rounds it takes.
use corridor_in_a_box.Base.{ℕ, zero, suc, ◌+◌, ◌≤◌, ◌<◌, ◌≡◌, refl, arith}
use corridor_in_a_box.Types.{PaymentIntent, SettlementRef}
use corridor_in_a_box.Outcome.{Outcome, ok, err, CorridorError}
use corridor_in_a_box.Anchor.{Quote, OpenTransaction}
use corridor_in_a_box.Corridor.{Corridor}
use corridor_in_a_box.Verbs.{RecoveryAction, retry, recover}
use corridor_in_a_box.Verbs.Recover.{recover-retry_iff}
use corridor_in_a_box.Engine.{
  RunResult, EngineDeps, ExecuteOptions, World, Res, more, done, out_of_fuel, thrown, M, pure,
  continue, ◌>>=◌, finish,
}
use corridor_in_a_box.Engine.Funding.{stop, fail_over}
use corridor_in_a_box.Engine.Settling.{
  Attempt, settled_by, again, act_on, after_pay, try_settle, settle_loop,
}

-- What holds of the value that a step goes on with.
abbrev GoesOn : {A : Type 0} → (A → Type 0) → Res A → Type 0
GoesOn P (more a) = P a
GoesOn P _ = Unit {0}

record Returns {A : Type 0} (m : M A) (P : A → Type 0) : Type 0 where
  run : (w : World) → GoesOn P (m w).0

continue-GoesOn :
    {A B : Type 0} (k : A → M B) (P : B → Type 0)
    → ((a : A) → Returns (k a) P)
    → (q : Res A × World) → GoesOn P (continue k q).0
continue-GoesOn k P h (more a, w) = (h a).run w
continue-GoesOn k P h (done d, w) = tt
continue-GoesOn k P h (out_of_fuel, w) = tt
continue-GoesOn k P h (thrown, w) = tt

then-Returns :
    {A B : Type 0} (m : M A) {k : A → M B} {P : B → Type 0}
    → ((a : A) → Returns (k a) P)
    → Returns (m >>= k) P
unfolding ◌>>=◌
then-Returns m {k = k} {P = P} h = record { run = λ w. continue-GoesOn k P h (m w) }

pure-Returns : {A : Type 0} {P : A → Type 0} (a : A) → P a → Returns (pure a) P
unfolding pure
pure-Returns a h = record { run = λ w. h }

finish-Returns : {A : Type 0} {P : A → Type 0} (r : Outcome RunResult) → Returns (finish r) P
unfolding finish
finish-Returns r = record { run = λ w. tt }

-- Another attempt has the next number, and is within the policy's retries.
abbrev IsNext : Corridor → ℕ → Attempt → Type 0
IsNext c attempt (settled_by ref) = Unit {0}
IsNext c attempt (again next) = (attempt < c.recovery.max_retries) × (next ≡ attempt + 1)

retry-IsNext :
    (c : Corridor) (attempt next : ℕ) (e : CorridorError)
    → recover c e.retryable attempt ≡ retry next
    → IsNext c attempt (again next)
retry-IsNext c attempt next e h =
    let q = (recover-retry_iff c e.retryable attempt next).0 h in (q.1, q.2)

module _ (deps : EngineDeps) (c : Corridor) (fuel : ℕ) where
  act_on-Returns :
      (attempt : ℕ) (a : RecoveryAction) (e : CorridorError)
      → recover c e.retryable attempt ≡ a
      → Returns (act_on deps c fuel a e) (IsNext c attempt)
  unfolding act_on fail_over stop
  act_on-Returns attempt (retry next) e h =
      then-Returns _ (λ _. pure-Returns _ (retry-IsNext c attempt next e h))
  act_on-Returns attempt _ e h = then-Returns _ (λ x. finish-Returns _)

  after_pay-Returns :
      (attempt : ℕ) (answer : Outcome SettlementRef)
      → Returns (after_pay deps c fuel attempt answer) (IsNext c attempt)
  unfolding after_pay
  after_pay-Returns attempt (ok ref) = pure-Returns _ tt
  after_pay-Returns attempt (err e) = act_on-Returns attempt (recover c e.retryable attempt) e refl

  try_settle-Returns :
      (opts : ExecuteOptions) (intent : PaymentIntent) (q : Quote) (opened : OpenTransaction)
      (deadline attempt : ℕ)
      → Returns (try_settle deps c fuel opts intent q opened deadline attempt) (IsNext c attempt)
  unfolding try_settle
  try_settle-Returns opts intent q opened deadline attempt = then-Returns _ (λ at.
      then-Returns _ (λ _. then-Returns _ (λ _. then-Returns _ (λ _. then-Returns _ (λ checks.
        then-Returns _ (λ _. then-Returns _ (λ _.
          then-Returns _ (λ _. then-Returns _ (λ answer. after_pay-Returns attempt answer)))))))))

continue_same :
    {A B : Type 0} (P : A → Type 0) (k l : A → M B) (q : Res A × World)
    → GoesOn P q.0
    → ((a : A) (w : World) → P a → k a w ≡ l a w)
    → continue k q ≡ continue l q
continue_same P k l (more a, w) h same = same a w h
continue_same P k l (done d, w) h same = refl
continue_same P k l (out_of_fuel, w) h same = refl
continue_same P k l (thrown, w) h same = refl

module _ (deps : EngineDeps) (c : Corridor) (fuel : ℕ) where
  -- More rounds than the policy's retries change nothing: from the attempt with the given number, one
  -- round more than the retries that are left gives the same answer and leaves the same world as any
  -- larger number of rounds, so the settle loop never stops for want of rounds.
  pub settle_loop_rounds :
      (rounds larger : ℕ) (opts : ExecuteOptions) (intent : PaymentIntent) (q : Quote)
      (opened : OpenTransaction) (deadline attempt : ℕ) (w : World)
      → rounds ≤ larger
      → c.recovery.max_retries ≤ rounds + attempt
      → settle_loop deps c fuel (suc larger) opts intent q opened deadline attempt w
        ≡ settle_loop deps c fuel (suc rounds) opts intent q opened deadline attempt w
  unfolding settle_loop ◌>>=◌
  settle_loop_rounds zero larger opts intent q opened deadline attempt w le h =
      continue_same (IsNext c attempt) _ _
        (try_settle deps c fuel opts intent q opened deadline attempt w)
        ((try_settle-Returns deps c fuel opts intent q opened deadline attempt).run w)
        (elim [
          | settled_by ref ↦ λ v n. refl
          | again next ↦ λ v n. (let no_more : ⊥ = omega (arith, n.0, h) in elim no_more [ ])
        ])
  settle_loop_rounds (suc r) zero opts intent q opened deadline attempt w le h =
      continue_same (IsNext c attempt) _ _
        (try_settle deps c fuel opts intent q opened deadline attempt w)
        ((try_settle-Returns deps c fuel opts intent q opened deadline attempt).run w)
        (elim [
          | settled_by ref ↦ λ v n. refl
          | again next ↦ λ v n. (let too_few : ⊥ = omega (arith, le) in elim too_few [ ])
        ])
  settle_loop_rounds (suc r) (suc m) opts intent q opened deadline attempt w le h =
      continue_same (IsNext c attempt) _ _
        (try_settle deps c fuel opts intent q opened deadline attempt w)
        ((try_settle-Returns deps c fuel opts intent q opened deadline attempt).run w)
        (elim [
          | settled_by ref ↦ λ v n. refl
          | again next ↦ λ v n.
              settle_loop_rounds r m opts intent q opened deadline next v (omega (arith, le))
                (omega (arith, n.0, n.1, h))
        ])

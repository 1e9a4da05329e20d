-- ===== src/Engine/Safety.antt =====
-- `execute` of packages/engine/src/run.ts as a whole keeps to the protocol, whatever the adapters,
-- the chain, the clock and the concurrent callers answer.
pub mod Money
pub mod Refusals
use corridor_in_a_box.Base.{
  arith, ℕ, zero, ◌≡◌, refl, sym, ap, subst, ◌∙◌, String, Bool, true, false, not, Option, none,
  some, is_some, List, [], ◌∷◌, Bool-cases, ◌⊎◌, inl, inr, if◌then◌else◌, arith,
}
use corridor_in_a_box.Types.{idempotency_conflict, corridor_halted, PaymentIntent}
use corridor_in_a_box.Outcome.{Outcome, ok, err, fail}
use corridor_in_a_box.Corridor.{Corridor}
use corridor_in_a_box.State.{CorridorState, is, completed, is_terminal}
use corridor_in_a_box.Idempotency.{StoredRun, Store, get, create}
use corridor_in_a_box.Idempotency.Laws.{get-key}
use corridor_in_a_box.Breaker.{Rows}
use corridor_in_a_box.Engine.{
  to_result, EngineDeps, ExecuteOptions, RunResult, Effect, claimed, World, Res, more, done,
  out_of_fuel, thrown, M, pure, continue, ◌>>=◌, ◌>>◌, ask, look, finish, unless,
}
use corridor_in_a_box.Engine.Admission.{admission}
use corridor_in_a_box.Engine.Fresh.{fresh}
use corridor_in_a_box.Engine.Fresh.Kept.{fresh-Keeps}
use corridor_in_a_box.Engine.Resume.{or_return, resume}
use corridor_in_a_box.Engine.Resume.Stages.{resume-Keeps}
use corridor_in_a_box.Engine.Settling.Kept.{unpaid}
use corridor_in_a_box.Engine.Execute.{
  new_run, begin, is_halted, claim, adopt, start_new, go_on, execute_from, execute,
}
use corridor_in_a_box.Engine.Protocol.{
  View, view, payments, refunds, strays, exposed, is_committed, Reach, here,
}
use corridor_in_a_box.Engine.Protocol.Rules.{Stage, Post, Policy, Keeps}

-- A run that has done nothing yet.
abbrev pub IsFresh : String → View → Type 0
IsFresh key v =
    (v.payments ≡ 0)
    × (v.refunds ≡ 0)
    × (v.strays ≡ 0)
    × (v.trail ≡ v.state ∷ [])
    × (v.key ≡ key)
    × (v.exposed ≡ 0)

-- What became of a run that did nothing at first, and then kept to the protocol.
abbrev pub IsKept : String → Bool → Bool → View → Type 0
IsKept key may_pay gated v = (start : View) × IsFresh key start × Reach may_pay gated start v

-- A new run may pay unless it is a dry run, one that is resumed unless its row is committed.
abbrev pub may_pay_of : ExecuteOptions → Option StoredRun → Bool
may_pay_of opts none = not opts.dry_run
may_pay_of opts (some row) = not (is_committed row.state)

-- A run that ends in success is completed.
abbrev pub IsRight : {A : Type 0} → Res A → Type 0
IsRight (done (ok r)) = r.state ≡ completed
IsRight _ = Unit

abbrev pub IsGood : {A : Type 0} → String → Bool → Bool → Res A × World → Type 0
IsGood key may_pay gated (r, w) = IsKept key may_pay gated (view w) × IsRight r

Post-IsRight : {A : Type 0} (Y : A → Stage) (r : Res A) (v : View) → Post Y r v → IsRight r
Post-IsRight Y (more a) v h = tt
Post-IsRight Y (done (ok r)) v h = h
Post-IsRight Y (done (err e)) v h = tt
Post-IsRight Y out_of_fuel v h = tt
Post-IsRight Y thrown v h = tt

from_here :
    {key : String} {b g : Bool} {A : Type 0} {m : M A} {Y : A → Stage} (w : World)
    → IsFresh key (view w)
    → Keeps (record { may_pay = b; gated = g; start = view w }) unpaid m Y
    → IsGood key b g (m w)
from_here {m = m} {Y = Y} w f k =
    let q = k.run w here (f.0, f.1) in
    ((view w, f, q.0), Post-IsRight Y (m w).0 (view ((m w).1)) q.1)

claim_log :
    (mine : Bool) (run : StoredRun) (log : List Effect)
    → (payments (if mine then claimed run ∷ log else log) ≡ payments log)
      × (refunds (if mine then claimed run ∷ log else log) ≡ refunds log)
      × (strays (if mine then claimed run ∷ log else log) ≡ strays log)
      × (exposed (if mine then claimed run ∷ log else log) ≡ exposed log)
claim_log true run log = (refl, refl, refl, refl)
claim_log false run log = (refl, refl, refl, refl)

claim-IsFresh :
    {key : String} (deps : EngineDeps) (w : World)
    → IsFresh key (view w)
    → IsFresh key (view ((claim deps w).1))
unfolding claim
claim-IsFresh deps w f =
    let q = claim_log (create w.run (deps.rivals w.store)).1 w.run w.log in
    (q.0 ∙ f.0, q.1 ∙ f.1, q.2 ∙ f.2, f.3, f.4, q.3 ∙ f.5)

is_completed : (s : CorridorState) → is s completed ≡ true → s ≡ completed
is_completed completed h = refl
is_completed s h = ground arith

module _ (deps : EngineDeps) (c : Corridor) (fuel : ℕ) (opts : ExecuteOptions)
    (intent : PaymentIntent) where
  claimed-IsGood :
      (mine : Bool) (w : World)
      → IsFresh intent.idempotency_key (view w)
      → IsGood intent.idempotency_key
          (not opts.dry_run)
          (is_some deps.gate)
          ((unless mine (finish (fail idempotency_conflict)) >> fresh deps c fuel opts intent) w)
  unfolding ◌>>=◌ pure finish
  claimed-IsGood true w f = from_here w f (fresh-Keeps deps c fuel opts intent refl refl)
  claimed-IsGood false w f = ((view w, f, here), tt)

  start-IsGood :
      (halted : Bool) (w : World)
      → IsFresh intent.idempotency_key (view w)
      → IsGood intent.idempotency_key (not opts.dry_run) (is_some deps.gate) (
          (unless (not halted) (finish (fail corridor_halted))
              >> (claim deps >>= λ mine.
                  unless mine (finish (fail idempotency_conflict))
                  >> fresh deps c fuel opts intent))
            w)
  unfolding ◌>>=◌ pure finish claim
  start-IsGood true w f = ((view w, f, here), tt)
  start-IsGood false w f = claimed-IsGood _ _ (claim-IsFresh deps w f)

  start_new-IsGood :
      (w : World)
      → IsFresh intent.idempotency_key (view w)
      → IsGood intent.idempotency_key
          (not opts.dry_run)
          (is_some deps.gate)
          (start_new deps c fuel opts intent w)
  unfolding start_new ◌>>=◌ look
  start_new-IsGood w f = start-IsGood (is_halted deps c w) w f

  adopted-IsGood :
      (row : StoredRun) (w : World)
      → row.idempotency_key ≡ intent.idempotency_key
      → IsFresh intent.idempotency_key (view w)
      → IsGood intent.idempotency_key
          (not (is_committed row.state))
          (is_some deps.gate)
          ((adopt row >> resume deps c fuel opts intent) w)
  unfolding ◌>>=◌ adopt
  adopted-IsGood row w k f =
      from_here (record w { run = row; trail = row.state ∷ [] }) (f.0, f.1, f.2, refl, k, f.5)
        (resume-Keeps deps c fuel opts intent refl refl)

  row-IsGood :
      (is_done is_over : Bool) (row : StoredRun) (r : RunResult) (w : World)
      → row.idempotency_key ≡ intent.idempotency_key
      → (is_done ≡ true → r.state ≡ completed)
      → IsFresh intent.idempotency_key (view w)
      → IsGood intent.idempotency_key (not (is_committed row.state)) (is_some deps.gate) (
          (if is_done
              then finish (ok r)
              else if is_over
              then finish (fail idempotency_conflict)
              else (adopt row >> resume deps c fuel opts intent))
            w)
  unfolding finish
  row-IsGood true is_over row r w k h f = ((view w, f, here), h refl)
  row-IsGood false true row r w k h f = ((view w, f, here), tt)
  row-IsGood false false row r w k h f = adopted-IsGood row w k f

  go_on-IsGood :
      (existing : Option StoredRun) (w : World)
      → ((row : StoredRun) → existing ≡ some row → row.idempotency_key ≡ intent.idempotency_key)
      → IsFresh intent.idempotency_key (view w)
      → IsGood intent.idempotency_key
          (may_pay_of opts existing)
          (is_some deps.gate)
          (go_on deps c fuel opts intent existing w)
  unfolding go_on to_result
  go_on-IsGood none w k f = start_new-IsGood w f
  go_on-IsGood (some row) w k f =
      row-IsGood (is row.state completed) (is_terminal row.state) row
        (to_result row (row.state ∷ [])) w (k row refl) (is_completed row.state) f

  admitted-IsGood :
      (answer : Outcome (Unit {0})) (w : World)
      → IsFresh intent.idempotency_key (view w)
      → IsGood intent.idempotency_key
          (may_pay_of opts (get intent.idempotency_key w.store))
          (is_some deps.gate)
          ((or_return answer
              >> (look (λ w. get intent.idempotency_key w.store) >>= go_on deps c fuel opts intent))
            w)
  unfolding or_return ◌>>=◌ pure finish look
  admitted-IsGood (ok u) w f =
      go_on-IsGood _ w (λ row. get-key intent.idempotency_key row w.store) f
  admitted-IsGood (err e) w f = ((view w, f, here), tt)

  -- From the first call to the answer, a call of `execute` does only what the protocol allows: it
  -- starts with no payment, no refund and the one state in its trail, and every later step is legal.
  -- It may pay at all only if the key was free and this is no dry run, or if the key's row had not
  -- reached `settling`; and with a gate, only right after the gate passed. If it answers with success,
  -- the run is completed.
  pub execute-IsGood :
      (store : Store) (rows : Rows) (calls : ℕ)
      → IsGood intent.idempotency_key
          (may_pay_of opts (get intent.idempotency_key store))
          (is_some deps.gate)
          (execute deps c fuel opts intent store rows calls)
  unfolding execute execute_from begin ask ◌>>=◌
  execute-IsGood store rows calls =
      admitted-IsGood (admission deps intent c (deps.now calls))
        (record (begin (new_run deps opts intent c) store rows calls) { calls = ℕ.suc calls })
        (refl, refl, refl, refl, refl, refl)

  pub execute-IsKept :
      (store : Store) (rows : Rows) (calls : ℕ)
      → IsKept intent.idempotency_key
          (may_pay_of opts (get intent.idempotency_key store))
          (is_some deps.gate)
          (view ((execute deps c fuel opts intent store rows calls).1))
  execute-IsKept store rows calls = (execute-IsGood store rows calls).0

-- ===== src/Engine/Safety/Refusals.antt =====
-- The calls of `execute` in packages/engine/src/run.ts that are refused before they start.
use corridor_in_a_box.Base.{ℕ, ◌≡◌, ◌≢◌, refl, true, none, [], ◌⊎◌, inl, inr, ap}
use corridor_in_a_box.Types.{PaymentIntent, corridor_halted}
use corridor_in_a_box.Outcome.{Outcome, ok, err, refusal, CorridorError}
use corridor_in_a_box.Corridor.{Corridor}
use corridor_in_a_box.Idempotency.{Store, get}
use corridor_in_a_box.Breaker.{Rows}
use corridor_in_a_box.Liveness.{liveness}
use corridor_in_a_box.Engine.{
  EngineDeps, ExecuteOptions, World, Res, done, pure, ◌>>=◌, ask, look, finish,
}
use corridor_in_a_box.Engine.Admission.{admission}
use corridor_in_a_box.Engine.Admission.Laws.{IsAdmitted, admission-IsAdmitted}
use corridor_in_a_box.Engine.Resume.{or_return}
use corridor_in_a_box.Engine.Execute.{
  begin, new_run, is_halted, start_new, go_on, execute_from, execute,
}
use corridor_in_a_box.Engine.Protocol.{payments}
use corridor_in_a_box.Engine.Safety.Money.{left_by}

-- A call that is refused with `e`, has written nothing and has done nothing.
abbrev pub IsRefusal : CorridorError → Store → Res (Unit {0}) × World → Type 0
IsRefusal e store (r, w) = (r ≡ done (err e)) × (w.store ≡ store) × (w.log ≡ [])

module _ (deps : EngineDeps) (c : Corridor) (fuel : ℕ) (opts : ExecuteOptions)
    (intent : PaymentIntent) (store : Store) (rows : Rows) (calls : ℕ) where
  -- A payment that the guards do not admit is refused with their error; the key is not claimed.
  pub execute_unadmitted :
      (e : CorridorError)
      → admission deps intent c (deps.now calls) ≡ err e
      → IsRefusal e store (execute deps c fuel opts intent store rows calls)
  unfolding execute execute_from begin ask ◌>>=◌ or_return pure finish
  execute_unadmitted e h = rw h (refl, refl, refl)

  -- New work on a halted lane is refused before its key is claimed, so that the same key can be used
  -- after the reset.
  pub execute_halted :
      admission deps intent c (deps.now calls) ≡ ok tt
      → get intent.idempotency_key store ≡ none
      → is_halted deps c (begin (new_run deps opts intent c) store rows calls) ≡ true
      → IsRefusal (refusal corridor_halted) store (execute deps c fuel opts intent store rows calls)
  unfolding execute execute_from begin ask ◌>>=◌ or_return pure finish look go_on start_new
      is_halted
  execute_halted a free halted = rw (a, free, halted) (refl, refl, refl)

  execute-IsAdmitted-answer :
      (answer : Outcome (Unit {0}))
      → admission deps intent c (deps.now calls) ≡ answer
      → (payments (left_by deps c fuel opts intent store rows calls).log ≡ 0)
        ⊎ IsAdmitted deps intent.source_amount.amount c (liveness c (deps.now calls)).state
  execute-IsAdmitted-answer (ok u) h = inr (admission-IsAdmitted deps intent c (deps.now calls) h)
  execute-IsAdmitted-answer (err e) h = inl (ap payments (execute_unadmitted e h).2)

  -- A call makes a payment only for an intent that was admitted: there is a gate or the explicit
  -- opt-out, the amount can be settled and is within the corridor's limits, a public lane has verified
  -- endpoints, and on a lane that is not proven the amount is not above the canary cap.
  pub execute-IsAdmitted :
      payments (left_by deps c fuel opts intent store rows calls).log ≢ 0
      → IsAdmitted deps intent.source_amount.amount c (liveness c (deps.now calls)).state
  execute-IsAdmitted made =
      elim (execute-IsAdmitted-answer (admission deps intent c (deps.now calls)) refl) [
        | inl none_made ↦ elim (made none_made) [ ]
        | inr admitted ↦ admitted
      ]

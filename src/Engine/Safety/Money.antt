-- ===== src/Engine/Safety/Money.antt =====
-- What the protocol means for the money of a call of `execute`: no second payment, no second refund,
-- no payment without the gate, in a dry run, or by a run that may have paid before.
use corridor_in_a_box.Base.{
  ℕ, ◌+◌, ◌≤◌, ◌≡◌, refl, sym, ap, subst, ◌∙◌, ◌⊎◌, inl, inr, String, Bool, true, false, not,
  Option, none, some, is_some, List, [], ◌∷◌, ◌++◌, arith,
}
use corridor_in_a_box.Types.{PaymentIntent}
use corridor_in_a_box.Outcome.{ok}
use corridor_in_a_box.Corridor.{Corridor}
use corridor_in_a_box.State.{CorridorState, completed}
use corridor_in_a_box.State.Graph.{IsWalk, end_of}
use corridor_in_a_box.Idempotency.{StoredRun, Store, get}
use corridor_in_a_box.Breaker.{Rows}
use corridor_in_a_box.Engine.{RunResult, done, EngineDeps, ExecuteOptions, World, Effect}
use corridor_in_a_box.Engine.Execute.{execute}
use corridor_in_a_box.Engine.Protocol.{
  View, view, payments, refunds, strays, state_of, is_committed, last_row, Reach,
}
use corridor_in_a_box.Engine.Protocol.Crashes.{
  Shows, IsSaved, exposed-IsSaved, IsSaved-cut, payments-cut,
}
use corridor_in_a_box.Engine.Protocol.Invariants.{
  IsCommitted, Reach-IsTrail, Reach-IsSparing, Reach-IsSafe, Reach-no_payment, Reach-key,
  Reach-IsGated,
}
use corridor_in_a_box.Engine.Safety.{IsKept, IsRight, execute-IsGood, may_pay_of, execute-IsKept}

-- What a call of `execute` leaves behind.
abbrev pub left_by :
    EngineDeps → Corridor → ℕ → ExecuteOptions → PaymentIntent → Store → Rows → ℕ → World
left_by deps c fuel opts intent store rows calls =
    (execute deps c fuel opts intent store rows calls).1

kept_without_payment :
    {key : String} {b g : Bool} {v : View} → b ≡ false → IsKept key b g v → v.payments ≡ 0
kept_without_payment {g = g} {v = v} n (start, f, r) =
    Reach-no_payment (subst (λ b. Reach b g start v) n r) ∙ f.0

kept-IsGated : {key : String} {b g : Bool} {v : View} → g ≡ true → IsKept key b g v → v.strays ≡ 0
kept-IsGated {b = b} {v = v} n (start, f, r) =
    Reach-IsGated (subst (λ g. Reach b g start v) n r) f.2

at_key :
    (key : String) (w : World)
    → w.run.idempotency_key ≡ key
    → IsCommitted (view w)
    → (payments w.log ≡ 0)
      ⊎ ((is_committed w.run.state ≡ true) × (state_of (get key w.store) ≡ some w.run.state))
at_key key w e (inl z) = inl z
at_key key w e (inr (x, y)) = inr (x, ap (λ k. state_of (get k w.store)) (sym e) ∙ y)

state_of-some :
    (o : Option StoredRun) (s : CorridorState)
    → state_of o ≡ some s
    → (row : StoredRun) × (o ≡ some row) × (row.state ≡ s)
state_of-some none s h = cc
state_of-some (some row) s h = (row, refl, cc)

module _ (deps : EngineDeps) (c : Corridor) (fuel : ℕ) (opts : ExecuteOptions)
    (intent : PaymentIntent) (store : Store) (rows : Rows) (calls : ℕ) where
  -- Whatever the adapters, the chain, the clock and the concurrent callers answer, one call of
  -- `execute` asks for at most one refund, and at most one of its settle calls is answered with
  -- anything but a failure that may be tried again.
  pub execute-IsSparing :
      (payments (left_by deps c fuel opts intent store rows calls).log ≤ 1)
      × (refunds (left_by deps c fuel opts intent store rows calls).log ≤ 1)
  execute-IsSparing =
      let (start, f, r) = execute-IsKept deps c fuel opts intent store rows calls in
      Reach-IsSparing r (omega (arith, f.0), omega (arith, f.1))

  -- The trail of a run is a walk through the table of transitions that ends in the run's state.
  pub execute-IsTrail :
      (s : CorridorState) × (ts : List CorridorState) × ((left_by deps c fuel opts intent store rows
          calls).trail
        ≡ s ∷ ts)
      × IsWalk s ts
      × (end_of s ts ≡ (left_by deps c fuel opts intent store rows calls).run.state)
  execute-IsTrail =
      let (start, f, r) = execute-IsKept deps c fuel opts intent store rows calls in
      let t = Reach-IsTrail start.state r ([], f.3, tt, refl) in (start.state, t.0, t.1, t.2, t.3)

  -- A payment is a settle call with any answer but a failure that may be tried again: it went out, or
  -- may have. If a call made one, then the run is in `settling` or a state behind it when the call ends,
  -- with a result or an error, and the stored row says so. And if the call is cut off earlier, behind
  -- any effect of it, then the row that it had written before that effect says so of every payment up
  -- to the effect, that one included.
  pub execute-IsCommitted :
      ((payments (left_by deps c fuel opts intent store rows calls).log ≡ 0)
        ⊎ ((is_committed (left_by deps c fuel opts intent store rows calls).run.state ≡ true)
            × (state_of (
                  get intent.idempotency_key
                    (left_by deps c fuel opts intent store rows calls).store)
                ≡ some (left_by deps c fuel opts intent store rows calls).run.state)))
      × IsSaved (left_by deps c fuel opts intent store rows calls).log
  execute-IsCommitted =
      let (start, f, r) = execute-IsKept deps c fuel opts intent store rows calls in
      let safe = Reach-IsSafe r (inl f.0, f.5) in
      (
        at_key intent.idempotency_key (left_by deps c fuel opts intent store rows calls)
            (Reach-key r ∙ f.4) safe.0,
        (exposed-IsSaved (left_by deps c fuel opts intent store rows calls).log safe.1).0,
      )

  -- A run whose row was already in `settling` or behind it, so that a payment may have left, is
  -- resumed without a payment of its own.
  pub execute_resumed :
      (row : StoredRun)
      → get intent.idempotency_key store ≡ some row
      → is_committed row.state ≡ true
      → payments (left_by deps c fuel opts intent store rows calls).log ≡ 0
  execute_resumed row found committed =
      kept_without_payment (ap (may_pay_of opts) found ∙ ap not committed)
        (execute-IsKept deps c fuel opts intent store rows calls)

  -- A dry run of a key that is free makes no payment.
  pub execute_dry_run :
      opts.dry_run ≡ true
      → get intent.idempotency_key store ≡ none
      → payments (left_by deps c fuel opts intent store rows calls).log ≡ 0
  execute_dry_run dry free =
      kept_without_payment (ap (may_pay_of opts) free ∙ ap not dry)
        (execute-IsKept deps c fuel opts intent store rows calls)

  -- With a gate configured, every payment is made right behind a gate that passed: the last answer of
  -- the gate before the payment was a pass.
  pub execute-IsGated :
      is_some deps.gate ≡ true → strays (left_by deps c fuel opts intent store rows calls).log ≡ 0
  execute-IsGated gate = kept-IsGated gate (execute-IsKept deps c fuel opts intent store rows calls)

-- What a call hands over to a later one: the payments it made and the store. It has ended, or it was
-- cut off behind an effect, and then the store has the row that was written last before that effect,
-- if one was written.
pub data Handover (key : String) (w : World) : ℕ → Store → Type 0 where
  ended : Handover key w (payments w.log) w.store
  cut_off :
      (later earlier : List Effect) (e : Effect) (left : Store)
      → w.log ≡ later ++ e ∷ earlier
      → ((s : CorridorState) → last_row earlier ≡ some s → state_of (get key left) ≡ some s)
      → Handover key w (payments (e ∷ earlier)) left

-- With a row that shows the payments made so far, the next call makes no second one.
one_between :
    (n : ℕ) (again : PaymentIntent) (deps : EngineDeps) (c : Corridor) (fuel : ℕ)
    (opts : ExecuteOptions) (left : Store) (rows : Rows) (calls : ℕ)
    → n ≤ 1
    → Shows n (state_of (get again.idempotency_key left))
    → n + payments (left_by deps c fuel opts again left rows calls).log ≤ 1
one_between n again deps c fuel opts left rows calls once (inl none_yet) =
    let later = execute-IsSparing deps c fuel opts again left rows calls in
    omega (arith, none_yet, later.0)
one_between n again deps c fuel opts left rows calls once (inr (s, stored, committed)) =
    let (row, found, at) = state_of-some (get again.idempotency_key left) s stored in
    omega (
      arith,
      once,
      execute_resumed deps c fuel opts again left rows calls row found
          (ap is_committed at ∙ committed),
    )

shown_at :
    {n : ℕ} {row : Option CorridorState} (key : String) (left : Store)
    → Shows n row
    → ((s : CorridorState) → row ≡ some s → state_of (get key left) ≡ some s)
    → Shows n (state_of (get key left))
shown_at key left (inl z) h = inl z
shown_at key left (inr (s, e, c)) h = inr (s, h s e, c)

-- Two calls for the same key, the second on the store that the first one left: when it ended, as of a
-- caller that tries again, or when it was cut off behind any of its effects, as by a crash. Of the
-- settle calls of both, up to there, at most one is answered with anything but a failure that may be
-- tried again. The calls may differ in everything else: the adapters' answers, the options, the
-- corridor, the clock, the fuel.
pub execute_twice :
    (intent again : PaymentIntent) (deps deps' : EngineDeps) (c c' : Corridor) (fuel fuel' : ℕ)
    (opts opts' : ExecuteOptions) (store : Store) (rows rows' : Rows) (calls calls' n : ℕ)
    (left : Store)
    → again.idempotency_key ≡ intent.idempotency_key
    → Handover intent.idempotency_key (left_by deps c fuel opts intent store rows calls) n left
    → n + payments (left_by deps' c' fuel' opts' again left rows' calls').log ≤ 1
execute_twice intent again deps deps' c c' fuel fuel' opts opts' store rows rows' calls calls' n
      left same ended =
    let w = left_by deps c fuel opts intent store rows calls in
    one_between (payments w.log) again deps' c' fuel' opts' w.store rows' calls'
      (execute-IsSparing deps c fuel opts intent store rows calls).0
      (elim (execute-IsCommitted deps c fuel opts intent store rows calls).0 [
        | inl none_yet ↦ inl none_yet
        | inr (committed, stored) ↦
            inr (w.run.state, ap (λ k. state_of (get k w.store)) same ∙ stored, committed)
      ])
execute_twice intent again deps deps' c c' fuel fuel' opts opts' store rows rows' calls calls' n
      left same (cut_off later earlier e _ log row) =
    let w = left_by deps c fuel opts intent store rows calls in
    let once = (execute-IsSparing deps c fuel opts intent store rows calls).0 in
    let saved = (execute-IsCommitted deps c fuel opts intent store rows calls).1 in
    let all = payments-cut later (e ∷ earlier) in
    let whole = ap payments log in
    one_between (payments (e ∷ earlier)) again deps' c' fuel' opts' left rows' calls'
      (omega (arith, once, all, whole))
      (shown_at again.idempotency_key left (IsSaved-cut later earlier e (subst IsSaved log saved))
        (λ s h. ap (λ k. state_of (get k left)) same ∙ row s h))

-- A success is a completed payment: whenever `execute` answers with a result, that result is in
-- `completed`, whether the run was new, resumed, or found completed.
pub execute_succeeds :
    (deps : EngineDeps) (c : Corridor) (fuel : ℕ) (opts : ExecuteOptions) (intent : PaymentIntent)
    (store : Store) (rows : Rows) (calls : ℕ) (r : RunResult)
    → (execute deps c fuel opts intent store rows calls).0 ≡ done (ok r)
    → r.state ≡ completed
execute_succeeds deps c fuel opts intent store rows calls r e =
    subst IsRight e (execute-IsGood deps c fuel opts intent store rows calls).1

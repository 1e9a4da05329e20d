-- ===== src/Engine/Protocol/Invariants.antt =====
-- What holds of every run that keeps to the protocol, by induction on its steps.
use corridor_in_a_box.Base.{
  ℕ, zero, suc, ◌≤◌, ◌≡◌, ◌⊎◌, inl, inr, refl, Bool, true, false, Option, none, some, List, [], ◌∷◌,
  ◌++◌, arith, Bool-cases, ◌∙◌, ap,
}
use corridor_in_a_box.State.{CorridorState, settling, retrying, is, can_transition}
use corridor_in_a_box.State.Graph.{IsWalk, end_of, IsWalk-snoc, end_of-snoc}
use corridor_in_a_box.Engine.Protocol.{
  stray, View, moved, is_committed, forgets, expose, Step, moves, pays, asks_refund, answers,
  writes, Reach, here, onward,
}

-- The trail is a walk through the table of transitions, from its first state to the run's state.
abbrev pub IsTrail : CorridorState → View → Type 0
IsTrail s v = (ts : List CorridorState) × (v.trail ≡ s ∷ ts) × IsWalk s ts × (end_of s ts ≡ v.state)

-- At most one payment and one refund request.
abbrev pub IsSparing : View → Type 0
IsSparing v = (v.payments ≤ 1) × (v.refunds ≤ 1)

-- Nothing is paid, or the run and its stored row are committed.
abbrev pub IsCommitted : View → Type 0
IsCommitted v = (v.payments ≡ 0) ⊎ ((is_committed v.state ≡ true) × (v.stored ≡ some v.state))

committed-move :
    (s t : CorridorState)
    → is_committed s ≡ true
    → can_transition s t ≡ true
    → is t retrying ≡ false
    → is_committed t ≡ true
unfolding can_transition
committed-move settling t c h n = ground arith
committed-move s t c h n = ground arith

commit-move :
    {may_pay : Bool} (v : View) (to : CorridorState)
    → can_transition v.state to ≡ true
    → (is to retrying ≡ true → (may_pay ≡ true) × (v.payments ≡ 0))
    → IsCommitted v
    → IsCommitted (moved to v)
commit-move v to legal retry (inl none_paid) = inl none_paid
commit-move v to legal retry (inr (c, e)) = elim (Bool-cases (is to retrying)) [
  | inl y ↦ inl (retry y).1
  | inr n ↦ inr (committed-move v.state to c legal n, refl)
]

module _ {may_pay gated : Bool} where
  Step-IsTrail :
      {v u : View} (s : CorridorState) → Step may_pay gated v u → IsTrail s v → IsTrail s u
  Step-IsTrail s (moves v to legal _) (ts, e, w, end) =
      (ts ++ to ∷ [], rw e refl, IsWalk-snoc s to ts w (rw end legal), end_of-snoc s to ts)
  Step-IsTrail s (pays v m st q o p g) t = t
  Step-IsTrail s (asks_refund v r) t = t
  Step-IsTrail s (answers v passed) t = t
  Step-IsTrail s (writes v) t = t

  pub Reach-IsTrail :
      {v u : View} (s : CorridorState) → Reach may_pay gated v u → IsTrail s v → IsTrail s u
  Reach-IsTrail s here t = t
  Reach-IsTrail s (onward r st) t = Step-IsTrail s st (Reach-IsTrail s r t)

  Step-IsSparing : {v u : View} → Step may_pay gated v u → IsSparing v → IsSparing u
  Step-IsSparing (moves v to _ _) h = h
  Step-IsSparing (pays v m st q o p g) h = (omega arith, h.1)
  Step-IsSparing (asks_refund v r) h = (h.0, omega arith)
  Step-IsSparing (answers v passed) h = h
  Step-IsSparing (writes v) h = h

  pub Reach-IsSparing : {v u : View} → Reach may_pay gated v u → IsSparing v → IsSparing u
  Reach-IsSparing here h = h
  Reach-IsSparing (onward r st) h = Step-IsSparing st (Reach-IsSparing r h)

  Step-IsCommitted : {v u : View} → Step may_pay gated v u → IsCommitted v → IsCommitted u
  Step-IsCommitted (moves v to legal retry) h = commit-move v to legal retry h
  Step-IsCommitted (pays v m st q o p g) h = inr (rw st refl, q ∙ ap some (rw st refl))
  Step-IsCommitted (asks_refund v r) h = h
  Step-IsCommitted (answers v passed) h = h
  Step-IsCommitted (writes v) (inl z) = inl z
  Step-IsCommitted (writes v) (inr (c, e)) = inr (c, refl)

  pub Reach-IsCommitted : {v u : View} → Reach may_pay gated v u → IsCommitted v → IsCommitted u
  Reach-IsCommitted here h = h
  Reach-IsCommitted (onward r st) h = Step-IsCommitted st (Reach-IsCommitted r h)

-- No crash would hide a payment.
abbrev pub IsSafe : View → Type 0
IsSafe v = IsCommitted v × (v.exposed ≡ 0)

forgets_none : (m n : ℕ) (s : CorridorState) → (m ≡ 0) ⊎ (is_committed s ≡ true) → forgets m s n ≡ n
forgets_none m n s (inl z) = rw z refl
forgets_none zero n s (inr c) = refl
forgets_none (suc m) n s (inr c) = rw c refl

still_committed : (v : View) → IsCommitted v → (v.payments ≡ 0) ⊎ (is_committed v.state ≡ true)
still_committed v (inl z) = inl z
still_committed v (inr (c, e)) = inr c

expose_none : (o : Option CorridorState) (n : ℕ) → o ≡ some settling → expose o n ≡ n
expose_none o n h = rw h refl

Step-exposed :
    {may_pay gated : Bool} {v u : View}
    → Step may_pay gated v u
    → IsCommitted v
    → u.exposed ≡ v.exposed
Step-exposed (moves v to legal retry) h =
    forgets_none v.payments v.exposed to
      (still_committed (moved to v) (commit-move v to legal retry h))
Step-exposed (pays v m st q o p g) h = expose_none v.written v.exposed o
Step-exposed (asks_refund v r) h = refl
Step-exposed (answers v passed) h = refl
Step-exposed (writes v) h = forgets_none v.payments v.exposed v.state (still_committed v h)

pub Reach-IsSafe :
    {may_pay gated : Bool} {v u : View} → Reach may_pay gated v u → IsSafe v → IsSafe u
Reach-IsSafe here h = h
Reach-IsSafe (onward r st) h =
    let before = Reach-IsSafe r h in
    (Step-IsCommitted st before.0, Step-exposed st before.0 ∙ before.1)

-- The key of a run never changes.
Step-key : {may_pay gated : Bool} {v u : View} → Step may_pay gated v u → u.key ≡ v.key
Step-key (moves v to _ _) = refl
Step-key (pays v m st q o p g) = refl
Step-key (asks_refund v r) = refl
Step-key (answers v passed) = refl
Step-key (writes v) = refl

pub Reach-key : {may_pay gated : Bool} {v u : View} → Reach may_pay gated v u → u.key ≡ v.key
Reach-key here = refl
Reach-key (onward r st) = Step-key st ∙ Reach-key r

-- With a gate, no payment strays from it.
abbrev pub IsGated : View → Type 0
IsGated v = v.strays ≡ 0

stray-passed : (g : Option Bool) (n : ℕ) → g ≡ some true → stray g n ≡ n
stray-passed none n h = cc
stray-passed (some true) n h = refl
stray-passed (some false) n h = cc

Step-IsGated : {may_pay : Bool} {v u : View} → Step may_pay true v u → IsGated v → IsGated u
Step-IsGated (moves v to legal retry) h = h
Step-IsGated (pays v m st q o p g) h = stray-passed v.gate v.strays (g refl) ∙ h
Step-IsGated (asks_refund v r) h = h
Step-IsGated (answers v passed) h = h
Step-IsGated (writes v) h = h

pub Reach-IsGated : {may_pay : Bool} {v u : View} → Reach may_pay true v u → IsGated v → IsGated u
Reach-IsGated here h = h
Reach-IsGated (onward r st) h = Step-IsGated st (Reach-IsGated r h)

-- A run that may not pay pays nothing, and stays committed if it is.
Step-no_payment : {gated : Bool} {v u : View} → Step false gated v u → u.payments ≡ v.payments
Step-no_payment (moves v to _ _) = refl
Step-no_payment (pays v m st q o p g) = cc
Step-no_payment (asks_refund v r) = refl
Step-no_payment (answers v passed) = refl
Step-no_payment (writes v) = refl

pub Reach-no_payment : {gated : Bool} {v u : View} → Reach false gated v u → u.payments ≡ v.payments
Reach-no_payment here = refl
Reach-no_payment (onward r st) = Step-no_payment st ∙ Reach-no_payment r

Step-is_committed :
    {gated : Bool} {v u : View}
    → Step false gated v u
    → is_committed v.state ≡ true
    → is_committed u.state ≡ true
Step-is_committed (moves v to legal retry) c = elim (Bool-cases (is to retrying)) [
  | inl y ↦ cc (retry y).0
  | inr n ↦ committed-move v.state to c legal n
]
Step-is_committed (pays v m st q o p g) c = c
Step-is_committed (asks_refund v r) c = c
Step-is_committed (answers v passed) c = c
Step-is_committed (writes v) c = c

pub Reach-is_committed :
    {gated : Bool} {v u : View}
    → Reach false gated v u
    → is_committed v.state ≡ true
    → is_committed u.state ≡ true
Reach-is_committed here c = c
Reach-is_committed (onward r st) c = Step-is_committed st (Reach-is_committed r c)

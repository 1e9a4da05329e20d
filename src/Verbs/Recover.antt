-- ===== src/Verbs/Recover.antt =====
-- What `recover` and `settle` of packages/engine/src/verbs.ts guarantee: how often a settle leg is
-- tried, and that a plain payment never delivers the wrong asset or an unchecked amount.
use corridor_in_a_box.Base.{
  ℕ, ◌+◌, ◌<◌, ◌≡◌, ◌↔◌, String, Bool, true, false, Option, some, List, [], ◌∷◌, arith, find, sym,
  Bool-cases, Option-cases, inl, inr, ◌⊎◌, ◌&&◌,
}
use mathlib.Core.List.{Memᴰ}
use corridor_in_a_box.Types.{SettlementRef, amount_invalid, settlement_failed}
use corridor_in_a_box.Outcome.{Outcome, ok, fail}
use corridor_in_a_box.Anchor.{stellar_payment, kind_of}
use corridor_in_a_box.Corridor.{Corridor}
use corridor_in_a_box.Verbs.{
  SettlementRequest, SettlementContext, SettlementStrategy, retry, recover, settle,
  settle_quote_problem, needs_path_payment, same_kind, accepts, stellar_payment_strategy,
  adapter_settled_strategy,
}

-- A failed attempt is tried again exactly when its error is retryable and the policy has retries
-- left, and always under the next number; no other action is a retry.
pub recover-retry_iff :
    (c : Corridor) (retryable : Bool) (attempt next : ℕ)
    → (recover c retryable attempt ≡ retry next)
      ↔ ((retryable ≡ true) × (attempt < c.recovery.max_retries) × (next ≡ attempt + 1))
unfolding recover
recover-retry_iff c retryable attempt next = ground arith

find_sound {ℓ} :
    {A : Type ℓ} (p : A → Bool) (xs : List A) (a : A)
    → find p xs ≡ some a
    → Memᴰ a xs × (p a ≡ true)
find_sound p [] a h = cc
find_sound p (x ∷ xs) a h = elim (Bool-cases (p x)) [
  | inl y ↦ let same : x ≡ a = ground arith in (Memᴰ.head (sym same), rw (← same) y)
  | inr n ↦ let (m, q) = find_sound p xs a (ground arith) in (Memᴰ.tail m, q)
]

-- How the settle leg came by a reference.
pub record IsSettledBy (strategies : List SettlementStrategy) (ctx : SettlementContext) (n : ℕ)
    (ref : SettlementRef) : Type 0 where
  pub checked : settle_quote_problem ctx.quote ctx.corridor ≡ false
  pub strategy : SettlementStrategy
  pub listed : Memᴰ strategy strategies
  pub kind : same_kind strategy.kind (kind_of ctx.opened.instructions) ≡ true
  pub accepts : strategy.matches ctx ≡ true
  pub answer : strategy.settle n ctx ≡ ok ref

both : (a b : Bool) → (a && b) ≡ true → (a ≡ true) × (b ≡ true)
both a b h = ground arith

-- A settle that succeeds was asked for a quote without a problem, and its reference is the answer of a
-- listed strategy of the kind of the deposit instructions that accepts the corridor.
pub settle-IsSettledBy :
    (strategies : List SettlementStrategy) (ctx : SettlementContext) (n : ℕ) (ref : SettlementRef)
    → settle strategies ctx n ≡ ok ref
    → IsSettledBy strategies ctx n ref
unfolding settle
settle-IsSettledBy strategies ctx n ref h = elim (Option-cases (find (accepts ctx) strategies)) [
  | inl missing ↦ ground arith
  | inr (s, found) ↦
      let (listed, passes) = find_sound (accepts ctx) strategies s found in
      let (kind, matches) = both _ _ passes in
      record {
        checked = ground arith;
        strategy = s;
        listed = listed;
        kind = kind;
        accepts = matches;
        answer = ground arith;
      }
]

-- With the default strategies a plain payment is never made on a corridor whose anchor receives
-- another asset than the bridge asset, whatever the submitter and the adapter would answer.
pub settle_wrong_asset :
    (submit : ℕ → SettlementRequest → Outcome SettlementRef)
    (confirm : Option (ℕ → String → Outcome SettlementRef)) (now : ℕ → ℕ) (ctx : SettlementContext)
    (n : ℕ)
    → needs_path_payment ctx.corridor ≡ true
    → kind_of ctx.opened.instructions ≡ stellar_payment
    → let answer =
        settle
          (stellar_payment_strategy submit ∷ adapter_settled_strategy confirm now ∷ [])
          ctx
          n in
      (answer ≡ fail amount_invalid) ⊎ (answer ≡ fail settlement_failed)
unfolding settle stellar_payment_strategy adapter_settled_strategy
settle_wrong_asset submit confirm now ctx n h k =
    elim (Bool-cases (settle_quote_problem ctx.quote ctx.corridor)) [
      | inl bad ↦ inl (rw bad)
      | inr fine ↦ inr (rw (fine, h, k, same_kind))
    ]

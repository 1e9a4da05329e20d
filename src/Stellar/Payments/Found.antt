-- ===== src/Stellar/Payments/Found.antt =====
-- What `findExisting` of packages/stellar/src/index.ts answers with.
use corridor_in_a_box.Base.{
  ℕ, ◌<◌, max, ◌≡◌, ◌⊎◌, inl, inr, String, true, none, some, List, eq_iff, both, unsome,
}
use mathlib.Core.List.{Memᴰ}
use corridor_in_a_box.Types.{SettlementRef, stellar}
use corridor_in_a_box.Outcome.{ok}
use corridor_in_a_box.Corridor.{Corridor}
use corridor_in_a_box.Verbs.{SettlementRequest}
use corridor_in_a_box.Stellar.Facts.Laws.{IsSameAmount, same_text_iff, is_amount_iff}
use corridor_in_a_box.Stellar.Payments.{
  PaymentRecord, PaymentFact, to_payment_fact, Page, page, is_listed, payments_from, is_settlement,
  find_existing,
}
use corridor_in_a_box.Stellar.Payments.Laws.{IsFound, IsFound-in, listed_in, payments_from-AllOf}
use corridor_in_a_box.Stellar.Payments.Matches.{
  IsBridgeAsset, IsUnderMemo, either, kinds, is_bridge-IsBridgeAsset, is_same_memo-IsUnderMemo,
}

-- The payment is one of a page within the budget.
pub record IsOnPage (pages : ℕ → Page) (most : ℕ) (payment : PaymentFact) : Type 0 where
  pub number : ℕ
  pub in_budget : number < max most 1
  pub records : List PaymentRecord
  pub answered : pages number ≡ page records
  pub entry : PaymentRecord
  pub member : Memᴰ entry records
  pub reads : to_payment_fact entry ≡ some payment

-- A payment on chain that does what the request asks for, and the reference to it.
pub record IsPaid (normalize : String → String) (c : Corridor) (req : SettlementRequest)
    (source : String) (pages : ℕ → Page) (most : ℕ) (ref : SettlementRef) : Type 0 where
  pub payment : PaymentFact
  pub on_chain : IsOnPage pages most payment
  pub kind :
      (payment.type ≡ "payment")
      ⊎ (payment.type ≡ "path_payment_strict_receive")
      ⊎ (payment.type ≡ "path_payment_strict_send")
  pub from : payment.from ≡ source
  pub to : (payment.to ≡ req.to) ⊎ (payment.to_muxed ≡ some req.to)
  pub asset : IsBridgeAsset c payment.asset
  pub amount : IsSameAmount payment.amount (some req.amount.amount)
  pub memo : IsUnderMemo normalize req payment
  pub answer : ref ≡ stellar payment.transaction_hash (some payment.ledger) none none

module _ (normalize : String → String) (c : Corridor) (req : SettlementRequest) (source : String)
    (pages : ℕ → Page) (most : ℕ) (ref : SettlementRef) where
  -- A listed payment, and where it stands.
  abbrev IsShown : PaymentFact → Type 0
  IsShown p = (is_listed source (some req.to) p ≡ true) × IsOnPage pages most p

  paid : IsFound normalize c req IsShown ref → IsPaid normalize c req source pages most ref
  unfolding is_listed is_settlement
  paid f =
      let p = f.payment in
      let (whose, to) = both _ _ f.is_shown.0 in
      let (kind, from) = both _ _ whose in
      let (pays, memo) = both _ _ f.settles in
      let (asset, amount) = both _ _ pays in
      record {
        payment = p;
        on_chain = f.is_shown.1;
        kind = kinds p.type kind;
        from = (eq_iff p.from source).0 from;
        to = elim (either _ _ to) [
          | inl e ↦ inl (unsome ((same_text_iff (some p.to) (some req.to)).0 e))
          | inr e ↦ inr ((same_text_iff p.to_muxed (some req.to)).0 e)
        ];
        asset = is_bridge-IsBridgeAsset c p.asset asset;
        amount = (is_amount_iff p.amount (some req.amount.amount)).0 amount;
        memo = is_same_memo-IsUnderMemo normalize req p memo;
        answer = f.answer;
      }

  -- A settlement that is found refers to a payment of a page that the budget lets through, which the
  -- signer's account made to the account asked for or its muxed form: in the bridge asset, over an
  -- amount of the same value, and with the memo asked for, of its type, or none.
  pub find_existing-IsPaid :
      (size : ℕ)
      → find_existing normalize (λ to. payments_from pages size most source (some to) none) c req
        ≡ ok (some ref)
      → IsPaid normalize c req source pages most ref
  unfolding find_existing
  find_existing-IsPaid size h = paid (
      IsFound-in normalize c req IsShown (payments_from pages size most source (some req.to) none)
        ref
        (listed_in source (some req.to) none IsShown (
          payments_from-AllOf source (some req.to) none IsShown pages size most
            (λ k rs lt at r f m e shown. (
              shown,
              record {
                number = k;
                in_budget = lt;
                records = rs;
                answered = at;
                entry = r;
                member = m;
                reads = e;
              },
            ))))
        h)

-- ===== src/Stellar/Payments/Laws.antt =====
-- What `paymentsFrom` and `findExisting` of packages/stellar/src/index.ts find.
use corridor_in_a_box.Base.{
  max, ◌<◌, ℕ, zero, suc, ◌+◌, ◌≤◌, ◌≡◌, inl, inr, refl, String, Bool, true, false, not, Option,
  none, some, List, [], ◌∷◌, ◌++◌, all, length, ltb, if◌then◌else◌, arith, Bool-cases, subst, ◌↔◌,
  unsome, sym,
}
use mathlib.Core.List.{Memᴰ}
use corridor_in_a_box.Types.{SettlementRef, stellar}
use corridor_in_a_box.Outcome.{Outcome, ok, err, ◌>>=◌, err-ne-ok, unwrap}
use corridor_in_a_box.Corridor.{Corridor}
use corridor_in_a_box.Verbs.{SettlementRequest}
use corridor_in_a_box.Stellar.Payments.{
  PaymentRecord, PaymentFact, to_payment_fact, Page, page, not_found, failed, is_listed, Scan, more,
  old, unreadable, scan_page, is_old, after_fact, PaymentsFrom, listing, after_scan, read_page,
  read_pages, payments_from, is_settlement, first_settlement,
}

-- Every payment of a list has the property.
abbrev pub AllOf : (PaymentFact → Type 0) → List PaymentFact → Type 0
AllOf P [] = Unit
AllOf P (x ∷ xs) = P x × AllOf P xs

AllOf-more :
    (P : PaymentFact → Type 0) (ps : List PaymentFact) (q : PaymentFact)
    → AllOf P ps
    → P q
    → AllOf P (ps ++ q ∷ [])
AllOf-more P [] q h k = (k, tt)
AllOf-more P (x ∷ ps) q (h, hs) k = (h, AllOf-more P ps q hs k)

abbrev scanned : Scan → List PaymentFact
scanned (more out) = out
scanned (old out) = out
scanned unreadable = []

module _ (source : String) (to : Option String) (since : Option ℕ) (P : PaymentFact → Type 0) where
  -- The records that are listed have the property.
  abbrev pub GivesOn : List PaymentRecord → Type 0
  GivesOn rs =
      (r : PaymentRecord) (f : PaymentFact)
      → Memᴰ r rs
      → to_payment_fact r ≡ some f
      → is_listed source to f ≡ true
      → P f

  kept :
      (out : List PaymentFact) (p : PaymentFact)
      → (is_listed source to p ≡ true → P p)
      → AllOf P out
      → AllOf P (if is_listed source to p then out ++ p ∷ [] else out)
  kept out p f h = elim (Bool-cases (is_listed source to p)) [
    | inl yes_listed ↦ rw yes_listed (AllOf-more P out p h (f yes_listed))
    | inr no_listed ↦ rw no_listed h
  ]

  record_step :
      (rs : List PaymentRecord) (out : List PaymentFact) (f : Option PaymentFact)
      → ((p : PaymentFact) → f ≡ some p → is_listed source to p ≡ true → P p)
      → ((out' : List PaymentFact)
          → AllOf P out'
          → AllOf P (scanned (scan_page source to since rs out')))
      → AllOf P out
      → AllOf P (
          scanned (
            after_fact since f out
              (is_listed source to)
              (λ found. scan_page source to since rs found)))
  record_step rs out none g ih h = tt
  record_step rs out (some p) g ih h = elim (Bool-cases (is_old since p.ledger)) [
    | inl o ↦ rw o h
    | inr o ↦ rw o (ih _ (kept out p (g p refl) h))
  ]

  scan_page-AllOf :
      (rs : List PaymentRecord) (out : List PaymentFact)
      → GivesOn rs
      → AllOf P out
      → AllOf P (scanned (scan_page source to since rs out))
  unfolding scan_page
  scan_page-AllOf [] out g h = h
  scan_page-AllOf (r ∷ rs) out g h =
      record_step rs out (to_payment_fact r) (λ p e l. g r p (Memᴰ.head refl) e l)
        (λ out'. scan_page-AllOf rs out' (λ q p m. g q p (Memᴰ.tail m))) h

  -- What a listing lists, if there is one.
  abbrev pub AllListed : Outcome PaymentsFrom → Type 0
  AllListed (ok l) = AllOf P l.payments
  AllListed (err e) = Unit {0}

  after_scan-AllOf :
      (last : Bool) (next : List PaymentFact → Outcome PaymentsFrom) (s : Scan)
      → ((found : List PaymentFact) → AllOf P found → AllListed (next found))
      → AllOf P (scanned s)
      → AllListed (after_scan last next s)
  after_scan-AllOf last next unreadable ih h = tt
  after_scan-AllOf last next (old out) ih h = h
  after_scan-AllOf true next (more out) ih h = h
  after_scan-AllOf false next (more out) ih h = ih out h

  page-AllOf :
      (size : ℕ) (out : List PaymentFact) (next : List PaymentFact → Outcome PaymentsFrom)
      (p : Page)
      → ((rs : List PaymentRecord) → p ≡ page rs → GivesOn rs)
      → ((found : List PaymentFact) → AllOf P found → AllListed (next found))
      → AllOf P out
      → AllListed (read_page (λ rs. scan_page source to since rs out) size next p)
  page-AllOf size out next not_found g ih h = tt
  page-AllOf size out next failed g ih h = tt
  page-AllOf size out next (page rs) g ih h =
      after_scan-AllOf (ltb (length rs) size) next (scan_page source to since rs out) ih
        (scan_page-AllOf rs out (g rs refl) h)

  read_pages-AllOf :
      (pages : ℕ → Page) (size left n : ℕ) (out : List PaymentFact)
      → ((k : ℕ) (rs : List PaymentRecord) → k ≤ n + left → pages k ≡ page rs → GivesOn rs)
      → AllOf P out
      → AllListed (read_pages pages size source to since left n out)
  unfolding read_pages
  read_pages-AllOf pages size zero n out g h =
      page-AllOf size out (λ found. listing found true) (pages n) (λ rs. g n rs (omega arith))
        (λ found k. k) h
  read_pages-AllOf pages size (suc left) n out g h =
      page-AllOf size out (λ found. read_pages pages size source to since left (suc n) found)
        (pages n) (λ rs. g n rs (omega arith))
        (λ found.
          read_pages-AllOf pages size left (suc n) found (λ k rs le. g k rs (omega (arith, le))))
        h

  -- What the records of the pages within the budget have, the payments of the listing have.
  pub payments_from-AllOf :
      (pages : ℕ → Page) (size most : ℕ)
      → ((k : ℕ) (rs : List PaymentRecord) → k < max most 1 → pages k ≡ page rs → GivesOn rs)
      → AllListed (payments_from pages size most source to since)
  unfolding payments_from
  payments_from-AllOf pages size zero g =
      read_pages-AllOf pages size 0 0 [] (λ k rs le. g k rs (omega (arith, le))) tt
  payments_from-AllOf pages size (suc left) g =
      read_pages-AllOf pages size left 0 [] (λ k rs le. g k rs (omega (arith, le))) tt

pub listed_in :
    (source : String) (to : Option String) (since : Option ℕ) (P : PaymentFact → Type 0)
    {r : Outcome PaymentsFrom}
    → AllListed source to since P r
    → (l : PaymentsFrom) → r ≡ ok l
    → AllOf P l.payments
listed_in source to since P h l e = subst (AllListed source to since P) e h

-- A payment that settles a request: it is in a listing and the loop does not pass over it.
pub record IsFound (normalize : String → String) (c : Corridor) (req : SettlementRequest)
    (shown : PaymentFact → Type 0) (ref : SettlementRef) : Type 0 where
  pub payment : PaymentFact
  pub is_shown : shown payment
  pub settles : is_settlement normalize c req payment ≡ true
  pub answer : ref ≡ stellar payment.transaction_hash (some payment.ledger) none none

module _ (normalize : String → String) (c : Corridor) (req : SettlementRequest) where
  first-IsFound :
      (shown : PaymentFact → Type 0) (ps : List PaymentFact) (ref : SettlementRef)
      → AllOf shown ps
      → first_settlement normalize c req ps ≡ some ref
      → IsFound normalize c req shown ref
  unfolding first_settlement
  first-IsFound shown [] ref l h = cc
  first-IsFound shown (p ∷ ps) ref (l, ls) h = elim (Bool-cases (is_settlement normalize c req p)) [
    | inl settles ↦ record {
      payment = p;
      is_shown = l;
      settles = settles;
      answer = sym (unsome (rw settles at h));
    }
    | inr other ↦ first-IsFound shown ps ref ls (rw other at h)
  ]

  -- Nothing is found exactly when every payment of the listing is another one.
  pub first_settlement-none_iff :
      (ps : List PaymentFact)
      → (first_settlement normalize c req ps ≡ none)
        ↔ (all (λ p. not (is_settlement normalize c req p)) ps ≡ true)
  unfolding first_settlement
  first_settlement-none_iff [] = (λ h. refl, λ h. refl)
  first_settlement-none_iff (p ∷ ps) = elim (Bool-cases (is_settlement normalize c req p)) [
    | inl settles ↦ rw settles (λ h. cc, λ h. cc)
    | inr other ↦ rw other (first_settlement-none_iff ps)
  ]

  pub IsFound-in :
      (shown : PaymentFact → Type 0) (r : Outcome PaymentsFrom) (ref : SettlementRef)
      → ((l : PaymentsFrom) → r ≡ ok l → AllOf shown l.payments)
      → (r >>= λ l. ok (first_settlement normalize c req l.payments)) ≡ ok (some ref)
      → IsFound normalize c req shown ref
  IsFound-in shown (err e) ref l h = absurd (err-ne-ok h)
  IsFound-in shown (ok l) ref shows h = first-IsFound shown l.payments ref (shows l refl) (unwrap h)

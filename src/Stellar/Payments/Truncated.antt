-- ===== src/Stellar/Payments/Truncated.antt =====
-- What `findExisting` of packages/stellar/src/index.ts makes of a listing that was cut short.
use corridor_in_a_box.Base.{
  ℕ, zero, suc, ◌+◌, ◌≤◌, ◌<◌, max, ◌≡◌, refl, ap, ◌∙◌, String, true, false, Option, none, some,
  List, [], ◌∷◌, ◌++◌, length, ltb, if◌then◌else◌, arith,
}
use mathlib.Core.List.{Memᴰ}
use corridor_in_a_box.Outcome.{Outcome, ok, ◌>>=◌}
use corridor_in_a_box.Corridor.{Corridor}
use corridor_in_a_box.Verbs.{SettlementRequest}
use corridor_in_a_box.Stellar.Payments.{
  PaymentRecord, PaymentFact, to_payment_fact, Page, page, is_listed, more, scan_page, after_fact,
  PaymentsFrom, listing, after_scan, read_page, read_pages, payments_from, is_settlement,
  first_settlement, find_existing,
}
use corridor_in_a_box.Stellar.Payments.Laws.{AllOf, payments_from-AllOf, listed_in}

-- Every record of a page can be read.
abbrev IsReadable : List PaymentRecord → Type 0
IsReadable rs = (r : PaymentRecord) → Memᴰ r rs → (f : PaymentFact) × (to_payment_fact r ≡ some f)

-- A page after which the listing goes on: it is full, and its records can be read.
abbrev pub IsFull : ℕ → Page → Type 0
IsFull size p = (rs : List PaymentRecord) × (p ≡ page rs) × (size ≤ length rs) × IsReadable rs

module _ (source : String) (to : Option String) where
  scan_page-more :
      (rs : List PaymentRecord) (out : List PaymentFact)
      → IsReadable rs
      → (out' : List PaymentFact) × (scan_page source to none rs out ≡ more out')
  unfolding scan_page
  scan_page-more [] out h = (out, refl)
  scan_page-more (r ∷ rs) out h =
      let (f, e) = h r (Memᴰ.head refl) in
      let rest =
        scan_page-more rs (if is_listed source to f then out ++ f ∷ [] else out)
          (λ q m. h q (Memᴰ.tail m)) in
      (
        rest.0,
        ap
              (λ t.
                after_fact none t out (is_listed source to)
                  (λ found. scan_page source to none rs found))
              e
            ∙ rest.1,
      )

  -- What the loop does with a full page: it goes on with what it has found.
  full_page-next :
      (size : ℕ) (out : List PaymentFact) (p : Page)
      → IsFull size p
      → (found : List PaymentFact) × ((next : List PaymentFact → Outcome PaymentsFrom)
          → read_page (λ rs. scan_page source to none rs out) size next p ≡ next found)
  full_page-next size out p (rs, e, full, readable) =
      let (found, s) = scan_page-more rs out readable in
      let last : ltb (length rs) size ≡ false = ground (arith, full) in
      (
        found,
        λ next.
            ap (λ q. read_page (λ rs. scan_page source to none rs out) size next q) e
            ∙ ap (λ b. after_scan b next (scan_page source to none rs out)) last
            ∙ ap (after_scan false next) s,
      )

  read_pages_cut :
      (pages : ℕ → Page) (size left n : ℕ) (out : List PaymentFact)
      → ((k : ℕ) → k ≤ n + left → IsFull size (pages k))
      → (l : PaymentsFrom) × (read_pages pages size source to none left n out ≡ ok l)
        × (l.truncated ≡ true)
  unfolding read_pages
  read_pages_cut pages size zero n out h =
      let (found, next) = full_page-next size out (pages n) (h n (omega arith)) in
      (record { payments = found; truncated = true }, next (λ found. listing found true), refl)
  read_pages_cut pages size (suc left) n out h =
      let (found, next) = full_page-next size out (pages n) (h n (omega arith)) in
      let (l, e, cut) =
        read_pages_cut pages size left (suc n) found (λ k le. h k (omega (arith, le))) in
      (l, next (λ found. read_pages pages size source to none left (suc n) found) ∙ e, cut)

  payments_from_cut :
      (pages : ℕ → Page) (size most : ℕ)
      → ((k : ℕ) → k < max most 1 → IsFull size (pages k))
      → (l : PaymentsFrom) × (payments_from pages size most source to none ≡ ok l)
        × (l.truncated ≡ true)
  unfolding payments_from
  payments_from_cut pages size zero h =
      read_pages_cut pages size 0 0 [] (λ k le. h k (omega (arith, le)))
  payments_from_cut pages size (suc left) h =
      read_pages_cut pages size left 0 [] (λ k le. h k (omega (arith, le)))

module _ (normalize : String → String) (c : Corridor) (req : SettlementRequest) where
  none_settles :
      (ps : List PaymentFact)
      → AllOf (λ p. is_settlement normalize c req p ≡ false) ps
      → first_settlement normalize c req ps ≡ none
  unfolding first_settlement
  none_settles [] h = refl
  none_settles (p ∷ ps) (h, hs) = rw h (none_settles ps hs)

  -- A listing that was cut short is answered like a complete one. When every page of the budget is full
  -- and readable, the listing says that it is truncated; and when no payment to the account on those
  -- pages settles the request, the answer is a success that finds none, whatever the pages behind
  -- them hold.
  pub find_existing_truncated :
      (pages : ℕ → Page) (size most : ℕ) (source : String)
      → ((k : ℕ) → k < max most 1 → IsFull size (pages k))
      → ((k : ℕ) (rs : List PaymentRecord) (r : PaymentRecord) (f : PaymentFact)
          → k < max most 1
          → pages k ≡ page rs
          → Memᴰ r rs
          → to_payment_fact r ≡ some f
          → is_listed source (some req.to) f ≡ true
          → is_settlement normalize c req f ≡ false)
      → ((l : PaymentsFrom) × (payments_from pages size most source (some req.to) none ≡ ok l)
          × (l.truncated ≡ true))
        × (find_existing normalize (λ to. payments_from pages size most source (some to) none) c req
            ≡ ok none)
  unfolding find_existing
  find_existing_truncated pages size most source full other =
      let (l, e, cut) = payments_from_cut source (some req.to) pages size most full in
      let listed =
        listed_in source (some req.to) none (λ p. is_settlement normalize c req p ≡ false)
          (payments_from-AllOf source (some req.to) none
            (λ p. is_settlement normalize c req p ≡ false) pages size most
            (λ k rs lt at r f m. other k rs r f lt at m))
          l e in
      (
        (l, e, cut),
        ap (λ r. r >>= λ l. ok (first_settlement normalize c req l.payments)) e
            ∙ ap ok (none_settles l.payments listed),
      )

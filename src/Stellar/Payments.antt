-- ===== src/Stellar/Payments.antt =====
-- `paymentsFrom` of the account inspector and `findExisting` of the submitter, of
-- packages/stellar/src/index.ts: whether a payment was made already.
pub mod Laws
pub mod Matches
pub mod Found
pub mod Truncated
use corridor_in_a_box.Base.{
  ℕ, zero, suc, String, Bool, true, false, not, ◌&&◌, ◌||◌, Option, none, some, List, [], ◌∷◌, ◌++◌,
  if◌then◌else◌, or_else, str_eq, present, ltb, length, is_some, any,
}
use corridor_in_a_box.Types.{SettlementRef, stellar, settlement_failed}
use corridor_in_a_box.Outcome.{Outcome, ok, err, fail, ◌>>=◌}
use corridor_in_a_box.Anchor.{MemoType, text, hash, id}
use corridor_in_a_box.Corridor.{Corridor, is_xlm}
use corridor_in_a_box.Json.{to_upper, to_lower}
use corridor_in_a_box.Verbs.{SettlementRequest}
use corridor_in_a_box.Stellar.Facts.{ChainAsset, same_text, is_native, is_amount}

-- A record of Horizon's payments; without its transaction's ledger it cannot be read.
pub record PaymentRecord : Type 0 where
  pub type : String
  pub transaction_hash : String
  pub ledger : Option ℕ
  pub from : Option String
  pub to : Option String
  pub to_muxed : Option String
  pub asset : ChainAsset
  pub amount : Option (List ℕ)
  pub memo_type : String
  pub memo : Option String

pub record PaymentFact : Type 0 where
  pub type : String
  pub transaction_hash : String
  pub ledger : ℕ
  pub from : String
  pub to : String
  pub to_muxed : Option String
  pub asset : ChainAsset
  pub amount : List ℕ
  pub memo_type : String
  pub memo : Option String

abbrev fact_at : PaymentRecord → Option ℕ → Option PaymentFact
fact_at r none = none
fact_at r (some ledger) = some (record {
  type = r.type;
  transaction_hash = r.transaction_hash;
  ledger = ledger;
  from = or_else r.from "";
  to = or_else r.to "";
  to_muxed = if present r.to_muxed then r.to_muxed else none;
  asset = r.asset;
  amount = or_else r.amount (b'0' ∷ []);
  memo_type = r.memo_type;
  memo = r.memo;
})

-- `toPaymentFact`.
unfoldable pub to_payment_fact : PaymentRecord → Option PaymentFact
to_payment_fact r = fact_at r r.ledger

-- A page of Horizon's answer: its records, or what was thrown, told apart by a 404.
pub data Page : Type 0 where
  page : List PaymentRecord → Page
  not_found failed : Page

abbrev pub payment_types : List String
payment_types = "payment" ∷ "path_payment_strict_receive" ∷ "path_payment_strict_send" ∷ []

-- Which payments are listed: those that the source made, to the given account if one is given.
unfoldable pub is_listed : String → Option String → PaymentFact → Bool
is_listed source to p =
    any (str_eq p.type) payment_types
    && str_eq p.from source
    && (not (is_some to) || same_text (some p.to) to || same_text p.to_muxed to)

-- How the records of one page end: with the payments so far, too old to go on, or unreadable.
pub data Scan : Type 0 where
  more : List PaymentFact → Scan
  old : List PaymentFact → Scan
  unreadable : Scan

abbrev is_old : Option ℕ → ℕ → Bool
is_old none ledger = false
is_old (some since) ledger = ltb ledger since

abbrev pub after_fact :
    Option ℕ
    → Option PaymentFact
    → List PaymentFact
    → (PaymentFact → Bool)
    → (List PaymentFact → Scan)
    → Scan
after_fact since none out shown next = unreadable
after_fact since (some p) out shown next =
    if is_old since p.ledger then old out else next (if shown p then out ++ p ∷ [] else out)

unfoldable pub scan_page :
    String → Option String → Option ℕ → List PaymentRecord → List PaymentFact → Scan
unfolding to_payment_fact is_listed
scan_page source to since [] out = more out
scan_page source to since (r ∷ rs) out =
    after_fact since (to_payment_fact r) out (is_listed source to)
      (λ found. scan_page source to since rs found)

pub record PaymentsFrom : Type 0 where
  pub payments : List PaymentFact
  pub truncated : Bool

abbrev pub listing : List PaymentFact → Bool → Outcome PaymentsFrom
listing out truncated = ok (record { payments = out; truncated = truncated })

abbrev pub after_scan :
    Bool → (List PaymentFact → Outcome PaymentsFrom) → Scan → Outcome PaymentsFrom
after_scan last next unreadable = fail settlement_failed
after_scan last next (old found) = listing found false
after_scan last next (more found) = if last then listing found false else next found

-- What the loop makes of a page; `next` is its next round.
abbrev pub read_page :
    (List PaymentRecord → Scan)
    → ℕ
    → (List PaymentFact → Outcome PaymentsFrom)
    → Page
    → Outcome PaymentsFrom
read_page scan page_size next not_found = listing [] false
read_page scan page_size next failed = fail settlement_failed
read_page scan page_size next (page rs) = after_scan (ltb (length rs) page_size) next (scan rs)

module _ (pages : ℕ → Page) (page_size : ℕ) (source : String) (to : Option String)
    (since : Option ℕ) where
  abbrev pub page_at :
      ℕ → List PaymentFact → (List PaymentFact → Outcome PaymentsFrom) → Outcome PaymentsFrom
  page_at n out next = read_page (λ rs. scan_page source to since rs out) page_size next (pages n)

  -- The loop over the pages, from the one with number `n`; `left` more may be read after it. Of the
  -- pages that throw, one that is not found makes the whole listing empty.
  unfoldable pub read_pages : ℕ → ℕ → List PaymentFact → Outcome PaymentsFrom
  unfolding scan_page
  read_pages zero n out = page_at n out (λ found. listing found true)
  read_pages (suc left) n out = page_at n out (λ found. read_pages left (suc n) found)

-- `paymentsFrom`: at most `max_pages` pages are read, and one at least.
unfoldable pub payments_from :
    (ℕ → Page) → ℕ → ℕ → String → Option String → Option ℕ → Outcome PaymentsFrom
unfolding read_pages
payments_from pages page_size zero source to since =
    read_pages pages page_size source to since 0 0 []
payments_from pages page_size (suc left) source to since =
    read_pages pages page_size source to since left 0 []

abbrev pub upper_of : Option String → Option String
upper_of none = none
upper_of (some s) = some (to_upper s)

abbrev pub differs_if_known : Option String → String → Bool
differs_if_known none issuer = false
differs_if_known (some s) issuer =
    not (str_eq issuer "") && not (str_eq s "") && not (str_eq s issuer)

-- `isXlm`.
unfoldable pub is_native_code : String → Bool
unfolding is_xlm to_lower
is_native_code code = is_xlm code || str_eq (to_lower code) "native"

-- The asset of a listed payment is the bridge asset.
unfoldable pub is_bridge : Corridor → ChainAsset → Bool
unfolding is_native_code to_upper
is_bridge c a =
    let code = c.settlement.bridge_asset in
    if is_native_code code
    then is_native a || same_text (upper_of a.code) (some "XLM")
    else same_text (upper_of a.code) (some (to_upper code))
      && not (differs_if_known a.issuer c.settlement.asset_issuer)

-- The memo of a listed payment is the request's, in the form that its type compares.
-- `normalize` is `normalizeHashMemo`, over `Buffer`'s base64.
abbrev pub typed_memo : (String → String) → String → MemoType → PaymentFact → Bool
typed_memo normalize memo hash p =
    str_eq p.memo_type "hash"
    && str_eq (normalize memo) (if present p.memo then normalize (or_else p.memo "") else "")
typed_memo normalize memo id p = str_eq p.memo_type "id" && same_text p.memo (some memo)
typed_memo normalize memo text p = str_eq p.memo_type "text" && same_text p.memo (some memo)

unfoldable pub is_same_memo : (String → String) → SettlementRequest → PaymentFact → Bool
is_same_memo normalize req p =
    if not (present req.memo)
    then not (present p.memo && not (str_eq p.memo_type "none"))
    else typed_memo normalize (or_else req.memo "") (or_else req.memo_type text) p

-- A payment that the loop of `findExisting` does not pass over.
unfoldable pub is_settlement : (String → String) → Corridor → SettlementRequest → PaymentFact → Bool
unfolding is_bridge is_amount is_same_memo
is_settlement normalize c req p =
    is_bridge c p.asset
    && is_amount p.amount (some req.amount.amount)
    && is_same_memo normalize req p

unfoldable pub first_settlement :
    (String → String) → Corridor → SettlementRequest → List PaymentFact → Option SettlementRef
unfolding is_settlement
first_settlement normalize c req [] = none
first_settlement normalize c req (p ∷ ps) =
    if is_settlement normalize c req p
    then some (stellar p.transaction_hash (some p.ledger) none none)
    else first_settlement normalize c req ps

-- `findExisting`, over the inspector's listing of what the signer's account paid to `req.to`.
unfoldable pub find_existing :
    (String → String)
    → (String → Outcome PaymentsFrom)
    → Corridor
    → SettlementRequest
    → Outcome (Option SettlementRef)
unfolding first_settlement
find_existing normalize paid_to c req = do
  listed ← paid_to req.to
  ok (first_settlement normalize c req listed.payments)

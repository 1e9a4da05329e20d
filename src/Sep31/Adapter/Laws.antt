-- ===== src/Sep31/Adapter/Laws.antt =====
-- What `Sep31Adapter` of packages/sep31/src/index.ts takes from the anchor, and what it sends.
use corridor_in_a_box.Base.{
  ℕ, ◌≡◌, ◌↔◌, ◌⊎◌, inl, inr, refl, sym, ap, ◌∙◌, String, Bool, true, false, Option, none, some, [],
  ◌∷◌, if◌then◌else◌, str_eq, eq_iff, Bool-cases, untrue, or_else,
}
use corridor_in_a_box.Types.{PaymentIntent, anchor_customer_id_of, kyc_required, anchor_unavailable}
use corridor_in_a_box.Outcome.{Outcome, ok, fail, unwrap, err-ne-ok}
use corridor_in_a_box.Anchor.{TransactionStatus, Quote, OpenTransaction}
use corridor_in_a_box.Corridor.{Corridor}
use corridor_in_a_box.Json.{Json, to_lower, is_null, non_empty}
use corridor_in_a_box.Json
use corridor_in_a_box.AdapterKit.Http.{
  answer, get, Client, Call, ◌>>=◌, give, an_object, is_success,
}
use corridor_in_a_box.AdapterKit.Http.Laws.{gave, asked}
use corridor_in_a_box.AdapterKit.Sep10.{Net}
use corridor_in_a_box.Sep31.Status.{
  Mapped, Vocabulary, classify, map_sep31_status, sep31_vocabulary, raw_status, has,
}
use corridor_in_a_box.Sep31.Records.{
  Sep31Adapter, transaction_in, status_of, server, unavailable, known,
}
use corridor_in_a_box.Sep31.Adapter.{get_transaction, open_transaction}

unsettled :
    (failure awaiting flying : Bool) (a b c d : Mapped)
    → a.settled ≡ false
    → b.settled ≡ false
    → c.settled ≡ false
    → d.settled ≡ false
    → (if failure then a else if awaiting then b else if flying then c else d).settled ≡ false
unsettled true awaiting flying a b c d p q r s = p
unsettled false true flying a b c d p q r s = q
unsettled false false true a b c d p q r s = r
unsettled false false false a b c d p q r s = s

classify_settled :
    (v : Vocabulary) (status : String)
    → ((classify v status).settled ≡ true) ↔ (status ≡ "completed")
unfolding classify
classify_settled v status = (
  λ h. elim (Bool-cases (str_eq status "completed")) [
    | inl e ↦ (eq_iff status "completed").0 e
    | inr n ↦ absurd (
        untrue (
          sym (
            unsettled (has v.failures status) (has v.awaiting status) (has v.in_flight status) _ _ _
              _ refl refl refl refl)
          ∙ (rw n at h)))
  ],
  λ e. rw ((eq_iff status "completed").1 e) refl,
)

transaction_found : (o : Option Json) (tx : Json) → transaction_in o ≡ ok tx → o ≡ some tx
transaction_found none tx h = absurd (err-ne-ok h)
transaction_found (some t) tx h = elim (Bool-cases (is_null t)) [
  | inl e ↦ absurd (err-ne-ok (rw e at h))
  | inr n ↦ ap some (unwrap (rw n at h))
]

object_found : (j tx : Json) → an_object j ≡ ok tx → j ≡ tx
unfolding an_object
object_found j tx h = elim (Bool-cases (is_null j)) [
  | inl e ↦ absurd (err-ne-ok (rw e at h))
  | inr n ↦ unwrap (rw n at h)
]

polled :
    (a : Sep31Adapter) (tx : Json) (raw : String) (st : TransactionStatus) (c : Client)
    → (give (ok (status_of a tx (map_sep31_status raw))) c).0 ≡ ok st
    → (st.settled ≡ true) ↔ (to_lower raw ≡ "completed")
unfolding give status_of map_sep31_status
polled a tx raw st c h =
    let mine = classify_settled sep31_vocabulary (to_lower raw) in
    let same = ap (λ t. t.settled) (unwrap h) in (λ e. mine.0 (same ∙ e), λ e. sym same ∙ mine.1 e)

unknown : (o : Option String) → or_else o "" ≡ "" → known kyc_required o ≡ fail kyc_required
unknown none h = refl
unknown (some s) h = rw ((eq_iff s "").1 h) refl

unsent :
    (url : Option String) (r : Outcome String) (k : String → String → Call OpenTransaction)
    (c : Client)
    → r ≡ fail kyc_required
    → let opening = give (elim url [ none ↦ fail anchor_unavailable | some s ↦ ok s ]) >>= λ base.
        give r >>= k base in
      (opening c ≡ (fail kyc_required, c)) ⊎ (opening c ≡ (fail anchor_unavailable, c))
unfolding give ◌>>=◌
unsent none r k c h = inr refl
unsent (some s) r k c h = inl (rw h refl)

module _ (net : Net) (a : Sep31Adapter) where
  -- The transaction that the anchor answered with, and what it says of its status.
  abbrev pub Answered : String → String → Type 0
  Answered id raw =
      (base : String) × (code : ℕ) × (body : Json) × (tx : Json) × (net.fetch (record {
        method = get;
        url = base ∷ "/transactions/" ∷ id ∷ [];
        bearer = none;
        body = Json.end;
      })
        ≡ answer code (some body))
      × (is_success code ≡ true)
      × (Json.get "transaction" body ≡ some tx)
      × (raw_status (Json.get "status" tx) ≡ ok raw)

  -- A poll that succeeds has read a transaction from a successful answer of the anchor, and it is
  -- settled exactly when the status in there is `completed`, in whatever case.
  pub get_transaction_settled :
      (id : String) (c : Client) (st : TransactionStatus)
      → (get_transaction net a id c).0 ≡ ok st
      → (raw : String) × Answered id raw × ((st.settled ≡ true) ↔ (to_lower raw ≡ "completed"))
  unfolding get_transaction
  get_transaction_settled id c st h =
      let (base, u, k1) = gave (server a.anchor.endpoints.transfer_server_sep31) _ c st h in
      let (j, code, d, got, success, k2) =
        asked net.fetch unavailable
          (record {
            method = get;
            url = base ∷ "/transactions/" ∷ id ∷ [];
            bearer = none;
            body = Json.end;
          })
          _ c st k1 in
      let (body, v, k3) = gave (an_object j) _ d st k2 in
      let (tx, w, k4) = gave (transaction_in (Json.get "transaction" body)) _ d st k3 in
      let (raw, x, k5) = gave (raw_status (Json.get "status" tx)) _ d st k4 in
      let same : j ≡ body = object_found j body v in
      (
        raw,
        (
          base,
          code,
          body,
          tx,
          got ∙ ap (λ t. answer code (some t)) same,
          success,
          transaction_found (Json.get "transaction" body) tx w,
          x,
        ),
        polled a tx raw st d k5,
      )

  -- Without an id of the receiver at the anchor, which an empty one counts as, opening a transaction
  -- fails, not to be tried again, and leaves the client as it was: nothing is sent, and no session is
  -- opened.
  pub open_transaction_unaddressed :
      (intent : PaymentIntent) (quote : Quote) (corridor : Corridor) (c : Client)
      → or_else (anchor_customer_id_of intent.recipient) "" ≡ ""
      → (open_transaction net a intent quote corridor c ≡ (fail kyc_required, c))
        ⊎ (open_transaction net a intent quote corridor c ≡ (fail anchor_unavailable, c))
  unfolding open_transaction
  open_transaction_unaddressed intent quote corridor c h =
      unsent (non_empty a.anchor.endpoints.transfer_server_sep31) _ _ c
        (unknown (anchor_customer_id_of intent.recipient) h)

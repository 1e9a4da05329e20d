-- ===== src/Sep6/Adapter/Laws.antt =====
-- What `Sep6Adapter` of packages/sep6/src/index.ts takes for an opened withdrawal.
use corridor_in_a_box.Base.{
  ℕ, ◌≡◌, ◌⊎◌, inl, inr, refl, sym, ap, String, Bool, true, false, not, Option, none, some, List,
  [], ◌∷◌, if◌then◌else◌, Bool-cases, present, is_some, or_else,
}
use corridor_in_a_box.Types.{PaymentIntent, anchor_customer_id_of}
use corridor_in_a_box.Outcome.{CorridorError, ok, err, unwrap, err-ne-ok}
use corridor_in_a_box.Anchor.{Quote, OpenTransaction}
use corridor_in_a_box.Corridor.{Corridor}
use corridor_in_a_box.Json.{Json, to_lower}
use corridor_in_a_box.Json
use corridor_in_a_box.Sep31.Status.{has}
use corridor_in_a_box.AdapterKit.Http.{answer, get, Client, give, is_success}
use corridor_in_a_box.AdapterKit.Http.Laws.{called, exchanged_with}
use corridor_in_a_box.AdapterKit.Sep10.{Net}
use corridor_in_a_box.Sep6.Records.{
  Sep6Adapter, object_of, field_of, text_at, unavailable, kyc_refusal, from_record, recorded,
  kyc_blocked, auth_token,
}
use corridor_in_a_box.Sep6.Adapter.{
  instructions_from_record, with_account, with_id, after_refusal, query, withdraw, open_transaction,
}

record_id :
    (id : String) (tx : Option Json) (opened : OpenTransaction)
    → from_record id tx ≡ ok opened
    → opened.transaction_id ≡ id
unfolding from_record
record_id id tx opened h = read (text_at "withdraw_anchor_account" tx) h
  where
    read : (o : Option String) → recorded id tx o ≡ ok opened → opened.transaction_id ≡ id
    read (some to) h = sym (ap (λ t. t.transaction_id) (unwrap h))
    read none h =
        elim (Bool-cases (has kyc_blocked (to_lower (or_else (text_at "status" tx) "")))) [
          | inl e ↦ absurd (err-ne-ok (rw e at h))
          | inr n ↦ absurd (err-ne-ok (rw n at h))
        ]

module _ (net : Net) (date_of : String → Option ℕ) (number_text : ℕ → Option (List ℕ))
    (a : Sep6Adapter) where
  followed :
      (id : String) (bearer : Option String) (c : Client) (opened : OpenTransaction)
      → (instructions_from_record net date_of number_text a id bearer c).0 ≡ ok opened
      → opened.transaction_id ≡ id
  unfolding instructions_from_record give
  followed id bearer c opened h =
      let (status, body, d, got, k) =
        exchanged_with net.fetch
          (record {
            method = get;
            url = a.transfer_server ∷ "/transaction" ∷ id ∷ [];
            bearer = bearer;
            body = Json.end;
          })
          _ c opened h in
      read status (field_of "transaction" (object_of body)) (is_success status) k
    where
      read :
          (status : ℕ) (tx : Option Json) (success : Bool)
          → (if not success then err (unavailable status) else from_record id tx) ≡ ok opened
          → opened.transaction_id ≡ id
      read status tx true h = record_id id tx opened h
      read status tx false h = absurd (err-ne-ok h)

  named :
      (bearer : Option String) (j : Option Json) (id : Option String) (c : Client)
      (opened : OpenTransaction)
      → (with_id net date_of number_text a bearer j id c).0 ≡ ok opened
      → id ≡ some opened.transaction_id
  unfolding give
  named bearer j none c opened h = absurd (err-ne-ok h)
  named bearer j (some id) c opened h = account (text_at "account_id" j) h
    where
      account :
          (to : Option String)
          → (with_account net date_of number_text a bearer j id to c).0 ≡ ok opened
          → some id ≡ some opened.transaction_id
      account none h = ap some (sym (followed id bearer c opened h))
      account (some to) h = ap some (ap (λ t. t.transaction_id) (unwrap h))

  granted :
      (bearer : Option String) (status : ℕ) (j : Option Json) (refusal : Option CorridorError)
      (c : Client) (opened : OpenTransaction)
      → (after_refusal net date_of number_text a bearer status j refusal c).0 ≡ ok opened
      → (is_success status ≡ true)
        × (refusal ≡ none)
        × (text_at "id" j ≡ some opened.transaction_id)
  unfolding give
  granted bearer status j (some e) c opened h = absurd (err-ne-ok h)
  granted bearer status j none c opened h = elim (Bool-cases (is_success status)) [
    | inl s ↦ (s, refl, named bearer j (text_at "id" j) c opened (rw s at h))
    | inr n ↦ absurd (err-ne-ok (rw n at h))
  ]

  -- The answer to the withdrawal request: a success that refuses no KYC, with the id of the
  -- transaction.
  abbrev pub IsGranted : PaymentIntent → Quote → Corridor → OpenTransaction → Type 0
  IsGranted intent quote corridor opened =
      (bearer : Option String) × (status : ℕ) × (body : Option Json) × (net.fetch (record {
        method = get;
        url = a.transfer_server ∷ "/withdraw-exchange" ∷ [];
        bearer = bearer;
        body =
            query net date_of number_text a intent quote corridor
              (anchor_customer_id_of intent.recipient);
      })
        ≡ answer status body)
      × (is_success status ≡ true)
      × (kyc_refusal (object_of body) ≡ none)
      × (text_at "id" (object_of body) ≡ some opened.transaction_id)

  -- A withdrawal that is opened was asked for with an account or the customer's id, and granted by
  -- the anchor: the answer was a success that refused no KYC, and named the transaction.
  pub open_transaction-IsGranted :
      (intent : PaymentIntent) (quote : Quote) (corridor : Corridor) (c : Client)
      (opened : OpenTransaction)
      → (open_transaction net date_of number_text a intent quote corridor c).0 ≡ ok opened
      → ((present a.account ≡ true) ⊎ (is_some (anchor_customer_id_of intent.recipient) ≡ true))
        × IsGranted intent quote corridor opened
  unfolding open_transaction give
  open_transaction-IsGranted intent quote corridor c opened h =
      elim (Bool-cases (present a.account)) [
        | inl e ↦ (inl e, withdrawn (rw e at h))
        | inr n ↦ elim (Bool-cases (is_some (anchor_customer_id_of intent.recipient))) [
          | inl e ↦ (inr e, withdrawn (rw (n, e) at h))
          | inr m ↦ absurd (err-ne-ok (rw (n, m) at h))
        ]
      ]
    where
      withdrawn :
          (withdraw net date_of number_text a intent quote corridor
              (anchor_customer_id_of intent.recipient)
              c).0
            ≡ ok opened
          → IsGranted intent quote corridor opened
      withdrawn h =
          let (bearer, d, k) = called (auth_token net a) _ c opened h in
          let (status, body, e, got, l) =
            exchanged_with net.fetch
              (record {
                method = get;
                url = a.transfer_server ∷ "/withdraw-exchange" ∷ [];
                bearer = bearer;
                body =
                    query net date_of number_text a intent quote corridor
                      (anchor_customer_id_of intent.recipient);
              })
              _ d opened k in
          let (success, unrefused, id) =
            granted bearer status (object_of body) (kyc_refusal (object_of body)) e opened l in
          (bearer, status, body, got, success, unrefused, id)

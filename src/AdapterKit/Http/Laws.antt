-- ===== src/AdapterKit/Http/Laws.antt =====
-- What a chain of the adapters' calls that succeeds has gone through.
use corridor_in_a_box.Base.{ℕ, ◌≡◌, inl, inr, refl, true, Option, none, some, ◌∷◌, Bool-cases}
use corridor_in_a_box.Outcome.{Outcome, CorridorError, ok, err, err-ne-ok}
use corridor_in_a_box.Json.{Json}
use corridor_in_a_box.AdapterKit.Http.{
  Request, Response, answer, no_answer, Client, Call, ◌>>=◌, give, continue, request, exchange,
  exchanged, read_answer, read_body, is_success,
}

-- A chain of calls that succeeds starts with a value that is there, or with an answer that is read.
module _ {ℓ κ} {A : Type ℓ} {B : Type κ} where
  pub gave :
      (r : Outcome A) (k : A → Call B) (c : Client) (b : B)
      → ((give r >>= k) c).0 ≡ ok b
      → (a : A) × (r ≡ ok a) × ((k a c).0 ≡ ok b)
  unfolding give ◌>>=◌
  gave (ok a) k c b h = (a, refl, h)
  gave (err e) k c b h = absurd (err-ne-ok h)

module _ {κ} {B : Type κ} where
  pub asked :
      (fetch : Request → Response) (refused : ℕ → CorridorError) (r : Request) (k : Json → Call B)
      (c : Client) (b : B)
      → ((request fetch refused r >>= k) c).0 ≡ ok b
      → (j : Json) × (code : ℕ) × (d : Client) × (fetch r ≡ answer code (some j))
        × (is_success code ≡ true)
        × ((k j d).0 ≡ ok b)
  unfolding request read_answer read_body ◌>>=◌
  asked fetch refused r k c b h = replied (fetch r) refl h
    where
      replied :
          (f : Response)
          → fetch r ≡ f
          → (continue (read_answer refused f, record c { sent = r ∷ c.sent }) k).0 ≡ ok b
          → (j : Json) × (code : ℕ) × (d : Client) × (fetch r ≡ answer code (some j))
            × (is_success code ≡ true)
            × ((k j d).0 ≡ ok b)
      replied no_answer e h = absurd (err-ne-ok h)
      replied (answer code none) e h = elim (Bool-cases (is_success code)) [
        | inl s ↦ absurd (err-ne-ok (rw s at h))
        | inr n ↦ absurd (err-ne-ok (rw n at h))
      ]
      replied (answer code (some j)) e h = elim (Bool-cases (is_success code)) [
        | inl s ↦ (j, code, record c { sent = r ∷ c.sent }, e, s, rw s at h)
        | inr n ↦ absurd (err-ne-ok (rw n at h))
      ]

-- A call that succeeds in a chain, whatever it is.
module _ {ℓ κ} {A : Type ℓ} {B : Type κ} where
  pub called :
      (call : Call A) (k : A → Call B) (c : Client) (b : B)
      → ((call >>= k) c).0 ≡ ok b
      → (a : A) × (d : Client) × ((k a d).0 ≡ ok b)
  unfolding ◌>>=◌
  called call k c b h = after (call c) h
    where
      after :
          (r : Outcome A × Client)
          → (continue r k).0 ≡ ok b
          → (a : A) × (d : Client) × ((k a d).0 ≡ ok b)
      after (ok a, d) h = (a, d, h)
      after (err e, d) h = absurd (err-ne-ok h)

-- A request whose answer the caller reads.
module _ {κ} {B : Type κ} where
  pub exchanged_with :
      (fetch : Request → Response) (r : Request) (k : ℕ × Option Json → Call B) (c : Client) (b : B)
      → ((exchange fetch r >>= k) c).0 ≡ ok b
      → (status : ℕ) × (body : Option Json) × (d : Client) × (fetch r ≡ answer status body)
        × ((k (status, body) d).0 ≡ ok b)
  unfolding exchange ◌>>=◌
  exchanged_with fetch r k c b h = replied (fetch r) refl h
    where
      replied :
          (f : Response)
          → fetch r ≡ f
          → (continue (exchanged f, record c { sent = r ∷ c.sent }) k).0 ≡ ok b
          → (status : ℕ) × (body : Option Json) × (d : Client) × (fetch r ≡ answer status body)
            × ((k (status, body) d).0 ≡ ok b)
      replied no_answer e h = absurd (err-ne-ok h)
      replied (answer status body) e h = (status, body, record c { sent = r ∷ c.sent }, e, h)

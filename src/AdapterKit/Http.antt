-- ===== src/AdapterKit/Http.antt =====
-- The calls that the adapters make of `fetch`, and what they share in treating its answers: an HTTP
-- error is a failure that may be tried again from 500 on, and what is thrown on the way is caught as
-- an anchor that is not available. A client has the requests it sent, newest first, and its SEP-10
-- session; a method is a function from the client to an outcome and a client.
pub mod Laws
use corridor_in_a_box.Base.{
  ℕ, String, Bool, true, ◌&&◌, Option, none, some, List, ◌∷◌, if◌then◌else◌, leb, ltb,
}
use corridor_in_a_box.Types.{ErrorCode, anchor_unavailable}
use corridor_in_a_box.Outcome.{Outcome, ok, err, CorridorError, nothing, thrown}
use corridor_in_a_box.Json.{Json, Fields, is_null}

pub data Method : Type 0 where
  get post put : Method

-- A URL is the list of the texts that its template joins, with the query's values in order.
pub record Request : Type 0 where
  pub method : Method
  pub url : List String
  pub bearer : Option String
  pub body : Fields

-- What `fetch` resolves with; a body that is not JSON is none.
pub data Response : Type 0 where
  no_answer : Response
  answer : (status : ℕ) (body : Option Json) → Response

pub record Session : Type 0 where
  pub token : String
  pub exp_ms : ℕ

pub record Client : Type 0 where
  pub sent : List Request
  pub session : Option Session

abbrev pub Call {ℓ} : Type ℓ → Type ℓ
Call A = Client → Outcome A × Client

module _ {ℓ κ} {A : Type ℓ} {B : Type κ} where
  abbrev pub continue : Outcome A × Client → (A → Call B) → Outcome B × Client
  continue (ok a, c) k = k a c
  continue (err e, c) k = (err e, c)

  infixl 5 ◌>>=◌
  unfoldable pub ◌>>=◌ : Call A → (A → Call B) → Call B
  ◌>>=◌ m k c = continue (m c) k

module _ {ℓ} {A : Type ℓ} where
  unfoldable pub give : Outcome A → Call A
  give r c = (r, c)

-- `fail(code, message, { retryable })`.
abbrev pub failure : ErrorCode → Bool → CorridorError
failure code retryable = record { code = code; retryable = retryable; cause = nothing }

-- `catch (cause)`.
abbrev pub caught : CorridorError
caught = record { code = anchor_unavailable; retryable = true; cause = thrown }

-- `res.ok`.
abbrev pub is_success : ℕ → Bool
is_success status = leb 200 status && ltb status 300

-- `res.status >= 500`.
abbrev pub is_server_error : ℕ → Bool
is_server_error status = leb 500 status

unfoldable pub read_body : Option Json → Outcome Json
read_body none = err caught
read_body (some j) = ok j

unfoldable pub read_answer : (ℕ → CorridorError) → Response → Outcome Json
unfolding read_body
read_answer refused no_answer = err caught
read_answer refused (answer status body) =
    if is_success status then read_body body else err (refused status)

-- A field is read of the value: on null that throws.
unfoldable pub an_object : Json → Outcome Json
an_object j = if is_null j then err caught else ok j

unfoldable pub request : (Request → Response) → (ℕ → CorridorError) → Request → Call Json
unfolding read_answer
request fetch refused r c = (read_answer refused (fetch r), record c { sent = r ∷ c.sent })

abbrev accept : (ℕ → CorridorError) → Response → Outcome (Unit {0})
accept refused no_answer = err caught
accept refused (answer status body) = if is_success status then ok tt else err (refused status)

-- A request whose answer has no body to read.
unfoldable pub send : (Request → Response) → (ℕ → CorridorError) → Request → Call (Unit {0})
send fetch refused r c = (accept refused (fetch r), record c { sent = r ∷ c.sent })

abbrev pub exchanged : Response → Outcome (ℕ × Option Json)
exchanged no_answer = err caught
exchanged (answer status body) = ok (status, body)

-- A request whose answer is read by the caller, whatever its status.
unfoldable pub exchange : (Request → Response) → Request → Call (ℕ × Option Json)
exchange fetch r c = (exchanged (fetch r), record c { sent = r ∷ c.sent })

-- ===== src/AdapterKit/Sep10.antt =====
-- packages/adapter-kit/src/sep10.ts: the challenge and the token of an authenticated session.
use corridor_in_a_box.Base.{
  ℕ, ◌+◌, ◌*◌, String, true, Option, none, some, List, [], ◌∷◌, if◌then◌else◌, ltb, or_else,
}
use corridor_in_a_box.Types.{anchor_unavailable}
use corridor_in_a_box.Outcome.{Outcome, ok, err, CorridorError}
use corridor_in_a_box.Json.{Json, str, end, field, text, non_empty}
use corridor_in_a_box.AdapterKit.Http.{
  Request, get, post, Response, Session, Call, ◌>>=◌, give, failure, caught, an_object, request,
}

-- `fee: { total, asset }` of an answer.
pub record FeeAnswer : Type 0 where
  pub total : List ℕ
  pub asset : String

pub record QuoteAnswer : Type 0 where
  pub id : String
  pub price : List ℕ
  pub total_price : Option (List ℕ)
  pub expires_at : String
  pub sell_amount : Option (List ℕ)
  pub buy_amount : List ℕ
  pub fee : Option FeeAnswer

-- What an adapter runs on: `fetch`, the clock, the signer's `signChallenge` (none if it throws), and
-- the `exp` claim that `Buffer` and `JSON.parse` read of a token. `decode_quote` reads an answer at the
-- type that the code casts it to, `date_of` is `Date.parse` of a date, and `amount_text` makes a text of
-- its code points.
pub record Net : Type 0 where
  pub fetch : Request → Response
  pub now : ℕ
  pub sign_challenge : String → String → Option String
  pub exp_claim : String → Option ℕ
  pub decode_quote : Json → Option QuoteAnswer
  pub date_of : String → ℕ
  pub amount_text : List ℕ → String

unfoldable pub jwt_expiry_ms : Net → String → Option ℕ
jwt_expiry_ms net token = seconds (net.exp_claim token)
  where
    seconds : Option ℕ → Option ℕ
    seconds none = none
    seconds (some exp) = some (exp * 1000)

abbrev auth_failed : CorridorError
auth_failed = failure anchor_unavailable true

abbrev required : Option String → Outcome String
required none = err auth_failed
required (some s) = ok s

abbrev signed_by : Option String → Outcome String
signed_by none = err caught
signed_by (some s) = ok s

-- `this.cachedToken`, while it has half a minute left.
unfoldable pub live_token : Option Session → ℕ → Option String
live_token none now = none
live_token (some s) now = if ltb (now + 30_000) s.exp_ms then some s.token else none

unfoldable pub store_session : Net → String → Call (Unit {0})
unfolding jwt_expiry_ms
store_session net token c = (
  ok tt,
  record c {
    session = some (record {
      token = token;
      exp_ms = or_else (jwt_expiry_ms net token) (net.now + 15 * 60_000);
    });
  },
)

module _ (net : Net) (web_auth home_domain account : String) where
  -- The handshake: a challenge is fetched, signed, and posted for a token.
  unfoldable pub handshake : Call (Option String)
  unfolding request an_object give store_session ◌>>=◌
  handshake = do
    answer ←
        request net.fetch (λ status. auth_failed)
          (record {
            method = get;
            url = web_auth ∷ account ∷ home_domain ∷ [];
            bearer = none;
            body = end;
          })
    challenge ← give (an_object answer)
    transaction ← give (required (text "transaction" challenge))
    passphrase ← give (required (text "network_passphrase" challenge))
    signed ← give (signed_by (net.sign_challenge transaction passphrase))
    reply ←
        request net.fetch (λ status. auth_failed)
          (record {
            method = post;
            url = web_auth ∷ [];
            bearer = none;
            body = field "transaction" (str signed) end;
          })
    granted ← give (an_object reply)
    token ← give (required (text "token" granted))
    _ ← store_session net token
    give (ok (some token))

  abbrev use_or_renew : Option String → Call (Option String)
  use_or_renew (some token) = give (ok (some token))
  use_or_renew none = handshake

  unfoldable pub renew : Call (Option String)
  unfolding live_token give handshake
  renew c = use_or_renew (live_token c.session net.now) c

abbrev token_of : Net → Option String → String → Option String → Call (Option String)
token_of net (some web_auth) home_domain (some account) = renew net web_auth home_domain account
token_of net _ home_domain _ = give (ok none)

-- `Sep10Client.token`: nothing when no endpoint or no signer is configured.
unfoldable pub token : Net → Option String → String → Option String → Call (Option String)
unfolding renew give
token net web_auth home_domain account = token_of net (non_empty web_auth) home_domain account

-- ===== src/AdapterKit/Sep12.antt =====
-- packages/adapter-kit/src/sep12.ts: the receiving anchor's view of a customer.
use corridor_in_a_box.Base.{String, Option, none, some, [], ◌∷◌, if◌then◌else◌, or_else, str_eq}
use corridor_in_a_box.Types.{kyc_required}
use corridor_in_a_box.Outcome.{ok, fail}
use corridor_in_a_box.Anchor.{KycResult, KycStatus, accepted, pending, rejected}
use corridor_in_a_box.Json.{Json, end, text, text_of, to_upper, non_empty}
use corridor_in_a_box.Json
use corridor_in_a_box.AdapterKit.Http.{get, Call, ◌>>=◌, give, failure, is_server_error, request}
use corridor_in_a_box.AdapterKit.Sep10.{Net}

abbrev pub status_of : String → KycStatus
status_of status =
    if str_eq status "ACCEPTED"
    then accepted
    else if str_eq status "REJECTED"
    then rejected
    else pending

-- What the anchor's answer says; a missing or unknown status is pending.
unfoldable pub read_customer : Json → KycResult
unfolding to_upper Json.get
read_customer j = record {
  status = status_of (to_upper (or_else (text_of (Json.get "status" j)) ""));
  customer_id = text "id" j;
}

abbrev check_customer :
    Net → Call (Option String) → String → Option String → String → Call KycResult
check_customer net auth kyc_server none type = give (fail kyc_required)
check_customer net auth kyc_server (some id) type = do
  bearer ← auth
  j ←
      request net.fetch (λ status. failure kyc_required (is_server_error status))
        (record {
          method = get;
          url = kyc_server ∷ "/customer" ∷ id ∷ type ∷ [];
          bearer = bearer;
          body = end;
        })
  give (ok (read_customer j))

-- `Sep12ComplianceCheck.check`: without the customer's id nothing is asked.
unfoldable pub check : Net → Call (Option String) → String → Option String → String → Call KycResult
unfolding request give read_customer ◌>>=◌
check net auth kyc_server customer type =
    check_customer net auth kyc_server (non_empty customer) type

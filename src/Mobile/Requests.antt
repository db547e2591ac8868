-- ===== src/Mobile/Requests.antt =====
-- apps/mobile/src/services: api-client.ts, the requests of payments-client.ts, and auth-client.ts.
use mix_match_onchain.Base.{
  ℕ, zero, suc, String, Option, none, some, List, [], ◌∷◌, ◌&&◌, not, leb, concat, or_default,
  is_truthy, if◌then◌else◌,
}
use mix_match_onchain.Exec.{Result, ok, err}
use mix_match_onchain.Env.Http.{Method, get, post}
use mix_match_onchain.Api.Auth.{AuthInput}
use mix_match_onchain.Api.Custody.{EstablishTrustlineInput}
use mix_match_onchain.Api.Paths.{PathQuoteInput, SendPaymentInput}

-- What a request rejects with: an `ApiError` with its message and code, or what `fetch` throws.
pub data Rejection : Type 0 where
  api_error : String → Option String → Rejection
  fetch_failed : String → Rejection

-- The bodies, before they are printed as JSON.
pub data Body : Type 0 where
  empty : Body
  payment : SendPaymentInput → Body
  trustline : EstablishTrustlineInput → Body
  quote : PathQuoteInput → Body
  account : AuthInput → Body

pub record ApiRequest : Type 0 where
  pub url : String
  pub method : Method
  pub authorization : Option String
  pub body : Body

-- `message` of a body that reports an error
pub data Message : Type 0 where
  one : String → Message
  many : List String → Message

-- What a body of JSON has, where it reports an error.
pub record Fields : Type 0 where
  pub message : Option Message
  pub code : Option String

-- `json` is what `response.json()` settles to, none where it rejects.
pub record ApiResponse (Json : Type 0) : Type 0 where
  pub status : ℕ
  pub json : Option Json

-- `Array.isArray(err?.message) ? err?.message[0] : err?.message`
abbrev pub first_message : Option Message → Option String
first_message none = none
first_message (some (one message)) = some message
first_message (some (many [])) = none
first_message (some (many (message ∷ messages))) = some message

abbrev pub no_fields : Fields
no_fields = record { message = none; code = none }

-- `authHeaders(accessToken)`
abbrev pub auth_headers : String → Option String
auth_headers access_token = some (concat "Bearer " access_token)

-- `TransactionHistoryParams`
pub record TransactionHistoryParams : Type 0 where
  pub page : Option ℕ
  pub limit : Option ℕ

-- `number_text` is `String(n)`, `fields` what a body has, `fetch` the outside.
module _ {Json : Type 0} (api_url : String) (number_text : ℕ → String) (fields : Json → Fields)
    (fetch : ApiRequest → Result Rejection (ApiResponse Json)) where
  abbrev pub fields_of : Option Json → Fields
  fields_of none = no_fields
  fields_of (some json) = fields json

  abbrev pub rejection : Option Json → Rejection
  rejection json =
      api_error (or_default (first_message (fields_of json).message) "Something went wrong")
        (fields_of json).code

  -- The answer of `request`, none for undefined.
  abbrev pub read_answer : Result Rejection (ApiResponse Json) → Result Rejection (Option Json)
  read_answer (err e) = err e
  read_answer (ok response) =
      if not (leb 200 response.status && leb response.status 299)
      then err (rejection response.json)
      else ok response.json

  -- `request`
  unfoldable pub request : String → Method → Option String → Body → Result Rejection (Option Json)
  request path method authorization body = read_answer (
      fetch (record {
        url = concat api_url path;
        method = method;
        authorization = authorization;
        body = body;
      }))

  -- `sendPayment`
  abbrev pub send_payment : SendPaymentInput → String → Result Rejection (Option Json)
  send_payment input access_token =
      request "/payments/send" post (auth_headers access_token) (payment input)

  -- `getStellarAccount`
  abbrev pub get_stellar_account : String → Result Rejection (Option Json)
  get_stellar_account access_token =
      request "/payments/account" get (auth_headers access_token) empty

  -- `getTransactionStatus`
  abbrev pub get_transaction_status : String → String → Result Rejection (Option Json)
  get_transaction_status id access_token =
      request (concat "/payments/" (concat id "/status")) get (auth_headers access_token) empty

  -- `if (value) query.set(name, String(value))`, for a query whose text is `before`
  abbrev pub set_parameter : String → Option ℕ → String → String
  set_parameter name none before = before
  set_parameter name (some zero) before = before
  set_parameter name (some (suc n)) before =
      let entry = concat name (concat "=" (number_text (suc n))) in
      if is_truthy before then concat before (concat "&" entry) else entry

  -- `getTransactionHistory`
  unfoldable pub get_transaction_history :
      TransactionHistoryParams → String → Result Rejection (Option Json)
  get_transaction_history params access_token =
      let qs = set_parameter "limit" params.limit (set_parameter "page" params.page "") in
      request (concat "/payments/history" (if is_truthy qs then concat "?" qs else "")) get
        (auth_headers access_token) empty

  -- `reconcileTransaction`
  abbrev pub reconcile_transaction : String → String → Result Rejection (Option Json)
  reconcile_transaction id access_token =
      request (concat "/payments/" (concat id "/reconcile")) post (auth_headers access_token) empty

  -- `establishTrustline`
  abbrev pub establish_trustline : EstablishTrustlineInput → String → Result Rejection (Option Json)
  establish_trustline input access_token =
      request "/payments/trustlines" post (auth_headers access_token) (trustline input)

  -- `quotePath`
  abbrev pub quote_path : PathQuoteInput → String → Result Rejection (Option Json)
  quote_path input access_token =
      request "/payments/quote" post (auth_headers access_token) (quote input)

  -- `registerUser`, `loginUser` and `getCurrentUser`
  abbrev pub register_user : AuthInput → Result Rejection (Option Json)
  register_user input = request "/auth/register" post none (account input)

  abbrev pub login_user : AuthInput → Result Rejection (Option Json)
  login_user input = request "/auth/login" post none (account input)

  abbrev pub get_current_user : String → Result Rejection (Option Json)
  get_current_user access_token = request "/auth/me" get (auth_headers access_token) empty

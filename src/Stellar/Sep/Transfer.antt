-- ===== src/Stellar/Sep/Transfer.antt =====
-- packages/stellar/src/sep/sep24.ts: interactive deposits and withdrawals, and their statuses.
use mix_match_onchain.Base.{
  String, Bool, Option, some, List, [], ◌∷◌, ◌++◌, concat, any, truthy, or_default, ◌==◌,
  if◌then◌else◌, trim_string,
}
use mix_match_onchain.Exec.{Result, ok, err, lift, pure, throw, ◌>>=◌}
use mix_match_onchain.Error.{Error, plain}
use mix_match_onchain.Env.{Env}
use mix_match_onchain.Env.Http.{Response, Request, is_ok, get, post}
use mix_match_onchain.Env.Web.{
  AnchorStatus, AnchorKind, Interactive, RawSep24Transaction, incomplete,
  pending_user_transfer_start, pending_user_transfer_complete, pending_external, pending_anchor,
  pending_stellar, pending_trust, pending_user, on_hold, completed, refunded, expired, error,
}
use mix_match_onchain.Stellar.Net.{Net}
use mix_match_onchain.Stellar.Sep.Http.{fetch}

-- The text of a status.
abbrev pub status_text : AnchorStatus → String
status_text incomplete = "incomplete"
status_text pending_user_transfer_start = "pending_user_transfer_start"
status_text pending_user_transfer_complete = "pending_user_transfer_complete"
status_text pending_external = "pending_external"
status_text pending_anchor = "pending_anchor"
status_text pending_stellar = "pending_stellar"
status_text pending_trust = "pending_trust"
status_text pending_user = "pending_user"
status_text on_hold = "on_hold"
status_text completed = "completed"
status_text refunded = "refunded"
status_text expired = "expired"
status_text error = "error"

-- `SEP24_IN_PROGRESS_STATUSES`
abbrev pub sep24_in_progress_statuses : List AnchorStatus
sep24_in_progress_statuses =
    incomplete ∷ pending_user_transfer_start ∷ pending_user_transfer_complete ∷ pending_external
    ∷ pending_anchor ∷ pending_stellar ∷ pending_trust ∷ pending_user ∷ on_hold ∷ []

-- `SEP24_FAILURE_STATUSES`
abbrev pub sep24_failure_statuses : List AnchorStatus
sep24_failure_statuses = refunded ∷ expired ∷ error ∷ []

-- `statuses.has(status)`
unfoldable pub has : List AnchorStatus → AnchorStatus → Bool
has statuses status = any (λ s. status_text s == status_text status) statuses

-- `Sep24Transaction`
pub record Sep24Transaction : Type 0 where
  pub id : String
  pub kind : AnchorKind
  pub status : AnchorStatus
  pub amount_in : Option String
  pub amount_out : Option String
  pub started_at : String
  pub completed_at : Option String
  pub more_info_url : Option String
  pub stellar_transaction_id : Option String
  pub external_transaction_id : Option String
  pub message : Option String

-- `toSep24Transaction`; an absent field and null are both `none`.
abbrev pub to_sep24_transaction : RawSep24Transaction → Sep24Transaction
to_sep24_transaction raw = record {
  id = raw.id;
  kind = raw.kind;
  status = raw.status;
  amount_in = raw.amount_in;
  amount_out = raw.amount_out;
  started_at = raw.started_at;
  completed_at = raw.completed_at;
  more_info_url = raw.more_info_url;
  stellar_transaction_id = raw.stellar_transaction_id;
  external_transaction_id = raw.external_transaction_id;
  message = raw.message;
}

-- `InitiateSep24Params`
pub record InitiateSep24Params : Type 0 where
  pub transfer_server_sep24 : String
  pub jwt : String
  pub asset_code : String
  pub account : Option String
  pub amount : Option String

-- `if (value) form.set(name, value)`
abbrev pub set_field : String → Option String → List (String × String)
set_field name value = if truthy value then (name, or_default value "") ∷ [] else []

-- `buildSep24Form`
abbrev pub build_sep24_form : InitiateSep24Params → List (String × String)
build_sep24_form params =
    ("asset_code", params.asset_code)
    ∷ (set_field "account" params.account ++ set_field "amount" params.amount)

-- `authHeaders`
abbrev pub bearer : String → Option String
bearer jwt = some (concat "Bearer " jwt)

-- `response.text().catch(() => '')`
abbrev pub text_or_empty : Result Error String → String
text_or_empty (ok text) = text
text_or_empty (err e) = ""

module _ (env : Env) where
  abbrev pub sep24_refusal : String → Response → Error
  sep24_refusal url response = plain (
      trim_string (
        concat "SEP-24 request to " (
          concat url (
            concat " failed: HTTP "
              (concat (env.show_ℕ response.status) (concat " " (text_or_empty response.text)))))))

  -- `fetchJson`; `parse` reads the body.
  unfoldable pub fetch_json : {A : Type 0} → (String → Result Error A) → Request → Net A
  fetch_json parse request = do
    response ← fetch env request
    if is_ok response
        then (do text ← lift response.text; lift (parse text))
        else throw (sep24_refusal request.url response)

  abbrev pub form_request : String → InitiateSep24Params → Request
  form_request path params = record {
    method = post;
    url = concat params.transfer_server_sep24 path;
    authorization = bearer params.jwt;
    body = build_sep24_form params;
  }

  -- `initiateSep24Deposit`
  unfoldable pub initiate_sep24_deposit : InitiateSep24Params → Net Interactive
  initiate_sep24_deposit params =
      fetch_json env.web.parse_interactive (form_request "/transactions/deposit/interactive" params)

  -- `initiateSep24Withdraw`
  unfoldable pub initiate_sep24_withdraw : InitiateSep24Params → Net Interactive
  initiate_sep24_withdraw params =
      fetch_json env.web.parse_interactive
        (form_request "/transactions/withdraw/interactive" params)

  -- `getSep24Transaction`
  unfoldable pub get_sep24_transaction :
      (transfer_server_sep24 jwt id : String) → Net Sep24Transaction
  get_sep24_transaction transfer_server_sep24 jwt id = do
    url ← lift (env.web.url_with (concat transfer_server_sep24 "/transaction") (("id", id) ∷ []))
    raw ←
        fetch_json env.web.parse_transaction
          (record { method = get; url = url; authorization = bearer jwt; body = [] })
    pure (to_sep24_transaction raw)

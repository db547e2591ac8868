-- ===== src/Api/AnchorService.antt =====
-- apps/api/src/modules/payments/anchor.service.ts
pub mod Access
pub mod Start
pub mod History
pub mod Quiet
use mix_match_onchain.Base.{
  ℕ, String, Bool, true, false, ◌&&◌, Option, none, some, List, [], ◌∷◌, ◌==◌, concat, truthy,
  or_default, if◌then◌else◌,
}
use mix_match_onchain.Exec.{pure, throw, try_catch, ◌>>=◌, ◌>>◌}
use mix_match_onchain.Error.{
  Error, payment_failed, escrow_failed, anchor_error, not_found, conflict, unauthorized,
  bad_request, forbidden,
}
use mix_match_onchain.Env.{Env}
use mix_match_onchain.Env.Web.{AnchorKind, AnchorStatus, Interactive, deposit, withdrawal}
use mix_match_onchain.Stellar.Net.{Net}
use mix_match_onchain.Stellar.Wallet.{Wallet}
use mix_match_onchain.Stellar.Sep.Toml.{StellarTomlInfo, fetch_stellar_toml}
use mix_match_onchain.Stellar.Sep.Auth.{Sep10AuthParams, authenticate_sep10}
use mix_match_onchain.Stellar.Sep.Transfer.{
  Sep24Transaction, InitiateSep24Params, has, sep24_in_progress_statuses, initiate_sep24_deposit,
  initiate_sep24_withdraw, get_sep24_transaction,
}
use mix_match_onchain.Api.Rows.{Account, AnchorTransaction}
use mix_match_onchain.Api.Store.{App, net}
use mix_match_onchain.Api.Accounts
use mix_match_onchain.Api.Anchors
use mix_match_onchain.Api.Anchors.{
  Date, at, invalid, NewAnchorTransaction, AnchorUpdate, AnchorTransactionPage,
}
use mix_match_onchain.Api.EscrowService.{error_text}
use mix_match_onchain.Api.Wallets.{wallet_for_account}
use mix_match_onchain.Api.Custody.{get_or_create_stellar_account}

-- `DepositAnchorInput`, `WithdrawAnchorInput`
pub record AnchorInput : Type 0 where
  pub asset_code : String
  pub amount : Option String

pub record Initiated : Type 0 where
  pub transaction : AnchorTransaction
  pub interactive_url : String

-- The fields of an anchor's metadata that the service cannot do without.
pub record AnchorEndpoints : Type 0 where
  pub web_auth_endpoint : String
  pub signing_key : String
  pub transfer_server_sep24 : String

-- `IN_PROGRESS_STATUSES`
abbrev pub in_progress_statuses : List AnchorStatus
in_progress_statuses = sep24_in_progress_statuses

-- `!toml.webAuthEndpoint || !toml.signingKey || !toml.transferServerSep24`, negated: the three
-- texts, when none is missing or empty.
abbrev pub endpoints_of : StellarTomlInfo → Option AnchorEndpoints
endpoints_of toml =
    if truthy toml.web_auth_endpoint && truthy toml.signing_key && truthy toml.transfer_server_sep24
    then some (record {
      web_auth_endpoint = or_default toml.web_auth_endpoint "";
      signing_key = or_default toml.signing_key "";
      transfer_server_sep24 = or_default toml.transfer_server_sep24 "";
    })
    else none

-- `error instanceof HttpException`
abbrev pub is_http_exception : Error → Bool
is_http_exception (payment_failed kind m) = true
is_http_exception (escrow_failed m) = true
is_http_exception (anchor_error m) = true
is_http_exception (not_found m) = true
is_http_exception (conflict m) = true
is_http_exception (unauthorized m) = true
is_http_exception (bad_request m) = true
is_http_exception (forbidden m) = true
is_http_exception _ = false

abbrev pub date_of : Option ℕ → Date
date_of none = invalid
date_of (some t) = at t

module _ (env : Env) where
  -- `new Date(text)`
  abbrev pub new_date : String → Date
  new_date text = date_of (env.parse_date text)

  -- `text ? new Date(text) : undefined`
  abbrev pub completed_date : Option String → Option Date
  completed_date text = if truthy text then some (new_date (or_default text "")) else none

  -- The row for a transaction that was started, with `sep24TransactionFields`.
  abbrev pub started_row :
      Account
      → AnchorKind
      → AnchorInput
      → String
      → Interactive
      → Sep24Transaction
      → NewAnchorTransaction
  started_row account kind input home_domain interactive initial = record {
    stellar_account_id = account.id;
    kind = kind;
    asset_code = input.asset_code;
    home_domain = home_domain;
    sep24_transaction_id = interactive.id;
    status = initial.status;
    interactive_url = some interactive.url;
    more_info_url = initial.more_info_url;
    amount_in = initial.amount_in;
    amount_out = initial.amount_out;
    stellar_transaction_id = initial.stellar_transaction_id;
    external_transaction_id = initial.external_transaction_id;
    message = initial.message;
    started_at = new_date initial.started_at;
    completed_at = completed_date initial.completed_at;
  }

  abbrev pub auth_params : AnchorEndpoints → String → Wallet → Sep10AuthParams
  auth_params endpoints home_domain wallet = record {
    web_auth_endpoint = endpoints.web_auth_endpoint;
    server_signing_key = endpoints.signing_key;
    home_domain = home_domain;
    wallet = wallet;
    network_passphrase = env.config.network_passphrase;
  }

  -- `initiateFn`
  abbrev pub initiate_with : AnchorKind → InitiateSep24Params → Net Interactive
  initiate_with deposit params = initiate_sep24_deposit env params
  initiate_with withdrawal params = initiate_sep24_withdraw env params

  -- The body of the `try` of `initiate`.
  pub start : Account → AnchorKind → AnchorInput → AnchorEndpoints → Wallet → App Initiated
  start account kind input endpoints wallet = do
    jwt ← net (authenticate_sep10 env (auth_params endpoints env.config.anchor_home_domain wallet))
    interactive ← net (
        initiate_with kind (record {
          transfer_server_sep24 = endpoints.transfer_server_sep24;
          jwt = jwt;
          asset_code = input.asset_code;
          account = some wallet.public_key;
          amount = input.amount;
        }))
    initial ← net (get_sep24_transaction env endpoints.transfer_server_sep24 jwt interactive.id)
    row ←
        Anchors.create env
          (started_row account kind input env.config.anchor_home_domain interactive initial)
    pure (record { transaction = row; interactive_url = interactive.url })

  pub initiate_at : Account → AnchorKind → AnchorInput → Option AnchorEndpoints → App Initiated
  unfolding start
  initiate_at account kind input none = throw (
      anchor_error (
        concat "Anchor at "
          (concat env.config.anchor_home_domain " is missing required SEP-1 metadata")))
  initiate_at account kind input (some endpoints) = do
    wallet ← net (wallet_for_account env account)
    try_catch (start account kind input endpoints wallet) (λ error.
        if is_http_exception error then throw error else throw (anchor_error (error_text error)))

  -- `initiate`
  unfoldable pub initiate : String → AnchorKind → AnchorInput → App Initiated
  unfolding initiate_at
  initiate user_id kind input = do
    account ← get_or_create_stellar_account env user_id
    toml ← net (fetch_stellar_toml env env.config.anchor_home_domain)
    initiate_at account kind input (endpoints_of toml)

  -- `depositForUser`
  abbrev pub deposit_for_user : String → AnchorInput → App Initiated
  deposit_for_user user_id input = initiate user_id deposit input

  -- `withdrawForUser`
  abbrev pub withdraw_for_user : String → AnchorInput → App Initiated
  withdraw_for_user user_id input = initiate user_id withdrawal input

  abbrev pub latest_update : Sep24Transaction → AnchorUpdate
  latest_update latest = record {
    status = latest.status;
    amount_in = latest.amount_in;
    amount_out = latest.amount_out;
    stellar_transaction_id = latest.stellar_transaction_id;
    external_transaction_id = latest.external_transaction_id;
    message = latest.message;
    completed_at = completed_date latest.completed_at;
  }

  pub refresh_at : AnchorTransaction → Account → Option AnchorEndpoints → App AnchorTransaction
  refresh_at transaction account none = pure transaction
  refresh_at transaction account (some endpoints) = do
    wallet ← net (wallet_for_account env account)
    jwt ← net (authenticate_sep10 env (auth_params endpoints transaction.home_domain wallet))
    latest ← net (
        get_sep24_transaction env endpoints.transfer_server_sep24 jwt
          transaction.sep24_transaction_id)
    Anchors.update_from_anchor env transaction.id (latest_update latest)

  pub refresh_for : AnchorTransaction → Option Account → App AnchorTransaction
  unfolding refresh_at
  refresh_for transaction none = pure transaction
  refresh_for transaction (some account) = do
    toml ← net (fetch_stellar_toml env transaction.home_domain)
    refresh_at transaction account (endpoints_of toml)

  -- `refreshFromAnchor`
  unfoldable pub refresh_from_anchor : AnchorTransaction → App AnchorTransaction
  unfolding refresh_for
  refresh_from_anchor transaction = do
    account ← Accounts.find_by_id env transaction.stellar_account_id
    refresh_for transaction account

  pub owned_by : String → AnchorTransaction → Option Account → App AnchorTransaction
  owned_by user_id row none = throw (forbidden "You do not have access to this anchor transaction")
  owned_by user_id row (some account) =
      if account.user_id == user_id
      then pure row
      else throw (forbidden "You do not have access to this anchor transaction")

  pub with_owner : String → Option AnchorTransaction → App AnchorTransaction
  unfolding owned_by
  with_owner user_id none = throw (not_found "Anchor transaction not found")
  with_owner user_id (some row) = do
    account ← Accounts.find_by_id env row.stellar_account_id
    owned_by user_id row account

  -- `getOwnedAnchorTransaction`
  unfoldable pub get_owned_anchor_transaction : String → String → App AnchorTransaction
  unfolding with_owner
  get_owned_anchor_transaction user_id id = do
    row ← Anchors.find_by_id env id
    with_owner user_id row

  -- `getStatusForUser`
  unfoldable pub get_status_for_user : String → String → App AnchorTransaction
  get_status_for_user user_id id = do
    transaction ← get_owned_anchor_transaction user_id id
    if has sep24_in_progress_statuses transaction.status
        then refresh_from_anchor transaction
        else pure transaction

  -- `this.refreshFromAnchor(transaction).catch(() => undefined)`
  pub try_refresh : AnchorTransaction → App Unit
  try_refresh transaction =
      try_catch (refresh_from_anchor transaction >> pure tt) (λ error. pure tt)

  -- `Promise.all` over the rows, one after the other.
  pub refresh_all : List AnchorTransaction → App Unit
  unfolding try_refresh
  refresh_all [] = pure tt
  refresh_all (transaction ∷ rest) = try_refresh transaction >> refresh_all rest

  pub history_of : Option Account → ℕ → ℕ → App AnchorTransactionPage
  unfolding refresh_all
  history_of none page limit = pure (record { transactions = []; total = 0 })
  history_of (some account) page limit = do
    in_progress ← Anchors.find_in_progress_by_stellar_account_id env account.id in_progress_statuses
    refresh_all in_progress
    Anchors.list_by_stellar_account_id env account.id page limit

  -- `listHistoryForUser`
  unfoldable pub list_history_for_user : String → ℕ → ℕ → App AnchorTransactionPage
  unfolding history_of
  list_history_for_user user_id page limit = do
    account ← Accounts.find_by_user_id env user_id
    history_of account page limit

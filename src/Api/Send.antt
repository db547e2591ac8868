-- ===== src/Api/Send.antt =====
-- apps/api/src/modules/payments/payments.service.ts: `sendPayment`.
use mix_match_onchain.Base.{
  String, Bool, false, ◌&&◌, ◌||◌, not, Option, none, some, truthy, is_some, if◌then◌else◌,
}
use mix_match_onchain.Exec.{ok, pure, throw, try_catch, ◌>>=◌, ◌>>◌}
use mix_match_onchain.Error.{Error, duplicate_idempotency_key}
use mix_match_onchain.Env.{Env}
use mix_match_onchain.Env.Sdk.{SubmitResult}
use mix_match_onchain.Env.Calls.{random}
use mix_match_onchain.Stellar.Errors.{classify, kind_name}
use mix_match_onchain.Stellar.Net.{Net, ask}
use mix_match_onchain.Stellar.Wallet.{Wallet}
use mix_match_onchain.Stellar.Payment.{submit_payment}
use mix_match_onchain.Stellar.PathPayment.{PathQuote, submit_path_payment}
use mix_match_onchain.Stellar.Multisig.{configure_multisig, build_high_value_payment_envelope}
use mix_match_onchain.Api.Rows.{Account, Transaction, success, failed}
use mix_match_onchain.Api.Store.{App, net}
use mix_match_onchain.Api.Accounts
use mix_match_onchain.Api.Transactions
use mix_match_onchain.Api.Transactions.{NewTransaction, StatusUpdate}
use mix_match_onchain.Api.Wallets.{admin_signing_configured, admin_wallet, wallet_for_account}
use mix_match_onchain.Api.Custody.{get_or_create_stellar_account, fail_payment}
use mix_match_onchain.Api.Paths.{SendPaymentInput, asset_ref, resolve_path_quote}

-- What the creation of the row came to: a new row, or the row that already has the key.
pub data Opening : Type 0 where
  fresh : Transaction → Opening
  repeated : Transaction → Opening

-- `{ status: 'SUCCESS', stellarTxHash: hash }`
abbrev pub succeeded : String → Bool → StatusUpdate
succeeded hash clear = record {
  status = success;
  stellar_tx_hash = some hash;
  failure_code = none;
  failure_reason = none;
  clear_pending_envelope = clear;
}

-- `{ status: 'FAILED', failureCode: classified.kind, failureReason: classified.message }`
abbrev pub failed_by : Error → Bool → StatusUpdate
failed_by error clear = record {
  status = failed;
  stellar_tx_hash = none;
  failure_code = some (kind_name (classify error).kind);
  failure_reason = some (classify error).message;
  clear_pending_envelope = clear;
}

abbrev source_amount_of : Option PathQuote → SendPaymentInput → String
source_amount_of none input = input.amount
source_amount_of (some quote) input = quote.source_amount

abbrev dest_amount_of : Option PathQuote → Option String
dest_amount_of none = none
dest_amount_of (some quote) = some quote.dest_amount

abbrev pub payment_row : Account → SendPaymentInput → Option PathQuote → String → NewTransaction
payment_row account input quote key = record {
  idempotency_key = key;
  stellar_account_id = account.id;
  destination_public_key = input.destination_public_key;
  amount = source_amount_of quote input;
  memo = input.memo;
  asset_code = input.asset_code;
  asset_issuer = input.asset_issuer;
  receive_asset_code = input.receive_asset_code;
  receive_asset_issuer = input.receive_asset_issuer;
  dest_amount = dest_amount_of quote;
  pending_envelope_xdr = none;
}

abbrev pub high_value_row : Account → SendPaymentInput → String → String → NewTransaction
high_value_row account input key envelope_xdr = record {
  idempotency_key = key;
  stellar_account_id = account.id;
  destination_public_key = input.destination_public_key;
  amount = input.amount;
  memo = input.memo;
  asset_code = none;
  asset_issuer = none;
  receive_asset_code = none;
  receive_asset_issuer = none;
  dest_amount = none;
  pending_envelope_xdr = some envelope_xdr;
}

module _ (env : Env) where
  -- `isHighValuePayment`
  unfoldable pub is_high_value_payment : SendPaymentInput → Option PathQuote → Bool
  is_high_value_payment input quote =
      if not (admin_signing_configured env) || is_some quote || truthy input.asset_code
      then false
      else env.greater (env.number input.amount) (env.number env.config.high_value_threshold_amount)

  pub repeated_or_throw : Error → Option Transaction → App Opening
  repeated_or_throw error none = throw error
  repeated_or_throw error (some row) = pure (repeated row)

  -- The `catch` around `create`.
  pub on_duplicate : String → Error → App Opening
  unfolding repeated_or_throw
  on_duplicate key (duplicate_idempotency_key k) = do
    existing ← Transactions.find_by_idempotency_key env key
    repeated_or_throw (duplicate_idempotency_key k) existing
  on_duplicate key error = throw error

  -- `create`, or the row that already has the key.
  unfoldable pub open_transaction : NewTransaction → App Opening
  unfolding on_duplicate
  open_transaction input =
      try_catch (do row ← Transactions.create env input; pure (fresh row))
        (on_duplicate input.idempotency_key)

  -- The submission: by the quote's path, or a plain payment.
  unfoldable pub submission : Wallet → SendPaymentInput → Option PathQuote → Net SubmitResult
  submission wallet input none = submit_payment env (record {
    source_wallet = wallet;
    destination_public_key = input.destination_public_key;
    amount = input.amount;
    memo = input.memo;
    asset = asset_ref input.asset_code input.asset_issuer;
    timeout_seconds = none;
  })
  submission wallet input (some quote) = submit_path_payment env (record {
    source_wallet = wallet;
    destination_public_key = input.destination_public_key;
    memo = input.memo;
    quote = quote;
    slippage_bps = input.slippage_bps;
    timeout_seconds = none;
  })

  -- The `catch` around a submission: the row is marked FAILED, and the classified error is thrown.
  unfoldable pub record_failure : String → Bool → Error → App Transaction
  record_failure id clear error = do
    Transactions.update_status env id (failed_by error clear)
    fail_payment env error

  -- `try { … updateStatus(SUCCESS) } catch { … }` around a submission.
  unfoldable pub settle : String → Bool → App SubmitResult → App Transaction
  unfolding record_failure
  settle id clear submit =
      try_catch
        (do result ← submit; Transactions.update_status env id (succeeded result.hash clear))
        (record_failure id clear)

  pub after_opening : Account → SendPaymentInput → Option PathQuote → Opening → App Transaction
  after_opening account input quote (repeated row) = pure row
  after_opening account input quote (fresh row) = do
    wallet ← net (wallet_for_account env account)
    settle row.id false (net (submission wallet input quote))

  -- The ordinary path of `sendPayment`.
  unfoldable pub send_ordinary :
      Account → SendPaymentInput → Option PathQuote → String → App Transaction
  unfolding after_opening
  send_ordinary account input quote key = do
    opening ← open_transaction (payment_row account input quote key)
    after_opening account input quote opening

  -- The account with its multisig configured, the first time a payment needs it.
  unfoldable pub with_multisig : Account → App Account
  with_multisig account = if account.multisig_configured then pure account else (do
    wallet ← net (wallet_for_account env account)
    admin ← net (admin_wallet env)
    net (configure_multisig env wallet admin.public_key none)
    Accounts.mark_multisig_configured env account.id)

  pub opened_row : Opening → Transaction
  opened_row (fresh row) = row
  opened_row (repeated row) = row

  pub propose : Account → SendPaymentInput → String → App Transaction
  unfolding opened_row
  propose account input key = do
    current ← with_multisig account
    wallet ← net (wallet_for_account env current)
    envelope_xdr ← net (
        build_high_value_payment_envelope env (record {
          source_wallet = wallet;
          destination_public_key = input.destination_public_key;
          amount = input.amount;
          asset = none;
          memo = input.memo;
          timeout_seconds = none;
        }))
    opening ← open_transaction (high_value_row current input key envelope_xdr)
    pure (opened_row opening)

  pub existing_or_propose :
      Account → SendPaymentInput → String → Option Transaction → App Transaction
  unfolding propose
  existing_or_propose account input key none = propose account input key
  existing_or_propose account input key (some row) = pure row

  -- `sendHighValuePayment`
  unfoldable pub send_high_value_payment : Account → SendPaymentInput → String → App Transaction
  unfolding existing_or_propose
  send_high_value_payment account input key = do
    existing ← Transactions.find_by_idempotency_key env key
    existing_or_propose account input key existing

  -- `input.idempotencyKey ?? randomUUID()`
  pub key_or_random : Option String → App String
  key_or_random none = net (ask random (λ t. ok (env.random_uuid t)))
  key_or_random (some key) = pure key

  pub quote_if_path : SendPaymentInput → App (Option PathQuote)
  quote_if_path input =
      if truthy input.receive_asset_code && truthy input.receive_asset_issuer
      then (do quote ← resolve_path_quote env input; pure (some quote))
      else pure none

  -- `sendPayment`
  unfoldable pub send_payment : String → SendPaymentInput → App Transaction
  unfolding key_or_random quote_if_path
  send_payment user_id input = do
    account ← get_or_create_stellar_account env user_id
    key ← key_or_random input.idempotency_key
    quote ← quote_if_path input
    if is_high_value_payment input quote
        then send_high_value_payment account input key
        else send_ordinary account input quote key

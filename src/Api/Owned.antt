-- ===== src/Api/Owned.antt =====
-- apps/api/src/modules/payments/payments.service.ts: what a caller may see of transactions.
use mix_match_onchain.Base.{ℕ, String, ◌&&◌, Option, none, some, [], ◌==◌, if◌then◌else◌}
use mix_match_onchain.Exec.{pure, throw, ◌>>=◌}
use mix_match_onchain.Error.{not_found, forbidden}
use mix_match_onchain.Env.{Env}
use mix_match_onchain.Api.Rows.{Account, Transaction}
use mix_match_onchain.Api.Store.{App}
use mix_match_onchain.Api.Accounts
use mix_match_onchain.Api.Transactions
use mix_match_onchain.Api.Transactions.{TransactionPage, is_pending}
use mix_match_onchain.Api.Reconcile.{is_stale, check, reconcile_transaction}

module _ (env : Env) where
  pub owned_by : String → Transaction → Option Account → App Transaction
  owned_by user_id row none = throw (forbidden "You do not have access to this transaction")
  owned_by user_id row (some account) =
      if account.user_id == user_id
      then pure row
      else throw (forbidden "You do not have access to this transaction")

  pub with_owner : String → Option Transaction → App Transaction
  unfolding owned_by
  with_owner user_id none = throw (not_found "Transaction not found")
  with_owner user_id (some row) = do
    account ← Accounts.find_by_id env row.stellar_account_id
    owned_by user_id row account

  -- `getOwnedTransaction`
  unfoldable pub get_owned_transaction : String → String → App Transaction
  unfolding with_owner
  get_owned_transaction user_id id = do row ← Transactions.find_by_id env id; with_owner user_id row

  -- `getTransactionStatus`
  unfoldable pub get_transaction_status : String → String → App Transaction
  get_transaction_status user_id id = do
    row ← get_owned_transaction user_id id
    stale ← check env (is_stale env row)
    if is_pending row.status && stale then reconcile_transaction env row else pure row

  -- `reconcileTransactionById`
  unfoldable pub reconcile_transaction_by_id : String → String → App Transaction
  reconcile_transaction_by_id user_id id = do
    row ← get_owned_transaction user_id id
    reconcile_transaction env row

  pub page_of : Option Account → ℕ → ℕ → App TransactionPage
  page_of none page limit = pure (record { transactions = []; total = 0 })
  page_of (some account) page limit =
      Transactions.list_by_stellar_account_id env account.id page limit

  -- `listTransactionHistory`
  unfoldable pub list_transaction_history : String → ℕ → ℕ → App TransactionPage
  unfolding page_of
  list_transaction_history user_id page limit = do
    account ← Accounts.find_by_user_id env user_id
    page_of account page limit

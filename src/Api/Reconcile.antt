-- ===== src/Api/Reconcile.antt =====
-- apps/api/src/modules/payments/payments.service.ts: a PENDING transaction against the ledger, by
-- Horizon's payments page or by an event of its stream.
use mix_match_onchain.Base.{
  ℕ, ◌-◌, String, Bool, true, false, ◌&&◌, ◌||◌, not, Option, none, some, List, [], ◌∷◌, ◌==◌, ltb,
  leb, find, is_some, truthy, is_truthy, or_default, or_else, if◌then◌else◌,
}
use mix_match_onchain.Exec.{ok, pure, try_catch, ◌>>=◌}
use mix_match_onchain.Env.{Env}
use mix_match_onchain.Env.Sdk.{PaymentOperation}
use mix_match_onchain.Env.Calls.{Trace, payments_page}
use mix_match_onchain.Stellar.Net.{Net, ask}
use mix_match_onchain.Stellar.Streaming.{PaymentStreamEvent}
use mix_match_onchain.Api.Rows.{Account, Transaction, failed, needs_review}
use mix_match_onchain.Api.Store.{App, net}
use mix_match_onchain.Api.Accounts
use mix_match_onchain.Api.Transactions
use mix_match_onchain.Api.Transactions.{StatusUpdate, is_pending}
use mix_match_onchain.Api.Send.{succeeded}

-- `MATCHABLE_OPERATION_TYPES`
abbrev pub is_matchable : String → Bool
is_matchable type =
    (type == "payment")
    || (type == "path_payment_strict_receive")
    || (type == "path_payment_strict_send")

-- `x === y` where `x` may be missing and `y` may be null: only two texts are equal.
abbrev pub is_text : Option String → Option String → Bool
is_text (some s) (some t) = s == t
is_text _ _ = false

-- `matchesTransactionAsset`, for an operation that has the key `asset_type`; a key with no value is
-- `none`.
unfoldable pub matches_transaction_asset :
    Option String → Option String → Option String → Transaction → Bool
matches_transaction_asset asset_type asset_code asset_issuer row =
    let expected_code = or_else row.receive_asset_code row.asset_code in
    let expected_issuer = or_else row.receive_asset_issuer row.asset_issuer in
    if not (truthy expected_code)
    then is_text asset_type (some "native")
    else not (is_text asset_type (some "native"))
      && is_text asset_code expected_code
      && is_text asset_issuer expected_issuer

-- `new Date(text) >= createdAt`, false for an invalid date
abbrev pub not_before : Option ℕ → ℕ → Bool
not_before none created_at = false
not_before (some at) created_at = leb created_at at

abbrev pub account_missing : StatusUpdate
account_missing = record {
  status = failed;
  stellar_tx_hash = none;
  failure_code = some "reconciliation_account_missing";
  failure_reason = some "Source Stellar account no longer exists";
  clear_pending_envelope = false;
}

abbrev pub escalated : StatusUpdate
escalated = record {
  status = needs_review;
  stellar_tx_hash = none;
  failure_code = some "reconciliation_escalated";
  failure_reason =
      some
        "No matching payment found on-chain after repeated reconciliation attempts — needs manual verification against the ledger";
  clear_pending_envelope = false;
}

module _ (env : Env) where
  -- `normalizeAmount`
  unfoldable pub normalize_amount : String → String
  normalize_amount amount = env.to_fixed (env.number amount) 7

  -- The amount that the recipient's record shows.
  unfoldable pub expected_amount : Transaction → String
  unfolding normalize_amount
  expected_amount row = normalize_amount (or_default row.dest_amount row.amount)

  -- The test of `findMatchingPayment` on one record.
  unfoldable pub matches_operation : Transaction → PaymentOperation → Bool
  matches_operation row operation =
      is_matchable operation.type
      && is_some operation.asset_type
      && matches_transaction_asset operation.asset_type operation.asset_code operation.asset_issuer
          row
      && is_text operation.to (some row.destination_public_key)
      && is_text operation.amount (some (expected_amount row))
      && not_before (env.parse_date operation.created_at) row.created_at

  abbrev pub hash_of : Option PaymentOperation → Option String
  hash_of none = none
  hash_of (some operation) = some operation.transaction_hash

  -- `findMatchingPayment`
  unfoldable pub find_matching_payment : String → Transaction → Net (Option String)
  find_matching_payment public_key row =
      try_catch
        (do
          records ← ask (payments_page public_key) (λ t. env.payments_page t public_key 50)
          pure (hash_of (find (matches_operation row) records)))
        (λ _. pure none)

  -- `isStale`
  unfoldable pub is_stale : Transaction → Trace → Bool
  is_stale row t = ltb env.config.reconciliation_stale_ms (env.date_now t - row.created_at)

  -- `isPastEscalationWindow`
  unfoldable pub is_past_escalation_window : Transaction → Trace → Bool
  is_past_escalation_window row t =
      ltb env.config.reconciliation_escalation_ms (env.date_now t - row.created_at)

  -- A test that reads the clock.
  unfoldable pub check : (Trace → Bool) → App Bool
  check test w = (ok (test w.trace), w)

  pub escalate_or_keep : Transaction → Bool → App Transaction
  escalate_or_keep row true = Transactions.update_status env row.id escalated
  escalate_or_keep row false = pure row

  pub conclude : Transaction → Option String → App Transaction
  unfolding escalate_or_keep
  conclude row none = do past ← check (is_past_escalation_window row); escalate_or_keep row past
  conclude row (some hash) =
      if is_truthy hash
      then Transactions.update_status env row.id (succeeded hash false)
      else (do past ← check (is_past_escalation_window row); escalate_or_keep row past)

  pub with_account : Transaction → Option Account → App Transaction
  unfolding conclude
  with_account row none = Transactions.update_status env row.id account_missing
  with_account row (some account) = do
    matched ← net (find_matching_payment account.public_key row)
    conclude row matched

  -- `reconcileTransaction`
  unfoldable pub reconcile_transaction : Transaction → App Transaction
  unfolding with_account
  reconcile_transaction row =
      if not (is_pending row.status)
      then pure row
      else (do account ← Accounts.find_by_id env row.stellar_account_id; with_account row account)

  -- The loop of `reconcilePendingTransactions`.
  unfoldable pub reconcile_all : List Transaction → App (List Transaction)
  reconcile_all [] = pure []
  reconcile_all (row ∷ rows) = do
    done ← reconcile_transaction row
    rest ← reconcile_all rows
    pure (done ∷ rest)

  -- `reconcilePendingTransactions`
  unfoldable pub reconcile_pending_transactions : App (List Transaction)
  reconcile_pending_transactions = do
    now ← (λ w. (ok (env.date_now w.trace), w))
    stale ← Transactions.find_stale_pending env (now - env.config.reconciliation_stale_ms)
    reconcile_all stale

  abbrev event_amount : Option String → Option String
  event_amount none = none
  event_amount (some amount) = if is_truthy amount then some (normalize_amount amount) else none

  -- The test of `resolveStreamEvent` on one row.
  unfoldable pub matches_event : PaymentStreamEvent → Transaction → Bool
  matches_event event row =
      matches_transaction_asset event.asset_type event.asset_code event.asset_issuer row
      && is_text event.to (some row.destination_public_key)
      && is_text (event_amount event.amount) (some (expected_amount row))
      && not_before (env.parse_date event.created_at) row.created_at

  pub resolve_match : PaymentStreamEvent → Option Transaction → App (Option Transaction)
  resolve_match event none = pure none
  resolve_match event (some row) = do
    updated ← Transactions.update_status env row.id (succeeded event.transaction_hash false)
    pure (some updated)

  -- `resolveStreamEvent`
  unfoldable pub resolve_stream_event : String → PaymentStreamEvent → App (Option Transaction)
  unfolding resolve_match
  resolve_stream_event account_id event = if not (is_matchable event.type) then pure none else (do
    rows ← Transactions.find_pending_by_stellar_account_id env account_id
    resolve_match event (find (matches_event event) rows))

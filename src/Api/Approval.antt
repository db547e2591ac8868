-- ===== src/Api/Approval.antt =====
-- apps/api/src/modules/payments/payments.service.ts: the administrator's side of a payment of high
-- value, which admin.controller.ts calls.
use mix_match_onchain.Base.{
  String, true, ◌||◌, not, Option, none, some, List, truthy, or_default, concat, if◌then◌else◌,
}
use mix_match_onchain.Exec.{pure, throw, ◌>>=◌}
use mix_match_onchain.Error.{payment_failed, malformed_transaction, not_found}
use mix_match_onchain.Env.{Env}
use mix_match_onchain.Env.Sdk.{SubmitResult}
use mix_match_onchain.Stellar.Net.{Net}
use mix_match_onchain.Stellar.Multisig.{co_sign_and_submit_envelope}
use mix_match_onchain.Api.Rows.{Transaction, failed}
use mix_match_onchain.Api.Store.{App, net}
use mix_match_onchain.Api.Transactions
use mix_match_onchain.Api.Transactions.{StatusUpdate, is_pending_signature}
use mix_match_onchain.Api.Wallets.{admin_wallet}
use mix_match_onchain.Api.Send.{settle}

abbrev pub admin_rejected : StatusUpdate
admin_rejected = record {
  status = failed;
  stellar_tx_hash = none;
  failure_code = some "admin_rejected";
  failure_reason = some "An administrator declined to co-sign this payment";
  clear_pending_envelope = true;
}

module _ (env : Env) where
  pub awaiting_signature : String → Option Transaction → App Transaction
  awaiting_signature id none = throw (not_found "Transaction not found")
  awaiting_signature id (some row) =
      if not (is_pending_signature row.status) || not (truthy row.pending_envelope_xdr)
      then throw (
          payment_failed malformed_transaction
            (concat "Transaction " (concat id " is not awaiting a signature")))
      else pure row

  -- `getPendingSignatureTransaction`
  unfoldable pub get_pending_signature_transaction : String → App Transaction
  unfolding awaiting_signature
  get_pending_signature_transaction id = do
    row ← Transactions.find_by_id env id
    awaiting_signature id row

  -- The co-signature and the submission, with the admin's wallet.
  unfoldable pub co_sign : String → Net SubmitResult
  co_sign envelope_xdr = do
    admin ← admin_wallet env
    co_sign_and_submit_envelope env envelope_xdr admin

  -- `approvePendingSignature`
  unfoldable pub approve_pending_signature : String → App Transaction
  approve_pending_signature id = do
    row ← get_pending_signature_transaction id
    settle env row.id true (net (co_sign (or_default row.pending_envelope_xdr "")))

  -- `rejectPendingSignature`
  unfoldable pub reject_pending_signature : String → App Transaction
  reject_pending_signature id = do
    row ← get_pending_signature_transaction id
    Transactions.update_status env row.id admin_rejected

  -- `listPendingSignatures`
  unfoldable pub list_pending_signatures : App (List Transaction)
  list_pending_signatures = Transactions.find_pending_signature env

-- ===== src/Api/EscrowService.antt =====
-- apps/api/src/modules/payments/escrow.service.ts
use mix_match_onchain.Base.{
  ℕ, String, Bool, true, false, ◌||◌, not, Option, none, some, ◌==◌, truthy, or_default, concat,
  if◌then◌else◌,
}
use mix_match_onchain.Exec.{ok, pure, throw, lift, try_catch, ◌>>=◌, ◌>>◌}
use mix_match_onchain.Error.{
  Error, thrown, duplicate_escrow_idempotency_key, soroban_invocation, escrow_failed, not_found,
  forbidden,
}
use mix_match_onchain.Env.{Env}
use mix_match_onchain.Env.Calls.{random}
use mix_match_onchain.Stellar.Errors.{message_of}
use mix_match_onchain.Stellar.Net.{Net, ask}
use mix_match_onchain.Stellar.Wallet.{Wallet}
use mix_match_onchain.Stellar.Contract.{
  deposit_to_escrow, release_escrow, refund_escrow, get_escrow,
}
use mix_match_onchain.Api.Rows.{Account, Escrow, EscrowStatus, locked, released, refunded}
use mix_match_onchain.Api.Store.{App, net}
use mix_match_onchain.Api.Accounts
use mix_match_onchain.Api.Escrows
use mix_match_onchain.Api.Escrows.{NewEscrow, EscrowUpdate}
use mix_match_onchain.Api.Wallets.{get_or_throw, wallet_for_account}
use mix_match_onchain.Api.Custody.{get_or_create_stellar_account}

-- `DepositEscrowInput` (packages/shared/src/validation/escrow.schema.ts)
pub record DepositEscrowInput : Type 0 where
  pub payee_public_key : String
  pub token_contract_id : String
  pub amount : String
  pub timeout_ledgers : ℕ
  pub idempotency_key : Option String

-- What the creation of the row came to: a new row, or the row that already has the key.
pub data Opening : Type 0 where
  fresh : Escrow → Opening
  repeated : Escrow → Opening

-- `error instanceof Error ? error.message : String(error)`
abbrev pub error_text : Error → String
error_text (thrown text) = text
error_text error = or_default (message_of error) ""

abbrev deposit_failure_code : Error → String
deposit_failure_code (soroban_invocation m) = "soroban_invocation_failed"
deposit_failure_code _ = "unknown"

abbrev pub deposit_failed : Error → EscrowUpdate
deposit_failed error = record {
  status = EscrowStatus.failed;
  on_chain_escrow_id = none;
  timeout_ledger = none;
  deposit_tx_hash = none;
  finalize_tx_hash = none;
  failure_code = some (deposit_failure_code error);
  failure_reason = some (error_text error);
}

abbrev pub deposit_locked : String → ℕ → String → EscrowUpdate
deposit_locked escrow_id timeout_ledger hash = record {
  status = locked;
  on_chain_escrow_id = some escrow_id;
  timeout_ledger = some timeout_ledger;
  deposit_tx_hash = some hash;
  finalize_tx_hash = none;
  failure_code = none;
  failure_reason = none;
}

abbrev pub finalized : EscrowStatus → String → EscrowUpdate
finalized status hash = record {
  status = status;
  on_chain_escrow_id = none;
  timeout_ledger = none;
  deposit_tx_hash = none;
  finalize_tx_hash = some hash;
  failure_code = none;
  failure_reason = none;
}

abbrev pub is_locked : EscrowStatus → Bool
is_locked locked = true
is_locked _ = false

abbrev pub new_escrow : Account → DepositEscrowInput → String → NewEscrow
new_escrow account input key = record {
  idempotency_key = key;
  payer_stellar_account_id = account.id;
  payee_public_key = input.payee_public_key;
  token_contract_id = input.token_contract_id;
  amount = input.amount;
}

module _ (env : Env) where
  pub repeated_or_throw : Error → Option Escrow → App Opening
  repeated_or_throw error none = throw error
  repeated_or_throw error (some row) = pure (repeated row)

  pub on_duplicate : String → Error → App Opening
  unfolding repeated_or_throw
  on_duplicate key (duplicate_escrow_idempotency_key k) = do
    existing ← Escrows.find_by_idempotency_key env key
    repeated_or_throw (duplicate_escrow_idempotency_key k) existing
  on_duplicate key error = throw error

  unfoldable pub open_escrow : NewEscrow → App Opening
  unfolding on_duplicate
  open_escrow input =
      try_catch (do row ← Escrows.create env input; pure (fresh row))
        (on_duplicate input.idempotency_key)

  -- `escrowContractId`
  unfoldable pub escrow_contract_id : Net String
  escrow_contract_id =
      get_or_throw env "stellarEscrowContractId" env.config.stellar_escrow_contract_id

  -- The deposit, and the look at the contract that tells the timeout's ledger.
  unfoldable pub deposit : Wallet → DepositEscrowInput → Net EscrowUpdate
  unfolding escrow_contract_id
  deposit wallet input = do
    contract_id ← escrow_contract_id
    result ← deposit_to_escrow env (record {
      contract_id = contract_id;
      payer_wallet = wallet;
      payee_public_key = input.payee_public_key;
      token_contract_id = input.token_contract_id;
      amount = input.amount;
      timeout_ledgers = input.timeout_ledgers;
    })
    looked_at ← escrow_contract_id
    on_chain ← get_escrow env looked_at result.escrow_id
    pure (
        deposit_locked (env.show_ℕ (or_default result.escrow_id 0)) on_chain.timeout_ledger
          result.hash)

  pub record_failure : String → Error → App Escrow
  record_failure id error = do
    Escrows.update_status env id (deposit_failed error)
    throw (escrow_failed (error_text error))

  pub after_opening : Account → DepositEscrowInput → Opening → App Escrow
  unfolding record_failure
  after_opening account input (repeated row) = pure row
  after_opening account input (fresh row) = do
    wallet ← net (wallet_for_account env account)
    try_catch (do update ← net (deposit wallet input); Escrows.update_status env row.id update)
        (record_failure row.id)

  pub key_or_random : Option String → App String
  key_or_random none = net (ask random (λ t. ok (env.random_uuid t)))
  key_or_random (some key) = pure key

  -- `depositForUser`
  unfoldable pub deposit_for_user : String → DepositEscrowInput → App Escrow
  unfolding after_opening key_or_random
  deposit_for_user user_id input = do
    account ← get_or_create_stellar_account env user_id
    key ← key_or_random input.idempotency_key
    opening ← open_escrow (new_escrow account input key)
    after_opening account input opening

  pub owned_by : String → Escrow → Option Account → App Escrow
  owned_by user_id row none = throw (forbidden "You do not have access to this escrow")
  owned_by user_id row (some account) =
      if account.user_id == user_id
      then pure row
      else throw (forbidden "You do not have access to this escrow")

  pub with_owner : String → Option Escrow → App Escrow
  unfolding owned_by
  with_owner user_id none = throw (not_found "Escrow not found")
  with_owner user_id (some row) = do
    account ← Accounts.find_by_id env row.payer_stellar_account_id
    owned_by user_id row account

  -- `getOwnedEscrow`, `getEscrowForUser`
  unfoldable pub get_owned_escrow : String → String → App Escrow
  unfolding with_owner
  get_owned_escrow user_id id = do row ← Escrows.find_by_id env id; with_owner user_id row

  pub account_or_missing : Option Account → App Account
  account_or_missing none = throw (not_found "Stellar account not found")
  account_or_missing (some account) = pure account

  -- The guard and the call that `releaseForUser` and `refundForUser` share: the word of the
  -- message, the contract's method, and the status that follows.
  unfoldable pub finalize :
      String
      → (String → Option ℕ → Wallet → Net String)
      → EscrowStatus
      → String
      → String
      → App Escrow
  unfolding account_or_missing
  finalize word method status user_id id = do
    row ← get_owned_escrow user_id id
    if not (is_locked row.status) || not (truthy row.on_chain_escrow_id)
        then throw (
            escrow_failed
              (concat "Escrow " (concat id (concat " is not in a " (concat word " state")))))
        else (do
          found ← Accounts.find_by_id env row.payer_stellar_account_id
          account ← account_or_missing found
          wallet ← net (wallet_for_account env account)
          try_catch
              (do
                contract_id ← net escrow_contract_id
                escrow_id ← lift (env.parse_big_int (or_default row.on_chain_escrow_id ""))
                hash ← net (method contract_id (some escrow_id) wallet)
                Escrows.update_status env row.id (finalized status hash))
              (λ error. throw (escrow_failed (error_text error))))

  -- `releaseForUser`
  unfoldable pub release_for_user : String → String → App Escrow
  release_for_user = finalize "releasable" (release_escrow env) released

  -- `refundForUser`
  unfoldable pub refund_for_user : String → String → App Escrow
  refund_for_user = finalize "refundable" (refund_escrow env) refunded

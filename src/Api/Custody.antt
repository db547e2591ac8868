-- ===== src/Api/Custody.antt =====
-- apps/api/src/modules/payments/payments.service.ts: the caller's account, and its trustlines.
use mix_match_onchain.Base.{String, Option, none, some}
use mix_match_onchain.Exec.{pure, throw, try_catch, ◌>>=◌, ◌>>◌}
use mix_match_onchain.Error.{Error, payment_failed}
use mix_match_onchain.Env.{Env}
use mix_match_onchain.Env.Sdk.{StellarNetwork, testnet}
use mix_match_onchain.Stellar.Errors.{classify}
use mix_match_onchain.Stellar.Trustline.{fund_testnet_account, establish_trustline}
use mix_match_onchain.Api.Rows.{Account}
use mix_match_onchain.Api.Store.{App, net}
use mix_match_onchain.Api.Accounts
use mix_match_onchain.Api.Wallets.{create_account_signer, wallet_for_account}

pub record EstablishTrustlineInput : Type 0 where
  pub asset_code : String
  pub asset_issuer : String
  pub limit : Option String

pub record EstablishTrustlineResponse : Type 0 where
  pub stellar_tx_hash : String
  pub asset_code : String
  pub asset_issuer : String

module _ (env : Env) where
  pub fund_if_testnet : StellarNetwork → String → App Unit
  fund_if_testnet testnet public_key = net (fund_testnet_account env testnet public_key)
  fund_if_testnet _ public_key = pure tt

  pub provision : String → App Account
  unfolding fund_if_testnet
  provision user_id = do
    signer ← net (create_account_signer env)
    fund_if_testnet env.config.stellar_network signer.public_key
    Accounts.create env (record {
      user_id = user_id;
      public_key = signer.public_key;
      network = env.config.stellar_network;
      custody = signer.custody;
    })

  pub existing_or_new : String → Option Account → App Account
  unfolding provision
  existing_or_new user_id none = provision user_id
  existing_or_new user_id (some account) = pure account

  -- `getOrCreateStellarAccount`
  unfoldable pub get_or_create_stellar_account : String → App Account
  unfolding existing_or_new
  get_or_create_stellar_account user_id = do
    existing ← Accounts.find_by_user_id env user_id
    existing_or_new user_id existing

  -- `throw new PaymentFailedError(classified.kind, classified.message)`
  unfoldable pub fail_payment : {A : Type 0} → Error → App A
  fail_payment error = throw (payment_failed (classify error).kind (classify error).message)

  -- `establishTrustlineForUser`
  unfoldable pub establish_trustline_for_user :
      String → EstablishTrustlineInput → App EstablishTrustlineResponse
  establish_trustline_for_user user_id input = do
    account ← get_or_create_stellar_account user_id
    wallet ← net (wallet_for_account env account)
    try_catch
        (do
          result ← net (
              establish_trustline env wallet
                (record { code = input.asset_code; issuer = input.asset_issuer }) input.limit none)
          pure (record {
            stellar_tx_hash = result.hash;
            asset_code = input.asset_code;
            asset_issuer = input.asset_issuer;
          }))
        fail_payment

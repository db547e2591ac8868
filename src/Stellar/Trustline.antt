-- ===== src/Stellar/Trustline.antt =====
-- packages/stellar/src/trustline.ts and friendbot.ts: trustlines, and funding on testnet.
use mix_match_onchain.Base.{ℕ, String, Option, none, some, [], ◌∷◌, or_default}
use mix_match_onchain.Exec.{throw, lift, ◌>>=◌}
use mix_match_onchain.Error.{plain}
use mix_match_onchain.Env.{Env}
use mix_match_onchain.Env.Sdk.{
  StellarNetwork, testnet, StellarAssetRef, change_trust, p70, SubmitResult,
}
use mix_match_onchain.Env.Calls.{load_account, friendbot}
use mix_match_onchain.Stellar.Net.{Net, ask, classified}
use mix_match_onchain.Stellar.Wallet.{Wallet, to_stellar_asset, sign}
use mix_match_onchain.Stellar.Fees.{default_transaction_timeout_seconds, resolve_fee}
use mix_match_onchain.Stellar.Payment.{submit_transaction}

module _ (env : Env) where
  -- `establishTrustline`
  unfoldable pub establish_trustline :
      Wallet → StellarAssetRef → Option String → Option ℕ → Net SubmitResult
  establish_trustline wallet asset limit timeout_seconds = classified do
    source_account ←
        ask (load_account wallet.public_key) (λ t. env.load_account t wallet.public_key)
    fee ← resolve_fee env p70
    transaction ← lift (
        env.build (record {
          source = source_account;
          fee = fee;
          network_passphrase = env.config.network_passphrase;
          operations = change_trust (to_stellar_asset (some asset)) limit ∷ [];
          memo = none;
          timeout_seconds = or_default timeout_seconds default_transaction_timeout_seconds;
          signatures = [];
        }))
    signed ← sign env wallet transaction
    submit_transaction env signed

  -- `fundTestnetAccount`
  unfoldable pub fund_testnet_account : StellarNetwork → String → Net Unit
  fund_testnet_account testnet public_key =
      ask (friendbot public_key) (λ t. env.friendbot t public_key)
  fund_testnet_account _ public_key = throw (plain "fundTestnetAccount can only be used on testnet")

-- ===== src/Stellar/Multisig.antt =====
-- packages/stellar/src/multisig.ts: co-signed payments of high value.
use mix_match_onchain.Base.{ℕ, String, Option, none, some, List, [], ◌∷◌, or_default}
use mix_match_onchain.Exec.{pure, lift, ◌>>=◌}
use mix_match_onchain.Env.{Env}
use mix_match_onchain.Env.Sdk.{StellarAssetRef, Operation, payment, set_options, p70, SubmitResult}
use mix_match_onchain.Env.Calls.{load_account}
use mix_match_onchain.Stellar.Net.{Net, ask, classified}
use mix_match_onchain.Stellar.Wallet.{Wallet, to_stellar_asset, sign}
use mix_match_onchain.Stellar.Fees.{default_transaction_timeout_seconds, resolve_fee}
use mix_match_onchain.Stellar.Payment.{text_memo, submit_transaction}

abbrev pub signer_weight : ℕ
signer_weight = 1

abbrev pub low_threshold : ℕ
low_threshold = 1

abbrev pub med_threshold : ℕ
med_threshold = 1

abbrev pub high_threshold : ℕ
high_threshold = 2

-- The operation that adds the admin's key and sets the thresholds.
abbrev pub multisig_options : String → Operation
multisig_options admin_public_key =
    set_options (some (admin_public_key, signer_weight)) (some signer_weight) (some low_threshold)
      (some med_threshold) (some high_threshold)

pub record EnvelopeParams : Type 0 where
  pub source_wallet : Wallet
  pub destination_public_key : String
  pub amount : String
  pub asset : Option StellarAssetRef
  pub memo : Option String
  pub timeout_seconds : Option ℕ

-- The payment, and the operation that makes the whole transaction need the high threshold.
abbrev pub high_value_operations : EnvelopeParams → List Operation
high_value_operations params =
    payment params.destination_public_key (to_stellar_asset params.asset) params.amount
    ∷ set_options none (some signer_weight) none none none
    ∷ []

module _ (env : Env) where
  -- `configureMultisig`
  unfoldable pub configure_multisig : Wallet → String → Option ℕ → Net SubmitResult
  configure_multisig wallet admin_public_key timeout_seconds = classified do
    source_account ←
        ask (load_account wallet.public_key) (λ t. env.load_account t wallet.public_key)
    fee ← resolve_fee env p70
    transaction ← lift (
        env.build (record {
          source = source_account;
          fee = fee;
          network_passphrase = env.config.network_passphrase;
          operations = multisig_options admin_public_key ∷ [];
          memo = none;
          timeout_seconds = or_default timeout_seconds default_transaction_timeout_seconds;
          signatures = [];
        }))
    signed ← sign env wallet transaction
    submit_transaction env signed

  -- `buildHighValuePaymentEnvelope`
  unfoldable pub build_high_value_payment_envelope : EnvelopeParams → Net String
  build_high_value_payment_envelope params = classified do
    source_account ←
        ask (load_account params.source_wallet.public_key)
          (λ t. env.load_account t params.source_wallet.public_key)
    fee ← resolve_fee env p70
    transaction ← lift (
        env.build (record {
          source = source_account;
          fee = fee;
          network_passphrase = env.config.network_passphrase;
          operations = high_value_operations params;
          memo = text_memo params.memo;
          timeout_seconds = or_default params.timeout_seconds default_transaction_timeout_seconds;
          signatures = [];
        }))
    signed ← sign env params.source_wallet transaction
    pure (env.to_xdr signed)

  -- `coSignAndSubmitEnvelope`
  unfoldable pub co_sign_and_submit_envelope : String → Wallet → Net SubmitResult
  co_sign_and_submit_envelope envelope_xdr admin_wallet = classified do
    transaction ← lift (env.from_xdr envelope_xdr env.config.network_passphrase)
    signed ← sign env admin_wallet transaction
    submit_transaction env signed

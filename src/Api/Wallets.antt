-- ===== src/Api/Wallets.antt =====
-- apps/api/src/modules/payments/wallet-resolver.ts: who signs for an account, and for the platform.
-- The settings that `getOrThrow` reads for Vault and the encryption key are taken as present.
use mix_match_onchain.Base.{
  String, Bool, Option, none, some, truthy, is_truthy, concat, if◌then◌else◌,
}
use mix_match_onchain.Exec.{ok, pure, throw, lift, ◌>>=◌, ◌>>◌}
use mix_match_onchain.Error.{plain}
use mix_match_onchain.Env.{Env}
use mix_match_onchain.Env.Sdk.{StellarNetwork}
use mix_match_onchain.Env.Calls.{random, vault_create_key, vault_public_key}
use mix_match_onchain.Stellar.Net.{Net, ask}
use mix_match_onchain.Stellar.Wallet.{Wallet, keypair, vault}
use mix_match_onchain.Api.Rows.{Account}
use mix_match_onchain.Api.Accounts.{Custody, signing_key, encrypted_secret}

-- What `createAccountSigner` returns.
pub record AccountSigner : Type 0 where
  pub public_key : String
  pub custody : Custody

module _ (env : Env) where
  -- `vaultConfigured`
  unfoldable pub vault_configured : Bool
  vault_configured = truthy env.config.vault_addr

  -- `adminSigningConfigured`
  unfoldable pub admin_signing_configured : Bool
  unfolding vault_configured
  admin_signing_configured =
      if vault_configured
      then truthy env.config.admin_signing_key_name
      else truthy env.config.admin_signing_secret

  -- `new VaultWallet(network, …)` for a key by its name.
  pub vault_wallet : StellarNetwork → String → Net Wallet
  vault_wallet network key_name = do
    bytes ← ask (vault_public_key key_name) (λ t. env.vault_public_key t key_name)
    pure (record {
      network = network;
      public_key = env.encode_public_key bytes;
      signer = vault key_name;
    })

  -- `KeypairWallet.fromSecret`
  pub keypair_wallet : StellarNetwork → String → Net Wallet
  keypair_wallet network secret = do
    public_key ← lift (env.keypair_from_secret secret)
    pure (record { network = network; public_key = public_key; signer = keypair secret })

  pub legacy_wallet : Account → Option String → Net Wallet
  unfolding keypair_wallet
  legacy_wallet account none = throw (
      plain (
        concat "Stellar account "
          (concat account.id " has neither signingKeyId nor encryptedSecretKey")))
  legacy_wallet account (some encrypted) =
      if is_truthy encrypted
      then (do
        secret ← lift (env.decrypt_secret_key encrypted env.config.wallet_encryption_key)
        keypair_wallet account.network secret)
      else throw (
          plain (
            concat "Stellar account "
              (concat account.id " has neither signingKeyId nor encryptedSecretKey")))

  pub wallet_by_key : Account → Option String → Net Wallet
  unfolding legacy_wallet vault_wallet
  wallet_by_key account none = legacy_wallet account account.encrypted_secret_key
  wallet_by_key account (some key_name) =
      if is_truthy key_name
      then vault_wallet account.network key_name
      else legacy_wallet account account.encrypted_secret_key

  -- `walletForAccount`
  unfoldable pub wallet_for_account : Account → Net Wallet
  unfolding wallet_by_key
  wallet_for_account account = wallet_by_key account account.signing_key_id

  -- `createAccountSigner`
  unfoldable pub create_account_signer : Net AccountSigner
  unfolding vault_configured
  create_account_signer =
      if vault_configured
      then (do
        uuid ← ask random (λ t. ok (env.random_uuid t))
        let key_name = concat "stellar-account-" uuid
        ask (vault_create_key key_name) (λ t. env.vault_create_key t key_name)
        bytes ← ask (vault_public_key key_name) (λ t. env.vault_public_key t key_name)
        pure (record { public_key = env.encode_public_key bytes; custody = signing_key key_name }))
      else (do
        generated ← ask random (λ t. ok (env.random_keypair t))
        encrypted ←
            ask random (λ t. env.encrypt_secret_key t generated.1 env.config.wallet_encryption_key)
        pure (record { public_key = generated.0; custody = encrypted_secret encrypted }))

  -- `configService.getOrThrow`
  abbrev pub get_or_throw : String → Option String → Net String
  get_or_throw name none =
      throw (plain (concat "Configuration key \"" (concat name "\" does not exist")))
  get_or_throw name (some value) = pure value

  -- `adminWallet`
  unfoldable pub admin_wallet : Net Wallet
  unfolding vault_configured vault_wallet keypair_wallet
  admin_wallet =
      if vault_configured
      then (do
        key_name ← get_or_throw "adminSigningKeyName" env.config.admin_signing_key_name
        vault_wallet env.config.stellar_network key_name)
      else (do
        secret ← get_or_throw "adminSigningSecret" env.config.admin_signing_secret
        keypair_wallet env.config.stellar_network secret)

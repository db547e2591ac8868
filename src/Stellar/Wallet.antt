-- ===== src/Stellar/Wallet.antt =====
-- packages/stellar/src/wallet.ts and assets.ts: who signs, and assets by reference.
use mix_match_onchain.Base.{String, Option, none, some, [], ◌∷◌, ◌++◌}
use mix_match_onchain.Exec.{pure, lift, ◌>>=◌}
use mix_match_onchain.Env.{Env}
use mix_match_onchain.Env.Sdk.{StellarNetwork, StellarAssetRef, Asset, native, issued, Envelope}
use mix_match_onchain.Env.Calls.{vault_sign}
use mix_match_onchain.Stellar.Net.{Net, ask}

-- `KeypairWallet` by its secret, `VaultWallet` by its key's name.
pub data Signer : Type 0 where
  keypair : String → Signer
  vault : String → Signer

pub record Wallet : Type 0 where
  pub network : StellarNetwork
  pub public_key : String
  pub signer : Signer

-- `toStellarAsset`
abbrev pub to_stellar_asset : Option StellarAssetRef → Asset
to_stellar_asset none = native
to_stellar_asset (some asset) = issued asset.code asset.issuer

module _ (env : Env) where
  pub sign_with : Signer → String → Envelope → Net Envelope
  sign_with (keypair secret) public_key transaction = pure (record transaction {
    signatures = transaction.signatures ++ (env.keypair_sign secret transaction ∷ []);
  })
  sign_with (vault key_name) public_key transaction = do
    signature ←
        ask (vault_sign key_name (env.envelope_hash transaction))
          (λ t. env.vault_sign t key_name (env.envelope_hash transaction))
    lift (env.add_signature transaction public_key signature)

  -- `Wallet.sign`: the transaction comes back with the signature appended.
  unfoldable pub sign : Wallet → Envelope → Net Envelope
  unfolding sign_with
  sign wallet transaction = sign_with wallet.signer wallet.public_key transaction

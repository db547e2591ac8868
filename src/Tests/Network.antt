-- ===== src/Tests/Network.antt =====
-- The results on the network's configuration, its client and Vault's, applied where their conditions hold.
use mix_match_onchain.Base.{none, some, [], ◌∷◌, ◌++◌, ◌≡◌, refl, arith, codes, Text}
use mix_match_onchain.Exec.{ok}
use mix_match_onchain.Env.Sdk.{testnet}
use mix_match_onchain.Stellar.Config.{ProcessEnv}
use mix_match_onchain.Stellar.Client.{Client, default_stellar_client, verify_network}
use mix_match_onchain.Stellar.Client.Verified.{Verified, verify_network-Verified}
use mix_match_onchain.Kms.Vault.{Outside, VaultTransitConfig, VaultResponse, signature_of, sign}
use mix_match_onchain.Kms.Vault.Signed.{sign_request, sign-signature}
use mix_match_onchain.Tests.Outside.{env}

abbrev client : Client
client =
    default_stellar_client (λ network. "Test SDF Network ; September 2015")
      (record {
        network = testnet;
        horizon_url = "https://horizon-testnet.stellar.org";
        rpc_url = "https://soroban-testnet.stellar.org";
        escrow_contract_id = none;
        network_passphrase = none;
        allow_http = none;
        timeout_ms = none;
        app_name = none;
        app_version = none;
        retries = some 1;
      })

verify_network-Verified_example : Verified env client (verify_network env client []).0
verify_network-Verified_example = verify_network-Verified env client []

-- Variables of the environment that name a network and its RPC endpoint.
abbrev variables : ProcessEnv
variables = record {
  stellar_network = some "futurenet";
  stellar_horizon_url = none;
  stellar_rpc_url = some " https://rpc.example ";
  stellar_escrow_contract_id = some "CESCROW";
  stellar_network_passphrase = none;
  stellar_allow_http = some "true";
  stellar_timeout_ms = some "1000";
  stellar_app_name = none;
  stellar_app_version = none;
  stellar_retries = none;
}

-- A signature, and Vault's answer with it.
abbrev signature : Text
signature = codes "QUJD"

abbrev answer : VaultResponse
answer = record {
  status = 200;
  text = ok "";
  json = ok (signature_of (codes "vault:v1" ++ 58 ∷ signature));
}

-- Bytes are texts here, which base64 leaves as they are.
abbrev outside : Outside
outside = record {
  Bytes = Text;
  base64 = λ bytes. bytes;
  from_base64 = λ text. text;
  encode_component = λ text. text;
  number_text = λ n. "200";
  fetch = λ requests request. ok answer;
}

abbrev vault_config : VaultTransitConfig
vault_config = record { address = "http://127.0.0.1:8200/"; token = "token"; mount_path = none }

sign-signature_example :
    sign outside vault_config "alice" (codes "hash") []
    ≡ (ok signature, sign_request outside vault_config "alice" (codes "hash") ∷ [])
sign-signature_example =
    sign-signature outside vault_config "alice" (codes "hash") signature [] answer
      (codes "vault:v1") refl (ground arith, (ground arith, (ground arith, (ground arith, tt))))
      refl refl refl refl

-- ===== src/Stellar/Client.antt =====
-- packages/stellar/src/client.ts: the client of a network, and the check that its endpoints serve it.
pub mod Verified
use mix_match_onchain.Base.{
  ℕ, zero, suc, ◌*◌, String, Bool, true, false, not, ◌==◌, or_default, if◌then◌else◌,
}
use mix_match_onchain.Exec.{ok, pure, throw, try_catch, ◌>>=◌, ◌>>◌}
use mix_match_onchain.Error.{network_mismatch}
use mix_match_onchain.Env.{Env}
use mix_match_onchain.Env.Sdk.{StellarNetwork, standalone}
use mix_match_onchain.Env.Calls.{Call}
use mix_match_onchain.Stellar.Net.{Net, ask}
use mix_match_onchain.Stellar.Config.{StellarConfig}

-- `PASSPHRASE_BY_NETWORK`, with the texts of the SDK's `Networks`
abbrev pub passphrase_by_network : (StellarNetwork → String) → StellarNetwork → String
passphrase_by_network networks standalone = "Standalone Network ; February 2017"
passphrase_by_network networks network = networks network

abbrev pub default_timeout_ms : ℕ
default_timeout_ms = 30000

abbrev pub default_retries : ℕ
default_retries = 2

abbrev pub retry_delay_ms : ℕ
retry_delay_ms = 500

abbrev pub is_standalone : StellarNetwork → Bool
is_standalone standalone = true
is_standalone _ = false

-- `DefaultStellarClient`, with what its two servers are constructed from
pub record Client : Type 0 where
  pub config : StellarConfig
  pub network_passphrase : String
  pub allow_http : Bool
  pub timeout : ℕ

-- The constructor.
abbrev pub default_stellar_client : (StellarNetwork → String) → StellarConfig → Client
default_stellar_client networks config = record {
  config = config;
  network_passphrase =
      or_default config.network_passphrase (passphrase_by_network networks config.network);
  allow_http = or_default config.allow_http (is_standalone config.network);
  timeout = or_default config.timeout_ms default_timeout_ms;
}

-- `setTimeout(resolve, ms)`, awaited
unfoldable pub pause : ℕ → Net Unit
pause ms = ask (Call.sleep ms) (λ t. ok tt)

-- The loop of `check`, at an attempt: `left` is the number of attempts that may still follow it.
unfoldable pub check_from : {A : Type 0} → (left attempt : ℕ) → Net A → Net A
check_from zero attempt fn = try_catch fn (λ error. throw error)
check_from (suc left) attempt fn =
    try_catch fn (λ error. pause (retry_delay_ms * attempt) >> check_from left (suc attempt) fn)

module _ (env : Env) where
  abbrev pub horizon_root : Net String
  horizon_root = ask Call.horizon_root env.horizon_root

  abbrev pub rpc_network : Net String
  rpc_network = ask Call.rpc_network env.rpc_network

  abbrev pub compare_passphrase : (endpoint expected actual : String) → Net Unit
  compare_passphrase endpoint expected actual =
      if not (actual == expected)
      then throw (network_mismatch endpoint expected actual)
      else pure tt

  -- `verifyNetwork`
  unfoldable pub verify_network : Client → Net Unit
  verify_network client = do
    root ← check_from (or_default client.config.retries default_retries) 1 horizon_root
    compare_passphrase "horizon" client.network_passphrase root
    network ← check_from (or_default client.config.retries default_retries) 1 rpc_network
    compare_passphrase "rpc" client.network_passphrase network

  -- `createVerifiedStellarClient`
  unfoldable pub create_verified_stellar_client :
      (StellarNetwork → String) → StellarConfig → Net Client
  create_verified_stellar_client networks config = do
    verify_network (default_stellar_client networks config)
    pure (default_stellar_client networks config)

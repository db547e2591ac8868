-- ===== src/Stellar/Config.antt =====
-- packages/stellar/src/config.ts: the network's configuration from the environment.
pub mod Valid
use mix_match_onchain.Base.{
  ℕ, String, Bool, not, ◌&&◌, Option, none, some, ◌==◌, concat, is_truthy, or_default, trim_string,
  if◌then◌else◌,
}
use mix_match_onchain.Exec.{Result, ok, err}
use mix_match_onchain.Error.{Error, plain}
use mix_match_onchain.Env.Sdk.{StellarNetwork, testnet, public, futurenet, standalone}
use mix_match_onchain.Env.Numbers.{JsNumber, natural}

-- `StellarConfig`
pub record StellarConfig : Type 0 where
  pub network : StellarNetwork
  pub horizon_url : String
  pub rpc_url : String
  pub escrow_contract_id : Option String
  pub network_passphrase : Option String
  pub allow_http : Option Bool
  pub timeout_ms : Option ℕ
  pub app_name : Option String
  pub app_version : Option String
  pub retries : Option ℕ

-- The variables of the environment that are read.
pub record ProcessEnv : Type 0 where
  pub stellar_network : Option String
  pub stellar_horizon_url : Option String
  pub stellar_rpc_url : Option String
  pub stellar_escrow_contract_id : Option String
  pub stellar_network_passphrase : Option String
  pub stellar_allow_http : Option String
  pub stellar_timeout_ms : Option String
  pub stellar_app_name : Option String
  pub stellar_app_version : Option String
  pub stellar_retries : Option String

pub record Endpoints : Type 0 where
  pub horizon_url : String
  pub rpc_url : String

-- `NETWORK_DEFAULTS`
abbrev pub network_defaults : StellarNetwork → Endpoints
network_defaults testnet = record {
  horizon_url = "https://horizon-testnet.stellar.org";
  rpc_url = "https://soroban-testnet.stellar.org";
}
network_defaults public = record {
  horizon_url = "https://horizon.stellar.org";
  rpc_url = "https://mainnet.sorobanrpc.com";
}
network_defaults futurenet = record {
  horizon_url = "https://horizon-futurenet.stellar.org";
  rpc_url = "https://rpc-futurenet.stellar.org";
}
network_defaults standalone = record {
  horizon_url = "http://localhost:8000";
  rpc_url = "http://localhost:8000/rpc";
}

-- `parseNetwork`
abbrev pub parse_network : Option String → StellarNetwork
parse_network none = testnet
parse_network (some raw) =
    if raw == "public"
    then public
    else if raw == "futurenet"
    then futurenet
    else if raw == "standalone"
    then standalone
    else testnet

abbrev pub if_truthy : String → Option String
if_truthy text = if is_truthy text then some text else none

-- `value?.trim() || undefined`
abbrev pub trimmed : Option String → Option String
trimmed none = none
trimmed (some value) = if_truthy (trim_string value)

-- `value ? value === 'true' : undefined`
abbrev pub parse_flag : Option String → Option Bool
parse_flag none = none
parse_flag (some value) = if is_truthy value then some (value == "true") else none

-- The rest of a computation, after a part that may throw.
infixl 5 ◌>>=◌
unfoldable pub ◌>>=◌ : {A B : Type 0} → Result Error A → (A → Result Error B) → Result Error B
ok a >>= f = f a
err e >>= f = err e

-- `protocol` is the protocol of `new URL(value)`, none where it throws; `valid_contract` is
-- `StrKey.isValidContract`, `number` is `Number(value)`.
module _ (protocol : String → Option String) (valid_contract : String → Bool)
    (number : String → JsNumber) where
  abbrev pub checked_protocol : String → String → Option String → Result Error String
  checked_protocol name value none =
      err (plain (concat name (concat " must be a valid URL, got \"" (concat value "\""))))
  checked_protocol name value (some p) =
      if not (p == "https:") && not (p == "http:")
      then err (plain (concat name (concat " must use http or https, got \"" (concat value "\""))))
      else ok value

  -- `parseUrl`
  abbrev pub parse_url : String → String → Result Error String
  parse_url name value = checked_protocol name value (protocol value)

  abbrev pub checked_number : String → String → JsNumber → Result Error (Option ℕ)
  checked_number name value (natural n) = ok (some n)
  checked_number name value _ =
      err
        (plain (concat name (concat " must be a non-negative integer, got \"" (concat value "\""))))

  -- `parsePositiveInt`
  abbrev pub parse_positive_int : String → Option String → Result Error (Option ℕ)
  parse_positive_int name none = ok none
  parse_positive_int name (some value) =
      if is_truthy (trim_string value) then checked_number name value (number value) else ok none

  abbrev pub check_contract : Option String → Result Error (Option String)
  check_contract none = ok none
  check_contract (some id) =
      if not (valid_contract id)
      then err (
          plain (
            concat "STELLAR_ESCROW_CONTRACT_ID must be a valid contract id (C...), got \""
              (concat id "\"")))
      else ok (some id)

  -- `loadStellarConfig`
  unfoldable pub load_stellar_config : ProcessEnv → Result Error StellarConfig
  load_stellar_config env = do
    escrow_contract_id ← check_contract (trimmed env.stellar_escrow_contract_id)
    horizon_url ← parse_url "STELLAR_HORIZON_URL" (
        or_default (trimmed env.stellar_horizon_url)
          (network_defaults (parse_network env.stellar_network)).horizon_url)
    rpc_url ← parse_url "STELLAR_RPC_URL" (
        or_default (trimmed env.stellar_rpc_url)
          (network_defaults (parse_network env.stellar_network)).rpc_url)
    timeout_ms ← parse_positive_int "STELLAR_TIMEOUT_MS" env.stellar_timeout_ms
    retries ← parse_positive_int "STELLAR_RETRIES" env.stellar_retries
    ok (record {
      network = parse_network env.stellar_network;
      horizon_url = horizon_url;
      rpc_url = rpc_url;
      escrow_contract_id = escrow_contract_id;
      network_passphrase = trimmed env.stellar_network_passphrase;
      allow_http = parse_flag env.stellar_allow_http;
      timeout_ms = timeout_ms;
      app_name = trimmed env.stellar_app_name;
      app_version = trimmed env.stellar_app_version;
      retries = retries;
    })

-- ===== src/Env.antt =====
-- What the program takes from outside src/: the JavaScript runtime, the Stellar SDK, Horizon, the
-- Soroban RPC, Vault, the Postgres driver and the configuration, as one record of parameters.
-- `Sdk` has the arguments that the program hands to the SDK, `Http` the requests to an anchor,
-- `Web` what the anchors' protocols need, `Calls` the calls that leave the process. What an outside party answers may depend on the whole history of the calls before.
pub mod Sdk
pub mod Http
pub mod Calls
pub mod Web
pub mod Tokens
pub mod Numbers
use mix_match_onchain.Base.{ℕ, String, Bool, Option, List}
use mix_match_onchain.Error.{Error}
use mix_match_onchain.Exec.{Result}
use Sdk.{
  StellarNetwork, StellarAssetRef, Asset, LoadedAccount, Envelope, FeePercentile, SubmitResult,
  PathRecord, PaymentOperation, ScVal, SendResult, TransactionOutcome,
}
use Calls.{Call, Trace}
use Web.{AnchorWeb}
use Tokens.{Credentials}

-- The validated configuration (apps/api/src/config/env.validation.ts) that the services read.
pub record Config : Type 0 where
  pub vault_addr : Option String
  pub admin_signing_key_name : Option String
  pub admin_signing_secret : Option String
  pub wallet_encryption_key : String
  pub stellar_network : StellarNetwork
  pub network_passphrase : String
  pub high_value_threshold_amount : String
  pub reconciliation_stale_ms : ℕ
  pub reconciliation_escalation_ms : ℕ
  pub stellar_escrow_contract_id : Option String
  pub anchor_home_domain : String

pub record Env : Type 1 where
  pub config : Config
  -- JavaScript numbers
  pub Num : Type 0
  pub number : String → Num
  pub of_ℕ : ℕ → Num
  pub greater : Num → Num → Bool
  pub add : Num → Num → Num
  pub subtract : Num → Num → Num
  pub times : Num → Num → Num
  pub divide : Num → Num → Num
  pub ceil : Num → Num
  pub max : Num → Num → Num
  pub is_finite : Num → Bool
  pub to_string : Num → String
  pub to_fixed : Num → ℕ → String
  -- the runtime: the clock, dates (none when invalid), and randomness
  pub date_now : Trace → ℕ
  pub parse_date : String → Option ℕ
  pub random_uuid : Trace → String
  pub random_keypair : Trace → String × String
  pub encrypt_secret_key : Trace → String → String → Result Error String
  pub decrypt_secret_key : String → String → Result Error String
  -- `BigInt(text)`, and a bigint's text
  pub parse_big_int : String → Result Error ℕ
  pub show_ℕ : ℕ → String
  -- the Postgres driver: a fault of a statement, and the column defaults
  pub db_fault : Trace → Option Error
  pub db_now : Trace → ℕ
  pub db_uuid : Trace → String
  -- the Stellar SDK
  pub base_fee : String
  pub encode_public_key : String → String
  pub keypair_from_secret : String → Result Error String
  pub keypair_sign : String → Envelope → String
  pub add_signature : Envelope → String → String → Result Error Envelope
  pub envelope_hash : Envelope → String
  pub build : Envelope → Result Error Envelope
  pub to_xdr : Envelope → String
  pub from_xdr : String → String → Result Error Envelope
  -- two names that packages/stellar/src/payment.ts uses and no file declares: what
  -- `validatePaymentParams` throws (destination, amount, memo, asset), and `MAX_SEQUENCE_ATTEMPTS`
  pub validate_payment_params :
      String → String → Option String → Option StellarAssetRef → Option Error
  pub max_sequence_attempts : ℕ
  -- what reading `this.client` in its function comes to
  pub this_client : Result Error Unit
  -- Horizon
  pub friendbot : Trace → String → Result Error Unit
  pub load_account : Trace → String → Result Error LoadedAccount
  pub fee_stats : Trace → Result Error (FeePercentile → String)
  pub submit_transaction : Trace → Envelope → Result Error SubmitResult
  pub find_transaction : Trace → String → Result Error SubmitResult
  pub payments_page : Trace → String → ℕ → Result Error (List PaymentOperation)
  pub strict_send_paths : Trace → Asset → String → List Asset → Result Error (List PathRecord)
  pub strict_receive_paths : Trace → List Asset → Asset → String → Result Error (List PathRecord)
  pub horizon_root : Trace → Result Error String
  -- the Soroban RPC
  pub rpc_network : Trace → Result Error String
  pub prepare_transaction : Trace → Envelope → Result Error Envelope
  pub send_transaction : Trace → Envelope → Result Error SendResult
  pub get_transaction : Trace → String → Result Error TransactionOutcome
  pub simulate_transaction : Trace → Envelope → Result Error (Option ScVal)
  -- Vault's transit engine, through packages/kms
  pub vault_create_key : Trace → String → Result Error Unit
  pub vault_public_key : Trace → String → Result Error String
  pub vault_sign : Trace → String → String → Result Error String
  -- what packages/stellar/src/sep takes from outside
  pub web : AnchorWeb
  -- passwords and tokens
  pub credentials : Credentials

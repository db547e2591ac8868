-- ===== src/Env/Sdk.antt =====
-- The SDK's objects, as the arguments that the program builds them from, and the parts of the
-- answers of Horizon and of the Soroban RPC that the program reads.
use mix_match_onchain.Base.{ℕ, String, Bool, Option, List}

-- `StellarNetwork` (packages/stellar/src/types/index.ts)
pub data StellarNetwork : Type 0 where
  testnet public futurenet standalone : StellarNetwork

-- `StellarAssetRef`
pub record StellarAssetRef : Type 0 where
  pub code : String
  pub issuer : String

-- `Asset.native()` and `new Asset(code, issuer)`
pub data Asset : Type 0 where
  native : Asset
  issued : String → String → Asset

-- A status as the contract answers it: a text, or an object by its keys.
pub data RawStatus : Type 0 where
  text : String → RawStatus
  keyed : List String → RawStatus

-- A contract's value: an address, an integer with its width, or an escrow's struct.
pub data ScVal : Type 0 where
  address : String → ScVal
  i128 : ℕ → ScVal
  u64 : ℕ → ScVal
  u32 : ℕ → ScVal
  escrow :
      (payer payee token : String) (amount : ℕ) (status : RawStatus) (timeout_ledger : ℕ) → ScVal

pub data Operation : Type 0 where
  payment : (destination : String) (asset : Asset) (amount : String) → Operation
  path_payment_strict_send :
      (send_asset : Asset) (send_amount destination : String) (dest_asset : Asset)
      (dest_min : String) (path : List Asset)
      → Operation
  path_payment_strict_receive :
      (send_asset : Asset) (send_max destination : String) (dest_asset : Asset)
      (dest_amount : String) (path : List Asset)
      → Operation
  set_options : (signer : Option (String × ℕ)) (master_weight low med high : Option ℕ) → Operation
  change_trust : (asset : Asset) (limit : Option String) → Operation
  contract_call : (contract_id method : String) (args : List ScVal) → Operation

-- The account that `loadAccount` answers with.
pub record LoadedAccount : Type 0 where
  pub account_id : String
  pub sequence : String

-- What `TransactionBuilder` is given, and the signatures added since.
pub record Envelope : Type 0 where
  pub source : LoadedAccount
  pub fee : String
  pub network_passphrase : String
  pub operations : List Operation
  pub memo : Option String
  pub timeout_seconds : ℕ
  pub signatures : List String

-- `FeePercentile` (packages/stellar/src/fees.ts)
pub data FeePercentile : Type 0 where
  p50 p70 p90 p99 : FeePercentile

-- What `submitTransaction` answers; also `StellarPaymentResult` of packages/stellar/src/payment.ts.
pub record SubmitResult : Type 0 where
  pub hash : String
  pub ledger : ℕ

pub record PathHop : Type 0 where
  pub asset_type : String
  pub asset_code : String
  pub asset_issuer : String

pub record PathRecord : Type 0 where
  pub source_amount : String
  pub destination_amount : String
  pub path : List PathHop

-- A record of Horizon's payments page; a field that the record lacks is `none`.
pub record PaymentOperation : Type 0 where
  pub type : String
  pub asset_type : Option String
  pub asset_code : Option String
  pub asset_issuer : Option String
  pub to : Option String
  pub amount : Option String
  pub created_at : String
  pub transaction_hash : String

pub record SendResult : Type 0 where
  pub is_error : Bool
  pub hash : String

pub data TransactionOutcome : Type 0 where
  not_found : TransactionOutcome
  success : Option ScVal → TransactionOutcome
  failed : TransactionOutcome

-- ===== src/Api/Rows.antt =====
-- The rows of the database (apps/api/src/db/schema.ts), and the state that a handler works on.
use mix_match_onchain.Base.{ℕ, String, Bool, Option, List}
use mix_match_onchain.Env.Sdk.{StellarNetwork}
use mix_match_onchain.Env.Calls.{Trace}
use mix_match_onchain.Env.Web.{AnchorKind, AnchorStatus}
use mix_match_onchain.Env.Tokens.{UserRole}

-- `TransactionStatus` (packages/shared/src/types/payments.ts)
pub data TransactionStatus : Type 0 where
  pending pending_signature success failed needs_review : TransactionStatus

-- `EscrowStatus` (packages/shared/src/types/escrow.ts)
pub data EscrowStatus : Type 0 where
  pending locked released refunded failed : EscrowStatus

-- `StellarAccountRecord`
pub record Account : Type 0 where
  pub id : String
  pub user_id : String
  pub public_key : String
  pub encrypted_secret_key : Option String
  pub signing_key_id : Option String
  pub network : StellarNetwork
  pub multisig_configured : Bool
  pub created_at : ℕ
  pub updated_at : ℕ

-- `TransactionRecord`
pub record Transaction : Type 0 where
  pub id : String
  pub idempotency_key : String
  pub stellar_account_id : String
  pub destination_public_key : String
  pub amount : String
  pub memo : Option String
  pub asset_code : Option String
  pub asset_issuer : Option String
  pub receive_asset_code : Option String
  pub receive_asset_issuer : Option String
  pub dest_amount : Option String
  pub pending_envelope_xdr : Option String
  pub status : TransactionStatus
  pub stellar_tx_hash : Option String
  pub failure_code : Option String
  pub failure_reason : Option String
  pub created_at : ℕ
  pub updated_at : ℕ

-- `EscrowRecord`
pub record Escrow : Type 0 where
  pub id : String
  pub idempotency_key : String
  pub payer_stellar_account_id : String
  pub payee_public_key : String
  pub token_contract_id : String
  pub amount : String
  pub on_chain_escrow_id : Option String
  pub timeout_ledger : Option ℕ
  pub status : EscrowStatus
  pub deposit_tx_hash : Option String
  pub finalize_tx_hash : Option String
  pub failure_code : Option String
  pub failure_reason : Option String
  pub created_at : ℕ
  pub updated_at : ℕ

-- `User` (apps/api/src/modules/users/users.repository.ts)
pub record User : Type 0 where
  pub id : String
  pub email : String
  pub password_hash : Option String
  pub role : UserRole
  pub created_at : ℕ
  pub updated_at : ℕ

-- `AnchorTransactionRecord`
pub record AnchorTransaction : Type 0 where
  pub id : String
  pub stellar_account_id : String
  pub kind : AnchorKind
  pub asset_code : String
  pub home_domain : String
  pub sep24_transaction_id : String
  pub status : AnchorStatus
  pub interactive_url : Option String
  pub more_info_url : Option String
  pub amount_in : Option String
  pub amount_out : Option String
  pub stellar_transaction_id : Option String
  pub external_transaction_id : Option String
  pub message : Option String
  pub started_at : ℕ
  pub completed_at : Option ℕ
  pub created_at : ℕ
  pub updated_at : ℕ

-- The tables, oldest row first, and the history of the calls that left the process.
pub record World : Type 0 where
  pub accounts : List Account
  pub transactions : List Transaction
  pub escrows : List Escrow
  pub anchors : List AnchorTransaction
  pub users : List User
  pub trace : Trace

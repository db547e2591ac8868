-- ===== src/Stellar.antt =====
-- packages/stellar: the payment engine over Horizon and the Soroban RPC.
pub mod Errors
pub mod Net
pub mod Wallet
pub mod Fees
pub mod Config
pub mod Client
pub mod Payment
pub mod PathPayment
pub mod Multisig
pub mod Trustline
pub mod Contract
pub mod Streaming
pub mod Sep
pub mod Quiet
pub mod Classified
pub mod Attempts
pub mod Best
pub mod Polling
pub mod Setup

-- ===== src/Api.antt =====
-- apps/api, modules/payments: the repositories and the services over them.
pub mod Rows
pub mod Store
pub mod Accounts
pub mod Transactions
pub mod Escrows
pub mod Anchors
pub mod Users
pub mod Encryption
pub mod Job
pub mod HistoryRoute
pub mod Routes
pub mod Updates
pub mod HistoryBounds
pub mod Auth
pub mod Guards
pub mod Wallets
pub mod Custody
pub mod Paths
pub mod Send
pub mod Approval
pub mod Reconcile
pub mod Owned
pub mod EscrowService
pub mod AnchorService
pub mod Ledger
pub mod Quiet
pub mod Repeat
pub mod Decide
pub mod Access
pub mod Match
pub mod Once
pub mod Locked
pub mod Settled
pub mod Rejected
pub mod HighValue

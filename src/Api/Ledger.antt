-- ===== src/Api/Ledger.antt =====
-- The table of transactions over time: what stays true of every row, and how a row may change.
pub mod Table
pub mod Sound
pub mod Update
pub mod Lookup
pub mod Keep
pub mod Operations
pub mod Others
pub mod Settle
pub mod Resolve
pub mod Requests
pub mod History

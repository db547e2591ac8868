-- ===== src/Stellar/Sep.antt =====
-- packages/stellar/src/sep: the protocols of an anchor.
pub mod Http
pub mod Toml
pub mod Auth
pub mod Transfer
pub mod Refused
pub mod Statuses
pub mod Quiet

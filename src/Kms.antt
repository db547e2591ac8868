-- ===== src/Kms.antt =====
-- packages/kms: the client of Vault's transit engine.
pub mod Vault

-- ===== src/Operations.antt =====
-- fints/operations: what the services ask of a bank, child `Versions` for the choice of a segment class,
-- and `Accounts` for the discovery of accounts.
pub mod Versions
pub mod Accounts

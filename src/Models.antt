-- ===== src/Models.antt =====
-- The rows of app/models and the enums of app/enums, one child for each table.
pub mod Account
pub mod Wallet
pub mod Ledger
pub mod Deal
pub mod Fees
pub mod Withdrawal
pub mod Risk
pub mod Appeal

-- ===== src/Wallet.antt =====
-- GIGVEYRO_Backend/app/services/wallet.py: the money movements of WalletService, in three groups.
pub mod Common
pub mod Deals
pub mod Withdrawals
pub mod Credits
pub mod Posting
pub mod Calls
pub mod Retries
pub mod RoundTrips
pub mod MerchantRoundTrips

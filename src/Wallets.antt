-- ===== src/Wallets.antt =====
-- src/hl_observer/wallets: the positions of a wallet, rebuilt from its public fills.
pub mod Address
pub mod Agreement
pub mod Queue
pub mod Entries
pub mod Delta
pub mod Rebuild
mod Tests

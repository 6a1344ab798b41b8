-- ===== src/Wallet.antt =====
-- The wallets of users (api-server/internal/wallet).
pub mod Mutate
pub mod Service
pub mod Exact
pub mod Books
pub mod Effects
mod Tests

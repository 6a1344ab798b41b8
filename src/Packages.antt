-- ===== src/Packages.antt =====
-- The entitlement ledger of prepaid ride credits (api-server/internal/packages/ledger.go).
mod Types
mod Entries
mod Ledger
mod Service
mod Sweep
pub mod Rows
pub mod Balance
pub mod Spend
pub mod Expiry
pub mod Resweep
pub mod Mint
pub mod History
pub mod Sound
mod Tests
unfoldable pub use Types.*
unfoldable pub use Entries.*
unfoldable pub use Ledger.*
unfoldable pub use Service.*
unfoldable pub use Sweep.*

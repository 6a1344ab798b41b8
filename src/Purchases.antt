-- ===== src/Purchases.antt =====
-- The purchase of ride packages (api-server/internal/packages/purchase.go).
pub mod Shop
pub mod Confirm
pub mod Offer
pub mod Buy
pub mod Reconcile
pub mod Rows
pub mod Settled
pub mod Once
mod Tests

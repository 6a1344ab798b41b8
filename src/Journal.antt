-- ===== src/Journal.antt =====
-- The double-entry general ledger (api-server/internal/ledger/ledger.go): an append-only journal of
-- balanced entries.
pub mod Posting
pub mod Revenue
pub mod Balance
pub mod Once
mod Tests

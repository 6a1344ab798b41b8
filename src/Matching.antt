-- ===== src/Matching.antt =====
-- The matching engine (api-server/internal/matching/engine.go), which offers a new ride to one
-- driver after the other.
pub mod Scene
pub mod Order
pub mod Search
pub mod Offer
pub mod Loop
pub mod Ranking
pub mod Rounds
pub mod Once
pub mod Rows
pub mod Release
pub mod Willing
mod Tests

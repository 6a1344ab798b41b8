-- ===== src/Ride.antt =====
-- The life of a ride (api-server/internal/ride): its record, the stores that the service reads and
-- writes, the statements of the repository, and the service.
pub mod World
pub mod Repo
pub mod Later
pub mod Keeping
pub mod Redis
pub mod Credit
pub mod Penalty
pub mod Cancel
pub mod Trip
pub mod Completion
pub mod Booking
pub mod Kept
pub mod Cancels
pub mod Trips
pub mod Stale
pub mod Lifecycle
pub mod Effects
pub mod Start
pub mod Timer
pub mod Escalation
pub mod Sample
mod Tests

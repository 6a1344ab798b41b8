-- ===== src/Base/Errors.antt =====
-- The typed errors of api-server/pkg/errors/errors.go.
use Prim.Native.Nat.{ℕ}
use Prim.Native.String.{String}

-- `custom` is an error made by `New` or `Newf`, by its status and code (the message is text for
-- people); `unavailable` is an error that the database or Redis gave, passed on as it is.
pub data AppError : Type 0 where
  not_found bad_request invalid_transition fare_locked geo_fence customer_suspended : AppError
  negotiation_round_limit ride_already_active ride_not_found gps_coords unavailable : AppError
  custom : ℕ → String → AppError

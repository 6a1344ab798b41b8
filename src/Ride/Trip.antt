-- ===== src/Ride/Trip.antt =====
-- The trip from the agreed fare to its end (api-server/internal/ride/service.go). Messages, pushes,
-- logs and analytics are left out, and so is the route cache that `RecordAgreedFare` feeds.
use rides_api.Base.{ℕ, not, Option, none, some, String, if◌then◌else◌}
use rides_api.Base.Errors.{invalid_transition, geo_fence}
use rides_api.Base.Action.{◌>>=◌, ◌>>◌, pure, raise, raise_if, return_if, ignore}
use rides_api.Geo.{Point, validate}
use rides_api.Status.{
  Status, confirmed, driver_en_route, driver_arrived, in_progress, status_eq, can_transition,
}
use rides_api.Ride.World.{Ride, Env, Call, driver, system}
use rides_api.Ride.Repo.{
  find_by_id, find_by_id_and_driver, transition, append_event, set_driver_arrived_at, set_started,
  set_completion_destination, set_pickup_expired,
}
use rides_api.Ride.Redis.{set_ride_state, within_radius}

module _ {F : Type 0} (env : Env F) where
  open env use {float}

  -- `ValidateTransition`, as an early return
  abbrev pub check_transition : Status → Status → Call F (Unit {0})
  check_transition from to = raise_if (not (can_transition from to)) invalid_transition

  -- `SetEnRoute`
  unfoldable pub set_en_route : ℕ → ℕ → Call F (Unit {0})
  set_en_route id user_id = do
    r ← find_by_id_and_driver env id user_id
    check_transition r.status driver_en_route
    transition env id confirmed driver_en_route
    set_ride_state env id (some driver_en_route)
    ignore (append_event env id "ride.driver_en_route" driver user_id)

  -- `MarkDriverArrived`, from the server's geofence
  unfoldable pub mark_driver_arrived : ℕ → Call F (Unit {0})
  mark_driver_arrived id = do
    transition env id driver_en_route driver_arrived
    set_driver_arrived_at env id
    set_ride_state env id (some driver_arrived)
    ignore (append_event env id "ride.driver_arrived" system id)

  -- The first part of `SetDriverArrived`: a confirmed ride goes en route first. The result is the
  -- status that the rest works with.
  unfoldable pub advance : ℕ → ℕ → Status → Call F Status
  advance id user_id s =
      if status_eq s confirmed
      then (do
        transition env id confirmed driver_en_route
        set_ride_state env id (some driver_en_route)
        ignore (append_event env id "ride.driver_en_route" driver user_id)
        pure driver_en_route)
      else pure s

  -- `SetDriverArrived`, from the driver's app
  unfoldable pub set_driver_arrived : ℕ → ℕ → Call F (Unit {0})
  set_driver_arrived id user_id = do
    r ← find_by_id_and_driver env id user_id
    status ← advance id user_id r.status
    check_transition status driver_arrived
    within ← within_radius env user_id r.driver_id r.pickup_point env.start_radius_m
    raise_if (not within) geo_fence
    transition env id driver_en_route driver_arrived
    set_driver_arrived_at env id
    set_ride_state env id (some driver_arrived)
    ignore (append_event env id "ride.driver_arrived" driver user_id)

  -- What the timer of `startPickupExpiryTimer` runs.
  unfoldable pub fire_pickup_expiry : ℕ → Call F (Unit {0})
  fire_pickup_expiry id = ignore (do
    r ← find_by_id env id
    return_if (not (status_eq r.status driver_arrived)) tt (ignore (set_pickup_expired env id)))

  -- `StartRide`
  unfoldable pub start_ride : ℕ → ℕ → Call F (Unit {0})
  start_ride id user_id = do
    r ← find_by_id_and_driver env id user_id
    check_transition r.status in_progress
    within ← within_radius env user_id r.driver_id r.pickup_point env.start_radius_m
    raise_if (not within) geo_fence
    transition env id driver_arrived in_progress
    set_started env id
    set_ride_state env id (some in_progress)
    ignore (append_event env id "ride.started" driver user_id)

  abbrev pub check_point : Point F → Call F (Unit {0})
  check_point p = elim (validate float p) [ none ↦ pure tt | some e ↦ raise e ]

  -- The destination that `CompleteRide` works with; a new one is stored.
  unfoldable pub final_destination :
      ℕ → Ride F → Option (Point F) → Option String → Call F (Point F)
  final_destination id r none address = pure r.destination_point
  final_destination id r (some p) address = do
    check_point p
    set_completion_destination env id p address
    pure p

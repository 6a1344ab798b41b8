-- ===== src/Ride/Cancel.antt =====
-- The ways in which a ride is called off (api-server/internal/ride/service.go): by its customer, by
-- its driver, after a wait at the pickup, and by the negotiation timer. Messages, pushes, logs and
-- analytics are left out.
use rides_api.Base.{
  ℕ, Bool, true, false, not, ◌&&◌, ◌||◌, Option, none, some, update, String, if◌then◌else◌,
}
use rides_api.Base.Errors.{invalid_transition, custom}
use rides_api.Base.Action.{◌>>=◌, ◌>>◌, pure, modify, raise_if, return_if, ignore}
use rides_api.Geo.{Point}
use rides_api.Fare.{Config, cancellation_fee}
use rides_api.Status.{
  Status, negotiating, confirmed, driver_en_route, driver_arrived, is_terminal, is_cancellable,
  status_eq,
}
use rides_api.Ride.World.{Ride, Env, Call, customer, driver, system}
use rides_api.Ride.Repo.{
  find_by_id, find_by_id_and_customer, find_by_id_and_driver, cancel, cancel_with_fee, append_event,
}
use rides_api.Ride.Redis.{release_ride_redis_state, driver_last_known_point, distance_m}
use rides_api.Ride.Credit.{is_credit_charged, refund_driver_credit}
use rides_api.Ride.Penalty.{record_cancel_penalty}

module _ {F : Type 0} (env : Env F) where
  open env use {float}

  abbrev pub fee_of_config : Option (Config F) → F
  fee_of_config none = float.of_int 0
  fee_of_config (some cfg) = cancellation_fee float cfg true

  abbrev pub fee_of_pricing : Option ℕ → F
  fee_of_pricing none = float.of_int 0
  fee_of_pricing (some id) = fee_of_config (env.config_of_id id)

  -- The fee of `CancelRide`: only after the driver's arrival
  abbrev pub late_cancel_fee : Ride F → F
  late_cancel_fee r =
      if status_eq r.status driver_arrived && env.has_fare_repo
      then fee_of_pricing r.pricing_config_id
      else float.of_int 0

  -- What `CancelRide` does once it has cancelled the ride that it had read.
  unfoldable pub after_customer_cancel : ℕ → ℕ → Ride F → Call F (Unit {0})
  after_customer_cancel id customer_id r = do
    (if is_credit_charged r.status then refund_driver_credit env id r.driver_id else pure tt)
    release_ride_redis_state env id customer_id r.driver_id r.transport_type
    ignore (append_event env id "ride.cancelled" customer customer_id)
    record_cancel_penalty env customer_id customer

  unfoldable pub cancel_live : ℕ → ℕ → String → Ride F → Call F (Unit {0})
  cancel_live id customer_id reason r = do
    raise_if (not (is_cancellable r.status)) invalid_transition
    did_cancel ← cancel_with_fee env id reason customer (late_cancel_fee r)
    return_if (not did_cancel) tt (after_customer_cancel id customer_id r)

  -- `CancelRide`
  unfoldable pub cancel_ride : ℕ → ℕ → String → Call F (Unit {0})
  cancel_ride id customer_id reason = do
    r ← find_by_id_and_customer env id customer_id
    (if is_terminal r.status
        then release_ride_redis_state env id customer_id r.driver_id r.transport_type
        else cancel_live id customer_id reason r)

  -- The states from which `DriverCancelRide` may cancel.
  abbrev pub is_driver_cancellable : Status → Bool
  is_driver_cancellable confirmed = true
  is_driver_cancellable driver_en_route = true
  is_driver_cancellable driver_arrived = true
  is_driver_cancellable _ = false

  -- `DriverCancelRide`: the driver forfeits the credit
  unfoldable pub driver_cancel_ride : ℕ → ℕ → String → Call F (Unit {0})
  driver_cancel_ride id user_id reason = do
    r ← find_by_id_and_driver env id user_id
    return_if (is_terminal r.status) tt (do
      raise_if (not (is_driver_cancellable r.status)) invalid_transition
      did_cancel ← cancel env id reason driver
      return_if (not did_cancel) tt (do
        record_cancel_penalty env user_id driver
        release_ride_redis_state env id r.customer_id r.driver_id r.transport_type
        ignore (append_event env id "ride.cancelled" driver user_id)))

  -- Is the driver's last known position near enough to the pickup?
  abbrev pub near_pickup : Ride F → Option (Point F) → Bool
  near_pickup r none = false
  near_pickup r (some p) =
      float.le (distance_m env p r.pickup_point) (float.of_int env.no_show_verify_radius_m)

  abbrev pub verify_no_show : ℕ → Ride F → Call F Bool
  verify_no_show user_id r =
      if env.dev_skip_geofence
      then pure true
      else (do p ← driver_last_known_point env user_id r.driver_id; pure (near_pickup r p))

  -- The refund of `CancelAfterPickupExpiry`, or the flag that it was denied.
  unfoldable pub settle_no_show : ℕ → Ride F → Bool → Call F (Unit {0})
  settle_no_show id r verified =
      if is_credit_charged r.status
      then (if verified
          then refund_driver_credit env id r.driver_id
          else ignore (append_event env id "ride.no_show_unverified" system id))
      else pure tt

  -- `CancelAfterPickupExpiry`
  unfoldable pub cancel_after_pickup_expiry : ℕ → ℕ → Call F (Unit {0})
  cancel_after_pickup_expiry id user_id = do
    r ← find_by_id_and_driver env id user_id
    raise_if (not (status_eq r.status driver_arrived) || not r.pickup_expired)
        (custom 409 "PICKUP_NOT_EXPIRED")
    verified ← verify_no_show user_id r
    did_cancel ←
        cancel env id (if verified then "customer_no_show" else "customer_no_show_unverified")
          driver
    return_if (not did_cancel) tt (do
      settle_no_show id r verified
      release_ride_redis_state env id r.customer_id r.driver_id r.transport_type
      ignore (append_event env id "ride.cancelled" driver user_id))

  -- `StartNegotiationTimeout`, `ResetNegotiationTimeout` and `CancelNegotiationTimeout`: the timer of a
  -- ride is armed at a time, set back if it is armed, or disarmed.
  abbrev pub start_negotiation_timeout : ℕ → Call F (Unit {0})
  start_negotiation_timeout id =
      modify (λ w. record w { neg_timers = update w.neg_timers id (some w.now) })

  abbrev pub rearm : ℕ → Option ℕ → Option ℕ
  rearm now none = none
  rearm now (some t) = some now

  abbrev pub reset_negotiation_timeout : ℕ → Call F (Unit {0})
  reset_negotiation_timeout id =
      modify (λ w. record w { neg_timers = update w.neg_timers id (rearm w.now (w.neg_timers id)) })

  abbrev pub cancel_negotiation_timeout : ℕ → Call F (Unit {0})
  cancel_negotiation_timeout id =
      modify (λ w. record w { neg_timers = update w.neg_timers id none })

  -- The function `fire` of the timer, in its two halves: the read, and what it does for a ride that it
  -- saw in negotiation. Other calls may run in between.
  unfoldable pub expire_negotiation : ℕ → Ride F → Call F (Unit {0})
  expire_negotiation id r = do
    ignore (cancel env id "negotiation_timeout" system)
    release_ride_redis_state env id r.customer_id r.driver_id r.transport_type
    ignore (append_event env id "ride.cancelled" system id)

  unfoldable pub fire_negotiation_timer : ℕ → Call F (Unit {0})
  fire_negotiation_timer id = ignore (do
    cancel_negotiation_timeout id
    r ← find_by_id env id
    return_if (not (status_eq r.status negotiating)) tt (expire_negotiation id r))

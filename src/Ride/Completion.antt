-- ===== src/Ride/Completion.antt =====
-- `CompleteRide` and the finalizer of rides that were never completed
-- (api-server/internal/ride/service.go).
use rides_api.Base.{
  ℕ, ◌*◌, ◌-◌, ◌/◌, suc, Bool, false, not, Option, none, some, List, [], ◌∷◌, String, ltb,
  if◌then◌else◌,
}
use rides_api.Base.Errors.{geo_fence}
use rides_api.Base.Action.{Result, ok, err, ◌>>=◌, ◌>>◌, pure, raise_if, ignore}
use rides_api.Geo.{Point}
use rides_api.Fare.{Config, Breakdown, calculate}
use rides_api.Status.{in_progress, completed}
use rides_api.Ride.World.{Ride, World, Env, Call, driver, system}
use rides_api.Ride.Repo.{
  find_by_id_and_driver, transition, append_event, set_completed, set_final_fare,
  increment_driver_rides, find_driver_profile_by_user_id, or_else,
}
use rides_api.Ride.Redis.{
  set_ride_state, set_customer_active_ride, release_ride_redis_state, release_driver_redis_state,
  within_radius,
}
use rides_api.Ride.Trip.{check_transition, final_destination}

-- Two hours, the most that is charged as waiting.
abbrev pub max_waiting_seconds : ℕ
max_waiting_seconds = 120 * 60

-- Whole seconds from the arrival to the start of the trip, 0 where either is missing or the start is
-- earlier, at most two hours.
unfoldable pub waiting_time : Option ℕ → Option ℕ → ℕ
waiting_time (some arrived) (some started) =
    let seconds = if ltb started arrived then 0 else (started - arrived) / 1000000000 in
    if ltb max_waiting_seconds seconds then max_waiting_seconds else seconds
waiting_time _ _ = 0

-- What `SetFinalFare` stores.
pub record Bill (F : Type 0) : Type 0 where
  pub final_fare : Option F
  pub waiting_seconds : ℕ
  pub waiting_charge : F
  pub night_applied : Bool
  pub night_pct : F

module _ {F : Type 0} (env : Env F) where
  open env use {float}

  -- The bill without a metered part.
  abbrev pub plain_bill : ℕ → Option F → Bill F
  plain_bill waiting fare = record {
    final_fare = fare;
    waiting_seconds = waiting;
    waiting_charge = float.of_int 0;
    night_applied = false;
    night_pct = float.of_int 0;
  }

  -- The metered fare, or the agreed one with the waiting charge on top.
  abbrev pub fare_due : Option F → Breakdown F → F
  fare_due none b = b.total_fare
  fare_due (some agreed) b = float.add agreed b.waiting_charge

  -- `pricingCfg` could be loaded, or not: then no final fare is set.
  abbrev pub bill_by_config : Ride F → ℕ → ℕ → Option (Config F) → Bill F
  bill_by_config r started waiting none = plain_bill waiting none
  bill_by_config r started waiting (some cfg) =
      let b =
        calculate float cfg (or_else r.estimated_distance_km (float.of_int 0)) (env.hour_of started)
          waiting in
      record {
        final_fare = some (fare_due r.agreed_fare b);
        waiting_seconds = waiting;
        waiting_charge = b.waiting_charge;
        night_applied = b.night_applied;
        night_pct = cfg.night_surcharge_pct;
      }

  -- `r.PricingConfigID != nil && r.StartedAt != nil`
  abbrev pub bill_if_priced : Ride F → ℕ → Option ℕ → Option ℕ → Bill F
  bill_if_priced r waiting (some cfg_id) (some started) =
      bill_by_config r started waiting (env.config_of_id cfg_id)
  bill_if_priced r waiting _ _ = plain_bill waiting r.agreed_fare

  unfoldable pub bill_of : Ride F → Bill F
  bill_of r =
      let waiting = waiting_time r.driver_arrived_at r.started_at in
      if env.has_fare_repo
      then bill_if_priced r waiting r.pricing_config_id r.started_at
      else plain_bill waiting r.agreed_fare

  abbrev pub store_bill : ℕ → Bill F → Call F (Unit {0})
  store_bill id b =
      set_final_fare env id b.final_fare b.waiting_seconds b.waiting_charge b.night_applied
        b.night_pct

  abbrev pub release_profile : Result (ℕ × String) → Call F (Unit {0})
  release_profile (ok (profile, vehicle)) = release_driver_redis_state env profile vehicle
  release_profile (err e) = pure tt

  -- `profile, _ := FindDriverProfileByUserID(…)`; the driver is released if there is one
  unfoldable pub release_driver_of : ℕ → Call F (Unit {0})
  release_driver_of user_id w =
      let (p, w') = find_driver_profile_by_user_id env user_id w in release_profile p w'

  -- The end of `CompleteRide`, once the ride is COMPLETED.
  unfoldable pub settle_trip : ℕ → ℕ → Ride F → Call F (Unit {0})
  settle_trip id user_id r = do
    set_completed env id
    store_bill id (bill_of r)
    ignore (increment_driver_rides env user_id)
    release_driver_of user_id
    set_customer_active_ride env r.customer_id none
    set_ride_state env id (some completed)
    ignore (append_event env id "ride.completed" driver user_id)

  -- `CompleteRide`
  unfoldable pub complete_ride : ℕ → ℕ → Option (Point F) → Option String → Call F (Unit {0})
  complete_ride id user_id dest address = do
    r ← find_by_id_and_driver env id user_id
    check_transition env r.status completed
    destination ← final_destination env id r dest address
    within ← within_radius env user_id r.driver_id destination env.complete_radius_m
    raise_if (not within) geo_fence
    transition env id in_progress completed
    settle_trip id user_id r

-- `StaleRide`
pub record StaleRide (F : Type 0) : Type 0 where
  pub id : ℕ
  pub customer_id : ℕ
  pub driver_profile_id : ℕ
  pub driver_user_id : ℕ
  pub transport_type : String
  pub agreed_fare : Option F

module _ {F : Type 0} (env : Env F) where
  open env use {float}

  unfoldable pub settle_stale : StaleRide F → Call F (Unit {0})
  settle_stale r = do
    ignore (set_completed env r.id)
    ignore (set_final_fare env r.id r.agreed_fare 0 (float.of_int 0) false (float.of_int 0))
    ignore (increment_driver_rides env r.driver_user_id)
    ignore (append_event env r.id "ride.auto_finalized" system r.id)
    release_ride_redis_state env r.id r.customer_id (some r.driver_profile_id) r.transport_type

  abbrev pub count_ok : Result (Unit {0}) → ℕ → ℕ
  count_ok (ok u) n = suc n
  count_ok (err e) n = n

  -- The body of the loop for one row: a ride that has moved on is skipped.
  unfoldable pub finalize_one : StaleRide F → Call F (Unit {0})
  finalize_one r = do transition env r.id in_progress completed; settle_stale r

  -- `FinalizeStaleInProgressRides` over the rows that the query gave
  unfoldable pub finalize_stale : List (StaleRide F) → ℕ → World F → ℕ × World F
  finalize_stale [] n w = (n, w)
  finalize_stale (r ∷ rs) n w =
      let (x, w') = finalize_one r w in finalize_stale rs (count_ok x n) w'

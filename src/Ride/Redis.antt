-- ===== src/Ride/Redis.antt =====
-- The Redis keys that a ride reserves, and the geofence (api-server/internal/ride/service.go).
-- A command that fails is logged and forgotten there, so an outage of Redis makes it do nothing.
use rides_api.Base.{ℕ, Bool, true, not, ◌||◌, Option, none, some, [], update, String, if◌then◌else◌}
use text.Mathlib.Text.{◌==◌ as str_eq}
use rides_api.Base.Action.{◌>>=◌, ◌>>◌, pure, gets, modify}
use rides_api.Geo.{Point, distance_km}
use rides_api.Status.{Status}
use rides_api.Ride.World.{Redis, Env, Call, available, within_radius_q, last_location_q}
use rides_api.Ride.Repo.{query}

module _ {F : Type 0} (env : Env F) where
  open env use {float}

  abbrev pub redis_do : (Redis F → Redis F) → Call F (Unit {0})
  redis_do f = modify (λ w. if env.redis_down then w else record w { redis = f w.redis })

  -- A GET, `none` where the key is not set or Redis does not answer.
  abbrev pub redis_get : {A : Type 0} → (Redis F → Option A) → Call F (Option A)
  redis_get f = gets (λ w. if env.redis_down then none else f w.redis)

  abbrev pub set_ride_state : ℕ → Option Status → Call F (Unit {0})
  set_ride_state id s = redis_do (λ r. record r { ride_state = update r.ride_state id s })

  abbrev pub set_customer_active_ride : ℕ → Option ℕ → Call F (Unit {0})
  set_customer_active_ride c v =
      redis_do (λ r. record r { customer_active_ride = update r.customer_active_ride c v })

  -- `loc.Lat != 0 || loc.Lng != 0`
  abbrev pub is_somewhere : Point F → Bool
  is_somewhere p = not (float.eq p.lat (float.of_int 0)) || not (float.eq p.lng (float.of_int 0))

  abbrev pub usable : Option (Point F) → Option (Point F)
  usable none = none
  usable (some p) = if is_somewhere p then some p else none

  abbrev pub geo_add : String → ℕ → Option (Point F) → Redis F → Redis F
  geo_add vehicle profile none r = r
  geo_add vehicle profile (some p) r = record r {
    geo_index = λ v q.
        if str_eq v vehicle then update (r.geo_index v) profile (some p) q else r.geo_index v q;
  }

  -- `releaseDriverRedisState`
  unfoldable pub release_driver_redis_state : ℕ → String → Call F (Unit {0})
  release_driver_redis_state profile vehicle = do
    redis_do (λ r. record r { driver_state = update r.driver_state profile (some available) })
    redis_do (λ r. record r { driver_active_ride = update r.driver_active_ride profile none })
    loc ← redis_get (λ r. r.driver_location profile)
    redis_do (geo_add vehicle profile (usable loc))

  abbrev pub release_driver : Option ℕ → String → Call F (Unit {0})
  release_driver none vehicle = pure tt
  release_driver (some profile) vehicle = release_driver_redis_state profile vehicle

  -- `releaseRideRedisState`
  unfoldable pub release_ride_redis_state : ℕ → ℕ → Option ℕ → String → Call F (Unit {0})
  unfolding release_driver_redis_state
  release_ride_redis_state id customer_id driver_id vehicle = do
    set_customer_active_ride customer_id none
    set_ride_state id none
    redis_do (λ r. record r { pending_driver = update r.pending_driver id none })
    redis_do (λ r. record r { excluded_drivers = update r.excluded_drivers id [] })
    release_driver driver_id vehicle

  abbrev pub location_key : Option ℕ → Call F (Option (Point F))
  location_key none = pure none
  location_key (some profile) = do
    loc ← redis_get (λ r. r.driver_location profile)
    pure (usable loc)

  -- `geo.DistanceKM(…) * 1000`
  abbrev pub distance_m : Point F → Point F → F
  distance_m a b = float.mul (distance_km float a b) (float.of_int 1000)

  abbrev pub within_from : ℕ → Point F → ℕ → Option (Point F) → Call F Bool
  within_from user_id target radius_m (some p) =
      pure (float.le (distance_m p target) (float.of_int radius_m))
  within_from user_id target radius_m none = do
    query env within_radius_q
    pure (env.db_within_radius user_id target radius_m)

  -- `withinRadius`
  unfoldable pub within_radius : ℕ → Option ℕ → Point F → ℕ → Call F Bool
  within_radius user_id driver_id target radius_m =
      if env.dev_skip_geofence
      then pure true
      else (do loc ← location_key driver_id; within_from user_id target radius_m loc)

  abbrev pub last_from : ℕ → Option (Point F) → Call F (Option (Point F))
  last_from user_id (some p) = pure (some p)
  last_from user_id none =
      pure (if env.fails last_location_q then none else env.db_last_location user_id)

  -- `driverLastKnownPoint`
  unfoldable pub driver_last_known_point : ℕ → Option ℕ → Call F (Option (Point F))
  driver_last_known_point user_id driver_id = do loc ← location_key driver_id; last_from user_id loc

-- ===== src/Ride/World.antt =====
-- The ride record (api-server/internal/ride/repository.go), the tables and the Redis keys that the
-- ride service shares with its callers, and what it takes from outside.
use rides_api.Base.{ℕ, Bool, Option, List, String}
use rides_api.Base.Action.{Action}
use rides_api.Float.{Float64}
use rides_api.Geo.{Point}
use rides_api.Fare.{Config}
use rides_api.Status.{Status}
use rides_api.Packages.{Credits, Outage}

pub data Role : Type 0 where
  customer driver system : Role

-- A row of `rides`. Ids are numbers, times are nanoseconds.
pub record Ride (F : Type 0) : Type 0 where
  pub id : ℕ
  pub customer_id : ℕ
  pub driver_id : Option ℕ
  pub transport_type : String
  pub status : Status
  pub pickup_point : Point F
  pub pickup_address : String
  pub destination_point : Point F
  pub destination_address : String
  pub estimated_distance_km : Option F
  pub customer_initial_fare : Option F
  pub agreed_fare : Option F
  pub fare_locked_at : Option ℕ
  pub cancel_reason : Option String
  pub cancelled_by_role : Option Role
  pub driver_arrived_at : Option ℕ
  pub started_at : Option ℕ
  pub completed_at : Option ℕ
  pub pricing_config_id : Option ℕ
  pub estimated_fare_rwf : Option F
  pub night_surcharge_applied : Bool
  pub night_surcharge_pct : F
  pub waiting_seconds : ℕ
  pub waiting_charge_rwf : F
  pub cancellation_fee_rwf : F
  pub final_fare_rwf : Option F
  pub pickup_expired : Bool
  pub ride_version : ℕ
  pub created_at : ℕ
  pub updated_at : ℕ

-- A row of `ride_events`; its payload is left out.
pub record Event : Type 0 where
  pub ride_id : ℕ
  pub event_type : String
  pub actor_role : Role
  pub actor_id : ℕ

-- The columns of `users` that a penalty writes.
pub record Account : Type 0 where
  pub ban_count : ℕ
  pub is_suspended : Bool
  pub suspension_until : Option ℕ

-- The tables. `rides` is by id, `user_of_profile` and `transport_of` are `driver_profiles` by id.
pub record Db (F : Type 0) : Type 0 where
  pub rides : ℕ → Option (Ride F)
  pub next_id : ℕ
  pub events : List Event
  pub idempotency : ℕ → String → Option ℕ
  pub accounts : ℕ → Account
  pub total_rides : ℕ → ℕ
  pub user_of_profile : ℕ → Option ℕ
  pub transport_of : ℕ → String
  pub credits : Credits

-- The states of a driver in Redis that the service writes.
pub data DriverState : Type 0 where
  available on_trip : DriverState

-- The Redis keys, `none` or `false` where a key is not set. `driver_location` is the point that the
-- key's JSON gives, `none` also where it gives none.
pub record Redis (F : Type 0) : Type 0 where
  pub creating_ride : ℕ → Bool
  pub customer_active_ride : ℕ → Option ℕ
  pub ride_state : ℕ → Option Status
  pub pending_driver : ℕ → Option ℕ
  pub excluded_drivers : ℕ → List ℕ
  pub driver_state : ℕ → Option DriverState
  pub driver_active_ride : ℕ → Option ℕ
  pub driver_location : ℕ → Option (Point F)
  pub geo_index : String → ℕ → Option (Point F)
  pub customer_daily_cancel : ℕ → ℕ
  pub driver_daily_cancel : ℕ → ℕ
  pub credit_charged : ℕ → Bool
  pub sessions : ℕ → Bool

-- `neg_timers` says which rides have a negotiation timer armed, and since when.
pub record World (F : Type 0) : Type 0 where
  pub db : Db F
  pub redis : Redis F
  pub neg_timers : ℕ → Option ℕ
  pub now : ℕ

-- The calls of the repository that may fail on their own.
pub data Query : Type 0 where
  find_by_id_q find_by_customer_q find_by_driver_q insert_ride_q : Query
  find_idempotency_q save_idempotency_q transition_q lock_fare_q set_started_q : Query
  set_driver_arrived_q set_completed_q set_completion_destination_q cancel_q : Query
  set_final_fare_q set_pickup_expired_q append_event_q find_user_q find_profile_q : Query
  increment_rides_q increment_bans_q ban_q suspend_q within_radius_q last_location_q : Query
  find_stale_q assign_driver_q count_rounds_q create_round_q latest_round_q : Query
  set_response_q create_text_q : Query

-- What a call of the service takes from outside: the floats, what a DECIMAL column with so many digits
-- after the point gives back for a float written to it (`decimal`), the settings (`config.Config`), the parts
-- that are wired in or nil, the pricing table, PostGIS, the hour of a time, and which statements fail
-- while it runs. A setting of 0 turns a penalty off.
pub record Env (F : Type 0) : Type 0 where
  pub float : Float64 F
  pub decimal : ℕ → F → F
  pub fails : Query → Bool
  pub redis_down : Bool
  pub ledger_out : Outage
  pub has_packages : Bool
  pub has_fare_repo : Bool
  pub config_of_type : String → Option (Config F)
  pub config_of_id : ℕ → Option (Config F)
  pub hour_of : ℕ → ℕ
  pub db_within_radius : ℕ → Point F → ℕ → Bool
  pub db_last_location : ℕ → Option (Point F)
  pub dev_skip_geofence : Bool
  pub start_radius_m : ℕ
  pub complete_radius_m : ℕ
  pub no_show_verify_radius_m : ℕ
  pub max_in_progress_minutes : ℕ
  pub cancel_suspend_threshold : ℕ
  pub customer_warn_threshold : ℕ
  pub customer_ban_threshold : ℕ
  pub driver_warn_threshold : ℕ
  pub driver_ban_threshold : ℕ
  pub bans_before_suspend : ℕ
  pub ban_hours : ℕ

-- The calls of the service.
abbrev pub Call : Type 0 → Type 0 → Type 0
Call F A = Action (World F) A

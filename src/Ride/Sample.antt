-- ===== src/Ride/Sample.antt =====
-- A concrete world of rides (api-server/internal/ride/service.go). Whole numbers stand for the
-- floats.
use rides_api.Base.{ℕ, ◌+◌, ◌-◌, ◌*◌, true, false, some, none, [], ◌==◌, if◌then◌else◌, ltb, leb}
use rides_api.Float.{Float64}
use rides_api.Packages.{Credits}
use rides_api.Status.{Status}
use rides_api.Ride.World.{Ride, World, Env}

abbrev pub whole_numbers : Float64 ℕ
whole_numbers = record {
  of_int = λ n. n;
  literal = λ n d. n;
  add = ◌+◌;
  sub = ◌-◌;
  mul = ◌*◌;
  div = λ a b. a;
  lt = ltb;
  le = leb;
  eq = ◌==◌;
  sin = λ x. x;
  cos = λ x. x;
  sqrt = λ x. x;
  atan2 = λ a b. a;
  pi = 3;
  neg = λ x. 0;
}

abbrev pub env : Env ℕ
env = record {
  float = whole_numbers;
  decimal = λ digits a. a;
  fails = λ q. false;
  redis_down = false;
  ledger_out = λ st. false;
  has_packages = true;
  has_fare_repo = false;
  config_of_type = λ t. none;
  config_of_id = λ i. none;
  hour_of = λ t. 12;
  db_within_radius = λ u p n. true;
  db_last_location = λ u. none;
  dev_skip_geofence = false;
  start_radius_m = 100;
  complete_radius_m = 200;
  no_show_verify_radius_m = 150;
  max_in_progress_minutes = 600;
  cancel_suspend_threshold = 5;
  customer_warn_threshold = 3;
  customer_ban_threshold = 4;
  driver_warn_threshold = 3;
  driver_ban_threshold = 4;
  bans_before_suspend = 3;
  ban_hours = 24;
}

-- A ride of the customer 1 with the driver profile 7, whose user is 2.
abbrev pub a_ride : Status → Ride ℕ
a_ride s = record {
  id = 50;
  customer_id = 1;
  driver_id = some 7;
  transport_type = "MOTO";
  status = s;
  pickup_point = record { lat = 10; lng = 10 };
  pickup_address = "a";
  destination_point = record { lat = 20; lng = 10 };
  destination_address = "b";
  estimated_distance_km = none;
  customer_initial_fare = none;
  agreed_fare = some 1000;
  fare_locked_at = some 5;
  cancel_reason = none;
  cancelled_by_role = none;
  driver_arrived_at = some 6;
  started_at = none;
  completed_at = none;
  pricing_config_id = none;
  estimated_fare_rwf = none;
  night_surcharge_applied = false;
  night_surcharge_pct = 0;
  waiting_seconds = 0;
  waiting_charge_rwf = 0;
  cancellation_fee_rwf = 0;
  final_fare_rwf = none;
  pickup_expired = false;
  ride_version = 4;
  created_at = 1;
  updated_at = 6;
}

abbrev pub no_entries : Credits
no_entries = record {
  entries = [];
  entitlements = [];
  profile_of_user = λ u. if u == 2 then some 7 else none;
  vehicle_type_of_code = λ code. some 3;
  active_vehicle = λ p t. none;
  free_trial_used = λ p. false;
  promotion_of = λ t. none;
  now = 1000;
}

-- The only ride is in the status `s`, and the user 1 has cancelled 3 rides today.
abbrev pub world : Status → World ℕ
world s = record {
  db = record {
    rides = λ i. if i == 50 then some (a_ride s) else none;
    next_id = 51;
    events = [];
    idempotency = λ u k. none;
    accounts = λ u. record { ban_count = 0; is_suspended = false; suspension_until = none };
    total_rides = λ u. 0;
    user_of_profile = λ p. some 2;
    transport_of = λ p. "MOTO";
    credits = no_entries;
  };
  redis = record {
    creating_ride = λ c. false;
    customer_active_ride = λ c. none;
    ride_state = λ i. none;
    pending_driver = λ i. none;
    excluded_drivers = λ i. [];
    driver_state = λ p. none;
    driver_active_ride = λ p. none;
    driver_location = λ p. none;
    geo_index = λ v p. none;
    customer_daily_cancel = λ u. 3;
    driver_daily_cancel = λ u. 0;
    credit_charged = λ i. false;
    sessions = λ u. true;
  };
  neg_timers = λ i. none;
  now = 7;
}

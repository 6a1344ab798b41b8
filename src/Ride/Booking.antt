-- ===== src/Ride/Booking.antt =====
-- Booking a ride, and reading it back (api-server/internal/ride/service.go). Starting the search
-- (`engine.StartSearch`) is the matching engine's part.
use mathlib.Core.Option
use rides_api.Base.{
  ℕ, suc, Bool, true, false, Option, none, some, ◌==◌, update, String, leb, is_some, if◌then◌else◌,
}
use rides_api.Base.Errors.{ride_already_active, customer_suspended, unavailable}
use rides_api.Base.Action.{
  Result, ok, err, ◌>>=◌, ◌>>◌, pure, gets, modify, raise, raise_if, ignore,
}
use rides_api.Geo.{Point}
use rides_api.Fare.{Config, calculate}
use rides_api.Status.{Status, searching, matched, negotiating}
use rides_api.Ride.World.{Ride, Env, Call, customer, insert_ride_q}
use rides_api.Ride.Repo.{
  query, with_db, put_ride, find_by_id, find_by_id_and_customer, append_event,
  find_ride_by_idempotency, save_ride_idempotency,
}
use rides_api.Ride.Redis.{redis_do, redis_get, set_ride_state, set_customer_active_ride}

-- What a customer asks for.
pub record Request (F : Type 0) : Type 0 where
  pub customer_id : ℕ
  pub transport_type : String
  pub pickup_address : String
  pub destination_address : String
  pub pickup : Point F
  pub destination : Point F
  pub initial_fare : Option F
  pub distance_km : Option F
  pub idempotency_key : String

module _ {F : Type 0} (env : Env F) where
  open env use {float}

  -- The row that `Repository.CreateRide` inserts.
  abbrev pub new_ride : ℕ → ℕ → Request F → Option F → Option ℕ → Ride F
  new_ride id now q estimate config_id = record {
    id = id;
    customer_id = q.customer_id;
    driver_id = none;
    transport_type = q.transport_type;
    status = searching;
    pickup_point = q.pickup;
    pickup_address = q.pickup_address;
    destination_point = q.destination;
    destination_address = q.destination_address;
    estimated_distance_km = none;
    customer_initial_fare = Option.map (env.decimal 2) q.initial_fare;
    agreed_fare = none;
    fare_locked_at = none;
    cancel_reason = none;
    cancelled_by_role = none;
    driver_arrived_at = none;
    started_at = none;
    completed_at = none;
    pricing_config_id = config_id;
    estimated_fare_rwf = Option.map (env.decimal 2) estimate;
    night_surcharge_applied = false;
    night_surcharge_pct = float.of_int 0;
    waiting_seconds = 0;
    waiting_charge_rwf = float.of_int 0;
    cancellation_fee_rwf = float.of_int 0;
    final_fare_rwf = none;
    pickup_expired = false;
    ride_version = 1;
    created_at = now;
    updated_at = now;
  }

  -- `Repository.CreateRide`: insert, and read back
  unfoldable pub insert_ride : Request F → Option F → Option ℕ → Call F (Ride F)
  insert_ride q estimate config_id = do
    query env insert_ride_q
    id ← gets (λ w. w.db.next_id)
    modify (λ w.
        put_ride id (new_ride id w.now q estimate config_id)
          (with_db (λ d. record d { next_id = suc d.next_id }) w))
    find_by_id env id

  -- The estimate, by the active pricing of the vehicle type; without one there is no booking.
  abbrev pub estimate_by : Config F → Option F → ℕ → Option F
  estimate_by cfg none now = none
  estimate_by cfg (some km) now = some (calculate float cfg km (env.hour_of now) 0).total_fare

  abbrev pub price_by : Request F → Option (Config F) → Call F (Option F × Option ℕ)
  price_by q none = raise unavailable
  price_by q (some cfg) = do
    now ← gets (λ w. w.now)
    pure (estimate_by cfg q.distance_km now, some cfg.id)

  unfoldable pub price : Request F → Call F (Option F × Option ℕ)
  price q =
      if env.has_fare_repo
      then price_by q (env.config_of_type q.transport_type)
      else pure (none, none)

  -- `CreateRide` while it holds the lock of the customer.
  unfoldable pub book_locked : Request F → Call F (Ride F)
  book_locked q = do
    live ← redis_get env (λ r. r.customer_active_ride q.customer_id)
    raise_if (is_some live) ride_already_active
    count ← gets (λ w. if env.redis_down then 0 else w.redis.customer_daily_cancel q.customer_id)
    raise_if (leb env.cancel_suspend_threshold count) customer_suspended
    p ← price q
    r ← insert_ride q p.0 p.1
    set_ride_state env r.id (some searching)
    set_customer_active_ride env q.customer_id (some r.id)
    ignore (append_event env r.id "ride.created" customer q.customer_id)
    ignore (save_ride_idempotency env q.customer_id q.idempotency_key r.id)
    pure r

  abbrev pub set_creating : ℕ → Bool → Call F (Unit {0})
  set_creating c b = redis_do env (λ r. record r { creating_ride = update r.creating_ride c b })

  -- A deferred `Del` of the lock: it runs however the call ends.
  abbrev pub release_lock : {A : Type 0} → ℕ → Call F A → Call F A
  release_lock c m w = let (x, w') = m w in (x, (set_creating c false w').1)

  abbrev pub or_book : Request F → Option (Ride F) → Call F (Ride F)
  or_book q (some r) = pure r
  or_book q none = do
    raise_if env.redis_down unavailable
    locked ← gets (λ w. w.redis.creating_ride q.customer_id)
    raise_if locked ride_already_active
    set_creating q.customer_id true
    release_lock q.customer_id (book_locked q)

  -- `CreateRide`
  unfoldable pub create_ride : Request F → Call F (Ride F)
  create_ride q = do
    existing ← find_ride_by_idempotency env q.customer_id q.idempotency_key
    or_book q existing

  -- `GetRide` hides the driver until the fare is agreed.
  abbrev pub hide_driver : Status → Ride F → Ride F
  hide_driver searching r = record r { driver_id = none }
  hide_driver matched r = record r { driver_id = none }
  hide_driver negotiating r = record r { driver_id = none }
  hide_driver _ r = r

  abbrev pub points_to : ℕ → Option ℕ → Bool
  points_to id none = false
  points_to id (some j) = j == id

  -- A read that fails clears what Redis has of the ride.
  abbrev pub forget_ride : ℕ → ℕ → Call F (Unit {0})
  forget_ride id customer_id = do
    set_ride_state env id none
    cached ← redis_get env (λ r. r.customer_active_ride customer_id)
    (if points_to id cached then set_customer_active_ride env customer_id none else pure tt)

  abbrev pub show_ride : ℕ → ℕ → Result (Ride F) → Call F (Ride F)
  show_ride id customer_id (ok r) = pure (hide_driver r.status r)
  show_ride id customer_id (err e) = do forget_ride id customer_id; raise e

  -- `GetRide`
  unfoldable pub get_ride : ℕ → ℕ → Call F (Ride F)
  get_ride id customer_id w =
      let (x, w') = find_by_id_and_customer env id customer_id w in show_ride id customer_id x w'

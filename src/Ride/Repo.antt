-- ===== src/Ride/Repo.antt =====
-- The statements of api-server/internal/ride/repository.go and idempotency.go that the ride service
-- runs. An UPDATE that matches no row changes nothing.
use rides_api.Base.{
  ℕ, ◌+◌, Bool, true, false, not, ◌&&◌, Option, none, some, ◌∷◌, ◌==◌, update, String,
  if◌then◌else◌,
}
use mathlib.Core.Option
use text.Mathlib.Text.{◌==◌ as str_eq}
use rides_api.Base.Errors.{AppError, unavailable, ride_not_found, invalid_transition, fare_locked}
use rides_api.Base.Action.{ok, err, ◌>>=◌, ◌>>◌, pure, raise, gets, modify, raise_if, return_if}
use rides_api.Geo.{Point}
use rides_api.Status.{Status, cancelled, is_terminal, status_eq}
use rides_api.Packages.{coalesce}
use rides_api.Ride.World.{
  Role, Ride, Account, Db, World, Env, Call, Query, find_by_id_q, find_by_customer_q,
  find_by_driver_q, find_idempotency_q, save_idempotency_q, transition_q, lock_fare_q,
  set_started_q, set_driver_arrived_q, set_completed_q, set_completion_destination_q, cancel_q,
  set_final_fare_q, set_pickup_expired_q, append_event_q, find_user_q, find_profile_q,
  increment_rides_q, increment_bans_q, ban_q, suspend_q, assign_driver_q,
}

abbrev pub or_else : {A : Type 0} → Option A → A → A
or_else none a = a
or_else (some b) a = b

abbrev pub is_unlocked : Option ℕ → Bool
is_unlocked none = true
is_unlocked (some t) = false

abbrev pub is_driver_of : Option ℕ → Option ℕ → Bool
is_driver_of (some p) (some q) = p == q
is_driver_of _ _ = false

module _ {F : Type 0} where
  -- A row, or the error that the absence of one becomes.
  abbrev pub found_or : {A : Type 0} → Option A → AppError → Call F A
  found_or none e = raise e
  found_or (some a) e = pure a

  abbrev pub keep_if : (Ride F → Bool) → Option (Ride F) → Option (Ride F)
  keep_if p none = none
  keep_if p (some r) = if p r then some r else none

  abbrev pub with_db : (Db F → Db F) → World F → World F
  with_db f w = record w { db = f w.db }

  -- `updated_at = NOW(), ride_version = ride_version + 1`, which every UPDATE of a ride has
  abbrev pub touch : ℕ → Ride F → Ride F
  touch now r = record r { updated_at = now; ride_version = r.ride_version + 1 }

  abbrev pub put_ride : ℕ → Ride F → World F → World F
  put_ride id r = with_db (λ d. record d { rides = update d.rides id (some r) })

  -- An UPDATE of the row that was found, if the condition holds of it; did it match?
  abbrev pub write_row :
      ℕ → (Ride F → Bool) → (Ride F → Ride F) → Option (Ride F) → World F → Bool × World F
  write_row id p f none w = (false, w)
  write_row id p f (some r) w =
      if p r then (true, put_ride id (touch w.now (f r)) w) else (false, w)

module _ {F : Type 0} (env : Env F) where
  -- A statement of its own, as far as it may fail.
  abbrev pub query : Query → Call F (Unit {0})
  query q = raise_if (env.fails q) unavailable

  unfoldable pub update_where : Query → ℕ → (Ride F → Bool) → (Ride F → Ride F) → Call F Bool
  update_where q id p f w =
      if env.fails q
      then (err unavailable, w)
      else let (hit, w') = write_row id p f (w.db.rides id) w in (ok hit, w')

  -- An UPDATE by the id alone, whose count of rows is not read.
  abbrev pub update_ride : Query → ℕ → (Ride F → Ride F) → Call F (Unit {0})
  update_ride q id f = do update_where q id (λ r. true) f; pure tt

  unfoldable pub find_by_id : ℕ → Call F (Ride F)
  find_by_id id = do query find_by_id_q; found_or (← gets (λ w. w.db.rides id)) ride_not_found

  unfoldable pub find_by_id_and_customer : ℕ → ℕ → Call F (Ride F)
  find_by_id_and_customer id customer_id = do
    query find_by_customer_q
    found_or (← gets (λ w. keep_if (λ r. r.customer_id == customer_id) (w.db.rides id)))
        ride_not_found

  unfoldable pub find_by_id_and_driver : ℕ → ℕ → Call F (Ride F)
  find_by_id_and_driver id user_id = do
    query find_by_driver_q
    found_or
        (← gets (λ w.
          keep_if (λ r. is_driver_of r.driver_id (w.db.credits.profile_of_user user_id))
            (w.db.rides id)))
        ride_not_found

  -- `Transition`: only from the status `from`
  unfoldable pub transition : ℕ → Status → Status → Call F (Unit {0})
  transition id from to = do
    hit ←
        update_where transition_q id (λ r. status_eq r.status from) (λ r. record r { status = to })
    raise_if (not hit) invalid_transition

  unfoldable pub assign_driver : ℕ → ℕ → Call F (Unit {0})
  assign_driver id profile_id =
      update_ride assign_driver_q id (λ r. record r { driver_id = some profile_id })

  -- `LockFare`: once
  unfoldable pub lock_fare : ℕ → F → Call F (Unit {0})
  lock_fare id amount = do
    now ← gets (λ w. w.now)
    hit ←
        update_where lock_fare_q id (λ r. is_unlocked r.fare_locked_at)
          (λ r. record r { agreed_fare = some (env.decimal 2 amount); fare_locked_at = some now })
    raise_if (not hit) fare_locked

  unfoldable pub set_started : ℕ → Call F (Unit {0})
  set_started id = do
    now ← gets (λ w. w.now)
    update_ride set_started_q id (λ r. record r { started_at = some now })

  unfoldable pub set_driver_arrived_at : ℕ → Call F (Unit {0})
  set_driver_arrived_at id = do
    now ← gets (λ w. w.now)
    update_ride set_driver_arrived_q id (λ r. record r { driver_arrived_at = some now })

  unfoldable pub set_completed : ℕ → Call F (Unit {0})
  set_completed id = do
    now ← gets (λ w. w.now)
    update_ride set_completed_q id (λ r. record r { completed_at = some now })

  unfoldable pub set_completion_destination : ℕ → Point F → Option String → Call F (Unit {0})
  set_completion_destination id dest address = update_ride set_completion_destination_q id (λ r.
      record r {
        destination_point = dest;
        destination_address = or_else address r.destination_address;
      })

  -- `Cancel`: unless the ride has ended; did this call cancel it?
  unfoldable pub cancel : ℕ → String → Role → Call F Bool
  cancel id reason role =
      update_where cancel_q id (λ r. not (is_terminal r.status))
        (λ r. record r {
          status = cancelled;
          cancel_reason = some reason;
          cancelled_by_role = some role;
        })

  unfoldable pub cancel_with_fee : ℕ → String → Role → F → Call F Bool
  cancel_with_fee id reason role fee =
      update_where cancel_q id (λ r. not (is_terminal r.status))
        (λ r. record r {
          status = cancelled;
          cancel_reason = some reason;
          cancelled_by_role = some role;
          cancellation_fee_rwf = env.decimal 2 fee;
        })

  unfoldable pub find_driver_user_id_by_profile_id : ℕ → Call F ℕ
  find_driver_user_id_by_profile_id profile_id = do
    query find_user_q
    found_or (← gets (λ w. w.db.user_of_profile profile_id)) unavailable

  -- `FindDriverProfileByUserID`: the profile's id and vehicle type
  unfoldable pub find_driver_profile_by_user_id : ℕ → Call F (ℕ × String)
  find_driver_profile_by_user_id user_id = do
    query find_profile_q
    p ← found_or (← gets (λ w. w.db.credits.profile_of_user user_id)) unavailable
    gets (λ w. (p, w.db.transport_of p))

  unfoldable pub set_final_fare : ℕ → Option F → ℕ → F → Bool → F → Call F (Unit {0})
  set_final_fare id final_fare waiting_seconds waiting_charge night_applied night_pct =
      update_ride set_final_fare_q id (λ r. record r {
        final_fare_rwf = Option.map (env.decimal 2) final_fare;
        waiting_seconds = waiting_seconds;
        waiting_charge_rwf = env.decimal 2 waiting_charge;
        night_surcharge_applied = night_applied;
        night_surcharge_pct = env.decimal 4 night_pct;
      })

  unfoldable pub set_pickup_expired : ℕ → Call F (Unit {0})
  set_pickup_expired id =
      update_ride set_pickup_expired_q id (λ r. record r { pickup_expired = true })

  unfoldable pub append_event : ℕ → String → Role → ℕ → Call F (Unit {0})
  append_event id kind role actor = do
    query append_event_q
    modify (
        with_db (λ d. record d {
          events =
              (record { ride_id = id; event_type = kind; actor_role = role; actor_id = actor })
              ∷ d.events;
        }))

  unfoldable pub increment_driver_rides : ℕ → Call F (Unit {0})
  increment_driver_rides user_id = do
    query increment_rides_q
    modify (
        with_db (λ d. record d {
          total_rides = update d.total_rides user_id (d.total_rides user_id + 1);
        }))

  abbrev pub change_account : ℕ → (Account → Account) → World F → World F
  change_account user_id f =
      with_db (λ d. record d { accounts = update d.accounts user_id (f (d.accounts user_id)) })

  unfoldable pub increment_user_ban_count : ℕ → Call F ℕ
  increment_user_ban_count user_id = do
    query increment_bans_q
    modify (change_account user_id (λ a. record a { ban_count = a.ban_count + 1 }))
    gets (λ w. (w.db.accounts user_id).ban_count)

  unfoldable pub ban_user_until : ℕ → ℕ → Call F (Unit {0})
  ban_user_until user_id until = do
    query ban_q
    modify (
        change_account user_id
          (λ a. record a { is_suspended = true; suspension_until = some until }))

  unfoldable pub suspend_user_indefinitely : ℕ → Call F (Unit {0})
  suspend_user_indefinitely user_id = do
    query suspend_q
    modify (change_account user_id (λ a. record a { is_suspended = true; suspension_until = none }))

  -- `FindRideByIdempotency` and `SaveRideIdempotency`, which do nothing for the empty key
  unfoldable pub find_ride_by_idempotency : ℕ → String → Call F (Option (Ride F))
  unfolding find_by_id
  find_ride_by_idempotency actor key = return_if (str_eq key "") none (do
    query find_idempotency_q
    id ← gets (λ w. w.db.idempotency actor key)
    elim id [ none ↦ pure none | some i ↦ (do r ← find_by_id i; pure (some r)) ])

  unfoldable pub save_ride_idempotency : ℕ → String → ℕ → Call F (Unit {0})
  save_ride_idempotency actor key id = return_if (str_eq key "") tt (do
    query save_idempotency_q
    modify (
        with_db (λ d. record d {
          idempotency = λ a k.
              if a == actor && str_eq k key
              then coalesce (d.idempotency a k) (some id)
              else d.idempotency a k;
        })))

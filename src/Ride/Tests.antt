-- ===== src/Ride/Tests.antt =====
-- The ride service on a concrete world (api-server/internal/ride/service.go).
use rides_api.Base.{
  ℕ, ◌-◌, ◌*◌, ◌≡◌, ◌≤◌, refl, true, false, ◌&&◌, some, none, List, [], ◌∷◌, ◌==◌, if◌then◌else◌,
  arith, ltb,
}
use mathlib.Core.Option
use rides_api.Base.Action.{ok, is_ok}
use rides_api.Status.{
  can_transition, negotiating, matched, confirmed, driver_arrived, in_progress, cancelled,
}
use rides_api.Ride.World.{Env, customer, driver}
use rides_api.Ride.Repo.{
  cancel, update_where, find_by_id_and_driver, transition, set_started, append_event,
}
use rides_api.Ride.Redis.{within_radius}
use rides_api.Ride.Credit.{charge_for_agreed_fare}
use rides_api.Ride.Cancel.{cancel_ride, expire_negotiation}
use rides_api.Ride.Penalty.{record_cancel_penalty, daily_cancels}
use rides_api.Ride.Trip.{start_ride}
use rides_api.Ride.Completion.{waiting_time}
use rides_api.Ride.Later.{Follows}
use rides_api.Ride.Lifecycle.{
  Step, run, lock, cancel_by_customer, start, complete, run-Follows, ended_stays,
}
use rides_api.Ride.Effects.{waiting_time_bounds, cancel_once, charge_once, cancel_ride_cancels}
use rides_api.Ride.Sample.{env, a_ride, world}
use rides_api.Ride.Start.{start_ride_starts}
use rides_api.Ride.Timer.{expire_negotiation_cancels}
use rides_api.Ride.Escalation.{banned, record_cancel_penalty_lem}

abbrev calls : List (Env ℕ × Step ℕ)
calls =
    (env, lock 50 900)
    ∷ (env, start 50 2)
    ∷ (env, complete 50 2 none none)
    ∷ (env, cancel_by_customer 50 1 "late")
    ∷ []

run-Follows_example : Follows 50 (a_ride driver_arrived) (run calls (world driver_arrived))
run-Follows_example =
    run-Follows calls (world driver_arrived) 50 (a_ride driver_arrived) refl (omega arith)

ended_stays_example :
    Option.map (λ x. x.status) ((run calls (world cancelled)).db.rides 50) ≡ some cancelled
ended_stays_example =
    ended_stays calls (world cancelled) 50 (a_ride cancelled) refl (omega arith) refl

starts : is_ok (start_ride env 50 2 (world driver_arrived)).0 ≡ true
unfolding start_ride find_by_id_and_driver within_radius transition update_where set_started
    append_event can_transition
starts = refl

start_ride_starts_example :
    let w = world driver_arrived in
    let after = (start_ride env 50 2 w).1.db.rides 50 in
    (driver_arrived ≡ driver_arrived)
    × ((within_radius env 2 (some 7) (a_ride driver_arrived).pickup_point 100 w).0 ≡ ok true)
    × (Option.map (λ x. x.status) after ≡ some in_progress)
    × (Option.map (λ x. x.started_at) after ≡ some (some 7))
start_ride_starts_example =
    start_ride_starts env 50 2 (world driver_arrived) (a_ride driver_arrived) refl starts

-- A ride in MATCHED, from which the table of transitions has no way to CANCELLED.
cancel_ride_cancels_example :
    let (x, w') = cancel_ride env 50 1 "changed my mind" (world matched) in
    (is_ok x ≡ true) × (Option.map (λ y. y.status) (w'.db.rides 50) ≡ some cancelled)
cancel_ride_cancels_example =
    cancel_ride_cancels env 50 "changed my mind" (world matched) (a_ride matched) refl (omega arith)
      refl refl refl

cancels : (cancel env 50 "late" customer (world confirmed)).0 ≡ ok true
unfolding cancel update_where
cancels = refl

cancel_once_example :
    let w' = (cancel env 50 "late" customer (world confirmed)).1 in
    cancel env 50 "no show" driver w' ≡ (ok false, w')
cancel_once_example =
    cancel_once env env 50 "late" "no show" customer driver (world confirmed) cancels refl

charge_once_example :
    let w' = (charge_for_agreed_fare env 50 (world confirmed)).1 in
    (charge_for_agreed_fare env 50 w').1 ≡ w'
charge_once_example = charge_once env env 50 (world confirmed) refl refl

waiting_time_bounds_example :
    let s = waiting_time (some 6) (some 9000000000000) in
    (s ≤ 7200) × (s * 1000000000 ≤ 9000000000000 - 6)
waiting_time_bounds_example = waiting_time_bounds 6 9000000000000

-- The timer had read the ride in negotiation, and finds it confirmed.
expire_negotiation_cancels_example :
    let w' = (expire_negotiation env 50 (a_ride negotiating) (world confirmed)).1 in
    (Option.map (λ x. x.status) (w'.db.rides 50) ≡ some cancelled)
    × (w'.db.credits ≡ (world confirmed).db.credits)
expire_negotiation_cancels_example =
    expire_negotiation_cancels env 50 (a_ride negotiating) (a_ride confirmed) (world confirmed) refl
      refl refl

-- The fourth cancellation of the day.
record_cancel_penalty_lem_example :
    let w = world matched in
    let w' = (record_cancel_penalty env 1 customer w).1 in
    (daily_cancels customer w'.redis 1 ≡ 4)
    × (w'.db.accounts 1
        ≡ (if ltb 0 4 && (4 == 4) then banned env w.now (w.db.accounts 1) else w.db.accounts 1))
record_cancel_penalty_lem_example =
    record_cancel_penalty_lem env 1 customer (world matched) refl refl refl refl

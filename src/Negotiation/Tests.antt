-- ===== src/Negotiation/Tests.antt =====
-- A negotiation on a concrete table (api-server/internal/negotiation/service.go).
use rides_api.Base.{
  ℕ, ◌≡◌, refl, true, false, some, none, List, [], ◌∷◌, ◌==◌, if◌then◌else◌, arith,
}
use mathlib.Core.Option
use rides_api.Base.Action.{is_ok}
use rides_api.Status.{negotiating, confirmed, status_eq}
use rides_api.Ride.World.{customer, driver, Ride, World, Env}
use rides_api.Ride.Repo.{
  find_by_id_and_customer, find_by_id_and_driver, lock_fare, transition, append_event, update_where,
}
use rides_api.Ride.Credit.{charge_for_agreed_fare, charge_driver_of}
use rides_api.Ride.Sample.{env, a_ride, world}
use rides_api.Negotiation.{
  Table, Round, Pricing, agree, accept, lock_manual_fare, find_ride_for_actor, get_latest_round,
  set_response, check_fare_in_band, check_vehicle_fare_bounds, bounds_for_vehicle, latest, role_eq,
  count_by_role,
}
use rides_api.Negotiation.Agreement.{accept_confirms, lock_manual_fare_confirms}
use rides_api.Negotiation.Offers.{
  Move, offer, take, IsWithinLimit, negotiate, negotiate-IsWithinLimit,
}

abbrev no_pricing : Pricing
no_pricing = record { is_wired = false; min_fare_of = λ t. none }

-- A ride in negotiation, whose fare is not locked.
abbrev open_ride : Ride ℕ
open_ride = record (a_ride negotiating) { agreed_fare = none; fare_locked_at = none }

abbrev in_talks : World ℕ
in_talks =
    let w = world negotiating in
    record w { db = record (w.db) { rides = λ i. if i == 50 then some open_ride else none } }

-- The driver has offered 1500 for it.
abbrev table : Table ℕ
table = record {
  world = in_talks;
  rounds =
      (record {
        id = 1;
        ride_id = 50;
        round_number = 1;
        proposed_by = driver;
        proposed_amount = 1500;
        response = none;
      })
      ∷ [];
  next_round = 2;
}

locks : is_ok (lock_manual_fare env no_pricing 50 2 1500 table).0 ≡ true
unfolding lock_manual_fare find_by_id_and_driver check_fare_in_band check_vehicle_fare_bounds
    bounds_for_vehicle agree lock_fare transition update_where append_event charge_for_agreed_fare
    charge_driver_of
locks = refl

accepts : is_ok (accept env no_pricing 50 customer 1 table).0 ≡ true
unfolding accept find_ride_for_actor find_by_id_and_customer get_latest_round latest set_response
    check_fare_in_band check_vehicle_fare_bounds bounds_for_vehicle agree lock_fare transition
    update_where append_event charge_for_agreed_fare charge_driver_of
accepts = refl

lock_manual_fare_confirms_example :
    let after = (lock_manual_fare env no_pricing 50 2 1500 table).1.world.db.rides 50 in
    let b = bounds_for_vehicle "MOTO" in
    (status_eq negotiating negotiating ≡ true)
    × (env.float.lt 1500 b.0 ≡ false)
    × (env.float.lt b.1 1500 ≡ false)
    × (Option.map (λ x. x.status) after ≡ some confirmed)
    × (Option.map (λ x. x.agreed_fare) after ≡ some (some 1500))
lock_manual_fare_confirms_example =
    lock_manual_fare_confirms env no_pricing 50 2 1500 table open_ride refl locks

accept_confirms_example :
    let after = (accept env no_pricing 50 customer 1 table).1.world.db.rides 50 in
    let b = bounds_for_vehicle "MOTO" in
    (x : Round ℕ) × (latest 50 table.rounds ≡ some x)
    × (role_eq x.proposed_by customer ≡ false)
    × (env.float.lt x.proposed_amount b.0 ≡ false)
    × (env.float.lt b.1 x.proposed_amount ≡ false)
    × (Option.map (λ y. y.status) after ≡ some confirmed)
    × (Option.map (λ y. y.agreed_fare) after ≡ some (some x.proposed_amount))
accept_confirms_example = accept_confirms env no_pricing 50 customer 1 table open_ride refl accepts

abbrev talks : List (Env ℕ × Pricing × Move ℕ)
talks =
    (env, no_pricing, offer 50 customer 1 800)
    ∷ (env, no_pricing, offer 50 customer 1 900)
    ∷ (env, no_pricing, offer 50 customer 1 1000)
    ∷ (env, no_pricing, offer 50 customer 1 1100)
    ∷ (env, no_pricing, take 50 driver 2)
    ∷ []

none_yet : IsWithinLimit 50 customer table
unfolding count_by_role
none_yet = omega arith

negotiate-IsWithinLimit_example : IsWithinLimit 50 customer (negotiate talks table)
negotiate-IsWithinLimit_example = negotiate-IsWithinLimit talks 50 customer table none_yet

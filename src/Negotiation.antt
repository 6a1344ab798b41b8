-- ===== src/Negotiation.antt =====
-- The negotiation of a fare (api-server/internal/negotiation): its bounds (fare_bounds.go), its rounds
-- (repository.go) and its calls (service.go). Messages, pushes, calls by telephone and analytics are
-- left out, and the ride service is wired in (`timeoutMgr`).
pub mod Agreement
pub mod Offers
mod Tests
use rides_api.Base.{
  ℕ, suc, ◌+◌, Bool, true, false, not, ◌&&◌, ◌||◌, Option, none, some, List, [], ◌∷◌, map, ◌==◌,
  ltb, leb, String, if◌then◌else◌,
}
use text.Mathlib.Text.{◌==◌ as str_eq}
use rides_api.Base.Errors.{
  AppError, custom, unavailable, invalid_transition, negotiation_round_limit,
}
use rides_api.Base.Action.{Action, ◌>>=◌, ◌>>◌, pure, gets, modify, raise, raise_if, ignore}
use rides_api.Status.{negotiating, confirmed, status_eq}
use rides_api.Ride.World.{
  Role, customer, driver, system, Ride, World, Env, Call, count_rounds_q, create_round_q,
  latest_round_q, set_response_q,
}
use rides_api.Ride.Repo.{
  find_by_id_and_customer, find_by_id_and_driver, lock_fare, transition, append_event,
}
use rides_api.Ride.Credit.{charge_for_agreed_fare}
use rides_api.Ride.Cancel.{cancel_negotiation_timeout, reset_negotiation_timeout}

pub data Response : Type 0 where
  accepted declined : Response

-- A row of `negotiation_rounds`, without the columns that a telephone call writes.
pub record Round (F : Type 0) : Type 0 where
  pub id : ℕ
  pub ride_id : ℕ
  pub round_number : ℕ
  pub proposed_by : Role
  pub proposed_amount : F
  pub response : Option Response

-- The world of the rides, and the rounds, the newest first.
pub record Table (F : Type 0) : Type 0 where
  pub world : World F
  pub rounds : List (Round F)
  pub next_round : ℕ

-- The pricing that the service reads: is its repository wired in, and the minimal fare of a type.
pub record Pricing : Type 0 where
  pub is_wired : Bool
  pub min_fare_of : String → Option ℕ

abbrev pub max_offers_per_side : ℕ
max_offers_per_side = 3

-- `vehicleFareBounds` and `boundsForVehicle`: the floor and the cap
unfoldable pub bounds_for_vehicle : String → ℕ × ℕ
bounds_for_vehicle code =
    if str_eq code "MOTO_BIKE"
    then (500, 4000)
    else if str_eq code "TUK_TUK"
    then (700, 5000)
    else if str_eq code "CAB_TAXI"
    then (2000, 15000)
    else if str_eq code "LIGHT_HILUX"
    then (3000, 25000)
    else if str_eq code "HEAVY_FUSO"
    then (10000, 80000)
    else (500, 100000)

abbrev pub role_eq : Role → Role → Bool
role_eq customer customer = true
role_eq driver driver = true
role_eq system system = true
role_eq _ _ = false

module _ {F : Type 0} where
  -- How many rounds of a ride there are, and how many of them one side has proposed.
  unfoldable pub count_rounds : ℕ → List (Round F) → ℕ
  count_rounds id [] = 0
  count_rounds id (x ∷ xs) = (if x.ride_id == id then 1 else 0) + count_rounds id xs

  unfoldable pub count_by_role : ℕ → Role → List (Round F) → ℕ
  count_by_role id role [] = 0
  count_by_role id role (x ∷ xs) =
      (if (x.ride_id == id) && role_eq x.proposed_by role then 1 else 0) + count_by_role id role xs

  abbrev pub later_round : Round F → Option (Round F) → Round F
  later_round x none = x
  later_round x (some y) = if ltb x.round_number y.round_number then y else x

  -- The round of a ride with the highest number.
  unfoldable pub latest : ℕ → List (Round F) → Option (Round F)
  latest id [] = none
  latest id (x ∷ xs) =
      let rest = latest id xs in if x.ride_id == id then some (later_round x rest) else rest

  abbrev pub respond : ℕ → Response → Round F → Round F
  respond id answer x = if x.id == id then record x { response = some answer } else x

  abbrev pub found_round : Option (Round F) → Action (Table F) (Round F)
  found_round none = raise unavailable
  found_round (some x) = pure x

  -- A call of the ride's own repository or service.
  abbrev pub on_world : {A : Type 0} → Call F A → Action (Table F) A
  on_world m t = let (x, w) = m t.world in (x, record t { world = w })

  abbrev pub raise_some : Option AppError → Action (Table F) (Unit {0})
  raise_some none = pure tt
  raise_some (some e) = raise e

module _ {F : Type 0} (env : Env F) where
  -- `findRideForActor`
  unfoldable pub find_ride_for_actor : ℕ → Role → ℕ → Action (Table F) (Ride F)
  find_ride_for_actor id customer user = on_world (find_by_id_and_customer env id user)
  find_ride_for_actor id _ user = on_world (find_by_id_and_driver env id user)

  unfoldable pub create_round : ℕ → ℕ → Role → F → Action (Table F) (Unit {0})
  create_round id number role amount = do
    raise_if (env.fails create_round_q) unavailable
    modify (λ t. record t {
      rounds =
          (record {
            id = t.next_round;
            ride_id = id;
            round_number = number;
            proposed_by = role;
            proposed_amount = env.decimal 2 amount;
            response = none;
          })
          ∷ t.rounds;
      next_round = suc t.next_round;
    })

  unfoldable pub get_latest_round : ℕ → Action (Table F) (Round F)
  get_latest_round id = do
    raise_if (env.fails latest_round_q) unavailable
    found_round (← gets (λ t. latest id t.rounds))

  unfoldable pub set_response : ℕ → Response → Action (Table F) (Unit {0})
  set_response round answer = do
    raise_if (env.fails set_response_q) unavailable
    modify (λ t. record t { rounds = map (respond round answer) t.rounds })

  -- What `Accept` and `LockManualFare` do once the fare is settled.
  unfoldable pub agree : ℕ → String → Role → ℕ → F → Call F (Unit {0})
  agree id event role user amount = do
    lock_fare env id amount
    transition env id negotiating confirmed
    ignore (append_event env id event role user)
    charge_for_agreed_fare env id
    cancel_negotiation_timeout env id

module _ {F : Type 0} (env : Env F) (pricing : Pricing) where
  open env use {float}

  -- `checkVehicleFareBounds`
  unfoldable pub check_vehicle_fare_bounds : Ride F → F → Option AppError
  check_vehicle_fare_bounds r amount =
      let (floor, cap) = bounds_for_vehicle r.transport_type in
      if float.lt amount (float.of_int floor) || float.lt (float.of_int cap) amount
      then some (custom 400 "VALIDATION")
      else none

  -- The band of `fareBounds`, by the minimal fare and the estimate
  abbrev pub larger : F → F → F
  larger a b = if float.lt a b then b else a

  abbrev pub band : ℕ → Option F → F × F
  band min_fare none = (float.of_int min_fare, float.mul (float.of_int min_fare) (float.of_int 10))
  band min_fare (some est) =
      let low = float.of_int min_fare in
      let high = float.mul (float.of_int min_fare) (float.of_int 10) in
      if float.lt (float.of_int 0) est
      then (
        larger low (float.mul est (float.literal 60 100)),
        larger high (float.mul est (float.literal 180 100)),
      )
      else (low, high)

  abbrev pub check_band : F → F × F → Option AppError
  check_band amount (low, high) =
      if float.lt amount low
      then some (custom 400 "BELOW_MIN_FARE")
      else if float.lt high amount
      then some (custom 400 "ABOVE_MAX_FARE")
      else none

  abbrev pub check_priced : Ride F → F → Option ℕ → Option AppError
  check_priced r amount none = some (custom 503 "FARE_CONFIG_UNAVAILABLE")
  check_priced r amount (some min_fare) = check_band amount (band min_fare r.estimated_fare_rwf)

  abbrev pub or_check : Option AppError → Option AppError → Option AppError
  or_check (some e) o = some e
  or_check none o = o

  -- `checkFareInBand`
  unfoldable pub check_fare_in_band : Ride F → F → Option AppError
  check_fare_in_band r amount = or_check (check_vehicle_fare_bounds r amount) (
      if pricing.is_wired
      then check_priced r amount (pricing.min_fare_of r.transport_type)
      else none)

  -- `Propose`
  unfoldable pub propose : ℕ → Role → ℕ → F → Action (Table F) (Unit {0})
  propose id role user amount = do
    r ← find_ride_for_actor env id role user
    raise_if (not (status_eq r.status negotiating)) invalid_transition
    raise_some (check_fare_in_band r amount)
    raise_if (env.fails count_rounds_q) unavailable
    mine ← gets (λ t. count_by_role id role t.rounds)
    raise_if (leb max_offers_per_side mine) negotiation_round_limit
    total ← gets (λ t. count_rounds id t.rounds)
    create_round env id (total + 1) role amount
    ignore (on_world (append_event env id "ride.negotiation_round" role user))
    on_world (reset_negotiation_timeout env id)

  -- `Accept`
  unfoldable pub accept : ℕ → Role → ℕ → Action (Table F) (Unit {0})
  accept id role user = do
    r ← find_ride_for_actor env id role user
    raise_if (not (status_eq r.status negotiating)) invalid_transition
    x ← get_latest_round env id
    raise_if (role_eq x.proposed_by role) (custom 409 "CANNOT_ACCEPT_OWN_PROPOSAL")
    raise_some (check_fare_in_band r x.proposed_amount)
    set_response env x.id accepted
    on_world (agree env id "ride.fare_agreed" role user x.proposed_amount)

  -- `LockManualFare`
  unfoldable pub lock_manual_fare : ℕ → ℕ → F → Action (Table F) (Unit {0})
  lock_manual_fare id user amount = do
    r ← on_world (find_by_id_and_driver env id user)
    raise_if (not (status_eq r.status negotiating)) invalid_transition
    raise_some (check_fare_in_band r amount)
    on_world (agree env id "ride.fare_agreed_manual" driver user amount)

  -- `Decline`
  unfoldable pub decline : ℕ → Role → ℕ → Action (Table F) (Unit {0})
  decline id role user = do
    r ← find_ride_for_actor env id role user
    raise_if (not (status_eq r.status negotiating)) invalid_transition
    x ← get_latest_round env id
    set_response env x.id declined

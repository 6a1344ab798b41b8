-- ===== src/Matching/Scene.antt =====
-- What a search for a driver works with (api-server/internal/matching/engine.go): its candidates, the
-- answers of drivers, the state, and what it takes from outside.
use rides_api.Base.{ℕ, Bool, Option, List, String}
use rides_api.Geo.{Point}
use rides_api.Ride.World.{World, Env, Call}

-- `candidate`, without the token for pushes
pub record Candidate (F : Type 0) : Type 0 where
  pub profile_id : ℕ
  pub user_id : ℕ
  pub vehicle_type : String
  pub distance_m : F
  pub daily_declines : ℕ
  pub acceptance_rate : F
  pub score : F

-- `acceptSignal`; no driver is the empty id.
pub record AcceptSignal : Type 0 where
  pub driver_id : Option ℕ
  pub accepted : Bool

-- What the drivers' tables give: a profile by its id, and a row of `FindNearby`.
pub record Profile (F : Type 0) : Type 0 where
  pub user_id : ℕ
  pub transport_type : String
  pub acceptance_rate : F

pub record Nearby (F : Type 0) : Type 0 where
  pub profile_id : ℕ
  pub profile : Profile F
  pub distance_m : F

-- The state that searches share: `locks` and `declines` are the keys `MatchingLock` and
-- `DriverDailyDeclines` of Redis by the driver's profile.
pub record Scene (F : Type 0) : Type 0 where
  pub world : World F
  pub locks : ℕ → Option ℕ
  pub declines : ℕ → ℕ

-- With the drivers to whom this search has sent a `ride_request`, the last one first.
pub record Hunt (F : Type 0) : Type 0 where
  pub scene : Scene F
  pub sent : List ℕ

-- What a search meets. An attempt and an offer have environments of their own, since the deadline of
-- the context may pass at any time: after it every statement fails. `asking p` and `answering p` are the
-- environments before and after the wait for the driver `p`. `between` and `meanwhile` are what other
-- calls do while the search waits to widen and waits for a driver, `signals p` the signals that come
-- before the timer does.
pub record Setting (F : Type 0) : Type 0 where
  pub max_attempts : ℕ
  pub primary_radius_m : ℕ
  pub expanded_radius_m : ℕ
  pub has_waves : Bool
  pub deadline_passes : ℕ → Bool
  pub between : ℕ → Scene F → Scene F
  pub meanwhile : ℕ → Scene F → Scene F
  pub signals : ℕ → List AcceptSignal
  pub is_driver_connected : ℕ → ℕ → Bool
  pub attempting : ℕ → Env F
  pub asking : ℕ → Env F
  pub answering : ℕ → Env F
  pub ending : Env F
  pub without_cancel : Env F
  pub geo_search : (ℕ → Option (Point F)) → Point F → ℕ → List (ℕ × F)
  pub find_profile_by_id : ℕ → Option (Profile F)
  pub find_nearby : Point F → ℕ → String → List ℕ → Option (List (Nearby F))

abbrev pub in_scene : {F : Type 0} → (Scene F → Scene F) → Hunt F → Hunt F
in_scene f h = record h { scene = f h.scene }

-- A call of the ride's repository or service whose result is dropped.
abbrev pub does : {F A : Type 0} → Call F A → Hunt F → Hunt F
does m h = in_scene (λ s. record s { world = (m s.world).1 }) h

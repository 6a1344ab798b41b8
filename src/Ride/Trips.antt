-- ===== src/Ride/Trips.antt =====
-- The calls of a trip (api-server/internal/ride/service.go), from the agreed fare to its end, keep
-- the rows of the rides as `Later` says.
use rides_api.Base.{
  ℕ, ◌≡◌, refl, Bool, true, not, Option, some, none, arith, if◌then◌else◌, String, sym, ap, ◌∙◌,
}
use mathlib.Core.Path.{subst}
use rides_api.Base.Errors.{invalid_transition, geo_fence}
use rides_api.Base.Action.{Result, ok, err, Keeps}
use rides_api.Geo.{Point}
use rides_api.Status.{
  Status, confirmed, driver_en_route, driver_arrived, in_progress, completed, can_transition,
  status_eq,
}
use rides_api.Ride.World.{Ride, World, Env, driver, system}
use rides_api.Ride.Repo.{
  transition, set_started, set_driver_arrived_at, set_completed, set_completion_destination,
  set_pickup_expired, increment_driver_rides, find_driver_profile_by_user_id,
}
use rides_api.Ride.Redis.{set_ride_state, set_customer_active_ride, within_radius}
use rides_api.Ride.Trip.{
  check_point, set_en_route, mark_driver_arrived, advance, set_driver_arrived, fire_pickup_expiry,
  start_ride, final_destination,
}
use rides_api.Ride.Completion.{
  store_bill, bill_of, release_profile, release_driver_of, settle_trip, complete_ride,
}
use rides_api.Ride.Later.{Follows}
use rides_api.Ride.Kept.{
  Kept, kept, ◌then◌, bind, either, guard, unless, done, ignored, logging, reading,
  reading_for_driver, release_driver_redis_state-db, same-Keeps,
}
use rides_api.Ride.Keeping.{
  transition-Follows, set_started-Follows, set_driver_arrived_at-Follows, set_completed-Follows,
  set_completion_destination-Follows, set_pickup_expired-Follows, set_final_fare-Follows,
  increment_driver_rides-Follows, redis_do-Follows,
}

module _ {F : Type 0} (env : Env F) (id : ℕ) (r : Ride F) where
  abbrev K : Type 0 → Type 0
  K A = Kept (Follows id r) A

  abbrev moving : (j : ℕ) (from to : Status) → can_transition from to ≡ true → K (Unit {0})
  moving j from to h = kept (transition env j from to) (transition-Follows env id r j from to h)

  abbrev showing : ℕ → Status → K (Unit {0})
  showing j s = kept (set_ride_state env j (some s)) (redis_do-Follows env id r _)

  abbrev checking : Status → Status → K (Unit {0})
  checking from to = guard (not (can_transition from to)) invalid_transition

  pub within_radius-same :
      (u : ℕ) (d : Option ℕ) (p : Point F) (n : ℕ) (s : World F)
      → (within_radius env u d p n s).1 ≡ s
  unfolding within_radius
  within_radius-same u d p n s = ground arith

  abbrev measuring : ℕ → Option ℕ → Point F → ℕ → K Bool
  measuring u d p n =
      kept (within_radius env u d p n)
        (λ s k. subst (Follows id r) (sym (within_radius-same u d p n s)) k)

  pub set_en_route-Follows : (j u : ℕ) → Keeps (Follows id r) (set_en_route env j u)
  unfolding set_en_route can_transition
  set_en_route-Follows j u =
      (bind (reading_for_driver env id r j u) (λ x.
        checking x.status driver_en_route
        then moving j confirmed driver_en_route refl
        then showing j driver_en_route
        then logging env id r j "ride.driver_en_route" driver u)).keeps

  abbrev arriving : ℕ → K (Unit {0})
  arriving j = kept (set_driver_arrived_at env j) (set_driver_arrived_at-Follows env id r j)

  pub mark_driver_arrived-Follows : (j : ℕ) → Keeps (Follows id r) (mark_driver_arrived env j)
  unfolding mark_driver_arrived can_transition
  mark_driver_arrived-Follows j =
      (moving j driver_en_route driver_arrived refl
        then arriving j
        then showing j driver_arrived
        then logging env id r j "ride.driver_arrived" system j).keeps

  pub advance-Follows : (j u : ℕ) (s : Status) → Keeps (Follows id r) (advance env j u s)
  unfolding advance can_transition
  advance-Follows j u s =
      (either (status_eq s confirmed)
        (moving j confirmed driver_en_route refl
          then showing j driver_en_route
          then logging env id r j "ride.driver_en_route" driver u
          then done driver_en_route)
        (done s)).keeps

  pub set_driver_arrived-Follows : (j u : ℕ) → Keeps (Follows id r) (set_driver_arrived env j u)
  unfolding set_driver_arrived can_transition
  set_driver_arrived-Follows j u =
      (bind (reading_for_driver env id r j u) (λ x.
        bind (kept (advance env j u x.status) (advance-Follows j u x.status)) (λ s.
          checking s driver_arrived
          then bind (measuring u x.driver_id x.pickup_point env.start_radius_m) (λ near.
            guard (not near) geo_fence
            then moving j driver_en_route driver_arrived refl
            then arriving j
            then showing j driver_arrived
            then logging env id r j "ride.driver_arrived" driver u)))).keeps

  pub fire_pickup_expiry-Follows : (j : ℕ) → Keeps (Follows id r) (fire_pickup_expiry env j)
  unfolding fire_pickup_expiry
  fire_pickup_expiry-Follows j =
      (ignored (
        bind (reading env id r j) (λ x. unless (not (status_eq x.status driver_arrived)) (
          ignored
            (kept (set_pickup_expired env j) (set_pickup_expired-Follows env id r j)))))).keeps

  pub start_ride-Follows : (j u : ℕ) → Keeps (Follows id r) (start_ride env j u)
  unfolding start_ride can_transition
  start_ride-Follows j u =
      (bind (reading_for_driver env id r j u) (λ x.
        checking x.status in_progress
        then bind (measuring u x.driver_id x.pickup_point env.start_radius_m) (λ near.
          guard (not near) geo_fence
          then moving j driver_arrived in_progress refl
          then kept (set_started env j) (set_started-Follows env id r j)
          then showing j in_progress
          then logging env id r j "ride.started" driver u))).keeps

  check_point-same : (p : Point F) (s : World F) → (check_point env p s).1 ≡ s
  check_point-same p s = ground arith

  pub final_destination-Follows :
      (j : ℕ) (x : Ride F) (o : Option (Point F)) (a : Option String)
      → Keeps (Follows id r) (final_destination env j x o a)
  unfolding final_destination
  final_destination-Follows j x none a = λ s k. k
  final_destination-Follows j x (some p) a =
      (kept (check_point env p) (λ s k. subst (Follows id r) (sym (check_point-same p s)) k)
        then kept (set_completion_destination env j p a)
            (set_completion_destination-Follows env id r j p a)
        then done p).keeps

  release_profile-db :
      (x : Result (ℕ × String)) (s : World F) → (release_profile env x s).1.db ≡ s.db
  release_profile-db (ok (p, v)) s = release_driver_redis_state-db env id r p v s
  release_profile-db (err e) s = refl

  find_driver_profile-same : (u : ℕ) (s : World F) → (find_driver_profile_by_user_id env u s).1 ≡ s
  unfolding find_driver_profile_by_user_id
  find_driver_profile-same u s = ground arith

  release_driver_of-same : (u : ℕ) (s : World F) → (release_driver_of env u s).1.db ≡ s.db
  unfolding release_driver_of
  release_driver_of-same u s =
      let found = find_driver_profile_by_user_id env u s in
      release_profile-db found.0 found.1 ∙ ap (λ w. w.db) (find_driver_profile-same u s)

  pub settle_trip-Follows : (j u : ℕ) (x : Ride F) → Keeps (Follows id r) (settle_trip env j u x)
  unfolding settle_trip
  settle_trip-Follows j u x =
      let b = bill_of env x in
      (kept (set_completed env j) (set_completed-Follows env id r j)
        then kept (store_bill env j b) (
            set_final_fare-Follows env id r j b.final_fare b.waiting_seconds b.waiting_charge
              b.night_applied b.night_pct)
        then ignored
            (kept (increment_driver_rides env u) (increment_driver_rides-Follows env id r u))
        then kept (release_driver_of env u) (
            same-Keeps env id r (release_driver_of env u) (λ s.
              let same = release_driver_of-same u s in
              (ap (λ d. d.rides) same, ap (λ d. d.next_id) same)))
        then kept (set_customer_active_ride env x.customer_id none) (redis_do-Follows env id r _)
        then showing j completed
        then logging env id r j "ride.completed" driver u).keeps

  pub complete_ride-Follows :
      (j u : ℕ) (o : Option (Point F)) (a : Option String)
      → Keeps (Follows id r) (complete_ride env j u o a)
  unfolding complete_ride can_transition
  complete_ride-Follows j u o a =
      (bind (reading_for_driver env id r j u) (λ x.
        checking x.status completed
        then bind (kept (final_destination env j x o a) (final_destination-Follows j x o a)) (λ p.
          bind (measuring u x.driver_id p env.complete_radius_m) (λ near.
            guard (not near) geo_fence
            then moving j in_progress completed refl
            then kept (settle_trip env j u x) (settle_trip-Follows j u x))))).keeps

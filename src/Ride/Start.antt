-- ===== src/Ride/Start.antt =====
-- Starting a ride (`StartRide`, api-server/internal/ride/service.go).
use rides_api.Base.{ap, sym, ◌∙◌, not, ℕ, ◌≡◌, true, some, arith}
use mathlib.Core.Option
use rides_api.Base.Action.{ok, raise_if, ◌>>=◌, is_ok, ignore, ◌>>◌}
use rides_api.Base.Errors.{geo_fence, invalid_transition}
use rides_api.Status.{Status, can_transition, driver_arrived, in_progress}
use rides_api.Ride.World.{Ride, World, Env, Call, driver}
use rides_api.Ride.Repo.{find_by_id_and_driver, transition, set_started, append_event, update_where}
use rides_api.Ride.Trip.{start_ride}
use rides_api.Ride.Trips.{within_radius-same}
use rides_api.Ride.Redis.{within_radius, set_ride_state}

to_progress : (s : Status) → can_transition s in_progress ≡ true → s ≡ driver_arrived
unfolding can_transition
to_progress s h = ground arith

module _ {F : Type 0} where
  -- The part of `StartRide` after the geofence.
  abbrev started : Env F → ℕ → ℕ → Call F (Unit {0})
  started env id u = do
    transition env id driver_arrived in_progress
    set_started env id
    set_ride_state env id (some in_progress)
    ignore (append_event env id "ride.started" driver u)

  started_writes :
      (env : Env F) (id u : ℕ) (w : World F) (r : Ride F)
      → w.db.rides id ≡ some r
      → is_ok (started env id u w).0 ≡ true
      → (Option.map (λ x. x.status) ((started env id u w).1.db.rides id) ≡ some in_progress)
        × (Option.map (λ x. x.started_at) ((started env id u w).1.db.rides id) ≡ some (some w.now))
  unfolding transition set_started update_where append_event
  started_writes env id u w r found h = ground arith

  finds_driven :
      (env : Env F) (id u : ℕ) (w : World F) (r : Ride F)
      → w.db.rides id ≡ some r
      → is_ok (find_by_id_and_driver env id u w).0 ≡ true
      → find_by_id_and_driver env id u w ≡ (ok r, w)
  unfolding find_by_id_and_driver
  finds_driven env id u w r found h = ground arith

  -- The part after the read.
  abbrev start_read : Env F → ℕ → ℕ → Ride F → Call F (Unit {0})
  start_read env id u r = do
    raise_if (not (can_transition r.status in_progress)) invalid_transition
    within ← within_radius env u r.driver_id r.pickup_point env.start_radius_m
    raise_if (not within) geo_fence
    started env id u

  start_read_guarded :
      (env : Env F) (id u : ℕ) (w : World F) (r : Ride F)
      → is_ok (start_read env id u r w).0 ≡ true
      → (can_transition r.status in_progress ≡ true)
        × ((within_radius env u r.driver_id r.pickup_point env.start_radius_m w).0 ≡ ok true)
        × (start_read env id u r w ≡ started env id u w)
  start_read_guarded env id u w r h =
      ground (arith, within_radius-same env 0 r u r.driver_id r.pickup_point env.start_radius_m w)

  start_reads :
      (env : Env F) (id u : ℕ) (w : World F) (r : Ride F)
      → w.db.rides id ≡ some r
      → is_ok (start_ride env id u w).0 ≡ true
      → start_ride env id u w ≡ start_read env id u r w
  unfolding start_ride
  start_reads env id u w r found h = ground (arith, finds_driven env id u w r found)

  -- A ride starts only from the pickup: where `StartRide` succeeds, the ride had its driver arrived, the
  -- geofence had found the driver near the pickup, and now the ride is in progress and carries the
  -- present as its start.
  pub start_ride_starts :
      (env : Env F) (id u : ℕ) (w : World F) (r : Ride F)
      → w.db.rides id ≡ some r
      → is_ok (start_ride env id u w).0 ≡ true
      → let after = (start_ride env id u w).1.db.rides id in
        (r.status ≡ driver_arrived)
        × ((within_radius env u r.driver_id r.pickup_point env.start_radius_m w).0 ≡ ok true)
        × (Option.map (λ x. x.status) after ≡ some in_progress)
        × (Option.map (λ x. x.started_at) after ≡ some (some w.now))
  start_ride_starts env id u w r found h =
      let same = start_reads env id u w r found h in
      let h' : is_ok (start_read env id u r w).0 ≡ true = ap (λ x. is_ok x.0) (sym same) ∙ h in
      let (allowed, near, same') = start_read_guarded env id u w r h' in
      let h'' : is_ok (started env id u w).0 ≡ true = ap (λ x. is_ok x.0) (sym same') ∙ h' in
      let (status, time) = started_writes env id u w r found h'' in
      (to_progress r.status allowed, near, rw (same ∙ same') status, rw (same ∙ same') time)

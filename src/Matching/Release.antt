-- ===== src/Matching/Release.antt =====
-- The end of a search without a driver (`giveUp`, api-server/internal/matching/engine.go), and the yes
-- of a driver to a ride that has ended meanwhile.
use rides_api.Base.{
  ℕ, ◌≡◌, refl, true, false, none, some, String, arith, update-same, if◌then◌else◌, ap, ◌∙◌,
}
use mathlib.Core.Option
use rides_api.Status.{cancelled, is_terminal}
use rides_api.Ride.World.{
  Ride, World, Env, Query, cancel_q, find_by_id_q, on_trip, system, append_event_q, assign_driver_q,
}
use rides_api.Ride.Repo.{
  find_by_id, cancel, append_event, update_where, assign_driver, transition, touch,
}
use rides_api.Matching.Scene.{Candidate}
use rides_api.Matching.Offer.{give_up, on_accepted, release_search, reserve_driver, match_ride}
use rides_api.Base.Action.{Result, ok, err}

module _ {F : Type 0} where
  release_search-up :
      (env : Env F) (id : ℕ) (r : Ride F) (w : World F)
      → env.redis_down ≡ false
      → let w' = (release_search env id (ok r) w).1 in
        (w'.db ≡ w.db)
        × (w'.redis.customer_active_ride r.customer_id ≡ none)
        × (w'.redis.pending_driver id ≡ none)
        × (w'.redis.ride_state id ≡ some cancelled)
  unfolding release_search
  release_search-up env id r w on = rw on (
    refl,
    update-same w.redis.customer_active_ride r.customer_id none,
    update-same w.redis.pending_driver id none,
    update-same w.redis.ride_state id (some cancelled),
  )

  release_search-down :
      (env : Env F) (id : ℕ) (r : Result (Ride F)) (w : World F)
      → env.redis_down ≡ true
      → (release_search env id r w).1 ≡ w
  unfolding release_search
  release_search-down env id (ok r) w off = rw off refl
  release_search-down env id (err e) w off = rw off refl

  reserve_driver-up :
      (env : Env F) (id : ℕ) (c : Candidate F) (w : World F)
      → env.redis_down ≡ false
      → let w' = (reserve_driver env id c w).1 in
        (w'.db ≡ w.db)
        × (w'.redis.driver_state c.profile_id ≡ some on_trip)
        × (w'.redis.driver_active_ride c.profile_id ≡ some id)
  unfolding reserve_driver
  reserve_driver-up env id c w on = rw on (
    refl,
    update-same w.redis.driver_state c.profile_id (some on_trip),
    update-same w.redis.driver_active_ride c.profile_id (some id),
  )

  -- The row of a ride that has ended, after `AssignDriver`, which does not look at the status.
  abbrev pub taken_over : Env F → ℕ → ℕ → Ride F → Ride F
  taken_over env p now r =
      if env.fails assign_driver_q then r else touch now (record r { driver_id = some p })

  match_ride-ended :
      (env : Env F) (id p : ℕ) (w : World F) (r : Ride F)
      → w.db.rides id ≡ some r
      → is_terminal r.status ≡ true
      → let (x, w') = match_ride env id p w in
        (x ≡ ok tt) × (w'.db.rides id ≡ some (taken_over env p w.now r))
  unfolding match_ride assign_driver transition update_where
  match_ride-ended env id p w r found ended = ground arith

  taken_over-status :
      (env : Env F) (p now : ℕ) (r : Ride F) → some (taken_over env p now r).status ≡ some r.status
  taken_over-status env p now r = ground arith

  reserve_driver-ok :
      (env : Env F) (id : ℕ) (c : Candidate F) (w : World F) → (reserve_driver env id c w).0 ≡ ok tt
  unfolding reserve_driver
  reserve_driver-ok env id c w = refl

  -- A search that gives up while the database and Redis answer cancels the ride, unless it has ended,
  -- and lets the customer book again: the key of the active ride is gone, no driver is pending, and the
  -- key of the ride's state says CANCELLED.
  pub give_up_frees :
      (env : Env F) (id : ℕ) (why : String) (w : World F) (r : Ride F)
      → w.db.rides id ≡ some r
      → is_terminal r.status ≡ false
      → ((q : Query) → env.fails q ≡ false)
      → env.redis_down ≡ false
      → let w' = (give_up env id why w).1 in
        (Option.map (λ x. x.status) (w'.db.rides id) ≡ some cancelled)
        × (w'.redis.customer_active_ride r.customer_id ≡ none)
        × (w'.redis.pending_driver id ≡ none)
        × (w'.redis.ride_state id ≡ some cancelled)
  unfolding give_up find_by_id cancel append_event update_where
  give_up_frees env id why w r found live up on =
      let gone = (cancel env id why system w).1 in
      let told = (append_event env id "ride.cancelled" system id gone).1 in
      ground (arith, up cancel_q, up find_by_id_q, release_search-up env id r told on)

  -- Once the deadline of its context is past, every statement and every command of a search fails:
  -- then `giveUp` changes nothing, and the ride stays as it was.
  give_up_in_vain :
      (env : Env F) (id : ℕ) (why : String) (w : World F)
      → ((q : Query) → env.fails q ≡ true)
      → env.redis_down ≡ true
      → (give_up env id why w).1 ≡ w
  unfolding give_up find_by_id cancel append_event update_where
  give_up_in_vain env id why w dead off = ground (
    arith,
    dead cancel_q,
    dead append_event_q,
    release_search-down env id (find_by_id env id w).0 w off,
  )

  -- A driver whose yes reaches a ride that has ended stays on a trip to it: with Redis up, the driver is
  -- ON_TRIP with this active ride. The ride keeps its status, but the driver is written over the one of
  -- its row, with the time and the version of an update, unless that statement fails.
  pub accept_after_end :
      (env : Env F) (id : ℕ) (c : Candidate F) (w : World F) (r : Ride F)
      → w.db.rides id ≡ some r
      → is_terminal r.status ≡ true
      → env.redis_down ≡ false
      → let w' = (on_accepted env id c w).1 in
        (w'.db.rides id ≡ some (taken_over env c.profile_id w.now r))
        × (Option.map (λ x. x.status) (w'.db.rides id) ≡ some r.status)
        × (w'.redis.driver_state c.profile_id ≡ some on_trip)
        × (w'.redis.driver_active_ride c.profile_id ≡ some id)
  unfolding on_accepted append_event
  accept_after_end env id c w r found ended on =
      let (done, same) = match_ride-ended env id c.profile_id w r found ended in
      let w1 = (match_ride env id c.profile_id w).1 in
      let row : (on_accepted env id c w).1.db.rides id
          ≡ some (taken_over env c.profile_id w.now r) =
        ground (arith, reserve_driver-up env id c w1 on, reserve_driver-ok env id c w1) in
      let (db, state, ride) = reserve_driver-up env id c w1 on in
      (
        row,
        ap (Option.map (λ x. x.status)) row ∙ taken_over-status env c.profile_id w.now r,
        ground (arith, state, reserve_driver-ok env id c w1),
        ground (arith, ride, reserve_driver-ok env id c w1),
      )

-- ===== src/Ride/Lifecycle.antt =====
-- Histories of calls of the ride service (api-server/internal/ride/service.go), each call in an
-- environment of its own, in any order: also the two halves of a negotiation timer, between which
-- others may run.
use rides_api.Base.{ℕ, ◌<◌, ◌≡◌, true, Option, some, List, [], ◌∷◌, String, ap, ◌∙◌, refl}
use mathlib.Core.Option
use rides_api.Geo.{Point}
use rides_api.Status.{
  Status, can_transition, is_terminal, searching, matched, negotiating, confirmed,
}
use rides_api.Ride.World.{Ride, World, Env}
use rides_api.Ride.Repo.{transition, assign_driver, lock_fare}
use rides_api.Ride.Credit.{charge_for_agreed_fare}
use rides_api.Ride.Cancel.{
  cancel_ride, driver_cancel_ride, cancel_after_pickup_expiry, expire_negotiation,
  fire_negotiation_timer,
}
use rides_api.Ride.Trip.{
  set_en_route, mark_driver_arrived, set_driver_arrived, fire_pickup_expiry, start_ride,
}
use rides_api.Ride.Completion.{complete_ride, StaleRide, finalize_stale}
use rides_api.Ride.Booking.{Request, create_ride, get_ride}
use rides_api.Ride.Later.{Later-refl, Reach-terminal, Follows}
use rides_api.Ride.Keeping.{transition-Follows, assign_driver-Follows, lock_fare-Follows}
use rides_api.Ride.Kept.{charge_for_agreed_fare-Follows}
use rides_api.Ride.Cancels.{
  cancel_ride-Follows, driver_cancel_ride-Follows, cancel_after_pickup_expiry-Follows,
  expire_negotiation-Follows, fire_negotiation_timer-Follows,
}
use rides_api.Ride.Trips.{
  set_en_route-Follows, mark_driver_arrived-Follows, set_driver_arrived-Follows,
  fire_pickup_expiry-Follows, start_ride-Follows, complete_ride-Follows,
}
use rides_api.Ride.Stale.{finalize_stale-Follows, create_ride-Follows, get_ride-Follows}

-- The transitions that the matching engine and the negotiation make by themselves.
pub data Move : Type 0 where
  match_up open_negotiation confirm_fare : Move

abbrev pub start_of : Move → Status
start_of match_up = searching
start_of open_negotiation = matched
start_of confirm_fare = negotiating

abbrev pub end_of : Move → Status
end_of match_up = matched
end_of open_negotiation = negotiating
end_of confirm_fare = confirmed

move-listed : (m : Move) → can_transition (start_of m) (end_of m) ≡ true
unfolding can_transition
move-listed match_up = refl
move-listed open_negotiation = refl
move-listed confirm_fare = refl

-- The calls of the service, and those of the repository that the matching engine and the negotiation
-- make for themselves.
pub data Step (F : Type 0) : Type 0 where
  book : Request F → Step F
  read : ℕ → ℕ → Step F
  move_ride : ℕ → Move → Step F
  assign : ℕ → ℕ → Step F
  lock : ℕ → F → Step F
  charge : ℕ → Step F
  cancel_by_customer : ℕ → ℕ → String → Step F
  cancel_by_driver : ℕ → ℕ → String → Step F
  cancel_no_show : ℕ → ℕ → Step F
  expire : ℕ → Ride F → Step F
  fire_timer : ℕ → Step F
  en_route : ℕ → ℕ → Step F
  mark_arrived : ℕ → Step F
  arrive : ℕ → ℕ → Step F
  fire_pickup : ℕ → Step F
  start : ℕ → ℕ → Step F
  complete : ℕ → ℕ → Option (Point F) → Option String → Step F
  finalize : List (StaleRide F) → Step F

module _ {F : Type 0} where
  unfoldable pub step : Env F → Step F → World F → World F
  step env (book q) w = (create_ride env q w).1
  step env (read id c) w = (get_ride env id c w).1
  step env (move_ride id m) w = (transition env id (start_of m) (end_of m) w).1
  step env (assign id p) w = (assign_driver env id p w).1
  step env (lock id a) w = (lock_fare env id a w).1
  step env (charge id) w = (charge_for_agreed_fare env id w).1
  step env (cancel_by_customer id c why) w = (cancel_ride env id c why w).1
  step env (cancel_by_driver id u why) w = (driver_cancel_ride env id u why w).1
  step env (cancel_no_show id u) w = (cancel_after_pickup_expiry env id u w).1
  step env (expire id r) w = (expire_negotiation env id r w).1
  step env (fire_timer id) w = (fire_negotiation_timer env id w).1
  step env (en_route id u) w = (set_en_route env id u w).1
  step env (mark_arrived id) w = (mark_driver_arrived env id w).1
  step env (arrive id u) w = (set_driver_arrived env id u w).1
  step env (fire_pickup id) w = (fire_pickup_expiry env id w).1
  step env (start id u) w = (start_ride env id u w).1
  step env (complete id u dest address) w = (complete_ride env id u dest address w).1
  step env (finalize rs) w = (finalize_stale env rs 0 w).1

  unfoldable pub run : List (Env F × Step F) → World F → World F
  run [] w = w
  run ((env, c) ∷ cs) w = run cs (step env c w)

  step-Follows :
      (env : Env F) (id : ℕ) (r : Ride F) (c : Step F) (w : World F)
      → Follows id r w
      → Follows id r (step env c w)
  unfolding step
  step-Follows env id r (book q) w k = create_ride-Follows env id r q w k
  step-Follows env id r (read j c) w k = get_ride-Follows env id r j c w k
  step-Follows env id r (move_ride j m) w k =
      transition-Follows env id r j (start_of m) (end_of m) (move-listed m) w k
  step-Follows env id r (assign j p) w k = assign_driver-Follows env id r j p w k
  step-Follows env id r (lock j a) w k = lock_fare-Follows env id r j a w k
  step-Follows env id r (charge j) w k = charge_for_agreed_fare-Follows env id r j w k
  step-Follows env id r (cancel_by_customer j c why) w k = cancel_ride-Follows env id r j c why w k
  step-Follows env id r (cancel_by_driver j u why) w k =
      driver_cancel_ride-Follows env id r j u why w k
  step-Follows env id r (cancel_no_show j u) w k =
      cancel_after_pickup_expiry-Follows env id r j u w k
  step-Follows env id r (expire j x) w k = expire_negotiation-Follows env id r j x w k
  step-Follows env id r (fire_timer j) w k = fire_negotiation_timer-Follows env id r j w k
  step-Follows env id r (en_route j u) w k = set_en_route-Follows env id r j u w k
  step-Follows env id r (mark_arrived j) w k = mark_driver_arrived-Follows env id r j w k
  step-Follows env id r (arrive j u) w k = set_driver_arrived-Follows env id r j u w k
  step-Follows env id r (fire_pickup j) w k = fire_pickup_expiry-Follows env id r j w k
  step-Follows env id r (start j u) w k = start_ride-Follows env id r j u w k
  step-Follows env id r (complete j u dest address) w k =
      complete_ride-Follows env id r j u dest address w k
  step-Follows env id r (finalize rs) w k = finalize_stale-Follows env id r rs 0 w k

  follows_on :
      (id : ℕ) (r : Ride F) (cs : List (Env F × Step F)) (w : World F)
      → Follows id r w
      → Follows id r (run cs w)
  unfolding run
  follows_on id r [] w k = k
  follows_on id r ((env, c) ∷ cs) w k =
      follows_on id r cs (step env c w) (step-Follows env id r c w k)

  -- Whatever calls are made, whatever fails in them and in whatever order they come, a ride that is
  -- there, with an id below the next one, keeps its row: the customer, the vehicle type and the time of the booking stay, a locked fare stays, the
  -- version does not fall, and the status moves along the table of transitions, save that a ride may be
  -- cancelled from any state but the two last ones.
  pub run-Follows :
      (cs : List (Env F × Step F)) (w : World F) (id : ℕ) (r : Ride F)
      → w.db.rides id ≡ some r
      → id < w.db.next_id
      → Follows id r (run cs w)
  run-Follows cs w id r found old =
      follows_on id r cs w (record { row = r; found = found; old = old; later = Later-refl r })

  -- A completed ride stays completed and a cancelled one stays cancelled, whatever is called.
  pub ended_stays :
      (cs : List (Env F × Step F)) (w : World F) (id : ℕ) (r : Ride F)
      → w.db.rides id ≡ some r
      → id < w.db.next_id
      → is_terminal r.status ≡ true
      → Option.map (λ x. x.status) ((run cs w).db.rides id) ≡ some r.status
  ended_stays cs w id r found old ended =
      let k = run-Follows cs w id r found old in
      ap (Option.map (λ x. x.status)) k.found ∙ ap some (Reach-terminal k.later.path ended)

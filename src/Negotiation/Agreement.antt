-- ===== src/Negotiation/Agreement.antt =====
-- What the calls of the negotiation achieve (api-server/internal/negotiation/service.go).
use rides_api.Base.{
  false, Option, some, refl, none, not, ◌∙◌, sym, ap, ℕ, ◌≡◌, refl, true, some, arith, String,
}
use mathlib.Core.Option
use rides_api.Base.Errors.{custom, invalid_transition}
use rides_api.Base.Action.{Action, raise_if, ◌>>=◌, ◌>>◌, ok, is_ok}
use rides_api.Status.{negotiating, status_eq, negotiating, confirmed}
use rides_api.Ride.World.{customer, driver, system, Role, customer, Ride, World, Env}
use rides_api.Ride.Repo.{
  find_by_id_and_driver, find_by_id_and_customer, lock_fare, transition, append_event, update_where,
}
use rides_api.Ride.Kept.{charge_for_agreed_fare-same}
use rides_api.Negotiation.{
  latest, on_world, raise_some, bounds_for_vehicle, check_vehicle_fare_bounds, accept,
  lock_manual_fare, set_response, get_latest_round, check_fare_in_band, role_eq, Pricing, accepted,
  Table, Round, agree, find_ride_for_actor,
}

module _ {F : Type 0} where
  agree_confirms :
      (env : Env F) (id : ℕ) (event : String) (role : Role) (user : ℕ) (a : F) (w : World F)
      (r : Ride F)
      → w.db.rides id ≡ some r
      → is_ok (agree env id event role user a w).0 ≡ true
      → let after = (agree env id event role user a w).1.db.rides id in
        (Option.map (λ x. x.status) after ≡ some confirmed)
        × (Option.map (λ x. x.agreed_fare) after ≡ some (some (env.decimal 2 a)))
  unfolding agree lock_fare transition update_where append_event
  agree_confirms env id event role user a w r found h =
      let w2 = (transition env id negotiating confirmed (lock_fare env id a w).1).1 in
      let w3 = (append_event env id event role user w2).1 in
      ground (arith, charge_for_agreed_fare-same env id r id w3)

  finds_driven :
      (env : Env F) (id u : ℕ) (w : World F) (r : Ride F)
      → w.db.rides id ≡ some r
      → is_ok (find_by_id_and_driver env id u w).0 ≡ true
      → find_by_id_and_driver env id u w ≡ (ok r, w)
  unfolding find_by_id_and_driver
  finds_driven env id u w r found h = ground arith

  lock_manual_fare_guarded :
      (env : Env F) (pricing : Pricing) (id u : ℕ) (a : F) (t : Table F) (r : Ride F)
      → t.world.db.rides id ≡ some r
      → is_ok (lock_manual_fare env pricing id u a t).0 ≡ true
      → (status_eq r.status negotiating ≡ true)
        × (check_fare_in_band env pricing r a ≡ none)
        × (lock_manual_fare env pricing id u a t
            ≡ on_world (agree env id "ride.fare_agreed_manual" driver u a) t)
  unfolding lock_manual_fare
  lock_manual_fare_guarded env pricing id u a t r found h =
      ground (arith, finds_driven env id u t.world r found)

  in_bounds :
      (env : Env F) (pricing : Pricing) (r : Ride F) (a : F)
      → check_fare_in_band env pricing r a ≡ none
      → let b = bounds_for_vehicle r.transport_type in
        (env.float.lt a (env.float.of_int b.0) ≡ false)
        × (env.float.lt (env.float.of_int b.1) a ≡ false)
  unfolding check_fare_in_band check_vehicle_fare_bounds
  in_bounds env pricing r a h = ground arith

  -- A fare that the driver locks by hand: where the call succeeds, the ride was in negotiation, the
  -- amount lies between the floor and the cap of the vehicle type, and now the ride is confirmed at
  -- that fare, as its DECIMAL column with two digits gives it back.
  pub lock_manual_fare_confirms :
      (env : Env F) (pricing : Pricing) (id u : ℕ) (a : F) (t : Table F) (r : Ride F)
      → t.world.db.rides id ≡ some r
      → is_ok (lock_manual_fare env pricing id u a t).0 ≡ true
      → let after = (lock_manual_fare env pricing id u a t).1.world.db.rides id in
        let b = bounds_for_vehicle r.transport_type in
        (status_eq r.status negotiating ≡ true)
        × (env.float.lt a (env.float.of_int b.0) ≡ false)
        × (env.float.lt (env.float.of_int b.1) a ≡ false)
        × (Option.map (λ x. x.status) after ≡ some confirmed)
        × (Option.map (λ x. x.agreed_fare) after ≡ some (some (env.decimal 2 a)))
  lock_manual_fare_confirms env pricing id u a t r found h =
      let (live, fair, same) = lock_manual_fare_guarded env pricing id u a t r found h in
      let (low, high) = in_bounds env pricing r a fair in
      let done : is_ok (agree env id "ride.fare_agreed_manual" driver u a t.world).0 ≡ true =
        ap (λ x. is_ok x.0) (sym same) ∙ h in
      let (status, fare) =
        agree_confirms env id "ride.fare_agreed_manual" driver u a t.world r found done in
      (live, low, high, rw same status, rw same fare)

  finds_actor :
      (env : Env F) (id : ℕ) (role : Role) (u : ℕ) (t : Table F) (r : Ride F)
      → t.world.db.rides id ≡ some r
      → is_ok (find_ride_for_actor env id role u t).0 ≡ true
      → find_ride_for_actor env id role u t ≡ (ok r, t)
  unfolding find_ride_for_actor find_by_id_and_customer
  finds_actor env id customer u t r found h = ground arith
  finds_actor env id driver u t r found h = ground (arith, finds_driven env id u t.world r found)
  finds_actor env id system u t r found h = ground (arith, finds_driven env id u t.world r found)

  -- The table after the answer has been stored.
  abbrev answered : Env F → Round F → Table F → Table F
  answered env x t = (set_response env x.id accepted t).1

  -- `Accept` after it has read the ride, and after it has read the round.
  abbrev pub accept_round :
      Env F → Pricing → ℕ → Role → ℕ → Ride F → Round F → Action (Table F) (Unit {0})
  accept_round env pricing id role u r x = do
    raise_if (role_eq x.proposed_by role) (custom 409 "CANNOT_ACCEPT_OWN_PROPOSAL")
    raise_some (check_fare_in_band env pricing r x.proposed_amount)
    set_response env x.id accepted
    on_world (agree env id "ride.fare_agreed" role u x.proposed_amount)

  abbrev pub accept_ride : Env F → Pricing → ℕ → Role → ℕ → Ride F → Action (Table F) (Unit {0})
  accept_ride env pricing id role u r = do
    raise_if (not (status_eq r.status negotiating)) invalid_transition
    x ← get_latest_round env id
    accept_round env pricing id role u r x

  accept_reads :
      (env : Env F) (pricing : Pricing) (id : ℕ) (role : Role) (u : ℕ) (t : Table F) (r : Ride F)
      → t.world.db.rides id ≡ some r
      → is_ok (accept env pricing id role u t).0 ≡ true
      → accept env pricing id role u t ≡ accept_ride env pricing id role u r t
  unfolding accept
  accept_reads env pricing id role u t r found h =
      ground (arith, finds_actor env id role u t r found)

  finds_round :
      (env : Env F) (id : ℕ) (t : Table F) (o : Option (Round F))
      → latest id t.rounds ≡ o
      → is_ok (get_latest_round env id t).0 ≡ true
      → (x : Round F) × (o ≡ some x) × (get_latest_round env id t ≡ (ok x, t))
  unfolding get_latest_round
  finds_round env id t none eq h = absurd (ground arith)
  finds_round env id t (some x) eq h = (x, refl, ground arith)

  accept_ride_ok :
      (env : Env F) (pricing : Pricing) (id : ℕ) (role : Role) (u : ℕ) (t : Table F) (r : Ride F)
      → is_ok (accept_ride env pricing id role u r t).0 ≡ true
      → is_ok (get_latest_round env id t).0 ≡ true
  accept_ride_ok env pricing id role u t r h = ground arith

  accept_ride_reads :
      (env : Env F) (pricing : Pricing) (id : ℕ) (role : Role) (u : ℕ) (t : Table F) (r : Ride F)
      (x : Round F)
      → is_ok (accept_ride env pricing id role u r t).0 ≡ true
      → get_latest_round env id t ≡ (ok x, t)
      → accept_ride env pricing id role u r t ≡ accept_round env pricing id role u r x t
  accept_ride_reads env pricing id role u t r x h eq = ground arith

  accept_round_guarded :
      (env : Env F) (pricing : Pricing) (id : ℕ) (role : Role) (u : ℕ) (t : Table F) (r : Ride F)
      (x : Round F)
      → is_ok (accept_round env pricing id role u r x t).0 ≡ true
      → (role_eq x.proposed_by role ≡ false)
        × (check_fare_in_band env pricing r x.proposed_amount ≡ none)
        × (accept_round env pricing id role u r x t
            ≡ on_world
                (agree env id "ride.fare_agreed" role u x.proposed_amount)
                (answered env x t))
  accept_round_guarded env pricing id role u t r x h = ground arith

  answered-world : (env : Env F) (x : Round F) (t : Table F) → (answered env x t).world ≡ t.world
  unfolding set_response
  answered-world env x t = ground arith

  -- An accepted offer: where `Accept` succeeds, the latest round of the ride was proposed by the other
  -- side, its amount lies between the floor and the cap of the vehicle type, and now the ride is
  -- confirmed at that amount, as its DECIMAL column with two digits gives it back.
  pub accept_confirms :
      (env : Env F) (pricing : Pricing) (id : ℕ) (role : Role) (u : ℕ) (t : Table F) (r : Ride F)
      → t.world.db.rides id ≡ some r
      → is_ok (accept env pricing id role u t).0 ≡ true
      → let after = (accept env pricing id role u t).1.world.db.rides id in
        let b = bounds_for_vehicle r.transport_type in
        (x : Round F) × (latest id t.rounds ≡ some x)
        × (role_eq x.proposed_by role ≡ false)
        × (env.float.lt x.proposed_amount (env.float.of_int b.0) ≡ false)
        × (env.float.lt (env.float.of_int b.1) x.proposed_amount ≡ false)
        × (Option.map (λ y. y.status) after ≡ some confirmed)
        × (Option.map (λ y. y.agreed_fare) after ≡ some (some (env.decimal 2 x.proposed_amount)))
  accept_confirms env pricing id role u t r found h =
      let one = accept_reads env pricing id role u t r found h in
      let h1 : is_ok (accept_ride env pricing id role u r t).0 ≡ true =
        ap (λ z. is_ok z.0) (sym one) ∙ h in
      let (x, last, read) =
        finds_round env id t (latest id t.rounds) refl
          (accept_ride_ok env pricing id role u t r h1) in
      let two = accept_ride_reads env pricing id role u t r x h1 read in
      let h2 : is_ok (accept_round env pricing id role u r x t).0 ≡ true =
        ap (λ z. is_ok z.0) (sym two) ∙ h1 in
      let (other, fair, three) = accept_round_guarded env pricing id role u t r x h2 in
      let same = one ∙ two ∙ three in
      let (low, high) = in_bounds env pricing r x.proposed_amount fair in
      let w = (answered env x t).world in
      let done : is_ok (agree env id "ride.fare_agreed" role u x.proposed_amount w).0 ≡ true =
        ap (λ z. is_ok z.0) (sym same) ∙ h in
      let found' : w.db.rides id ≡ some r =
        ap (λ v. v.db.rides id) (answered-world env x t) ∙ found in
      let (status, fare) =
        agree_confirms env id "ride.fare_agreed" role u x.proposed_amount w r found' done in
      (x, last, other, low, high, rw same status, rw same fare)

-- ===== src/Negotiation/Offers.antt =====
-- How many offers a negotiation has (api-server/internal/negotiation/service.go).
use rides_api.Base.{refl, List, [], ◌∷◌, not, sym, ℕ, ◌≤◌, ◌≡◌, refl, List, [], ◌∷◌, arith, map}
use mathlib.Core.Path.{subst}
use rides_api.Base.Errors.{invalid_transition}
use rides_api.Base.Action.{raise_if, Keeps, Keeps-bind, Keeps-raise_if, ◌>>=◌, ◌>>◌}
use rides_api.Status.{negotiating, status_eq, negotiating}
use rides_api.Ride.World.{customer, Role, customer, Ride, Env}
use rides_api.Negotiation.Agreement.{accept_round, accept_ride}
use rides_api.Negotiation.{
  declined, accept, lock_manual_fare, propose, create_round, set_response, get_latest_round,
  Pricing, decline, accepted, Table, Round, Response, find_ride_for_actor, count_by_role, respond,
}

module _ {F : Type 0} where
  -- The offers of one side for one ride are within the limit.
  abbrev pub IsWithinLimit : ℕ → Role → Table F → Type 0
  IsWithinLimit id role t = count_by_role id role t.rounds ≤ 3

  count_by_role-respond :
      (id : ℕ) (role : Role) (i : ℕ) (a : Response) (xs : List (Round F))
      → count_by_role id role (map (respond i a) xs) ≡ count_by_role id role xs
  unfolding count_by_role
  count_by_role-respond id role i a [] = refl
  count_by_role-respond id role i a (x ∷ xs) = ground (arith, count_by_role-respond id role i a xs)

  find_ride_for_actor-rounds :
      (env : Env F) (id : ℕ) (role : Role) (user : ℕ) (t : Table F)
      → (find_ride_for_actor env id role user t).1.rounds ≡ t.rounds
  unfolding find_ride_for_actor
  find_ride_for_actor-rounds env id customer user t = refl
  find_ride_for_actor-rounds env id _ user t = refl

  propose-limit :
      (env : Env F) (pricing : Pricing) (id id' : ℕ) (role role' : Role) (user : ℕ) (a : F)
      (t : Table F)
      → IsWithinLimit id role t
      → IsWithinLimit id role (propose env pricing id' role' user a t).1
  unfolding propose create_round count_by_role
  propose-limit env pricing id id' role role' user a t h =
      ground (arith, find_ride_for_actor-rounds env id' role' user t)

  set_response-limit :
      (env : Env F) (id : ℕ) (role : Role) (i : ℕ) (answer : Response) (t : Table F)
      → IsWithinLimit id role t
      → IsWithinLimit id role (set_response env i answer t).1
  unfolding set_response
  set_response-limit env id role i answer t h =
      ground (arith, count_by_role-respond id role i answer t.rounds)

-- The calls of a negotiation.
pub data Move (F : Type 0) : Type 0 where
  offer : ℕ → Role → ℕ → F → Move F
  take : ℕ → Role → ℕ → Move F
  refuse : ℕ → Role → ℕ → Move F
  settle_by_hand : ℕ → ℕ → F → Move F

module _ {F : Type 0} where
  unfoldable pub play : Env F → Pricing → Move F → Table F → Table F
  play env pricing (offer id role u a) t = (propose env pricing id role u a t).1
  play env pricing (take id role u) t = (accept env pricing id role u t).1
  play env pricing (refuse id role u) t = (decline env pricing id role u t).1
  play env pricing (settle_by_hand id u a) t = (lock_manual_fare env pricing id u a t).1

  unfoldable pub negotiate : List (Env F × Pricing × Move F) → Table F → Table F
  negotiate [] t = t
  negotiate ((env, pricing, m) ∷ ms) t = negotiate ms (play env pricing m t)

  find-limit :
      (env : Env F) (id id' : ℕ) (role role' : Role) (u : ℕ)
      → Keeps (IsWithinLimit id role) (find_ride_for_actor env id' role' u)
  find-limit env id id' role role' u t h =
      subst (λ xs. count_by_role id role xs ≤ 3)
        (sym (find_ride_for_actor-rounds env id' role' u t)) h

  latest-limit :
      (env : Env F) (id id' : ℕ) (role : Role)
      → Keeps (IsWithinLimit id role) (get_latest_round env id')
  unfolding get_latest_round
  latest-limit env id id' role t h = ground arith

  accept_round-limit :
      (env : Env F) (pricing : Pricing) (id id' : ℕ) (role role' : Role) (u : ℕ) (r : Ride F)
      (x : Round F)
      → Keeps (IsWithinLimit id role) (accept_round env pricing id' role' u r x)
  accept_round-limit env pricing id id' role role' u r x t h =
      ground (arith, set_response-limit env id role x.id accepted t h)

  accept-limit :
      (env : Env F) (pricing : Pricing) (id id' : ℕ) (role role' : Role) (u : ℕ)
      → Keeps (IsWithinLimit id role) (accept env pricing id' role' u)
  unfolding accept
  accept-limit env pricing id id' role role' u =
      let P = IsWithinLimit id role in
      Keeps-bind P (find_ride_for_actor env id' role' u) (accept_ride env pricing id' role' u)
        (find-limit env id id' role role' u)
        (λ r.
          Keeps-bind P (raise_if (not (status_eq r.status negotiating)) invalid_transition)
            (λ _. get_latest_round env id' >>= accept_round env pricing id' role' u r)
            (Keeps-raise_if P (not (status_eq r.status negotiating)) invalid_transition)
            (λ _.
              Keeps-bind P (get_latest_round env id') (accept_round env pricing id' role' u r)
                (latest-limit env id id' role)
                (accept_round-limit env pricing id id' role role' u r)))

  decline-limit :
      (env : Env F) (pricing : Pricing) (id id' : ℕ) (role role' : Role) (u : ℕ)
      → Keeps (IsWithinLimit id role) (decline env pricing id' role' u)
  unfolding decline
  decline-limit env pricing id id' role role' u =
      let P = IsWithinLimit id role in
      let answer = λ (x : Round F). set_response env x.id declined in
      let rest = λ (r : Ride F). (do
        raise_if (not (status_eq r.status negotiating)) invalid_transition
        get_latest_round env id' >>= answer) in
      Keeps-bind P (find_ride_for_actor env id' role' u) rest (find-limit env id id' role role' u)
        (λ r.
          Keeps-bind P (raise_if (not (status_eq r.status negotiating)) invalid_transition)
            (λ _. get_latest_round env id' >>= answer)
            (Keeps-raise_if P (not (status_eq r.status negotiating)) invalid_transition)
            (λ _.
              Keeps-bind P (get_latest_round env id') answer (latest-limit env id id' role)
                (λ x t h. set_response-limit env id role x.id declined t h)))

  manual-limit :
      (env : Env F) (pricing : Pricing) (id id' : ℕ) (role : Role) (u : ℕ) (a : F) (t : Table F)
      → IsWithinLimit id role t
      → IsWithinLimit id role (lock_manual_fare env pricing id' u a t).1
  unfolding lock_manual_fare
  manual-limit env pricing id id' role u a t h = ground arith

  play-limit :
      (env : Env F) (pricing : Pricing) (m : Move F) (id : ℕ) (role : Role) (t : Table F)
      → IsWithinLimit id role t
      → IsWithinLimit id role (play env pricing m t)
  unfolding play
  play-limit env pricing (offer i s u a) id role t h = propose-limit env pricing id i role s u a t h
  play-limit env pricing (take i s u) id role t h = accept-limit env pricing id i role s u t h
  play-limit env pricing (refuse i s u) id role t h = decline-limit env pricing id i role s u t h
  play-limit env pricing (settle_by_hand i u a) id role t h =
      manual-limit env pricing id i role u a t h

  -- However a negotiation is played, a side of a ride that has at most three offers in it never comes
  -- to have more.
  pub negotiate-IsWithinLimit :
      (ms : List (Env F × Pricing × Move F)) (id : ℕ) (role : Role) (t : Table F)
      → IsWithinLimit id role t
      → IsWithinLimit id role (negotiate ms t)
  unfolding negotiate
  negotiate-IsWithinLimit [] id role t h = h
  negotiate-IsWithinLimit ((env, pricing, m) ∷ ms) id role t h =
      negotiate-IsWithinLimit ms id role (play env pricing m t)
        (play-limit env pricing m id role t h)

-- ===== src/Ride/Keeping.antt =====
-- The statements of the repository and the Redis commands (api-server/internal/ride) keep the rows
-- of the rides as `Later` says.
use rides_api.Base.{
  ℕ, ◌≡◌, refl, Bool, true, false, not, Option, some, arith, if◌then◌else◌, String, ap, ◌∙◌, sym,
}
use mathlib.Core.Path.{subst}
use rides_api.Base.Errors.{unavailable, invalid_transition, fare_locked}
use rides_api.Base.Action.{Keeps, Keeps-bind, Keeps-raise_if, modify, raise_if, ◌>>=◌, ◌>>◌}
use rides_api.Geo.{Point}
use rides_api.Status.{Status, cancelled, can_transition, is_terminal, status_eq}
use rides_api.Ride.World.{
  Ride, World, Env, Query, Role, Redis, transition_q, assign_driver_q, set_started_q,
  set_driver_arrived_q, set_completed_q, set_completion_destination_q, set_pickup_expired_q,
  set_final_fare_q, lock_fare_q, cancel_q, append_event_q, increment_rides_q,
}
use rides_api.Ride.Repo.{
  is_unlocked, update_where, update_ride, query, find_by_id, find_by_id_and_customer,
  find_by_id_and_driver, transition, assign_driver, lock_fare, set_started, set_driver_arrived_at,
  set_completed, set_completion_destination, cancel, cancel_with_fee, set_final_fare,
  set_pickup_expired, append_event, increment_driver_rides,
}
use rides_api.Ride.Redis.{redis_do}
use rides_api.Ride.Later.{Later, Follows, stay, go, can_move, quiet, update_where-Follows}

module _ {F : Type 0} (env : Env F) (id : ℕ) (r : Ride F) where
  status_eq→eq : (s t : Status) → status_eq s t ≡ true → s ≡ t
  status_eq→eq s t h = ground arith

  Later-to :
      (x : Ride F) (to : Status) → can_move x.status to ≡ true → Later x (record x { status = to })
  Later-to x to h = quiet x (record x { status = to }) refl refl refl refl refl refl (go stay h)

  can_move-from :
      (s from to : Status)
      → can_transition from to ≡ true
      → status_eq s from ≡ true
      → can_move s to ≡ true
  can_move-from s from to h g = let same = status_eq→eq s from g in ground arith

  pub transition-Follows :
      (j : ℕ) (from to : Status)
      → can_transition from to ≡ true
      → Keeps (Follows id r) (transition env j from to)
  unfolding transition
  transition-Follows j from to h =
      Keeps-bind (Follows id r) _ _
        (update_where-Follows env id r transition_q j (λ x. status_eq x.status from)
          (λ x. record x { status = to })
          (λ x g. Later-to x to (can_move-from x.status from to h g)))
        (λ hit. Keeps-raise_if (Follows id r) (not hit) invalid_transition)

  update_ride-Follows :
      (q : Query) (j : ℕ) (f : Ride F → Ride F)
      → ((x : Ride F) → Later x (f x))
      → Keeps (Follows id r) (update_ride env q j f)
  update_ride-Follows q j f l =
      Keeps-bind (Follows id r) _ _ (update_where-Follows env id r q j (λ x. true) f (λ x h. l x))
        (λ hit s k. k)

  pub assign_driver-Follows : (j p : ℕ) → Keeps (Follows id r) (assign_driver env j p)
  unfolding assign_driver
  assign_driver-Follows j p =
      update_ride-Follows assign_driver_q j _ (λ x. quiet x _ refl refl refl refl refl refl stay)

  pub set_started-Follows : (j : ℕ) → Keeps (Follows id r) (set_started env j)
  unfolding set_started
  set_started-Follows j s k =
      update_ride-Follows set_started_q j _ (λ x. quiet x _ refl refl refl refl refl refl stay) s k

  pub set_driver_arrived_at-Follows : (j : ℕ) → Keeps (Follows id r) (set_driver_arrived_at env j)
  unfolding set_driver_arrived_at
  set_driver_arrived_at-Follows j s k =
      update_ride-Follows set_driver_arrived_q j _
        (λ x. quiet x _ refl refl refl refl refl refl stay) s k

  pub set_completed-Follows : (j : ℕ) → Keeps (Follows id r) (set_completed env j)
  unfolding set_completed
  set_completed-Follows j s k =
      update_ride-Follows set_completed_q j _ (λ x. quiet x _ refl refl refl refl refl refl stay) s
        k

  pub set_completion_destination-Follows :
      (j : ℕ) (p : Point F) (a : Option String)
      → Keeps (Follows id r) (set_completion_destination env j p a)
  unfolding set_completion_destination
  set_completion_destination-Follows j p a =
      update_ride-Follows set_completion_destination_q j _
        (λ x. quiet x _ refl refl refl refl refl refl stay)

  pub set_pickup_expired-Follows : (j : ℕ) → Keeps (Follows id r) (set_pickup_expired env j)
  unfolding set_pickup_expired
  set_pickup_expired-Follows j =
      update_ride-Follows set_pickup_expired_q j _
        (λ x. quiet x _ refl refl refl refl refl refl stay)

  pub set_final_fare-Follows :
      (j : ℕ) (a : Option F) (n : ℕ) (b : F) (c : Bool) (d : F)
      → Keeps (Follows id r) (set_final_fare env j a n b c d)
  unfolding set_final_fare
  set_final_fare-Follows j a n b c d =
      update_ride-Follows set_final_fare_q j _ (λ x. quiet x _ refl refl refl refl refl refl stay)

  -- The fare is set only where none is locked.
  Later-lock :
      (x : Ride F) (a : F) (now : ℕ)
      → is_unlocked x.fare_locked_at ≡ true
      → Later x (record x { agreed_fare = some a; fare_locked_at = some now })
  Later-lock x a now h = record {
    customer = refl;
    vehicle = refl;
    created = refl;
    version = omega arith;
    locked = λ g. ground arith;
    fare = λ g. ground arith;
    path = stay;
  }

  lock_at-Follows :
      (j : ℕ) (a : F) (now : ℕ)
      → Keeps (Follows id r) (do
        hit ←
            update_where env lock_fare_q j
              (λ x. is_unlocked x.fare_locked_at)
              (λ x. record x { agreed_fare = some (env.decimal 2 a); fare_locked_at = some now })
        raise_if (not hit) fare_locked)
  lock_at-Follows j a now =
      Keeps-bind (Follows id r) _ _
        (update_where-Follows env id r lock_fare_q j (λ x. is_unlocked x.fare_locked_at) _
          (λ x h. Later-lock x (env.decimal 2 a) now h))
        (λ hit. Keeps-raise_if (Follows id r) (not hit) fare_locked)

  pub lock_fare-Follows : (j : ℕ) (a : F) → Keeps (Follows id r) (lock_fare env j a)
  unfolding lock_fare
  lock_fare-Follows j a s k = lock_at-Follows j a s.now s k

  can_move-cancelled : (s : Status) → not (is_terminal s) ≡ true → can_move s cancelled ≡ true
  unfolding can_transition
  can_move-cancelled s h = ground arith

  pub cancel-Follows :
      (j : ℕ) (why : String) (role : Role) → Keeps (Follows id r) (cancel env j why role)
  unfolding cancel
  cancel-Follows j why role =
      update_where-Follows env id r cancel_q j (λ x. not (is_terminal x.status)) _
        (λ x h. quiet x _ refl refl refl refl refl refl (go stay (can_move-cancelled x.status h)))

  pub cancel_with_fee-Follows :
      (j : ℕ) (why : String) (role : Role) (fee : F)
      → Keeps (Follows id r) (cancel_with_fee env j why role fee)
  unfolding cancel_with_fee
  cancel_with_fee-Follows j why role fee =
      update_where-Follows env id r cancel_q j (λ x. not (is_terminal x.status)) _
        (λ x h. quiet x _ refl refl refl refl refl refl (go stay (can_move-cancelled x.status h)))

  -- A write that leaves the rides alone.
  pub aside :
      (v w : World F)
      → v.db.rides ≡ w.db.rides
      → v.db.next_id ≡ w.db.next_id
      → Follows id r w
      → Follows id r v
  aside v w h g k = record {
    row = k.row;
    found = ap (λ t. t id) h ∙ k.found;
    old = omega (arith, g, k.old);
    later = k.later;
  }

  pub query-Follows : (q : Query) → Keeps (Follows id r) (query env q)
  query-Follows q = Keeps-raise_if (Follows id r) (env.fails q) unavailable

  -- A statement that writes another table.
  elsewhere :
      (q : Query) (f : World F → World F)
      → ((w : World F) → (f w).db.rides ≡ w.db.rides)
      → ((w : World F) → (f w).db.next_id ≡ w.db.next_id)
      → Keeps (Follows id r) (query env q >> modify f)
  elsewhere q f h g =
      Keeps-bind (Follows id r) _ _ (query-Follows q) (λ a w k. aside (f w) w (h w) (g w) k)

  pub append_event-Follows :
      (j : ℕ) (kind : String) (role : Role) (actor : ℕ)
      → Keeps (Follows id r) (append_event env j kind role actor)
  unfolding append_event
  append_event-Follows j kind role actor = elsewhere append_event_q _ (λ w. refl) (λ w. refl)

  pub increment_driver_rides-Follows : (u : ℕ) → Keeps (Follows id r) (increment_driver_rides env u)
  unfolding increment_driver_rides
  increment_driver_rides-Follows u = elsewhere increment_rides_q _ (λ w. refl) (λ w. refl)

  find_by_id-same : (j : ℕ) (s : World F) → (find_by_id env j s).1 ≡ s
  unfolding find_by_id
  find_by_id-same j s = ground arith

  pub find_by_id-Follows : (j : ℕ) → Keeps (Follows id r) (find_by_id env j)
  find_by_id-Follows j s k = subst (Follows id r) (sym (find_by_id-same j s)) k

  find_by_id_and_customer-same : (j c : ℕ) (s : World F) → (find_by_id_and_customer env j c s).1 ≡ s
  unfolding find_by_id_and_customer
  find_by_id_and_customer-same j c s = ground arith

  pub find_by_id_and_customer-Follows :
      (j c : ℕ) → Keeps (Follows id r) (find_by_id_and_customer env j c)
  find_by_id_and_customer-Follows j c s k =
      subst (Follows id r) (sym (find_by_id_and_customer-same j c s)) k

  find_by_id_and_driver-same : (j u : ℕ) (s : World F) → (find_by_id_and_driver env j u s).1 ≡ s
  unfolding find_by_id_and_driver
  find_by_id_and_driver-same j u s = ground arith

  pub find_by_id_and_driver-Follows :
      (j u : ℕ) → Keeps (Follows id r) (find_by_id_and_driver env j u)
  find_by_id_and_driver-Follows j u s k =
      subst (Follows id r) (sym (find_by_id_and_driver-same j u s)) k

  redis_case :
      (b : Bool) (v w : World F)
      → v.db.rides ≡ w.db.rides
      → v.db.next_id ≡ w.db.next_id
      → Follows id r w
      → Follows id r (if b then w else v)
  redis_case true v w h g k = k
  redis_case false v w h g k = aside v w h g k

  pub redis_do-Follows : (f : Redis F → Redis F) → Keeps (Follows id r) (redis_do env f)
  redis_do-Follows f w k = redis_case env.redis_down (record w { redis = f w.redis }) w refl refl k

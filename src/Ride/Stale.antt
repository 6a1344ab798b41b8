-- ===== src/Ride/Stale.antt =====
-- The finalizer of stale rides and the booking of new ones (api-server/internal/ride/service.go) keep
-- the rows of the rides as `Later` says.
use rides_api.Base.{
  ℕ, suc, ◌≡◌, refl, true, false, Option, some, none, List, [], ◌∷◌, arith, if◌then◌else◌, String,
  sym, ap, is_some, leb,
}
use mathlib.Core.Path.{subst}
use rides_api.Base.Errors.{ride_already_active, customer_suspended, unavailable}
use rides_api.Base.Action.{Result, ok, err, Keeps, Keeps-bind, gets}
use rides_api.Status.{searching, in_progress, completed, can_transition}
use rides_api.Ride.World.{Ride, World, Env, Call, customer, system, insert_ride_q}
use rides_api.Ride.Repo.{
  set_completed, set_final_fare, increment_driver_rides, transition, find_by_id,
  find_by_id_and_customer, find_ride_by_idempotency, save_ride_idempotency, put_ride, with_db,
  query,
}
use rides_api.Ride.Redis.{release_ride_redis_state, set_ride_state, set_customer_active_ride}
use rides_api.Ride.Completion.{StaleRide, settle_stale, finalize_one, finalize_stale, count_ok}
use rides_api.Ride.Booking.{
  Request, new_ride, insert_ride, price, book_locked, or_book, release_lock, set_creating,
  create_ride, get_ride, show_ride,
}
use rides_api.Ride.Later.{Follows}
use rides_api.Ride.Kept.{
  Kept, kept, ◌then◌, bind, guard, done, ignored, logging, after_redis, release_ride-Follows,
  same-Keeps,
}
use rides_api.Ride.Keeping.{
  aside, query-Follows, transition-Follows, set_completed-Follows, set_final_fare-Follows,
  increment_driver_rides-Follows, find_by_id-Follows, find_by_id_and_customer-Follows,
  redis_do-Follows,
}

module _ {F : Type 0} (env : Env F) (id : ℕ) (r : Ride F) where
  open env use {float}

  settle_stale-Follows : (x : StaleRide F) → Keeps (Follows id r) (settle_stale env x)
  unfolding settle_stale
  settle_stale-Follows x =
      (ignored (kept (set_completed env x.id) (set_completed-Follows env id r x.id))
        then ignored (
            kept (set_final_fare env x.id x.agreed_fare 0 (float.of_int 0) false (float.of_int 0)) (
              set_final_fare-Follows env id r x.id x.agreed_fare 0 (float.of_int 0) false
                (float.of_int 0)))
        then ignored (
            kept (increment_driver_rides env x.driver_user_id)
              (increment_driver_rides-Follows env id r x.driver_user_id))
        then logging env id r x.id "ride.auto_finalized" system x.id
        then kept
            (release_ride_redis_state env x.id x.customer_id (some x.driver_profile_id)
              x.transport_type)
            (release_ride-Follows env id r x.id x.customer_id (some x.driver_profile_id)
              x.transport_type)).keeps

  finalize_one-Follows : (x : StaleRide F) → Keeps (Follows id r) (finalize_one env x)
  unfolding finalize_one can_transition
  finalize_one-Follows x =
      (kept (transition env x.id in_progress completed)
          (transition-Follows env id r x.id in_progress completed refl)
        then kept (settle_stale env x) (settle_stale-Follows x)).keeps

  pub finalize_stale-Follows :
      (xs : List (StaleRide F)) (n : ℕ) (s : World F)
      → Follows id r s
      → Follows id r (finalize_stale env xs n s).1
  unfolding finalize_stale
  finalize_stale-Follows [] n s k = k
  finalize_stale-Follows (x ∷ xs) n s k =
      let t = finalize_one env x s in
      finalize_stale-Follows xs (count_ok env t.0 n) t.1 (finalize_one-Follows x s k)

  -- A new row has a new id.
  fresh-Follows :
      (s : World F) (b : Ride F)
      → Follows id r s
      → Follows id r
          (put_ride s.db.next_id b (with_db (λ d. record d { next_id = suc d.next_id }) s))
  fresh-Follows s b k = record {
    row = k.row;
    found = ground (arith, k.found, k.old);
    old = omega (arith, k.old);
    later = k.later;
  }

  insert_ride-Follows :
      (q : Request F) (e : Option F) (c : Option ℕ) → Keeps (Follows id r) (insert_ride env q e c)
  unfolding insert_ride
  insert_ride-Follows q e c =
      Keeps-bind (Follows id r) (query env insert_ride_q) _ (query-Follows env id r insert_ride_q)
        (λ a s k.
          find_by_id-Follows env id r s.db.next_id _
            (fresh-Follows s (new_ride env s.db.next_id s.now q e c) k))

  price-same : (q : Request F) (s : World F) → (price env q s).1 ≡ s
  unfolding price
  price-same q s = ground arith

  save-same :
      (c : ℕ) (key : String) (j : ℕ) (s : World F)
      → ((save_ride_idempotency env c key j s).1.db.rides ≡ s.db.rides)
        × ((save_ride_idempotency env c key j s).1.db.next_id ≡ s.db.next_id)
  unfolding save_ride_idempotency
  save-same c key j s = ground arith

  find_ride-same :
      (c : ℕ) (key : String) (s : World F) → (find_ride_by_idempotency env c key s).1 ≡ s
  unfolding find_ride_by_idempotency find_by_id
  find_ride-same c key s = ground arith

  -- The part of a booking after the checks of the customer.
  abbrev booking : Request F → Kept (Follows id r) (Ride F)
  booking q = bind (kept (price env q) (λ s k. subst (Follows id r) (sym (price-same q s)) k)) (λ p.
      bind (kept (insert_ride env q p.0 p.1) (insert_ride-Follows q p.0 p.1)) (λ x.
        kept (set_ride_state env x.id (some searching)) (redis_do-Follows env id r _)
        then kept (set_customer_active_ride env q.customer_id (some x.id))
            (redis_do-Follows env id r _)
        then logging env id r x.id "ride.created" customer q.customer_id
        then ignored (
            kept (save_ride_idempotency env q.customer_id q.idempotency_key x.id) (
              same-Keeps env id r (save_ride_idempotency env q.customer_id q.idempotency_key x.id)
                (save-same q.customer_id q.idempotency_key x.id)))
        then done x))

  abbrev looking : {A : Type 0} → (World F → A) → Kept (Follows id r) A
  looking f = kept (gets f) (λ s k. k)

  book_locked-Follows : (q : Request F) → Keeps (Follows id r) (book_locked env q)
  unfolding book_locked
  book_locked-Follows q =
      (bind
        (looking (λ w. if env.redis_down then none else w.redis.customer_active_ride q.customer_id))
        (λ live.
          guard (is_some live) ride_already_active
          then bind
              (looking
                (λ w. if env.redis_down then 0 else w.redis.customer_daily_cancel q.customer_id))
              (λ count.
                guard (leb env.cancel_suspend_threshold count) customer_suspended
                then booking q))).keeps

  release_lock-Follows :
      {A : Type 0} (c : ℕ) (m : Call F A)
      → Keeps (Follows id r) m
      → Keeps (Follows id r) (release_lock env c m)
  release_lock-Follows c m h s k = after_redis env id r env.redis_down _ (m s).1 (h s k)

  or_book-Follows : (q : Request F) (o : Option (Ride F)) → Keeps (Follows id r) (or_book env q o)
  or_book-Follows q (some x) = λ s k. k
  or_book-Follows q none =
      (guard env.redis_down unavailable
        then bind (looking (λ w. w.redis.creating_ride q.customer_id)) (λ locked.
          guard locked ride_already_active
          then kept (set_creating env q.customer_id true) (redis_do-Follows env id r _)
          then kept (release_lock env q.customer_id (book_locked env q)) (
              release_lock-Follows q.customer_id (book_locked env q)
                (book_locked-Follows q)))).keeps

  pub create_ride-Follows : (q : Request F) → Keeps (Follows id r) (create_ride env q)
  unfolding create_ride
  create_ride-Follows q =
      (bind
        (kept (find_ride_by_idempotency env q.customer_id q.idempotency_key)
          (λ s k. subst (Follows id r) (sym (find_ride-same q.customer_id q.idempotency_key s)) k))
        (λ o. kept (or_book env q o) (or_book-Follows q o))).keeps

  show_ride-db : (j c : ℕ) (x : Result (Ride F)) (s : World F) → (show_ride env j c x s).1.db ≡ s.db
  show_ride-db j c (ok x) s = refl
  show_ride-db j c (err e) s = ground arith

  pub get_ride-Follows : (j c : ℕ) → Keeps (Follows id r) (get_ride env j c)
  unfolding get_ride
  get_ride-Follows j c s k =
      let found = find_by_id_and_customer env j c s in
      let same = show_ride-db j c found.0 found.1 in
      aside env id r (show_ride env j c found.0 found.1).1 found.1 (ap (λ d. d.rides) same)
        (ap (λ d. d.next_id) same) (find_by_id_and_customer-Follows env id r j c s k)

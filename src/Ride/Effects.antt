-- ===== src/Ride/Effects.antt =====
-- What single calls of the ride service do (api-server/internal/ride/service.go).
use rides_api.Base.{
  ℕ, ◌-◌, ◌*◌, ◌≤◌, ◌<◌, ◌≡◌, refl, Bool, true, false, Option, some, none, arith, String, ap, ◌∙◌,
  if◌then◌else◌, update,
}
use mathlib.Core.Option
use rides_api.Base.Action.{resume, pure, Result, ok, err, is_ok}
use rides_api.Status.{cancelled, is_cancellable}
use rides_api.Ride.World.{Ride, World, Env, Role, Call, customer, cancel_q, find_by_customer_q}
use rides_api.Ride.Redis.{release_ride_redis_state, release_driver, release_driver_redis_state}
use rides_api.Ride.Penalty.{penalise, record_cancel_penalty}
use rides_api.Ride.Credit.{refund_driver_credit, is_credit_charged, refund_to}
use rides_api.Ride.Repo.{
  touch, put_ride, cancel, cancel_with_fee, update_where, find_driver_user_id_by_profile_id,
  find_by_id, find_by_id_and_customer,
}
use rides_api.Ride.Credit.{charge_for_agreed_fare, charge_driver_of}
use rides_api.Ride.Cancel.{cancel_ride, cancel_live, late_cancel_fee, after_customer_cancel}
use rides_api.Ride.Completion.{waiting_time}
use rides_api.Ride.Later.{Follows, Later-refl, Reach-terminal}
use rides_api.Ride.Cancels.{after_customer_cancel-Follows}

-- The waiting time that is charged is at most two hours, and at most the time from the arrival to
-- the start.
pub waiting_time_bounds :
    (arrived started : ℕ)
    → let s = waiting_time (some arrived) (some started) in
      (s ≤ 7200) × (s * 1000000000 ≤ started - arrived)
unfolding waiting_time
waiting_time_bounds arrived started = ground arith

module _ {F : Type 0} where
  -- A ride is cancelled once: after a call of `Cancel` that did it, a second one whose UPDATE does not
  -- fail reports that it did not, and changes nothing.
  pub cancel_once :
      (env env' : Env F) (id : ℕ) (why why' : String) (role role' : Role) (w : World F)
      → (cancel env id why role w).0 ≡ ok true
      → env'.fails cancel_q ≡ false
      → let w' = (cancel env id why role w).1 in cancel env' id why' role' w' ≡ (ok false, w')
  unfolding cancel update_where
  cancel_once env env' id why why' role role' w did up = ground arith

  charge_driver_of-redis :
      (env : Env F) (id : ℕ) (w : World F) → (charge_driver_of env id w).1.redis ≡ w.redis
  unfolding charge_driver_of find_driver_user_id_by_profile_id find_by_id
  charge_driver_of-redis env id w = ground arith

  charge_skips :
      (env : Env F) (id : ℕ) (w : World F)
      → w.redis.credit_charged id ≡ true
      → (charge_for_agreed_fare env id w).1 ≡ w
  unfolding charge_for_agreed_fare
  charge_skips env id w h = ground arith

  charge_marks :
      (env : Env F) (id : ℕ) (w : World F)
      → env.has_packages ≡ true
      → env.redis_down ≡ false
      → (charge_for_agreed_fare env id w).1.redis.credit_charged id ≡ true
  unfolding charge_for_agreed_fare
  charge_marks env id w has up = ground (
    arith,
    charge_driver_of-redis env id (record w {
      redis = record w.redis { credit_charged = update w.redis.credit_charged id true };
    }),
  )

  -- The agreement of a fare is charged once: after a call of `ChargeForAgreedFare` with the packages wired
  -- and Redis up, a second one for the ride changes nothing, however the first one ended.
  pub charge_once :
      (env env' : Env F) (id : ℕ) (w : World F)
      → env.has_packages ≡ true
      → env.redis_down ≡ false
      → let w' = (charge_for_agreed_fare env id w).1 in (charge_for_agreed_fare env' id w').1 ≡ w'
  charge_once env env' id w has up =
      charge_skips env' id (charge_for_agreed_fare env id w).1 (charge_marks env id w has up)

  -- The row that `CancelWithFee` writes for the customer.
  abbrev cancelled_row : Env F → String → ℕ → Ride F → Ride F
  cancelled_row env why now r = touch now (record r {
    status = cancelled;
    cancel_reason = some why;
    cancelled_by_role = some customer;
    cancellation_fee_rwf = env.decimal 2 (late_cancel_fee env r);
  })

  finds_own :
      (env : Env F) (id : ℕ) (w : World F) (r : Ride F)
      → w.db.rides id ≡ some r
      → env.fails find_by_customer_q ≡ false
      → find_by_id_and_customer env id r.customer_id w ≡ (ok r, w)
  unfolding find_by_id_and_customer
  finds_own env id w r found up = ground arith

  cancels_live :
      (env : Env F) (id : ℕ) (why : String) (w : World F) (r : Ride F)
      → w.db.rides id ≡ some r
      → is_cancellable r.status ≡ true
      → env.fails cancel_q ≡ false
      → cancel_live env id r.customer_id why r w
        ≡ after_customer_cancel env id r.customer_id r
            (put_ride id (cancelled_row env why w.now r) w)
  unfolding cancel_live cancel_with_fee update_where
  cancels_live env id why w r found may up = ground arith

  release_driver_ok :
      (env : Env F) (o : Option ℕ) (v : String) (w : World F)
      → is_ok (release_driver env o v w).0 ≡ true
  unfolding release_driver_redis_state
  release_driver_ok env none v w = refl
  release_driver_ok env (some p) v w = refl

  penalty_ok :
      (env : Env F) (u : ℕ) (role : Role) (w : World F)
      → is_ok (record_cancel_penalty env u role w).0 ≡ true
  unfolding record_cancel_penalty penalise
  penalty_ok env u role w = ground arith

  resume_ok :
      {A B : Type 0} (f : A → Call F B) (x : Result A) (w : World F)
      → is_ok x ≡ true
      → ((a : A) → is_ok (f a w).0 ≡ true)
      → is_ok (resume f x w).0 ≡ true
  resume_ok f (ok a) w h g = g a
  resume_ok f (err e) w h g = ground arith

  refund_ok :
      (env : Env F) (id : ℕ) (o : Option ℕ) (w : World F)
      → is_ok (refund_driver_credit env id o w).0 ≡ true
  unfolding refund_driver_credit refund_to
  refund_ok env id none w = refl
  refund_ok env id (some p) w = ground arith

  release_ride_ok :
      (env : Env F) (id c : ℕ) (o : Option ℕ) (v : String) (w : World F)
      → is_ok (release_ride_redis_state env id c o v w).0 ≡ true
  unfolding release_ride_redis_state
  release_ride_ok env id c o v w = release_driver_ok env o v _

  refund_if_ok :
      (env : Env F) (id : ℕ) (o : Option ℕ) (b : Bool) (w : World F)
      → is_ok ((if b then refund_driver_credit env id o else pure tt) w).0 ≡ true
  refund_if_ok env id o true w = refund_ok env id o w
  refund_if_ok env id o false w = refl

  after_ok :
      (env : Env F) (id c : ℕ) (r : Ride F) (w : World F)
      → is_ok (after_customer_cancel env id c r w).0 ≡ true
  unfolding after_customer_cancel
  after_ok env id c r w =
      resume_ok _ _ _ (refund_if_ok env id r.driver_id (is_credit_charged r.status) w) (λ a.
        resume_ok _ _ _ (release_ride_ok env id c r.driver_id r.transport_type _)
          (λ b. penalty_ok env c customer _))

  start : (id : ℕ) (b : Ride F) (w : World F) → id < w.db.next_id → Follows id b (put_ride id b w)
  start id b w old = record { row = b; found = ground arith; old = old; later = Later-refl b }

  -- A customer cancels a ride that is searching, matched, negotiating, en route or arrived: where the
  -- read and the UPDATE do not fail, the call succeeds and the ride is CANCELLED, whatever becomes of
  -- the refund, the penalty and Redis.
  pub cancel_ride_cancels :
      (env : Env F) (id : ℕ) (why : String) (w : World F) (r : Ride F)
      → w.db.rides id ≡ some r
      → id < w.db.next_id
      → is_cancellable r.status ≡ true
      → env.fails find_by_customer_q ≡ false
      → env.fails cancel_q ≡ false
      → let (x, w') = cancel_ride env id r.customer_id why w in
        (is_ok x ≡ true) × (Option.map (λ y. y.status) (w'.db.rides id) ≡ some cancelled)
  unfolding cancel_ride
  cancel_ride_cancels env id why w r found old may up up' =
      let row = cancelled_row env why w.now r in
      let w1 = put_ride id row w in
      let k = after_customer_cancel-Follows env id row id r.customer_id r w1 (start id row w old) in
      let same : cancel_ride env id r.customer_id why w
          ≡ after_customer_cancel env id r.customer_id r w1 =
        ground (arith, finds_own env id w r found up, cancels_live env id why w r found may up') in
      rw same (
        after_ok env id r.customer_id r w1,
        ap (Option.map (λ y. y.status)) k.found ∙ ap some (Reach-terminal k.later.path refl),
      )

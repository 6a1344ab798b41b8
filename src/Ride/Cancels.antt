-- ===== src/Ride/Cancels.antt =====
-- The calls that end a ride early (api-server/internal/ride/service.go) keep the
-- rows of the rides as `Later` says.
use rides_api.Base.{ℕ, refl, Bool, not, ◌||◌, if◌then◌else◌, String, sym}
use mathlib.Core.Path.{subst}
use rides_api.Base.Errors.{invalid_transition, custom}
use rides_api.Base.Action.{Keeps}
use rides_api.Status.{negotiating, driver_arrived, is_terminal, is_cancellable, status_eq}
use rides_api.Ride.World.{Ride, Env, customer, driver, system}
use rides_api.Ride.Repo.{find_by_id_and_customer, cancel_with_fee}
use rides_api.Ride.Credit.{is_credit_charged}
use rides_api.Ride.Cancel.{
  late_cancel_fee, after_customer_cancel, cancel_live, cancel_ride, is_driver_cancellable,
  driver_cancel_ride, verify_no_show, settle_no_show, cancel_after_pickup_expiry,
  expire_negotiation, fire_negotiation_timer, cancel_negotiation_timeout,
}
use rides_api.Ride.Later.{Follows}
use rides_api.Ride.Kept.{
  kept, ◌then◌, bind, either, guard, unless, done, ignored, releasing, refunding, logging,
  penalising, cancelling, reading, reading_for_driver, verify_no_show-same,
}
use rides_api.Ride.Keeping.{aside, cancel_with_fee-Follows, find_by_id_and_customer-Follows}

module _ {F : Type 0} (env : Env F) (id : ℕ) (r : Ride F) where
  pub after_customer_cancel-Follows :
      (j c : ℕ) (x : Ride F) → Keeps (Follows id r) (after_customer_cancel env j c x)
  unfolding after_customer_cancel
  after_customer_cancel-Follows j c x =
      (either (is_credit_charged x.status) (refunding env id r j x) (done tt)
        then releasing env id r j c x
        then logging env id r j "ride.cancelled" customer c
        then penalising env id r c customer).keeps

  cancel_live-Follows :
      (j c : ℕ) (why : String) (x : Ride F) → Keeps (Follows id r) (cancel_live env j c why x)
  unfolding cancel_live
  cancel_live-Follows j c why x =
      (guard (not (is_cancellable x.status)) invalid_transition
        then bind
            (kept (cancel_with_fee env j why customer (late_cancel_fee env x))
              (cancel_with_fee-Follows env id r j why customer (late_cancel_fee env x)))
            (λ did.
              unless (not did) (
                kept (after_customer_cancel env j c x)
                  (after_customer_cancel-Follows j c x)))).keeps

  pub cancel_ride-Follows :
      (j c : ℕ) (why : String) → Keeps (Follows id r) (cancel_ride env j c why)
  unfolding cancel_ride
  cancel_ride-Follows j c why =
      (bind (kept (find_by_id_and_customer env j c) (find_by_id_and_customer-Follows env id r j c))
        (λ x.
          either (is_terminal x.status) (releasing env id r j c x)
            (kept (cancel_live env j c why x) (cancel_live-Follows j c why x)))).keeps

  pub driver_cancel_ride-Follows :
      (j u : ℕ) (why : String) → Keeps (Follows id r) (driver_cancel_ride env j u why)
  unfolding driver_cancel_ride
  driver_cancel_ride-Follows j u why =
      (bind (reading_for_driver env id r j u) (λ x. unless (is_terminal x.status) (
        guard (not (is_driver_cancellable env x.status)) invalid_transition
        then bind (cancelling env id r j why driver) (λ did. unless (not did) (
            penalising env id r u driver
            then releasing env id r j x.customer_id x
            then logging env id r j "ride.cancelled" driver u))))).keeps

  settle_no_show-Follows :
      (j : ℕ) (x : Ride F) (b : Bool) → Keeps (Follows id r) (settle_no_show env j x b)
  unfolding settle_no_show
  settle_no_show-Follows j x b =
      (either (is_credit_charged x.status)
        (either b (refunding env id r j x) (logging env id r j "ride.no_show_unverified" system j))
        (done tt)).keeps

  pub cancel_after_pickup_expiry-Follows :
      (j u : ℕ) → Keeps (Follows id r) (cancel_after_pickup_expiry env j u)
  unfolding cancel_after_pickup_expiry
  cancel_after_pickup_expiry-Follows j u =
      (bind (reading_for_driver env id r j u) (λ x.
        guard (not (status_eq x.status driver_arrived) || not x.pickup_expired)
          (custom 409 "PICKUP_NOT_EXPIRED")
        then bind
            (kept (verify_no_show env u x)
              (λ s k. subst (Follows id r) (sym (verify_no_show-same env id r u x s)) k))
            (λ b.
              bind
                (cancelling env id r j
                  (if b then "customer_no_show" else "customer_no_show_unverified") driver)
                (λ did. unless (not did) (
                  kept (settle_no_show env j x b) (settle_no_show-Follows j x b)
                  then releasing env id r j x.customer_id x
                  then logging env id r j "ride.cancelled" driver u))))).keeps

  pub expire_negotiation-Follows :
      (j : ℕ) (x : Ride F) → Keeps (Follows id r) (expire_negotiation env j x)
  unfolding expire_negotiation
  expire_negotiation-Follows j x =
      (ignored (cancelling env id r j "negotiation_timeout" system)
        then releasing env id r j x.customer_id x
        then logging env id r j "ride.cancelled" system j).keeps

  pub fire_negotiation_timer-Follows : (j : ℕ) → Keeps (Follows id r) (fire_negotiation_timer env j)
  unfolding fire_negotiation_timer
  fire_negotiation_timer-Follows j =
      (ignored (
        kept (cancel_negotiation_timeout env j) (λ s k. aside env id r _ s refl refl k)
        then bind (reading env id r j) (λ x.
          unless (not (status_eq x.status negotiating))
            (kept (expire_negotiation env j x) (expire_negotiation-Follows j x))))).keeps

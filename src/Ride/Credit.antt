-- ===== src/Ride/Credit.antt =====
-- The ride credit of a driver: charged when a fare is agreed, and given back after a blameless
-- cancellation (api-server/internal/ride/service.go).
use rides_api.Base.{ℕ, Bool, true, false, not, ◌||◌, Option, none, some, update, if◌then◌else◌}
use rides_api.Base.Errors.{unavailable}
use rides_api.Base.Action.{Action, ◌>>=◌, ◌>>◌, pure, gets, return_if, ignore}
use rides_api.Status.{Status, confirmed, driver_en_route, driver_arrived, in_progress}
use rides_api.Packages.{Credits, deduct_for_ride, refund_for_ride}
use rides_api.Ride.World.{Env, Call}
use rides_api.Ride.Repo.{with_db, found_or, find_by_id, find_driver_user_id_by_profile_id}
use rides_api.Ride.Redis.{redis_do}

-- `creditCharged`: has the ride passed the agreement of its fare?
unfoldable pub is_credit_charged : Status → Bool
is_credit_charged confirmed = true
is_credit_charged driver_en_route = true
is_credit_charged driver_arrived = true
is_credit_charged in_progress = true
is_credit_charged _ = false

module _ {F : Type 0} (env : Env F) where
  -- A call of the entitlement ledger.
  abbrev pub on_ledger : {A : Type 0} → Action Credits A → Call F A
  on_ledger m w = let (r, c) = m w.db.credits in (r, with_db (λ d. record d { credits = c }) w)

  unfoldable pub refund_to : ℕ → ℕ → Call F (Unit {0})
  refund_to id profile = ignore (do
    user ← find_driver_user_id_by_profile_id env profile
    r ← find_by_id env id
    on_ledger (refund_for_ride env.ledger_out user r.transport_type id))

  -- `refundDriverCredit`; any failure is logged and ends it
  unfoldable pub refund_driver_credit : ℕ → Option ℕ → Call F (Unit {0})
  refund_driver_credit id none = pure tt
  refund_driver_credit id (some profile) =
      if env.has_packages then refund_to id profile else pure tt

  unfoldable pub charge_driver_of : ℕ → Call F (Unit {0})
  charge_driver_of id = ignore (do
    r ← find_by_id env id
    profile ← found_or r.driver_id unavailable
    user ← find_driver_user_id_by_profile_id env profile
    on_ledger (deduct_for_ride env.ledger_out user r.transport_type id))

  -- `ChargeForAgreedFare`, behind the key `ride:credit_charged:<ride>`, which is set first
  unfoldable pub charge_for_agreed_fare : ℕ → Call F (Unit {0})
  charge_for_agreed_fare id = return_if (not env.has_packages || env.redis_down) tt (do
    charged ← gets (λ w. w.redis.credit_charged id)
    return_if charged tt (do
      redis_do env (λ r. record r { credit_charged = update r.credit_charged id true })
      charge_driver_of id))

-- ===== src/Ride/Timer.antt =====
-- The negotiation timer (`StartNegotiationTimeout`, api-server/internal/ride/service.go), whose second
-- half works with the ride that its first half had read.
use rides_api.Base.{ℕ, ◌≡◌, false, some, arith}
use mathlib.Core.Option
use rides_api.Status.{cancelled, is_terminal}
use rides_api.Ride.World.{Ride, World, Env, system, cancel_q}
use rides_api.Ride.Repo.{cancel, update_where, append_event}
use rides_api.Ride.Cancel.{expire_negotiation}
use rides_api.Ride.Kept.{release_ride-db}

module _ {F : Type 0} where
  -- The timer does not look again: whatever the ride has become since the timer read it as `seen`, also
  -- a confirmed ride whose driver has been charged, it is cancelled unless it has ended, and no credit
  -- is given back, where its UPDATE does not fail.
  pub expire_negotiation_cancels :
      (env : Env F) (id : ℕ) (seen r : Ride F) (w : World F)
      → w.db.rides id ≡ some r
      → is_terminal r.status ≡ false
      → env.fails cancel_q ≡ false
      → let w' = (expire_negotiation env id seen w).1 in
        (Option.map (λ x. x.status) (w'.db.rides id) ≡ some cancelled)
        × (w'.db.credits ≡ w.db.credits)
  unfolding expire_negotiation append_event cancel update_where
  expire_negotiation_cancels env id seen r w found live up =
      let mid = (cancel env id "negotiation_timeout" system w).1 in
      ground
        (arith, release_ride-db env id r id seen.customer_id seen.driver_id seen.transport_type mid)

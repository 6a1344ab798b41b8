-- ===== src/Matching/Offer.antt =====
-- The offer of a ride to one driver, and the end of a search (api-server/internal/matching/engine.go).
use rides_api.Base.{
  ℕ, Bool, true, false, not, Option, none, some, List, [], ◌∷◌, ◌==◌, ◌+◌, is_some, if◌then◌else◌,
  update, String,
}
use text.Mathlib.Text.{◌==◌ as str_eq}
use rides_api.Base.Action.{Result, ok, err, ignore, ◌>>◌, gets, ◌>>=◌}
use rides_api.Status.{searching, matched, negotiating, cancelled}
use rides_api.Ride.World.{Ride, World, Env, Call, Redis, driver, system, on_trip}
use rides_api.Ride.Repo.{find_by_id, cancel, append_event, assign_driver, transition}
use rides_api.Ride.Redis.{redis_do, set_ride_state, set_customer_active_ride}
use rides_api.Ride.Cancel.{start_negotiation_timeout}
use rides_api.Matching.Scene.{Candidate, AcceptSignal, Hunt, Setting, in_scene, does}

-- The channel of a search, if one is open, and the signal that it holds, if any.
abbrev pub Channel : Type 0
Channel = Option (Option AcceptSignal)

-- `NotifyAccept`: was the signal taken? A channel holds one.
unfoldable pub notify_accept : AcceptSignal → Channel → Bool × Channel
notify_accept s none = (false, none)
notify_accept s (some none) = (true, some (some s))
notify_accept s (some (some t)) = (false, some (some t))

abbrev pub is_for_other : ℕ → Option ℕ → Bool
is_for_other p none = false
is_for_other p (some q) = not (q == p)

-- The wait for the driver `p`: the first signal that is not another driver's, `none` where the timer
-- comes first.
unfoldable pub await : ℕ → List AcceptSignal → Option Bool
await p [] = none
await p (s ∷ ss) =
    let rest = await p ss in if is_for_other p s.driver_id then rest else some s.accepted

module _ {F : Type 0} where
  abbrev pub set_pending_driver : Env F → ℕ → Option ℕ → Call F (Unit {0})
  set_pending_driver env id v =
      redis_do env (λ r. record r { pending_driver = update r.pending_driver id v })

  -- `ValidateAcceptTTL`
  abbrev pub validate_accept_ttl : Env F → ℕ → World F → Option ℕ
  validate_accept_ttl env id w = if env.redis_down then none else w.redis.pending_driver id

  abbrev pub set_lock : Env F → ℕ → Option ℕ → Hunt F → Hunt F
  set_lock env p v =
      in_scene (λ s. if env.redis_down then s else record s { locks = update s.locks p v })

  abbrev pub send_to_driver : ℕ → Hunt F → Hunt F
  send_to_driver p h = record h { sent = p ∷ h.sent }

  -- From the lock to the message, and what others do until the answer.
  unfoldable pub send_offer : Setting F → ℕ → Candidate F → Hunt F → Hunt F
  send_offer set id c h =
      let env = set.asking c.profile_id in
      let h1 = set_lock env c.profile_id (some id) h in
      let h2 = does (set_pending_driver env id (some c.profile_id)) h1 in
      let h3 = send_to_driver c.profile_id h2 in
      let h4 = does (append_event env id "ride.request_sent" system c.profile_id) h3 in
      in_scene (set.meanwhile c.profile_id) h4

  -- The answer, `false` for the timer, and the deferred release of the lock.
  unfoldable pub end_offer : Setting F → ℕ → Candidate F → Option Bool → Hunt F → Bool × Hunt F
  end_offer set id c (some accepted) h =
      (accepted, set_lock (set.answering c.profile_id) c.profile_id none h)
  end_offer set id c none h =
      let env = set.answering c.profile_id in
      (false, set_lock env c.profile_id none (does (set_pending_driver env id none) h))

  -- `offerToDriver`: the answer, `none` where the driver could not be locked
  unfoldable pub offer_to_driver : Setting F → ℕ → Candidate F → Hunt F → Option Bool × Hunt F
  offer_to_driver set id c h =
      if (set.asking c.profile_id).redis_down
      then (none, h)
      else if is_some (h.scene.locks c.profile_id)
      then (none, h)
      else let (b, h') =
          end_offer set id c (await c.profile_id (set.signals c.profile_id))
            (send_offer set id c h) in
        (some b, h')

  abbrev pub zrem : String → ℕ → Redis F → Redis F
  zrem vehicle p r = record r {
    geo_index =
        λ v q. if str_eq v vehicle then update (r.geo_index v) p none q else r.geo_index v q;
  }

  -- The rows and the keys that `onAccepted` writes.
  unfoldable pub match_ride : Env F → ℕ → ℕ → Call F (Unit {0})
  match_ride env id p = do
    ignore (assign_driver env id p)
    ignore (transition env id searching matched)
    ignore (transition env id matched negotiating)

  unfoldable pub reserve_driver : Env F → ℕ → Candidate F → Call F (Unit {0})
  reserve_driver env id c = do
    redis_do env
        (λ r. record r { driver_state = update r.driver_state c.profile_id (some on_trip) })
    redis_do env (zrem c.vehicle_type c.profile_id)
    redis_do env
        (λ r. record r { driver_active_ride = update r.driver_active_ride c.profile_id (some id) })
    set_ride_state env id (some negotiating)

  -- `onAccepted`, without the messages
  unfoldable pub on_accepted : Env F → ℕ → Candidate F → Call F (Unit {0})
  on_accepted env id c = do
    match_ride env id c.profile_id
    reserve_driver env id c
    ignore (append_event env id "ride.matched" driver c.profile_id)
    ignore (append_event env id "ride.negotiation_started" system id)
    start_negotiation_timeout env id

  -- `onDeclined`
  unfoldable pub on_declined : Env F → Candidate F → Hunt F → Hunt F
  on_declined env c = in_scene (λ s.
      if env.redis_down
      then s
      else record s { declines = update s.declines c.profile_id (s.declines c.profile_id + 1) })

  -- What `giveUp` does with the key of the customer, when it could read the ride, and with the state.
  abbrev pub release_customer : Env F → ℕ → Result (Ride F) → Call F (Unit {0})
  release_customer env id (ok r) = do
    set_customer_active_ride env r.customer_id none
    set_ride_state env id (some cancelled)
  release_customer env id (err e) = set_ride_state env id none

  unfoldable pub release_search : Env F → ℕ → Result (Ride F) → Call F (Unit {0})
  release_search env id r = do
    set_pending_driver env id none
    redis_do env (λ k. record k { excluded_drivers = update k.excluded_drivers id [] })
    release_customer env id r

  -- `giveUp`, without the messages
  unfoldable pub give_up : Env F → ℕ → String → Call F (Unit {0})
  give_up env id reason = do
    r ← gets (λ w. (find_by_id env id w).0)
    ignore (cancel env id reason system)
    ignore (append_event env id "ride.cancelled" system id)
    release_search env id r

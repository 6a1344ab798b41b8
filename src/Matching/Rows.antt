-- ===== src/Matching/Rows.antt =====
-- A search keeps the rows of the rides (`runLoop`, api-server/internal/matching/engine.go).
use rides_api.Base.{
  ℕ, ◌≡◌, refl, true, false, Bool, Option, none, some, List, ◌∷◌, String, if◌then◌else◌, arith, ap,
  sym, update,
}
use rides_api.Base.Action.{Keeps, Result, ok, err}
use rides_api.Geo.{Point}
use rides_api.Status.{searching, matched, negotiating, can_transition}
use rides_api.Ride.World.{Ride, World, Env, driver, system, Redis}
use rides_api.Ride.Repo.{assign_driver, transition, append_event, find_by_id}
use rides_api.Ride.Redis.{redis_do}
use rides_api.Ride.Cancel.{start_negotiation_timeout}
use rides_api.Ride.Later.{Follows}
use rides_api.Ride.Keeping.{
  aside, assign_driver-Follows, transition-Follows, redis_do-Follows, append_event-Follows,
}
use rides_api.Ride.Kept.{Kept, kept, ◌then◌, ignored, logging, cancelling, same-Keeps}
use rides_api.Matching.Scene.{Candidate, Hunt, Scene, Setting, does}
use rides_api.Matching.Offer.{
  on_accepted, on_declined, give_up, set_pending_driver, send_offer, end_offer, offer_to_driver,
  await, release_search, reserve_driver, match_ride, set_lock, send_to_driver,
}
use rides_api.Matching.Loop.{next, try_candidate, after_offer, run_loop}
use rides_api.Matching.Rounds.{Holds, run_loop-Holds}
use mathlib.Core.Path.{subst}

module _ {F : Type 0} (env : Env F) (id : ℕ) (r : Ride F) where
  abbrev writing : (Redis F → Redis F) → Kept (Follows id r) (Unit {0})
  writing f = kept (redis_do env f) (redis_do-Follows env id r f)

  match_ride-Follows : (j p : ℕ) → Keeps (Follows id r) (match_ride env j p)
  unfolding match_ride can_transition
  match_ride-Follows j p =
      (ignored (kept (assign_driver env j p) (assign_driver-Follows env id r j p))
        then ignored (
            kept (transition env j searching matched)
              (transition-Follows env id r j searching matched refl))
        then ignored (
            kept (transition env j matched negotiating)
              (transition-Follows env id r j matched negotiating refl))).keeps

  reserve_driver-db :
      (j : ℕ) (c : Candidate F) (s : World F) → (reserve_driver env j c s).1.db ≡ s.db
  unfolding reserve_driver
  reserve_driver-db j c s = on_switch env.redis_down
    where
      on_switch : (b : Bool) → (reserve_driver (record env { redis_down = b }) j c s).1.db ≡ s.db
      on_switch true = refl
      on_switch false = refl

  release_search-db :
      (j : ℕ) (x : Result (Ride F)) (s : World F) → (release_search env j x s).1.db ≡ s.db
  unfolding release_search
  release_search-db j x s = on_switch x env.redis_down
    where
      on_switch :
          (x : Result (Ride F)) (b : Bool)
          → (release_search (record env { redis_down = b }) j x s).1.db ≡ s.db
      on_switch (ok y) true = refl
      on_switch (ok y) false = refl
      on_switch (err e) true = refl
      on_switch (err e) false = refl

  on_accepted-Follows : (j : ℕ) (c : Candidate F) → Keeps (Follows id r) (on_accepted env j c)
  unfolding on_accepted
  on_accepted-Follows j c =
      (kept (match_ride env j c.profile_id) (match_ride-Follows j c.profile_id)
        then kept (reserve_driver env j c) (
            same-Keeps env id r (reserve_driver env j c) (λ s.
              let same = reserve_driver-db j c s in
              (ap (λ b. b.rides) same, ap (λ b. b.next_id) same)))
        then logging env id r j "ride.matched" driver c.profile_id
        then logging env id r j "ride.negotiation_started" system j
        then kept (start_negotiation_timeout env j) (λ s k. aside env id r _ s refl refl k)).keeps

  give_up-Follows : (j : ℕ) (why : String) → Keeps (Follows id r) (give_up env j why)
  unfolding give_up
  give_up-Follows j why s k =
      (ignored (cancelling env id r j why system)
          then logging env id r j "ride.cancelled" system j
          then kept (release_search env j (find_by_id env j s).0) (
              same-Keeps env id r (release_search env j (find_by_id env j s).0) (λ s'.
                let same = release_search-db j (find_by_id env j s).0 s' in
                (ap (λ b. b.rides) same, ap (λ b. b.next_id) same)))).keeps
        s k

module _ {F : Type 0} (set : Setting F) (id : ℕ) (r : Ride F) where
  -- The row of a ride in the state of a search.
  abbrev Tracks : Hunt F → Type 0
  Tracks h = Follows id r h.scene.world

  set_lock-world :
      (env : Env F) (p : ℕ) (v : Option ℕ) (h : Hunt F)
      → (set_lock env p v h).scene.world ≡ h.scene.world
  set_lock-world env p v h = ground arith

  set_pending-Tracks :
      (env : Env F) (j : ℕ) (v : Option ℕ) (h : Hunt F)
      → Tracks h
      → Tracks (does (set_pending_driver env j v) h)
  set_pending-Tracks env j v h k =
      redis_do-Follows env id r (λ x. record x { pending_driver = update x.pending_driver j v })
        h.scene.world k

  event-Tracks :
      (env : Env F) (j : ℕ) (kind : String) (p : ℕ) (h : Hunt F)
      → Tracks h
      → Tracks (does (append_event env j kind system p) h)
  event-Tracks env j kind p h k = append_event-Follows env id r j kind system p h.scene.world k

  on_declined-world :
      (env : Env F) (c : Candidate F) (h : Hunt F)
      → (on_declined env c h).scene.world ≡ h.scene.world
  unfolding on_declined
  on_declined-world env c h = ground arith

  module _
      (honest : (p : ℕ) (s : Scene F)
        → Follows id r s.world
        → Follows id r (set.meanwhile p s).world) where
    send_offer-Tracks :
        (j : ℕ) (c : Candidate F) (h : Hunt F) → Tracks h → Tracks (send_offer set j c h)
    unfolding send_offer
    send_offer-Tracks j c h k =
        let env = set.asking c.profile_id in
        let locked = set_lock env c.profile_id (some j) h in
        let pending = does (set_pending_driver env j (some c.profile_id)) locked in
        let asked = send_to_driver c.profile_id pending in
        let k1 =
          set_pending-Tracks env j (some c.profile_id) locked
            (subst (Follows id r) (sym (set_lock-world env c.profile_id (some j) h)) k) in
        honest c.profile_id
          (does (append_event env j "ride.request_sent" system c.profile_id) asked).scene
          (event-Tracks env j "ride.request_sent" c.profile_id asked k1)

    end_offer-Tracks :
        (j : ℕ) (c : Candidate F) (o : Option Bool) (h : Hunt F)
        → Tracks h
        → Tracks (end_offer set j c o h).1
    unfolding end_offer
    end_offer-Tracks j c (some b) h k =
        subst (Follows id r) (sym (set_lock-world (set.answering c.profile_id) c.profile_id none h))
          k
    end_offer-Tracks j c none h k =
        let env = set.answering c.profile_id in
        subst (Follows id r)
          (sym (set_lock-world env c.profile_id none (does (set_pending_driver env j none) h)))
          (set_pending-Tracks env j none h k)

    after_offer-Tracks :
        (j : ℕ) (c : Candidate F) (t : List ℕ) (o : Option Bool) (h : Hunt F)
        → Tracks h
        → Holds (λ t'. Tracks) (λ o'. Tracks) (after_offer set j c t (o, h))
    unfolding Holds
    after_offer-Tracks j c t none h k = k
    after_offer-Tracks j c t (some true) h k =
        on_accepted-Follows (set.answering c.profile_id) id r j c h.scene.world k
    after_offer-Tracks j c t (some false) h k =
        subst (Follows id r) (sym (on_declined-world (set.answering c.profile_id) c h)) k

    unmoved : (t : List ℕ) (h : Hunt F) → Tracks h → Holds (λ t'. Tracks) (λ o. Tracks) (next, t, h)
    unfolding Holds
    unmoved t h k = k

    try_candidate-Tracks :
        (j a : ℕ) (c : Candidate F) (t : List ℕ) (h : Hunt F)
        → Tracks h
        → Holds (λ t'. Tracks) (λ o. Tracks) (try_candidate set j a c t h)
    unfolding try_candidate offer_to_driver
    try_candidate-Tracks j a c t h k = ground (
      arith,
      unmoved t h k,
      after_offer-Tracks j c (c.profile_id ∷ t) none h k,
      answered
          (end_offer set j c (await c.profile_id (set.signals c.profile_id)) (send_offer set j c h))
          (end_offer-Tracks j c (await c.profile_id (set.signals c.profile_id))
            (send_offer set j c h) (send_offer-Tracks j c h k)),
    )
      where
        answered :
            (x : Bool × Hunt F)
            → Tracks x.1
            → Holds
                (λ t'. Tracks)
                (λ o. Tracks)
                (after_offer set j c (c.profile_id ∷ t) (some x.0, x.1))
        answered (b, h') k' = after_offer-Tracks j c (c.profile_id ∷ t) (some b) h' k'

    -- A search keeps the row of every ride, whatever others do while it waits, if they keep it: also of
    -- the ride it searches for, which moves along the table of transitions or is cancelled.
    pub search-Follows :
        (wait : (a : ℕ) (s : Scene F) → Follows id r s.world → Follows id r (set.between a s).world)
        (j : ℕ) (pickup : Point F) (v : String) (h : Hunt F)
        → Follows id r h.scene.world
        → Follows id r (run_loop set j pickup v h).1.scene.world
    search-Follows wait j pickup v h k =
        run_loop-Holds set j (λ t. Tracks) (λ o. Tracks)
          (λ a c t h early. try_candidate-Tracks j a c t h) (λ a t h' k'. wait a h'.scene k')
          (λ t h' k'. k') (λ env why t h' k'. give_up-Follows env id r j why h'.scene.world k')
          pickup v h k

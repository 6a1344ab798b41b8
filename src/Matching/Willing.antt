-- ===== src/Matching/Willing.antt =====
-- A search finds a driver who says yes (`runLoop`, api-server/internal/matching/engine.go).
use rides_api.Base.{
  ℕ, ◌≡◌, refl, true, false, Bool, Option, none, some, List, [], ◌∷◌, member, ◌==◌, ◌||◌, arith,
}
use rides_api.Ride.World.{Env}
use rides_api.Matching.Scene.{Candidate, Hunt, Scene, Setting, does}
use rides_api.Matching.Offer.{
  set_lock, send_offer, end_offer, offer_to_driver, on_declined, await, set_pending_driver,
}
use rides_api.Matching.Loop.{
  Progress, Pass, next, break_out, finish, Outcome, found, stopped, given_up, after_offer,
  try_candidate, try_all, go_on,
}
use rides_api.Matching.Rounds.{Holds}

abbrev pub is_found : Pass → Bool
is_found (finish (found p)) = true
is_found (finish stopped) = false
is_found (finish given_up) = false
is_found next = false
is_found break_out = false

abbrev pub is_candidate : {F : Type 0} → ℕ → List (Candidate F) → Bool
is_candidate p [] = false
is_candidate p (c ∷ cs) = (c.profile_id == p) || is_candidate p cs

module _ {F : Type 0} (set : Setting F) (id p : ℕ)
    (free : (q : ℕ) (s : Scene F) → s.locks p ≡ none → (set.meanwhile q s).locks p ≡ none) where
  -- The driver `p` is not tried, and nobody holds the lock.
  record IsOpen (t : List ℕ) (h : Hunt F) : Type 0 where
    new : member p t ≡ false
    lock : h.scene.locks p ≡ none

  abbrev Finds : Outcome → Hunt F → Type 0
  Finds o h = is_found (finish o) ≡ true

  set_lock-other :
      (env : Env F) (q : ℕ) (v : Option ℕ) (h : Hunt F)
      → (q == p) ≡ false
      → (set_lock env q v h).scene.locks p ≡ h.scene.locks p
  set_lock-other env q v h other = ground arith

  send_offer-lock :
      (c : Candidate F) (h : Hunt F)
      → (c.profile_id == p) ≡ false
      → h.scene.locks p ≡ none
      → (send_offer set id c h).scene.locks p ≡ none
  unfolding send_offer
  send_offer-lock c h other lock =
      let same = set_lock-other (set.asking c.profile_id) c.profile_id (some id) h other in
      free c.profile_id _ (ground arith)

  end_offer-lock :
      (c : Candidate F) (o : Option Bool) (h : Hunt F)
      → (c.profile_id == p) ≡ false
      → h.scene.locks p ≡ none
      → (end_offer set id c o h).1.scene.locks p ≡ none
  unfolding end_offer
  end_offer-lock c none h other lock =
      let env = set.answering c.profile_id in
      let h1 = does (set_pending_driver env id none) h in
      let same = set_lock-other env c.profile_id none h1 other in ground arith
  end_offer-lock c (some b) h other lock =
      let same = set_lock-other (set.answering c.profile_id) c.profile_id none h other in
      ground arith

  on_declined-lock :
      (env : Env F) (c : Candidate F) (h : Hunt F)
      → (on_declined env c h).scene.locks ≡ h.scene.locks
  unfolding on_declined
  on_declined-lock env c h = ground arith

  other_tried :
      (q : ℕ) (t : List ℕ) → (q == p) ≡ false → member p t ≡ false → member p (q ∷ t) ≡ false
  other_tried q t other new = ground arith

  after_other :
      (c : Candidate F) (t : List ℕ) (o : Option Bool) (h : Hunt F)
      → (c.profile_id == p) ≡ false
      → IsOpen t h
      → Holds IsOpen Finds (after_offer set id c (c.profile_id ∷ t) (o, h))
  unfolding Holds
  after_other c t none h other k = record {
    new = other_tried c.profile_id t other k.new;
    lock = k.lock;
  }
  after_other c t (some true) h other k = refl
  after_other c t (some false) h other k = record {
    new = other_tried c.profile_id t other k.new;
    lock = let same = on_declined-lock (set.answering c.profile_id) c h in ground (arith, k.lock);
  }

  try_other :
      (a : ℕ) (c : Candidate F) (t : List ℕ) (h : Hunt F)
      → (c.profile_id == p) ≡ false
      → IsOpen t h
      → Holds IsOpen Finds (try_candidate set id a c t h)
  unfolding try_candidate offer_to_driver Holds
  try_other a c t h other k = ground (
    arith,
    idle t h k,
    after_other c t none h other k,
    answered
        (end_offer set id c (await c.profile_id (set.signals c.profile_id)) (send_offer set id c h))
        (end_offer-lock c (await c.profile_id (set.signals c.profile_id)) (send_offer set id c h)
          other (send_offer-lock c h other k.lock)),
  )
    where
      idle : (t' : List ℕ) (h' : Hunt F) → IsOpen t' h' → Holds IsOpen Finds (next, t', h')
      idle t' h' k' = k'

      answered :
          (x : Bool × Hunt F)
          → x.1.scene.locks p ≡ none
          → Holds IsOpen Finds (after_offer set id c (c.profile_id ∷ t) (some x.0, x.1))
      answered (b, h') lock' =
          after_other c t (some b) h' other (record { new = k.new; lock = lock' })

  try_willing :
      (a : ℕ) (c : Candidate F) (t : List ℕ) (h : Hunt F)
      → (c.profile_id == p) ≡ true
      → set.is_driver_connected a p ≡ true
      → (set.asking p).redis_down ≡ false
      → await p (set.signals p) ≡ some true
      → IsOpen t h
      → (try_candidate set id a c t h).0 ≡ finish (found p)
  unfolding try_candidate offer_to_driver end_offer
  try_willing a c t h same on up said k = ground (arith, k.new, k.lock)

  abbrev is_break : Pass → Bool
  is_break break_out = true
  is_break next = false
  is_break (finish o) = false

  never_breaks :
      (a : ℕ) (c : Candidate F) (t : List ℕ) (h : Hunt F)
      → is_break (try_candidate set id a c t h).0 ≡ false
  unfolding try_candidate offer_to_driver end_offer
  never_breaks a c t h = ground arith

  go_on_later :
      (k : List ℕ → Hunt F → Progress F) (x : Progress F)
      → Holds IsOpen Finds x
      → is_break x.0 ≡ false
      → ((t : List ℕ) (h : Hunt F) → IsOpen t h → is_found (k t h).0 ≡ true)
      → is_found (go_on set id k x).0 ≡ true
  unfolding Holds
  go_on_later k (next, t, h) open_yet goes rest = rest t h open_yet
  go_on_later k (break_out, t, h) open_yet goes rest = ground arith
  go_on_later k (finish o, t, h) done goes rest = done

  go_on_at :
      (k : List ℕ → Hunt F → Progress F) (x : Progress F)
      → x.0 ≡ finish (found p)
      → is_found (go_on set id k x).0 ≡ true
  go_on_at k (x, t, h) eq = ground arith

  module _ (a : ℕ) (on : set.is_driver_connected a p ≡ true)
      (up : (set.asking p).redis_down ≡ false) (said : await p (set.signals p) ≡ some true) where
    try_all_in :
        (cs : List (Candidate F)) (t : List ℕ) (h : Hunt F)
        → is_candidate p cs ≡ true
        → IsOpen t h
        → is_found (try_all set id a cs t h).0 ≡ true
    unfolding try_all
    try_all_in [] t h listed k = ground arith
    try_all_in (c ∷ cs) t h listed k =
        elim (c.profile_id == p)
            as (λ b.
              (c.profile_id == p) ≡ b
              → (b || is_candidate p cs) ≡ true
              → is_found
                  (go_on set id (λ t' h'. try_all set id a cs t' h')
                    (try_candidate set id a c t h)).0
                ≡ true) [
                  | true ↦ λ same l.
                      go_on_at _ (try_candidate set id a c t h)
                        (try_willing a c t h same on up said k)
                  | false ↦ λ other l.
                      go_on_later _ (try_candidate set id a c t h) (try_other a c t h other k)
                        (never_breaks a c t h) (λ t' h' k'. try_all_in cs t' h' l k')
                ]
          refl listed

    -- Where the driver `p` is among the candidates of an attempt, has not been asked, is connected, is
    -- locked by nobody and says yes, and Redis answers, the attempt ends with a driver found, perhaps
    -- another one who comes first and says yes.
    pub willing_found :
        (cs : List (Candidate F)) (t : List ℕ) (h : Hunt F)
        → is_candidate p cs ≡ true
        → member p t ≡ false
        → h.scene.locks p ≡ none
        → is_found (try_all set id a cs t h).0 ≡ true
    willing_found cs t h listed new lock =
        try_all_in cs t h listed (record { new = new; lock = lock })

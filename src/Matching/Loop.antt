-- ===== src/Matching/Loop.antt =====
-- The search of a driver (`runLoop`, api-server/internal/matching/engine.go).
use rides_api.Base.{
  ℕ, zero, suc, Bool, true, false, not, ◌&&◌, Option, none, some, List, [], ◌∷◌, if◌then◌else◌, ltb,
  member, String,
}
use rides_api.Base.Action.{Result, ok, err}
use rides_api.Geo.{Point}
use rides_api.Status.{searching, status_eq}
use rides_api.Ride.World.{Ride, Env}
use rides_api.Ride.Repo.{find_by_id}
use rides_api.Matching.Scene.{Candidate, Hunt, Setting, in_scene, does}
use rides_api.Matching.Search.{current_radius, search_candidates}
use rides_api.Matching.Offer.{offer_to_driver, on_accepted, on_declined, give_up}

-- How the search ends: at a driver's yes, because the ride is no longer searching, or by giving up.
pub data Outcome : Type 0 where
  found : ℕ → Outcome
  stopped given_up : Outcome

-- How a candidate or an attempt ends: with the search, with the loop (`break`), or with neither.
pub data Pass : Type 0 where
  next break_out : Pass
  finish : Outcome → Pass

-- `StartSearch`: the seconds after which the context ends
unfoldable pub give_up_seconds : ℕ → ℕ
give_up_seconds zero = 90
give_up_seconds (suc n) = suc n

-- What is left of a search: how it went on, the drivers tried, and the state.
abbrev pub Progress : Type 0 → Type 0
Progress F = Pass × List ℕ × Hunt F

module _ {F : Type 0} (set : Setting F) (id : ℕ) where
  abbrev pub after_offer : Candidate F → List ℕ → Option Bool × Hunt F → Progress F
  after_offer c tried (none, h) = (next, tried, h)
  after_offer c tried (some true, h) =
      (finish (found c.profile_id), tried, does (on_accepted (set.answering c.profile_id) id c) h)
  after_offer c tried (some false, h) = (next, tried, on_declined (set.answering c.profile_id) c h)

  -- One turn of the inner loop.
  unfoldable pub try_candidate : ℕ → Candidate F → List ℕ → Hunt F → Progress F
  try_candidate attempt c tried h =
      if member c.profile_id tried
      then (next, tried, h)
      else if not (set.is_driver_connected attempt c.profile_id)
      then (next, tried, h)
      else after_offer c (c.profile_id ∷ tried) (offer_to_driver set id c h)

  -- The rest of a loop, where a turn did not end it.
  abbrev pub go_on : (List ℕ → Hunt F → Progress F) → Progress F → Progress F
  go_on k (next, tried, h) = k tried h
  go_on k (break_out, tried, h) = (break_out, tried, h)
  go_on k (finish o, tried, h) = (finish o, tried, h)

  unfoldable pub try_all : ℕ → List (Candidate F) → List ℕ → Hunt F → Progress F
  try_all attempt [] tried h = (next, tried, h)
  try_all attempt (c ∷ cs) tried h =
      go_on (λ t h'. try_all attempt cs t h') (try_candidate attempt c tried h)

  -- Give up, from a context that may be over.
  abbrev pub quit : Env F → String → Hunt F → Hunt F
  quit env reason h = does (give_up env id reason) h

  abbrev pub is_over : Result (Ride F) → Bool
  is_over (ok r) = not (status_eq r.status searching)
  is_over (err e) = false

  abbrev pub try_found : ℕ → List ℕ → Hunt F → Option (List (Candidate F)) → Progress F
  try_found attempt tried h none = (break_out, tried, h)
  try_found attempt tried h (some cs) = try_all attempt cs tried h

  -- An attempt, after the wait.
  unfoldable pub look : Point F → String → ℕ → List ℕ → Hunt F → Progress F
  look pickup vehicle attempt tried h =
      let env = set.attempting attempt in
      if is_over (find_by_id env id h.scene.world).0
      then (finish stopped, tried, h)
      else try_found attempt tried h (
          search_candidates set env h.scene pickup vehicle tried
            (current_radius set.primary_radius_m set.expanded_radius_m attempt))

  -- One turn of the outer loop.
  unfoldable pub run_attempt : Point F → String → ℕ → List ℕ → Hunt F → Progress F
  run_attempt pickup vehicle attempt tried h =
      if ltb 0 attempt && set.has_waves
      then (let waited = in_scene (set.between attempt) h in
          if set.deadline_passes attempt
          then (
            finish given_up,
            tried,
            quit set.without_cancel "no driver found before deadline" waited,
          )
          else look pickup vehicle attempt tried waited)
      else look pickup vehicle attempt tried h

  unfoldable pub run_attempts : Point F → String → ℕ → ℕ → List ℕ → Hunt F → Progress F
  run_attempts pickup vehicle zero attempt tried h = (break_out, tried, h)
  run_attempts pickup vehicle (suc left) attempt tried h =
      go_on (λ t h'. run_attempts pickup vehicle left (suc attempt) t h')
        (run_attempt pickup vehicle attempt tried h)

  abbrev pub conclude : Progress F → Outcome × Hunt F
  conclude (finish o, tried, h) = (o, h)
  conclude (next, tried, h) = (given_up, quit set.ending "no driver found after max attempts" h)
  conclude (break_out, tried, h) =
      (given_up, quit set.ending "no driver found after max attempts" h)

  -- `runLoop`
  unfoldable pub run_loop : Point F → String → Hunt F → Outcome × Hunt F
  run_loop pickup vehicle h = conclude (run_attempts pickup vehicle set.max_attempts 0 [] h)

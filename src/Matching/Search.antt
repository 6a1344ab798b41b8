-- ===== src/Matching/Search.antt =====
-- The search for candidates (api-server/internal/matching/engine.go).
use rides_api.Base.{
  ℕ, ◌^◌, ◌*◌, Bool, true, false, Option, none, some, List, [], ◌∷◌, if◌then◌else◌, ltb, member,
  String,
}
use rides_api.Geo.{Point}
use rides_api.Ride.World.{Env, DriverState, available, on_trip}
use rides_api.Matching.Scene.{Candidate, Profile, Nearby, Scene, Setting}
use rides_api.Matching.Order.{score_of, sort_candidates}

-- The radius of an attempt: it doubles, up to the expanded one.
unfoldable pub current_radius : ℕ → ℕ → ℕ → ℕ
current_radius base expanded attempt =
    let r = base * 2 ^ attempt in if ltb expanded r then expanded else r

abbrev pub is_available : Option DriverState → Bool
is_available (some available) = true
is_available (some on_trip) = false
is_available none = false

module _ {F : Type 0} (set : Setting F) (env : Env F) where
  abbrev pub answer : {A : Type 0} → Option A → Option A
  answer o = if env.redis_down then none else o

  -- The key `DriverDailyDeclines`, 0 where Redis does not answer.
  abbrev pub declines_of : Scene F → ℕ → ℕ
  declines_of s p = if env.redis_down then 0 else s.declines p

  abbrev pub enrich : Scene F → ℕ → ℕ → F → Profile F → Candidate F
  enrich s radius_m p dist_m profile = record {
    profile_id = p;
    user_id = profile.user_id;
    vehicle_type = profile.transport_type;
    distance_m = dist_m;
    daily_declines = declines_of s p;
    acceptance_rate = profile.acceptance_rate;
    score = score_of env.float dist_m radius_m (declines_of s p) profile.acceptance_rate;
  }

  abbrev pub add_found :
      Scene F → ℕ → ℕ × F → Option (Profile F) → List (Candidate F) → List (Candidate F)
  add_found s radius_m hit none rest = rest
  add_found s radius_m (p, km) (some profile) rest =
      enrich s radius_m p (env.float.mul km (env.float.of_int 1000)) profile ∷ rest

  -- The results of the GEO search that are new, available and have a profile.
  unfoldable pub enrich_all : Scene F → List ℕ → ℕ → List (ℕ × F) → List (Candidate F)
  enrich_all s tried radius_m [] = []
  enrich_all s tried radius_m ((p, km) ∷ hits) =
      let rest = enrich_all s tried radius_m hits in
      if member p tried
      then rest
      else if is_available (answer (s.world.redis.driver_state p))
      then add_found s radius_m (p, km) (set.find_profile_by_id p) rest
      else rest

  unfoldable pub enrich_nearby : Scene F → ℕ → List (Nearby F) → List (Candidate F)
  enrich_nearby s radius_m [] = []
  enrich_nearby s radius_m (n ∷ ns) =
      enrich s radius_m n.profile_id n.distance_m n.profile ∷ enrich_nearby s radius_m ns

  abbrev pub sorted_nearby : Scene F → ℕ → Option (List (Nearby F)) → Option (List (Candidate F))
  sorted_nearby s radius_m none = none
  sorted_nearby s radius_m (some ns) =
      some (sort_candidates env.float (enrich_nearby s radius_m ns))

  -- `fallbackPostGIS`, `none` for an error
  unfoldable pub fallback_post_gis :
      Scene F → Point F → String → List ℕ → ℕ → Option (List (Candidate F))
  fallback_post_gis s pickup vehicle tried radius_m =
      sorted_nearby s radius_m (set.find_nearby pickup radius_m vehicle tried)

  abbrev pub from_hits :
      Scene F → Point F → String → List ℕ → ℕ → Option (List (ℕ × F)) → Option (List (Candidate F))
  from_hits s pickup vehicle tried radius_m none = fallback_post_gis s pickup vehicle tried radius_m
  from_hits s pickup vehicle tried radius_m (some []) =
      fallback_post_gis s pickup vehicle tried radius_m
  from_hits s pickup vehicle tried radius_m (some (hit ∷ hits)) =
      some (sort_candidates env.float (enrich_all s tried radius_m (hit ∷ hits)))

  -- `searchCandidatesWithRadius`, `none` for an error
  unfoldable pub search_candidates :
      Scene F → Point F → String → List ℕ → ℕ → Option (List (Candidate F))
  search_candidates s pickup vehicle tried radius_m =
      from_hits s pickup vehicle tried radius_m
        (answer (some (set.geo_search (s.world.redis.geo_index vehicle) pickup radius_m)))

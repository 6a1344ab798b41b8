-- ===== src/Matching/Tests.antt =====
-- A search on a concrete world (api-server/internal/matching/engine.go): the driver 8 is nearer and
-- says no, the driver 7 says yes after a signal of the driver 8 that does not count.
use rides_api.Base.{
  ℕ, ◌≡◌, refl, true, false, some, none, List, [], ◌∷◌, all_different, ◌==◌, if◌then◌else◌, arith,
}
use mathlib.Core.List.{Perm, IsChain}
use mathlib.Core.Option
use rides_api.Geo.{Point}
use rides_api.Status.{searching, cancelled}
use rides_api.Ride.World.{available, on_trip}
use rides_api.Ride.Sample.{whole_numbers, env, a_ride, world}
use rides_api.Ride.Later.{Follows, Later-refl}
use rides_api.Matching.Scene.{Candidate, Profile, Scene, Hunt, Setting}
use rides_api.Matching.Order.{score_of, sort_candidates, sift, sort_onto}
use rides_api.Matching.Search.{
  current_radius, enrich_all, enrich_nearby, fallback_post_gis, search_candidates,
}
use rides_api.Matching.Offer.{
  await, send_offer, end_offer, offer_to_driver, on_declined, on_accepted, match_ride,
  reserve_driver, give_up, notify_accept,
}
use rides_api.Matching.Loop.{
  found, give_up_seconds, try_candidate, try_all, look, run_attempt, run_attempts, run_loop,
}
use rides_api.Matching.Ranking.{IsInOrder, sort_candidates_orders}
use rides_api.Matching.Once.{asks_once, found_agreed, FoundAt}
use rides_api.Matching.Rows.{search-Follows}
use rides_api.Matching.Release.{give_up_frees, accept_after_end, taken_over}
use rides_api.Matching.Willing.{is_found, willing_found}
use rides_api.Ride.Repo.{find_by_id}

abbrev candidate_of : ℕ → ℕ → Candidate ℕ
candidate_of p n = record {
  profile_id = p;
  user_id = p;
  vehicle_type = "MOTO";
  distance_m = n;
  daily_declines = 0;
  acceptance_rate = 100;
  score = n;
}

abbrev three : List (Candidate ℕ)
three = candidate_of 1 30 ∷ candidate_of 2 10 ∷ candidate_of 3 20 ∷ []

abbrev a_profile : Profile ℕ
a_profile = record { user_id = 2; transport_type = "MOTO"; acceptance_rate = 100 }

-- Both drivers are available and connected.
abbrev a_setting : Setting ℕ
a_setting = record {
  max_attempts = 3;
  primary_radius_m = 1000;
  expanded_radius_m = 3000;
  has_waves = true;
  deadline_passes = λ a. false;
  between = λ a s. s;
  meanwhile = λ p s. s;
  signals = λ p.
      if p == 7
      then ((record { driver_id = some 8; accepted = false })
          ∷ (record { driver_id = some 7; accepted = true })
          ∷ [])
      else (record { driver_id = some 8; accepted = false }) ∷ [];
  is_driver_connected = λ a p. true;
  attempting = λ a. env;
  asking = λ p. env;
  answering = λ p. env;
  ending = env;
  without_cancel = env;
  geo_search = λ index p radius. (8, 1) ∷ (7, 2) ∷ [];
  find_profile_by_id = λ p. some a_profile;
  find_nearby = λ p radius v tried. none;
}

abbrev a_scene : Scene ℕ
a_scene = record {
  world = record (world searching) {
    redis = record (world searching).redis { driver_state = λ p. some available };
  };
  locks = λ p. none;
  declines = λ p. 0;
}

abbrev a_hunt : Hunt ℕ
a_hunt = record { scene = a_scene; sent = [] }

abbrev pickup : Point ℕ
pickup = record { lat = 10; lng = 10 }

finds_seven : (run_loop a_setting 50 pickup "MOTO" a_hunt).0 ≡ found 7
unfolding run_loop run_attempts run_attempt look try_all try_candidate offer_to_driver send_offer
    end_offer await on_declined on_accepted match_ride reserve_driver search_candidates enrich_all
    fallback_post_gis enrich_nearby current_radius sort_candidates sift sort_onto score_of
    find_by_id
finds_seven = refl

asks_both : (run_loop a_setting 50 pickup "MOTO" a_hunt).1.sent ≡ 7 ∷ 8 ∷ []
unfolding run_loop run_attempts run_attempt look try_all try_candidate offer_to_driver send_offer
    end_offer await on_declined on_accepted match_ride reserve_driver search_candidates enrich_all
    fallback_post_gis enrich_nearby current_radius sort_candidates sift sort_onto score_of
    find_by_id
asks_both = refl

second_is_dropped :
    notify_accept
      (record { driver_id = some 7; accepted = true })
      (some (some (record { driver_id = some 8; accepted = false })))
    ≡ (false, some (some (record { driver_id = some 8; accepted = false })))
unfolding notify_accept
second_is_dropped = refl

default_give_up : give_up_seconds 0 ≡ 90
unfolding give_up_seconds
default_give_up = refl

sort_candidates_orders_example :
    IsChain (IsInOrder whole_numbers) (sort_candidates whole_numbers three)
    × Perm (sort_candidates whole_numbers three) three
sort_candidates_orders_example = sort_candidates_orders whole_numbers (λ a b h. ground arith) three

asks_once_example : all_different (run_loop a_setting 50 pickup "MOTO" a_hunt).1.sent ≡ true
asks_once_example = asks_once a_setting 50 pickup "MOTO" a_hunt refl

found_agreed_example : FoundAt a_setting 50 7 (run_loop a_setting 50 pickup "MOTO" a_hunt).1
found_agreed_example = found_agreed a_setting 50 pickup "MOTO" a_hunt 7 refl finds_seven

search-Follows_example :
    Follows 50 (a_ride searching) (run_loop a_setting 50 pickup "MOTO" a_hunt).1.scene.world
search-Follows_example =
    search-Follows a_setting 50 (a_ride searching) (λ p s k. k) (λ a s k. k) 50 pickup "MOTO" a_hunt
      (record {
        row = a_ride searching;
        found = refl;
        old = omega arith;
        later = Later-refl (a_ride searching);
      })

give_up_frees_example :
    let w' = (give_up env 50 "no driver" (world searching)).1 in
    (Option.map (λ x. x.status) (w'.db.rides 50) ≡ some cancelled)
    × (w'.redis.customer_active_ride 1 ≡ none)
    × (w'.redis.pending_driver 50 ≡ none)
    × (w'.redis.ride_state 50 ≡ some cancelled)
give_up_frees_example =
    give_up_frees env 50 "no driver" (world searching) (a_ride searching) refl refl (λ q. refl) refl

accept_after_end_example :
    let w' = (on_accepted env 50 (candidate_of 7 10) (world cancelled)).1 in
    (w'.db.rides 50 ≡ some (taken_over env 7 (world cancelled).now (a_ride cancelled)))
    × (Option.map (λ x. x.status) (w'.db.rides 50) ≡ some cancelled)
    × (w'.redis.driver_state 7 ≡ some on_trip)
    × (w'.redis.driver_active_ride 7 ≡ some 50)
accept_after_end_example =
    accept_after_end env 50 (candidate_of 7 10) (world cancelled) (a_ride cancelled) refl refl refl

willing_found_example :
    is_found (try_all a_setting 50 0 (candidate_of 8 10 ∷ candidate_of 7 20 ∷ []) [] a_hunt).0
    ≡ true
unfolding await
willing_found_example =
    willing_found a_setting 50 7 (λ q s k. k) 0 refl refl heard
      (candidate_of 8 10 ∷ candidate_of 7 20 ∷ []) [] a_hunt refl refl refl
  where
    heard : await 7 (a_setting.signals 7) ≡ some true
    heard = refl

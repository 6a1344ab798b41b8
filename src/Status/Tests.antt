-- ===== src/Status/Tests.antt =====
-- Runs of the state machine (api-server/internal/ride/statemachine.go) and nights
-- (api-server/internal/fare/engine.go).
use rides_api.Base.{◌≡◌, ◌≤◌, ◌+◌, ◌-◌, ◌%◌, refl, true, ltb, arith}
use rides_api.Status.{
  searching, matched, negotiating, confirmed, driver_en_route, driver_arrived, in_progress,
  completed, can_transition,
}
use rides_api.Status.Paths.{Run, here, move, visits, steps, agreed_ends, completed_passes}
use rides_api.Fare.{is_night}
use rides_api.Fare.Night.{is_night_window}

-- From the agreement to the end.
abbrev trip : Run confirmed completed
unfolding can_transition
trip =
    move {t = driver_en_route} refl (
      move {t = driver_arrived} refl (move {t = in_progress} refl (move {t = completed} refl here)))

-- The first driver declines, the second agrees.
abbrev whole : Run searching completed
unfolding can_transition
whole = move {t = matched} refl (
    move {t = searching} refl
      (move {t = matched} refl (move {t = negotiating} refl (move {t = confirmed} refl trip))))

agreed_ends_example : steps trip ≤ 4
agreed_ends_example = agreed_ends trip refl

completed_passes_example :
    (visits confirmed whole ≡ true)
    × (visits driver_arrived whole ≡ true)
    × (visits in_progress whole ≡ true)
completed_passes_example = completed_passes whole

-- At 2, in a night from 22 to 6.
is_night_window_example : is_night 2 22 6 ≡ ltb ((2 + 24 - 22) % 24) ((6 + 24 - 22) % 24)
is_night_window_example = is_night_window 2 22 6 (omega arith) (omega arith) (omega arith)

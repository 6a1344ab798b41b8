-- ===== src/Fare/Night.antt =====
-- The night window of the fare engine (`isNight`, api-server/internal/fare/engine.go).
use rides_api.Base.{ℕ, ◌+◌, ◌-◌, ◌%◌, ◌<◌, ◌≡◌, ltb, arith}
use rides_api.Fare.{is_night}

-- On the clock of 24 hours the window begins at its start hour and lasts until its end hour, midnight
-- in between or not: an hour is in it exactly if it comes less far after the start than the end does.
pub is_night_window :
    (h s e : ℕ)
    → h < 24
    → s < 24
    → e < 24
    → is_night h s e ≡ ltb ((h + 24 - s) % 24) ((e + 24 - s) % 24)
unfolding is_night
is_night_window h s e hh hs he = ground arith

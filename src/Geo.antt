-- ===== src/Geo.antt =====
-- Coordinates and distances (api-server/pkg/geo/geo.go).
use rides_api.Base.{◌||◌, Option, none, some, if◌then◌else◌}
use rides_api.Base.Errors.{AppError, gps_coords}
use rides_api.Float.{Float64}

pub record Point (F : Type 0) : Type 0 where
  pub lat : F
  pub lng : F

module _ {F : Type 0} (fl : Float64 F) where
  open fl use {of_int, add, sub, mul, div, lt, neg, sin, cos, sqrt, atan2, pi}

  -- `Validate`: an error if a coordinate is out of the WGS84 range
  unfoldable pub validate : Point F → Option AppError
  validate p =
      if lt p.lat (neg (of_int 90)) || lt (of_int 90) p.lat
      then some gps_coords
      else if lt p.lng (neg (of_int 180)) || lt (of_int 180) p.lng
      then some gps_coords
      else none

  abbrev pub to_rad : F → F
  to_rad deg = div (mul deg pi) (of_int 180)

  -- `DistanceKM`, by the haversine formula
  abbrev pub distance_km : Point F → Point F → F
  distance_km a b =
      let d_lat = to_rad (sub b.lat a.lat) in
      let d_lng = to_rad (sub b.lng a.lng) in
      let sin2_lat = mul (sin (div d_lat (of_int 2))) (sin (div d_lat (of_int 2))) in
      let sin2_lng = mul (sin (div d_lng (of_int 2))) (sin (div d_lng (of_int 2))) in
      let h = add sin2_lat (mul (mul (cos (to_rad a.lat)) (cos (to_rad b.lat))) sin2_lng) in
      let c = mul (of_int 2) (atan2 (sqrt h) (sqrt (sub (of_int 1) h))) in mul (of_int 6371) c

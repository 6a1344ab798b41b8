-- ===== src/Fare.antt =====
-- The fare engine (api-server/internal/fare/engine.go).
pub mod Night
use rides_api.Base.{ℕ, ◌-◌, ◌*◌, Bool, true, false, ◌&&◌, ◌||◌, ltb, leb, if◌then◌else◌}
use rides_api.Float.{Float64}

pub record Config (F : Type 0) : Type 0 where
  pub id : ℕ
  pub base_fare_rwf : ℕ
  pub base_distance_km : F
  pub tier1_per_km_rwf : ℕ
  pub tier1_max_km : F
  pub tier2_per_km_rwf : ℕ
  pub night_surcharge_pct : F
  pub night_start_hour : ℕ
  pub night_end_hour : ℕ
  pub waiting_rwf_per_min : F
  pub waiting_free_minutes : ℕ
  pub min_fare_rwf : ℕ
  pub cancellation_fee_rwf : ℕ

pub record Breakdown (F : Type 0) : Type 0 where
  pub base_fare : F
  pub distance_charge : F
  pub night_surcharge : F
  pub waiting_charge : F
  pub subtotal_before_min : F
  pub total_fare : F
  pub night_applied : Bool
  pub waiting_seconds : ℕ
  pub free_waiting_seconds : ℕ

-- `isNight` at the hour `h` of the day
unfoldable pub is_night : ℕ → ℕ → ℕ → Bool
is_night h start_hour end_hour =
    if ltb end_hour start_hour
    then leb start_hour h || ltb h end_hour
    else leb start_hour h && ltb h end_hour

-- The waiting time past the free minutes.
unfoldable pub billable_wait : ℕ → ℕ → ℕ
billable_wait waiting_seconds free_seconds =
    if ltb waiting_seconds free_seconds then 0 else waiting_seconds - free_seconds

module _ {F : Type 0} (fl : Float64 F) where
  open fl use {of_int, add, sub, mul, div, lt, le}

  -- What the distance costs beyond the base distance, in two tiers.
  unfoldable pub distance_charge : Config F → F → F
  distance_charge cfg distance =
      if lt cfg.base_distance_km distance
      then (let billable = sub distance cfg.base_distance_km in
          let tier1_cap = sub cfg.tier1_max_km cfg.base_distance_km in
          if le billable tier1_cap
          then mul billable (of_int cfg.tier1_per_km_rwf)
          else add (mul tier1_cap (of_int cfg.tier1_per_km_rwf))
              (mul (sub billable tier1_cap) (of_int cfg.tier2_per_km_rwf)))
      else of_int 0

  -- `Calculate`, for a ride that starts at the hour `hour`
  unfoldable pub calculate : Config F → F → ℕ → ℕ → Breakdown F
  calculate cfg distance hour waiting_seconds =
      let base = of_int cfg.base_fare_rwf in
      let charge = distance_charge cfg distance in
      let day = add base charge in
      let applied = is_night hour cfg.night_start_hour cfg.night_end_hour in
      let surcharged = applied && lt (of_int 0) cfg.night_surcharge_pct in
      let night = if surcharged then mul day cfg.night_surcharge_pct else of_int 0 in
      let before_min = if surcharged then add day night else day in
      let min_fare = of_int cfg.min_fare_rwf in
      let subtotal = if lt before_min min_fare then min_fare else before_min in
      let free_seconds = cfg.waiting_free_minutes * 60 in
      let billable = billable_wait waiting_seconds free_seconds in
      let wait = mul (div (of_int billable) (of_int 60)) cfg.waiting_rwf_per_min in
      record {
        base_fare = base;
        distance_charge = charge;
        night_surcharge = night;
        waiting_charge = wait;
        subtotal_before_min = before_min;
        total_fare = add subtotal wait;
        night_applied = applied;
        waiting_seconds = waiting_seconds;
        free_waiting_seconds = free_seconds;
      }

  -- `CancellationFee`
  unfoldable pub cancellation_fee : Config F → Bool → F
  cancellation_fee cfg driver_has_arrived =
      if driver_has_arrived then of_int cfg.cancellation_fee_rwf else of_int 0

-- ===== src/Packages/Sweep.antt =====
-- `SweepExpired` of api-server/internal/packages/ledger.go, which the server runs on a timer.
use rides_api.Base.{
  ℕ, ◌+◌, suc, Bool, true, false, Option, none, some, List, [], ◌∷◌, ◌&&◌, ltb, if◌then◌else◌,
}
use rides_api.Base.Int.{ℤ, pos, pos_part, neg_part, sub_ℕ, ◌-ℤ◌, ltb_ℤ, leb_ℤ}
use rides_api.Base.Errors.{AppError, unavailable}
use rides_api.Base.Action.{ok, err, Action, ◌>>◌, pure}
use rides_api.Packages.Types.{
  Entry, Entitlement, Credits, expiry, list_balances, sum_entries, Outage, row_is, update_row,
}
use rides_api.Packages.Ledger.{in_tx, post}

-- `expires_at IS NULL OR expires_at > now()`
abbrev pub is_live : ℕ → Option ℕ → Bool
is_live now none = true
is_live now (some t) = ltb now t

abbrev pub counts : Bool → ℕ → ℕ
counts b n = if b then n else 0

-- The sums over the rows of one driver and vehicle type. A positive delta counts by its positive
-- part while it is live; a negative one by its negative part, whatever its date.
module _ (d v now : ℕ) where
  unfoldable pub granted_rides : List Entry → ℕ
  granted_rides [] = 0
  granted_rides (e ∷ es) =
      counts (row_is d v e.driver_id e.vehicle_type_id && is_live now e.expires_at)
        (pos_part e.rides_delta)
      + granted_rides es

  unfoldable pub granted_bonus : List Entry → ℕ
  granted_bonus [] = 0
  granted_bonus (e ∷ es) =
      counts (row_is d v e.driver_id e.vehicle_type_id && is_live now e.expires_at)
        (pos_part e.bonus_delta)
      + granted_bonus es

module _ (d v : ℕ) where
  unfoldable pub used_rides : List Entry → ℕ
  used_rides [] = 0
  used_rides (e ∷ es) =
      counts (row_is d v e.driver_id e.vehicle_type_id) (neg_part e.rides_delta) + used_rides es

  unfoldable pub used_bonus : List Entry → ℕ
  used_bonus [] = 0
  used_bonus (e ∷ es) =
      counts (row_is d v e.driver_id e.vehicle_type_id) (neg_part e.bonus_delta) + used_bonus es

-- `x := a - b; if x < 0 { x = 0 }`
abbrev pub floored : ℕ → ℕ → ℤ
floored a b = let x = sub_ℕ a b in if ltb_ℤ x (pos 0) then pos 0 else x

abbrev pub swept_rides : Entitlement → Credits → ℤ
swept_rides e s =
    floored (granted_rides e.driver_id e.vehicle_type_id s.now s.entries)
      (used_rides e.driver_id e.vehicle_type_id s.entries)

abbrev pub swept_bonus : Entitlement → Credits → ℤ
swept_bonus e s =
    floored (granted_bonus e.driver_id e.vehicle_type_id s.now s.entries)
      (used_bonus e.driver_id e.vehicle_type_id s.entries)

abbrev pub expiry_entry : Entitlement → ℤ → ℤ → Entry
expiry_entry e new_rides new_bonus = record {
  driver_id = e.driver_id;
  vehicle_id = none;
  vehicle_type_id = e.vehicle_type_id;
  entry_type = expiry;
  rides_delta = new_rides -ℤ e.rides_remaining;
  bonus_delta = new_bonus -ℤ e.bonus_remaining;
  balance_rides = new_rides;
  balance_bonus = new_bonus;
  source_purchase_id = none;
  source_ride_id = none;
  admin_id = none;
  reason = some "credits expired";
  expires_at = none;
  idempotency_key = none;
}

module _ (out : Outage) where
  -- The transaction for one row whose balance has to fall.
  unfoldable pub expire : Entitlement → ℤ → ℤ → Action Credits (Unit {0})
  expire e new_rides new_bonus = in_tx out (do
    post out (expiry_entry e new_rides new_bonus)
        (update_row e.driver_id e.vehicle_type_id new_rides new_bonus))

  -- The body of the loop; the result says whether the row was adjusted.
  unfoldable pub sweep_one : Entitlement → Action Credits Bool
  sweep_one e s =
      if out sum_entries
      then (err unavailable, s)
      else let new_rides = swept_rides e s in
        let new_bonus = swept_bonus e s in
        if leb_ℤ e.rides_remaining new_rides && leb_ℤ e.bonus_remaining new_bonus
        then (ok false, s)
        else (do expire e new_rides new_bonus; pure true) s

-- The loop, which stops at the first error and reports how many rows it had adjusted. Each row has an
-- outage of its own, so that some may pass before one fails.
unfoldable pub sweep_rows :
    (Entitlement → Outage) → List Entitlement → ℕ → Credits → ℕ × Option AppError × Credits
sweep_rows outs [] adjusted s = (adjusted, none, s)
sweep_rows outs (e ∷ es) adjusted s =
    let (r, t) = sweep_one (outs e) e s in
    elim r [
      | ok more ↦ sweep_rows outs es (if more then suc adjusted else adjusted) t
      | err x ↦ (adjusted, some x, t)
    ]

-- `SweepExpired`: the list of the balances, then the loop
unfoldable pub sweep_expired :
    Outage → (Entitlement → Outage) → Credits → ℕ × Option AppError × Credits
sweep_expired out outs s =
    if out list_balances then (0, some unavailable, s) else sweep_rows outs s.entitlements 0 s

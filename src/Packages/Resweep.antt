-- ===== src/Packages/Resweep.antt =====
-- Two sweeps in a row (`SweepExpired`, api-server/internal/packages/ledger.go): the rows of kind
-- EXPIRY that the first one writes are among those that the second one reads as consumption.
use rides_api.Base.{false, ◌∷◌}
use rides_api.Packages.Types.{Entitlement, Credits, Outage, update_row}
use rides_api.Packages.Sweep.{expiry_entry, swept_rides, swept_bonus}

-- Nothing fails.
abbrev pub healthy : Outage
healthy st = false

-- The row that a sweep leaves.
abbrev pub swept : Entitlement → Credits → Entitlement
swept e s = record e { rides_remaining = swept_rides e s; bonus_remaining = swept_bonus e s }

-- The state after the first sweep.
abbrev after_sweep : Entitlement → Credits → Credits
after_sweep e s = record s {
  entries = expiry_entry e (swept_rides e s) (swept_bonus e s) ∷ s.entries;
  entitlements =
      update_row e.driver_id e.vehicle_type_id (swept_rides e s) (swept_bonus e s) s.entitlements;
}

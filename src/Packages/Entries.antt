-- ===== src/Packages/Entries.antt =====
-- The rows that the ledger writes (api-server/internal/packages/ledger.go).
use rides_api.Base.{ℕ, Option, none, some, if◌then◌else◌, String}
use rides_api.Base.Int.{ℤ, pos}
use rides_api.Base.Errors.{AppError, custom}
use rides_api.Base.Action.{Action, pure, raise}
use text.Mathlib.Text.{◌==◌ as str_eq}
use rides_api.Packages.Types.{
  EntryType, ride_deduction, ride_refund, Key, ride_key, refund_key, Entry, Entitlement,
}

-- `ErrNoCredits` (api-server/internal/packages/service.go)
abbrev pub no_credits : AppError
no_credits = custom 402 "NO_CREDITS"

abbrev pub or_raise : {S A : Type 0} → Option A → AppError → Action S A
or_raise none e = raise e
or_raise (some a) e = pure a

abbrev pub null_str : String → Option String
null_str s = if str_eq s "" then none else some s

-- The row that `grant` writes, from the balance that it computed.
abbrev pub grant_entry :
    ℕ
    → Option ℕ
    → ℕ
    → EntryType
    → ℤ
    → ℤ
    → Option ℕ
    → Option ℕ
    → Option ℕ
    → String
    → Option Key
    → ℤ
    → ℤ
    → Entry
grant_entry profile_id vehicle_id type_id kind rides bonus purchase_id expires admin_id why key r
      b =
    record {
      driver_id = profile_id;
      vehicle_id = vehicle_id;
      vehicle_type_id = type_id;
      entry_type = kind;
      rides_delta = rides;
      bonus_delta = bonus;
      balance_rides = r;
      balance_bonus = b;
      source_purchase_id = purchase_id;
      source_ride_id = none;
      admin_id = admin_id;
      reason = null_str why;
      expires_at = expires;
      idempotency_key = key;
    }

abbrev pub balance_row : ℕ → ℕ → Option ℕ → ℤ → ℤ → Entitlement
balance_row profile_id type_id vehicle_id rides bonus = record {
  driver_id = profile_id;
  vehicle_type_id = type_id;
  vehicle_id = vehicle_id;
  rides_remaining = rides;
  bonus_remaining = bonus;
}

-- The row that `deductOne` writes, from the balance that it read.
abbrev pub deduction : ℕ → ℕ → ℕ → ℤ → ℤ → ℤ → ℤ → Entry
deduction profile_id type_id ride_id rides_delta bonus_delta rides bonus = record {
  driver_id = profile_id;
  vehicle_id = none;
  vehicle_type_id = type_id;
  entry_type = ride_deduction;
  rides_delta = rides_delta;
  bonus_delta = bonus_delta;
  balance_rides = rides;
  balance_bonus = bonus;
  source_purchase_id = none;
  source_ride_id = some ride_id;
  admin_id = none;
  reason = none;
  expires_at = none;
  idempotency_key = some (ride_key ride_id);
}

-- The row that `refundOne` writes.
abbrev pub refund_entry : ℕ → ℕ → ℕ → ℤ → ℤ → Entry
refund_entry profile_id type_id ride_id rides bonus = record {
  driver_id = profile_id;
  vehicle_id = none;
  vehicle_type_id = type_id;
  entry_type = ride_refund;
  rides_delta = pos 1;
  bonus_delta = pos 0;
  balance_rides = rides;
  balance_bonus = bonus;
  source_purchase_id = none;
  source_ride_id = some ride_id;
  admin_id = none;
  reason = none;
  expires_at = none;
  idempotency_key = some (refund_key ride_id);
}

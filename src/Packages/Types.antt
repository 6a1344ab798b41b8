-- ===== src/Packages/Types.antt =====
-- The tables behind api-server/internal/packages/ledger.go: `ride_credit_ledger`,
-- `driver_entitlements` and the columns of `driver_profiles` and `vehicle_types` that it reads.
use rides_api.Base.{
  ℕ, Bool, true, false, Option, none, some, List, [], ◌∷◌, ◌&&◌, ◌==◌, if◌then◌else◌, String,
}
use rides_api.Base.Int.{ℤ, pos}

-- The column `entry_type`.
pub data EntryType : Type 0 where
  purchase_grant bonus_grant admin_grant ride_deduction ride_refund expiry : EntryType

-- The column `idempotency_key`: a ride's id, or an id behind one of the prefixes `refund:`,
-- `grant:`, `bonus:` and `freetrial:`.
pub data Key : Type 0 where
  ride_key refund_key grant_key bonus_key trial_key : ℕ → Key

abbrev pub key_eq : Key → Key → Bool
key_eq (ride_key a) (ride_key b) = a == b
key_eq (refund_key a) (refund_key b) = a == b
key_eq (grant_key a) (grant_key b) = a == b
key_eq (bonus_key a) (bonus_key b) = a == b
key_eq (trial_key a) (trial_key b) = a == b
key_eq _ _ = false

-- A row of `ride_credit_ledger`.
pub record Entry : Type 0 where
  pub driver_id : ℕ
  pub vehicle_id : Option ℕ
  pub vehicle_type_id : ℕ
  pub entry_type : EntryType
  pub rides_delta : ℤ
  pub bonus_delta : ℤ
  pub balance_rides : ℤ
  pub balance_bonus : ℤ
  pub source_purchase_id : Option ℕ
  pub source_ride_id : Option ℕ
  pub admin_id : Option ℕ
  pub reason : Option String
  pub expires_at : Option ℕ
  pub idempotency_key : Option Key

-- A row of `driver_entitlements`, which is unique for a driver and a vehicle type.
pub record Entitlement : Type 0 where
  pub driver_id : ℕ
  pub vehicle_type_id : ℕ
  pub vehicle_id : Option ℕ
  pub rides_remaining : ℤ
  pub bonus_remaining : ℤ

-- The promotional version of a package that is active for a vehicle type.
pub record Promotion : Type 0 where
  pub rides : ℤ
  pub bonus_rides : ℤ
  pub validity_days : ℕ

-- `entries` has the newest row first. Times are in seconds.
pub record Credits : Type 0 where
  pub entries : List Entry
  pub entitlements : List Entitlement
  pub profile_of_user : ℕ → Option ℕ
  pub vehicle_type_of_code : String → Option ℕ
  pub active_vehicle : ℕ → ℕ → Option ℕ
  pub free_trial_used : ℕ → Bool
  pub promotion_of : ℕ → Option Promotion
  pub now : ℕ

-- The statements whose failure (a lost connection, a broken constraint) a call hands on.
pub data Statement : Type 0 where
  begin_tx commit_tx select_profile select_type select_key select_balance : Statement
  insert_entry write_balance claim_trial select_promotion list_balances sum_entries : Statement

-- Which statements fail during a call.
abbrev pub Outage : Type 0
Outage = Statement → Bool

-- Does a row stand for this driver and vehicle type?
abbrev pub row_is : ℕ → ℕ → ℕ → ℕ → Bool
row_is d v d' v' = (d == d') && (v == v')

abbrev pub find_row : ℕ → ℕ → List Entitlement → Option Entitlement
find_row d v [] = none
find_row d v (r ∷ rs) = if row_is d v r.driver_id r.vehicle_type_id then some r else find_row d v rs

-- COALESCE(a, b)
abbrev pub coalesce {ℓ} : {A : Type ℓ} → Option A → Option A → Option A
coalesce none b = b
coalesce (some a) b = some a

-- `INSERT … ON CONFLICT (driver_id, vehicle_type_id) DO UPDATE`
abbrev pub upsert_row : Entitlement → List Entitlement → List Entitlement
upsert_row e [] = e ∷ []
upsert_row e (r ∷ rs) =
    if row_is e.driver_id e.vehicle_type_id r.driver_id r.vehicle_type_id
    then record r {
      rides_remaining = e.rides_remaining;
      bonus_remaining = e.bonus_remaining;
      vehicle_id = coalesce e.vehicle_id r.vehicle_id;
    }
      ∷ rs
    else r ∷ upsert_row e rs

-- `UPDATE driver_entitlements SET … WHERE driver_id = … AND vehicle_type_id = …`
abbrev pub update_row : ℕ → ℕ → ℤ → ℤ → List Entitlement → List Entitlement
update_row d v rides bonus [] = []
update_row d v rides bonus (r ∷ rs) =
    if row_is d v r.driver_id r.vehicle_type_id
    then record r { rides_remaining = rides; bonus_remaining = bonus } ∷ rs
    else r ∷ update_row d v rides bonus rs

-- The cached balance; a missing row reads as zero.
abbrev pub cached_rides : Option Entitlement → ℤ
cached_rides none = pos 0
cached_rides (some r) = r.rides_remaining

abbrev pub cached_bonus : Option Entitlement → ℤ
cached_bonus none = pos 0
cached_bonus (some r) = r.bonus_remaining

abbrev pub has_key : Key → Option Key → Bool
has_key k none = false
has_key k (some j) = key_eq k j

-- `SELECT EXISTS(SELECT 1 FROM ride_credit_ledger WHERE idempotency_key = $1)`
abbrev pub key_exists : Key → List Entry → Bool
key_exists k [] = false
key_exists k (e ∷ es) = if has_key k e.idempotency_key then true else key_exists k es

-- The constraint UNIQUE (idempotency_key), under which NULLs do not collide.
abbrev pub key_taken : Option Key → List Entry → Bool
key_taken none es = false
key_taken (some k) es = key_exists k es

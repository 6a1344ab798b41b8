-- ===== src/Packages/Rows.antt =====
-- The table `driver_entitlements` has one row for a driver and a vehicle type: its constraint
-- `uniq_entitlement`, under the writes of api-server/internal/packages/ledger.go.
use rides_api.Base.{ℕ, ◌≡◌, refl, true, false, some, none, List, [], ◌∷◌, arith}
use rides_api.Base.Int.{ℤ}
use rides_api.Packages.Types.{Entitlement, row_is, find_row, upsert_row, update_row}

-- No two rows are for the same driver and vehicle type.
abbrev pub Distinct : List Entitlement → Type 0
Distinct [] = Unit {0}
Distinct (r ∷ rs) = (find_row r.driver_id r.vehicle_type_id rs ≡ none) × Distinct rs

-- Each of these rows is the one that the table has for its driver and vehicle type.
abbrev pub AreCurrent : List Entitlement → List Entitlement → Type 0
AreCurrent table [] = Unit {0}
AreCurrent table (r ∷ rs) =
    (find_row r.driver_id r.vehicle_type_id table ≡ some r) × AreCurrent table rs

pub row_is→eq : (d v d' v' : ℕ) → row_is d v d' v' ≡ true → (d ≡ d') × (v ≡ v')
row_is→eq d v d' v' h = ground arith

module _ (d v : ℕ) where
  pub find_row-upsert_ne :
      (e : Entitlement) (rs : List Entitlement)
      → row_is d v e.driver_id e.vehicle_type_id ≡ false
      → find_row d v (upsert_row e rs) ≡ find_row d v rs
  find_row-upsert_ne e [] h = ground arith
  find_row-upsert_ne e (r ∷ rs) h = ground (arith, find_row-upsert_ne e rs h)

  pub find_row-update_ne :
      (d' v' : ℕ) (a b : ℤ) (rs : List Entitlement)
      → row_is d v d' v' ≡ false
      → find_row d v (update_row d' v' a b rs) ≡ find_row d v rs
  find_row-update_ne d' v' a b [] h = refl
  find_row-update_ne d' v' a b (r ∷ rs) h = ground (arith, find_row-update_ne d' v' a b rs h)

  pub find_row-update_none :
      (d' v' : ℕ) (a b : ℤ) (rs : List Entitlement)
      → find_row d v rs ≡ none
      → find_row d v (update_row d' v' a b rs) ≡ none
  find_row-update_none d' v' a b [] h = refl
  find_row-update_none d' v' a b (r ∷ rs) h = ground (arith, find_row-update_none d' v' a b rs)

pub upsert_row-Distinct :
    (e : Entitlement) (rs : List Entitlement) → Distinct rs → Distinct (upsert_row e rs)
upsert_row-Distinct e [] h = (refl, tt)
upsert_row-Distinct e (r ∷ rs) h =
    ground
      (arith, upsert_row-Distinct e rs h.1, find_row-upsert_ne r.driver_id r.vehicle_type_id e rs)

pub update_row-Distinct :
    (d v : ℕ) (a b : ℤ) (rs : List Entitlement) → Distinct rs → Distinct (update_row d v a b rs)
update_row-Distinct d v a b [] h = tt
update_row-Distinct d v a b (r ∷ rs) h = ground (
  arith,
  update_row-Distinct d v a b rs h.1,
  find_row-update_none r.driver_id r.vehicle_type_id d v a b rs,
)

-- A row above the others does not hide them.
AreCurrent-cons :
    (r : Entitlement) (table rs : List Entitlement)
    → find_row r.driver_id r.vehicle_type_id rs ≡ none
    → AreCurrent table rs
    → AreCurrent (r ∷ table) rs
AreCurrent-cons r table [] h c = tt
AreCurrent-cons r table (q ∷ rs) h c = ground (arith, AreCurrent-cons r table rs)

pub Distinct-AreCurrent : (rs : List Entitlement) → Distinct rs → AreCurrent rs rs
Distinct-AreCurrent [] h = tt
Distinct-AreCurrent (r ∷ rs) h =
    ground (arith, AreCurrent-cons r rs rs h.0 (Distinct-AreCurrent rs h.1))

-- Writing the first of several distinct rows leaves the rest current.
pub update_row-AreCurrent :
    (d v : ℕ) (a b : ℤ) (table rs : List Entitlement)
    → find_row d v rs ≡ none
    → AreCurrent table rs
    → AreCurrent (update_row d v a b table) rs
update_row-AreCurrent d v a b table [] h c = tt
update_row-AreCurrent d v a b table (r ∷ rs) h c = ground (
  arith,
  update_row-AreCurrent d v a b table rs,
  find_row-update_ne r.driver_id r.vehicle_type_id d v a b table,
)

pub find_row-update_self :
    (d v : ℕ) (a b : ℤ) (e : Entitlement) (rs : List Entitlement)
    → find_row d v rs ≡ some e
    → find_row d v (update_row d v a b rs)
      ≡ some (record e { rides_remaining = a; bonus_remaining = b })
find_row-update_self d v a b e [] h = ground arith
find_row-update_self d v a b e (r ∷ rs) h = ground (arith, find_row-update_self d v a b e rs)

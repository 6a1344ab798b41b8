-- ===== src/Packages/Balance.antt =====
-- The balance cache `driver_entitlements` against the rows of the ledger
-- (api-server/internal/packages/ledger.go).
use rides_api.Base.{
  ℕ, ◌≡◌, refl, true, false, some, none, List, [], ◌∷◌, if◌then◌else◌, arith, String, Option,
}
use rides_api.Base.Int.{ℤ, pos, negsuc, ltb_ℤ, ◌+ℤ◌, +ℤ_comm, +ℤ_zero}
use rides_api.Base.Action.{ok, is_ok}
use rides_api.Packages.Types.{
  EntryType, Key, Entry, Entitlement, Credits, Outage, row_is, find_row, upsert_row, update_row,
  cached_rides, cached_bonus,
}
use rides_api.Packages.Rows.{row_is→eq}
use rides_api.Packages.Entries.{balance_row, grant_entry, refund_entry, deduction}
use rides_api.Packages.Ledger.{post, grant_body, grant, spend, deduct_from, deduct_one, refund_one}

module _ (d v : ℕ) where
  -- The sum of a driver's deltas for a vehicle type.
  abbrev pub sum_rides : List Entry → ℤ
  sum_rides [] = pos 0
  sum_rides (e ∷ es) =
      if row_is d v e.driver_id e.vehicle_type_id
      then e.rides_delta +ℤ sum_rides es
      else sum_rides es

  abbrev pub sum_bonus : List Entry → ℤ
  sum_bonus [] = pos 0
  sum_bonus (e ∷ es) =
      if row_is d v e.driver_id e.vehicle_type_id
      then e.bonus_delta +ℤ sum_bonus es
      else sum_bonus es

  -- A driver's cached balance is the sum of the ledger's deltas.
  abbrev pub Agrees : Credits → Type 0
  Agrees s =
      (cached_rides (find_row d v s.entitlements) ≡ sum_rides s.entries)
      × (cached_bonus (find_row d v s.entitlements) ≡ sum_bonus s.entries)

  pub find_row-upsert_row :
      (e : Entitlement) (rs : List Entitlement)
      → let hit = row_is d v e.driver_id e.vehicle_type_id in
        let r = find_row d v (upsert_row e rs) in
        (cached_rides r ≡ (if hit then e.rides_remaining else cached_rides (find_row d v rs)))
        × (cached_bonus r ≡ (if hit then e.bonus_remaining else cached_bonus (find_row d v rs)))
  find_row-upsert_row e [] = ground arith
  find_row-upsert_row e (r ∷ rs) = ground (arith, find_row-upsert_row e rs)

  pub find_row-update_row :
      (d' v' : ℕ) (a b : ℤ) (rs : List Entitlement) (old : Entitlement)
      → find_row d' v' rs ≡ some old
      → let hit = row_is d v d' v' in
        let r = find_row d v (update_row d' v' a b rs) in
        (cached_rides r ≡ (if hit then a else cached_rides (find_row d v rs)))
        × (cached_bonus r ≡ (if hit then b else cached_bonus (find_row d v rs)))
  find_row-update_row d' v' a b [] old h = ground arith
  find_row-update_row d' v' a b (r ∷ rs) old h =
      ground (arith, find_row-update_row d' v' a b rs old)

-- The cache agrees with the ledger for every driver and vehicle type.
abbrev pub IsLedgered : Credits → Type 0
IsLedgered s = (d v : ℕ) → Agrees d v s

module _ (out : Outage) where
  -- What `post` leaves when it succeeds.
  pub post_ok :
      (e : Entry) (f : List Entitlement → List Entitlement) (s : Credits)
      → (post out e f s).0 ≡ ok tt
      → (post out e f s).1 ≡ record s { entries = e ∷ s.entries; entitlements = f s.entitlements }
  unfolding post
  post_ok e f s h = ground arith

  -- A row that adds its delta to its own balance.
  pub post-Agrees :
      (d v : ℕ) (e : Entry) (f : List Entitlement → List Entitlement) (s : Credits)
      → Agrees d v s
      → let rs = s.entitlements in
        let hit = row_is d v e.driver_id e.vehicle_type_id in
        let cur = find_row e.driver_id e.vehicle_type_id rs in
        (cached_rides (find_row d v (f rs))
            ≡ (if hit then cached_rides cur +ℤ e.rides_delta else cached_rides (find_row d v rs)))
          × (cached_bonus (find_row d v (f rs))
              ≡ (if hit then cached_bonus cur +ℤ e.bonus_delta else cached_bonus (find_row d v rs)))
        → (post out e f s).0 ≡ ok tt
        → Agrees d v (post out e f s).1
  post-Agrees d v e f s h p done = rw (post_ok e f s done) (
      ground (
        arith,
        row_is→eq d v e.driver_id e.vehicle_type_id,
        +ℤ_comm (cached_rides (find_row d v s.entitlements)) e.rides_delta,
        +ℤ_comm (cached_bonus (find_row d v s.entitlements)) e.bonus_delta,
      ))

  pub grant_body-Agrees :
      (d v : ℕ) (p : ℕ) (vehicle : Option ℕ) (t : ℕ) (kind : EntryType) (rides bonus : ℤ)
      (purchase expires admin : Option ℕ) (why : String) (key : Option Key) (s : Credits)
      → Agrees d v s
      → let (r, s') =
          grant_body out p vehicle t kind rides bonus purchase expires admin why key s in
        r ≡ ok tt → Agrees d v s'
  unfolding grant_body
  grant_body-Agrees d v p vehicle t kind rides bonus purchase expires admin why key s h done =
      let cur = find_row p t s.entitlements in
      let r = cached_rides cur +ℤ rides in
      let b = cached_bonus cur +ℤ bonus in
      let row = balance_row p t vehicle r b in
      ground (
        arith,
        post-Agrees d v
            (grant_entry p vehicle t kind rides bonus purchase expires admin why key r b)
            (upsert_row row) s h (find_row-upsert_row d v row s.entitlements),
      )

  -- In a transaction of its own a grant keeps the agreement, whatever fails.
  pub grant-Agrees :
      (d v : ℕ) (p : ℕ) (vehicle : Option ℕ) (t : ℕ) (kind : EntryType) (rides bonus : ℤ)
      (purchase expires admin : Option ℕ) (why : String) (key : Option Key) (s : Credits)
      → Agrees d v s
      → Agrees d v (grant out false p vehicle t kind rides bonus purchase expires admin why key s).1
  unfolding grant
  grant-Agrees d v p vehicle t kind rides bonus purchase expires admin why key s h =
      ground (
        arith,
        grant_body-Agrees d v p vehicle t kind rides bonus purchase expires admin why key s h,
      )

  spend-Agrees :
      (d v p t r : ℕ) (row : Entitlement) (s : Credits)
      → Agrees d v s
      → find_row p t s.entitlements ≡ some row
      → let (x, s') = spend out p t r row.rides_remaining row.bonus_remaining s in
        is_ok x ≡ true → Agrees d v s'
  unfolding spend
  spend-Agrees d v p t r row s h found done =
      let paid = ltb_ℤ (pos 0) row.rides_remaining in
      let a = if paid then negsuc 0 else pos 0 in
      let b = if paid then pos 0 else negsuc 0 in
      let x = row.rides_remaining +ℤ a in
      let y = row.bonus_remaining +ℤ b in
      ground (
        arith,
        post-Agrees d v (deduction p t r a b x y) (update_row p t x y) s h,
        find_row-update_row d v p t x y s.entitlements row found,
      )

  pub refund_one-Agrees :
      (d v p t r : ℕ) (s : Credits) → Agrees d v s → Agrees d v (refund_one out p t r s).1
  unfolding refund_one
  refund_one-Agrees d v p t r s h =
      let cur = find_row p t s.entitlements in
      let rides = cached_rides cur +ℤ pos 1 in
      let bonus = cached_bonus cur in
      let row = balance_row p t none rides bonus in
      ground (
        arith,
        post-Agrees d v (refund_entry p t r rides bonus) (upsert_row row) s h,
        find_row-upsert_row d v row s.entitlements,
        +ℤ_zero bonus,
      )

  deduct_from-Agrees :
      (d v p t r : ℕ) (o : Option Entitlement) (s : Credits)
      → Agrees d v s
      → find_row p t s.entitlements ≡ o
      → let (x, s') = deduct_from out p t r o s in is_ok x ≡ true → Agrees d v s'
  unfolding deduct_from
  deduct_from-Agrees d v p t r none s h found done = h
  deduct_from-Agrees d v p t r (some row) s h found done =
      ground (arith, spend-Agrees d v p t r row s h found)

  pub deduct_one-Agrees :
      (d v p t r : ℕ) (s : Credits) → Agrees d v s → Agrees d v (deduct_one out p t r s).1
  unfolding deduct_one
  deduct_one-Agrees d v p t r s h =
      ground (arith, deduct_from-Agrees d v p t r (find_row p t s.entitlements) s h refl)

-- ===== src/Packages/Spend.antt =====
-- What a deduction and a refund do to one balance (`deductOne`, `refundOne`,
-- api-server/internal/packages/ledger.go).
use rides_api.Base.{refl, false, ℕ, ◌≡◌, ◌≢◌, true, some, none, ◌∷◌, Option, if◌then◌else◌, arith}
use rides_api.Base.Int.{+ℤ_zero, pos, negsuc, ltb_ℤ, ◌+ℤ◌, ◌<ℤ◌}
use rides_api.Base.Action.{ok, is_ok}
use rides_api.Packages.Types.{
  Entitlement, Credits, Outage, find_row, ride_key, key_exists, update_row,
}
use rides_api.Packages.Entries.{deduction}
use rides_api.Packages.Ledger.{spend, deduct_from, deduct_one}
use rides_api.Packages.Rows.{find_row-update_self}
use rides_api.Packages.Balance.{post_ok}

module _ (out : Outage) where
  -- `deduct_from` reports a deduction, or fails.
  deduct_from-true :
      (p t r : ℕ) (o : Option Entitlement) (s : Credits)
      → is_ok (deduct_from out p t r o s).0 ≡ true
      → (deduct_from out p t r o s).0 ≡ ok true
  unfolding deduct_from spend
  deduct_from-true p t r none s h = cc
  deduct_from-true p t r (some row) s h = ground arith

  -- A call that does not report a deduction leaves every table as it was.
  pub deduct_one_atomic :
      (p t r : ℕ) (s : Credits)
      → (deduct_one out p t r s).0 ≢ ok true
      → (deduct_one out p t r s).1 ≡ s
  unfolding deduct_one
  deduct_one_atomic p t r s h =
      ground (arith, deduct_from-true p t r (find_row p t s.entitlements) s)

  -- The state after `deduct_from` has reported a deduction.
  pub deduct_from_lem :
      (p t r : ℕ) (row : Entitlement) (s : Credits)
      → is_ok (deduct_from out p t r (some row) s).0 ≡ true
      → let paid = ltb_ℤ (pos 0) row.rides_remaining in
        let a = if paid then negsuc 0 else pos 0 in
        let b = if paid then pos 0 else negsuc 0 in
        let x = row.rides_remaining +ℤ a in
        let y = row.bonus_remaining +ℤ b in
        (pos 0 <ℤ row.rides_remaining +ℤ row.bonus_remaining)
        × ((deduct_from out p t r (some row) s).1 ≡ record s {
          entries = deduction p t r a b x y ∷ s.entries;
          entitlements = update_row p t x y s.entitlements;
        })
  unfolding deduct_from spend
  deduct_from_lem p t r row s h =
      let paid = ltb_ℤ (pos 0) row.rides_remaining in
      let a = if paid then negsuc 0 else pos 0 in
      let b = if paid then pos 0 else negsuc 0 in
      let x = row.rides_remaining +ℤ a in
      let y = row.bonus_remaining +ℤ b in
      ground (arith, post_ok out (deduction p t r a b x y) (update_row p t x y) s)

  -- `deduct_one` at a row that was read.
  deduct_one_from :
      (p t r : ℕ) (s : Credits)
      → (deduct_one out p t r s).0 ≡ ok true
      → let o = find_row p t s.entitlements in
        (is_ok (deduct_from out p t r o s).0 ≡ true)
        × ((deduct_one out p t r s).1 ≡ (deduct_from out p t r o s).1)
        × (key_exists (ride_key r) s.entries ≡ false)
  unfolding deduct_one
  deduct_one_from p t r s h = ground arith

  -- The same of `deduct_from`, by the row that was read.
  spends_at :
      (p t r : ℕ) (s : Credits) (o : Option Entitlement)
      → find_row p t s.entitlements ≡ o
      → is_ok (deduct_from out p t r o s).0 ≡ true
      → let s' = (deduct_from out p t r o s).1 in
        (row : Entitlement) × (find_row p t s.entitlements ≡ some row)
        × (pos 0 <ℤ row.rides_remaining +ℤ row.bonus_remaining)
        × (find_row p t s'.entitlements
            ≡ some (
                if ltb_ℤ (pos 0) row.rides_remaining
                then record row {
                  rides_remaining = row.rides_remaining +ℤ negsuc 0;
                  bonus_remaining = row.bonus_remaining;
                }
                else record row { bonus_remaining = row.bonus_remaining +ℤ negsuc 0 }))
        × (key_exists (ride_key r) s'.entries ≡ true)
  unfolding deduct_from
  spends_at p t r s none found h = cc
  spends_at p t r s (some row) found h =
      let paid = ltb_ℤ (pos 0) row.rides_remaining in
      let x = row.rides_remaining +ℤ (if paid then negsuc 0 else pos 0) in
      let y = row.bonus_remaining +ℤ (if paid then pos 0 else negsuc 0) in
      let (above, eq) = deduct_from_lem p t r row s h in
      (
        row,
        found,
        above,
        ground (
          arith,
          eq,
          find_row-update_self p t x y row s.entitlements found,
          +ℤ_zero row.rides_remaining,
          +ℤ_zero row.bonus_remaining,
        ),
        ground (arith, eq),
      )

  -- A reported deduction took one credit from a balance above zero: a paid ride if there was one
  -- (the bonus stays), else a bonus ride; and it recorded the ride's key.
  pub deduct_one_spends :
      (p t r : ℕ) (s : Credits)
      → (deduct_one out p t r s).0 ≡ ok true
      → let s' = (deduct_one out p t r s).1 in
        (row : Entitlement) × (find_row p t s.entitlements ≡ some row)
        × (pos 0 <ℤ row.rides_remaining +ℤ row.bonus_remaining)
        × (find_row p t s'.entitlements
            ≡ some (
                if ltb_ℤ (pos 0) row.rides_remaining
                then record row {
                  rides_remaining = row.rides_remaining +ℤ negsuc 0;
                  bonus_remaining = row.bonus_remaining;
                }
                else record row { bonus_remaining = row.bonus_remaining +ℤ negsuc 0 }))
        × (key_exists (ride_key r) s'.entries ≡ true)
  deduct_one_spends p t r s h =
      let (done, eq, fresh) = deduct_one_from p t r s h in
      rw eq (spends_at p t r s (find_row p t s.entitlements) refl done)

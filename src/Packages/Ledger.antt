-- ===== src/Packages/Ledger.antt =====
-- The operations of api-server/internal/packages/ledger.go on one driver's balance.
-- A statement fails where the outage says so, and an insert also where its key is taken.
use rides_api.Base.{
  ℕ, Bool, true, false, Option, none, some, List, ◌∷◌, ◌||◌, if◌then◌else◌, String,
}
use rides_api.Base.Int.{ℤ, pos, negsuc, ◌+ℤ◌, ltb_ℤ, leb_ℤ}
use rides_api.Base.Errors.{not_found, unavailable}
use rides_api.Base.Action.{
  ok, err, Action, ◌>>=◌, ◌>>◌, pure, raise, gets, modify, raise_if, return_if, transaction,
}
use rides_api.Packages.Types.{
  EntryType, Key, ride_key, refund_key, Entry, Entitlement, Credits, Statement, begin_tx, commit_tx,
  select_profile, select_type, select_key, select_balance, insert_entry, write_balance, Outage,
  find_row, upsert_row, update_row, cached_rides, cached_bonus, key_exists, key_taken,
}
use rides_api.Packages.Entries.{
  no_credits, or_raise, grant_entry, balance_row, deduction, refund_entry,
}

module _ (out : Outage) where
  -- A statement that only reads, or the part of one that may fail.
  abbrev pub exec : Statement → Action Credits (Unit {0})
  exec st = raise_if (out st) unavailable

  -- `begin … commit` around the statements of a transaction
  abbrev pub in_tx : {A : Type 0} → Action Credits A → Action Credits A
  in_tx m = transaction (do exec begin_tx; a ← m; exec commit_tx; pure a)

  abbrev pub insert : Entry → Action Credits (Unit {0})
  insert e s = elim (out insert_entry || key_taken e.idempotency_key s.entries) [
    | true ↦ (err unavailable, s)
    | false ↦ (ok tt, record s { entries = e ∷ s.entries })
  ]

  abbrev pub write : (List Entitlement → List Entitlement) → Action Credits (Unit {0})
  write f = do exec write_balance; modify (λ s. record s { entitlements = f s.entitlements })

  -- One row of the ledger, and the cache with it.
  unfoldable pub post : Entry → (List Entitlement → List Entitlement) → Action Credits (Unit {0})
  post e f = do insert e; write f

  -- `resolveProfile`: the driver's profile, the vehicle type, and an active vehicle of that type
  unfoldable pub resolve_profile : ℕ → String → Action Credits (ℕ × ℕ × Option ℕ)
  resolve_profile user_id code = do
    exec select_profile
    profile_id ← or_raise (← gets (λ s. s.profile_of_user user_id)) not_found
    exec select_type
    type_id ← or_raise (← gets (λ s. s.vehicle_type_of_code code)) not_found
    gets (λ s. (profile_id, type_id, s.active_vehicle profile_id type_id))

  -- The statements of `grant`, inside whichever transaction is open.
  unfoldable pub grant_body :
      ℕ
      → Option ℕ
      → ℕ
      → EntryType
      → ℤ
      → ℤ
      → Option ℕ
      → Option ℕ
      → Option ℕ
      → String
      → Option Key
      → Action Credits (Unit {0})
  grant_body profile_id vehicle_id type_id kind rides bonus purchase_id expires admin_id why key =
      do
        exec select_balance
        cur ← gets (λ s. find_row profile_id type_id s.entitlements)
        post
            (grant_entry profile_id vehicle_id type_id kind rides bonus purchase_id expires admin_id
              why key (cached_rides cur +ℤ rides) (cached_bonus cur +ℤ bonus))
            (upsert_row (
              balance_row profile_id type_id vehicle_id (cached_rides cur +ℤ rides)
                (cached_bonus cur +ℤ bonus)))

  -- `grant`: in the caller's transaction if there is one (`has_tx`), else in its own
  unfoldable pub grant :
      Bool
      → ℕ
      → Option ℕ
      → ℕ
      → EntryType
      → ℤ
      → ℤ
      → Option ℕ
      → Option ℕ
      → Option ℕ
      → String
      → Option Key
      → Action Credits (Unit {0})
  grant has_tx profile_id vehicle_id type_id kind rides bonus purchase_id expires admin_id why key =
      let body =
        grant_body profile_id vehicle_id type_id kind rides bonus purchase_id expires admin_id why
          key in
      if has_tx then body else in_tx body

  -- The end of `deductOne`: one paid ride if there is any, else one bonus ride.
  unfoldable pub spend : ℕ → ℕ → ℕ → ℤ → ℤ → Action Credits Bool
  spend profile_id type_id ride_id cur_rides cur_bonus =
      let paid = ltb_ℤ (pos 0) cur_rides in
      let rides_delta = if paid then negsuc 0 else pos 0 in
      let bonus_delta = if paid then pos 0 else negsuc 0 in
      let rides = cur_rides +ℤ rides_delta in
      let bonus = cur_bonus +ℤ bonus_delta in
      do
        post (deduction profile_id type_id ride_id rides_delta bonus_delta rides bonus)
            (update_row profile_id type_id rides bonus)
        pure true

  -- `deductOne` from the balance that it read.
  unfoldable pub deduct_from : ℕ → ℕ → ℕ → Option Entitlement → Action Credits Bool
  deduct_from profile_id type_id ride_id none = raise no_credits
  deduct_from profile_id type_id ride_id (some row) = do
    raise_if (leb_ℤ (row.rides_remaining +ℤ row.bonus_remaining) (pos 0)) no_credits
    spend profile_id type_id ride_id row.rides_remaining row.bonus_remaining

  -- `deductOne`, idempotent on the ride; the result says whether it deducted now
  unfoldable pub deduct_one : ℕ → ℕ → ℕ → Action Credits Bool
  deduct_one profile_id type_id ride_id = in_tx (do
    exec select_key
    exists ← gets (λ s. key_exists (ride_key ride_id) s.entries)
    return_if exists false (do
      exec select_balance
      row ← gets (λ s. find_row profile_id type_id s.entitlements)
      deduct_from profile_id type_id ride_id row))

  -- `refundOne`: one paid ride back, idempotent on the key `refund:<ride>`
  unfoldable pub refund_one : ℕ → ℕ → ℕ → Action Credits Bool
  refund_one profile_id type_id ride_id = in_tx (do
    exec select_key
    exists ← gets (λ s. key_exists (refund_key ride_id) s.entries)
    return_if exists false (do
      exec select_balance
      cur ← gets (λ s. find_row profile_id type_id s.entitlements)
      let rides = cached_rides cur +ℤ pos 1
      let bonus = cached_bonus cur
      post (refund_entry profile_id type_id ride_id rides bonus)
          (upsert_row (balance_row profile_id type_id none rides bonus))
      pure true))

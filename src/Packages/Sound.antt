-- ===== src/Packages/Sound.antt =====
-- What every history of calls keeps (api-server/internal/packages/ledger.go): the cache agrees with
-- the ledger, its rows stay unique, and a ride that was charged is not charged again.
use rides_api.Base.{
  ℕ, suc, ◌≡◌, ◌≢◌, true, false, some, none, List, [], ◌∷◌, Option, String, if◌then◌else◌, arith,
}
use rides_api.Base.Int.{ℤ, pos, ltb_ℤ, ◌+ℤ◌, negsuc}
use rides_api.Base.Action.{ok, err, Keeps}
use rides_api.Base.Errors.{unavailable}
use rides_api.Packages.Types.{
  Entry, Entitlement, Credits, Outage, EntryType, Key, list_balances, ride_key, key_exists,
  find_row, upsert_row, update_row, cached_rides, cached_bonus,
}
use rides_api.Packages.Rows.{Distinct, upsert_row-Distinct, update_row-Distinct}
use rides_api.Packages.Entries.{balance_row, grant_entry, refund_entry, deduction}
use rides_api.Packages.Ledger.{post, grant_body, grant, deduct_one, refund_one, deduct_from, spend}
use rides_api.Packages.Sweep.{
  expire, sweep_one, sweep_rows, sweep_expired, swept_rides, swept_bonus, expiry_entry,
}
use rides_api.Packages.Balance.{IsLedgered, grant-Agrees, deduct_one-Agrees, refund_one-Agrees}
use rides_api.Packages.Expiry.{after_row, sweep_expired-IsLedgered}
use rides_api.Packages.Spend.{deduct_one_spends, deduct_one_atomic}
use rides_api.Packages.History.{Call, IsKept, run, run-Keeps}

-- The rows of the cache are unique.
abbrev HasUniqueRows : Credits → Type 0
HasUniqueRows s = Distinct s.entitlements

-- A row of the ledger carries this key.
abbrev pub HasKey : Key → Credits → Type 0
HasKey k s = key_exists k s.entries ≡ true

module _ (out : Outage) where
  post_unique :
      (e : Entry) (f : List Entitlement → List Entitlement) (s : Credits)
      → (Distinct s.entitlements → Distinct (f s.entitlements))
      → HasUniqueRows s
      → HasUniqueRows (post out e f s).1
  unfolding post
  post_unique e f s g h = ground arith

  post-HasKey :
      (k : Key) (e : Entry) (f : List Entitlement → List Entitlement) (s : Credits)
      → HasKey k s
      → HasKey k (post out e f s).1
  unfolding post
  post-HasKey k e f s h = ground arith

  grant_unique :
      (p : ℕ) (vehicle : Option ℕ) (t : ℕ) (kind : EntryType) (rides bonus : ℤ)
      (purchase expires admin : Option ℕ) (why : String) (key : Option Key)
      → Keeps HasUniqueRows
          (grant out false p vehicle t kind rides bonus purchase expires admin why key)
  unfolding grant grant_body
  grant_unique p vehicle t kind rides bonus purchase expires admin why key s h =
      let cur = find_row p t s.entitlements in
      let r = cached_rides cur +ℤ rides in
      let b = cached_bonus cur +ℤ bonus in
      let row = balance_row p t vehicle r b in
      ground (
        arith,
        post_unique (grant_entry p vehicle t kind rides bonus purchase expires admin why key r b)
            (upsert_row row) s (upsert_row-Distinct row s.entitlements) h,
      )

  grant-HasKey :
      (k : Key) (p : ℕ) (vehicle : Option ℕ) (t : ℕ) (kind : EntryType) (rides bonus : ℤ)
      (purchase expires admin : Option ℕ) (why : String) (key : Option Key)
      → Keeps
          (HasKey k)
          (grant out false p vehicle t kind rides bonus purchase expires admin why key)
  unfolding grant grant_body
  grant-HasKey k p vehicle t kind rides bonus purchase expires admin why key s h =
      let cur = find_row p t s.entitlements in
      let r = cached_rides cur +ℤ rides in
      let b = cached_bonus cur +ℤ bonus in
      let row = balance_row p t vehicle r b in
      ground (
        arith,
        post-HasKey k (grant_entry p vehicle t kind rides bonus purchase expires admin why key r b)
            (upsert_row row) s h,
      )

  refund_one_unique : (p t r : ℕ) → Keeps HasUniqueRows (refund_one out p t r)
  unfolding refund_one
  refund_one_unique p t r s h =
      let cur = find_row p t s.entitlements in
      let rides = cached_rides cur +ℤ pos 1 in
      let bonus = cached_bonus cur in
      let row = balance_row p t none rides bonus in
      ground (
        arith,
        post_unique (refund_entry p t r rides bonus) (upsert_row row) s
            (upsert_row-Distinct row s.entitlements) h,
      )

  refund_one-HasKey : (k : Key) (p t r : ℕ) → Keeps (HasKey k) (refund_one out p t r)
  unfolding refund_one
  refund_one-HasKey k p t r s h =
      let cur = find_row p t s.entitlements in
      let rides = cached_rides cur +ℤ pos 1 in
      let bonus = cached_bonus cur in
      let row = balance_row p t none rides bonus in
      ground (arith, post-HasKey k (refund_entry p t r rides bonus) (upsert_row row) s h)

  deduct_from-keeps :
      (k : Key) (p t r : ℕ) (o : Option Entitlement) (s : Credits)
      → let s' = (deduct_from out p t r o s).1 in
        (HasUniqueRows s → HasUniqueRows s') × (HasKey k s → HasKey k s')
  unfolding deduct_from spend
  deduct_from-keeps k p t r none s = (λ h. h, λ h. h)
  deduct_from-keeps k p t r (some row) s =
      let paid = ltb_ℤ (pos 0) row.rides_remaining in
      let a = if paid then negsuc 0 else pos 0 in
      let b = if paid then pos 0 else negsuc 0 in
      let x = row.rides_remaining +ℤ a in
      let y = row.bonus_remaining +ℤ b in
      (
        λ h. ground (
          arith,
          post_unique (deduction p t r a b x y) (update_row p t x y) s
              (update_row-Distinct p t x y s.entitlements) h,
        ),
        λ h. ground (arith, post-HasKey k (deduction p t r a b x y) (update_row p t x y) s h),
      )

  deduct_one_unique : (p t r : ℕ) → Keeps HasUniqueRows (deduct_one out p t r)
  unfolding deduct_one
  deduct_one_unique p t r s h =
      ground (arith, (deduct_from-keeps (ride_key r) p t r (find_row p t s.entitlements) s).0 h)

  deduct_one-HasKey : (k : Key) (p t r : ℕ) → Keeps (HasKey k) (deduct_one out p t r)
  unfolding deduct_one
  deduct_one-HasKey k p t r s h =
      ground (arith, (deduct_from-keeps k p t r (find_row p t s.entitlements) s).1 h)

  expire-keeps :
      (k : Key) (e : Entitlement) (a b : ℤ) (s : Credits)
      → let s' = (expire out e a b s).1 in
        (HasUniqueRows s → HasUniqueRows s') × (HasKey k s → HasKey k s')
  unfolding expire
  expire-keeps k e a b s =
      let f = update_row e.driver_id e.vehicle_type_id a b in
      (
        λ h. ground (
          arith,
          post_unique (expiry_entry e a b) f s
              (update_row-Distinct e.driver_id e.vehicle_type_id a b s.entitlements) h,
        ),
        λ h. ground (arith, post-HasKey k (expiry_entry e a b) f s h),
      )

  sweep_one-keeps :
      (k : Key) (e : Entitlement) (s : Credits)
      → let s' = (sweep_one out e s).1 in
        (HasUniqueRows s → HasUniqueRows s') × (HasKey k s → HasKey k s')
  unfolding sweep_one
  sweep_one-keeps k e s =
      let both = expire-keeps k e (swept_rides e s) (swept_bonus e s) s in
      (λ h. ground (arith, both.0 h), λ h. ground (arith, both.1 h))

module _ (outs : Entitlement → Outage) where
  -- The loop of the sweep keeps what each row keeps.
  sweep_rows-keeps :
      (P : Credits → Type 0)
      → ((e : Entitlement) (s : Credits) → P s → P (sweep_one (outs e) e s).1)
      → (es : List Entitlement) (n : ℕ) (s : Credits) → P s
      → P (sweep_rows outs es n s).2
  unfolding sweep_rows
  sweep_rows-keeps P one [] n s h = h
  sweep_rows-keeps P one (e ∷ es) n s h =
      let t = (sweep_one (outs e) e s).1 in
      let rest = λ (m : ℕ). sweep_rows-keeps P one es m t (one e s h) in
      elim (sweep_one (outs e) e s).0 as (λ r. P (after_row outs es n t r).2) [
        | ok more ↦ rest (if more then suc n else n)
        | err x ↦ one e s h
      ]

  sweep_expired-keeps :
      (out : Outage) (P : Credits → Type 0)
      → ((e : Entitlement) (s : Credits) → P s → P (sweep_one (outs e) e s).1)
      → (s : Credits) → P s
      → P (sweep_expired out outs s).2
  unfolding sweep_expired
  sweep_expired-keeps out P one s h =
      elim (out list_balances)
        as (λ b. P (if b then (0, some unavailable, s) else sweep_rows outs s.entitlements 0 s).2) [
          | true ↦ h
          | false ↦ sweep_rows-keeps P one s.entitlements 0 s h
        ]

-- What holds of the tables between calls: the cache is the sum of the ledger, and has one row for a
-- driver and a vehicle type.
abbrev pub IsSound : Credits → Type 0
IsSound s = IsLedgered s × HasUniqueRows s

IsSound-kept : (out : Outage) → IsKept out IsSound
IsSound-kept out = record {
  grants = λ p v t kind rides bonus purchase expires admin why key s h. (
    λ d w. grant-Agrees out d w p v t kind rides bonus purchase expires admin why key s (h.0 d w),
    grant_unique out p v t kind rides bonus purchase expires admin why key s h.1,
  );
  deducts = λ p t r s h.
      (λ d w. deduct_one-Agrees out d w p t r s (h.0 d w), deduct_one_unique out p t r s h.1);
  refunds = λ p t r s h.
      (λ d w. refund_one-Agrees out d w p t r s (h.0 d w), refund_one_unique out p t r s h.1);
  claims = λ f s h. h;
  sweeps = λ outs s h. (
    sweep_expired-IsLedgered out outs s h.1 h.0,
    sweep_expired-keeps outs out HasUniqueRows
        (λ e u. (sweep_one-keeps (outs e) (ride_key 0) e u).0) s h.1,
  );
}

HasKey-kept : (k : Key) (out : Outage) → IsKept out (HasKey k)
HasKey-kept k out = record {
  grants = grant-HasKey out k;
  deducts = deduct_one-HasKey out k;
  refunds = refund_one-HasKey out k;
  claims = λ f s h. h;
  sweeps =
      λ outs. sweep_expired-keeps outs out (HasKey k) (λ e u. (sweep_one-keeps (outs e) k e u).1);
}

-- After any history of purchases, top-ups, deductions, refunds, free trials and sweeps, each under any
-- failures, every cached balance is the sum of the driver's rows in the ledger, and the cache has one
-- row for a driver and a vehicle type, if both held before.
pub run-IsSound : (cs : List (Outage × Call)) (s : Credits) → IsSound s → IsSound (run cs s)
run-IsSound cs s h = run-Keeps IsSound IsSound-kept cs s h

deduct_one_repeat :
    (out : Outage) (p t r : ℕ) (s : Credits)
    → HasKey (ride_key r) s
    → (deduct_one out p t r s).0 ≢ ok true
unfolding deduct_one
deduct_one_repeat out p t r s h = ground arith

-- Once a deduction for a ride has been reported, then after any history of calls no further one for
-- that ride is reported, for any driver and vehicle type, and the attempt changes nothing.
pub charged_once :
    (out out' : Outage) (p t r p' t' : ℕ) (s : Credits) (cs : List (Outage × Call))
    → (deduct_one out p t r s).0 ≡ ok true
    → let u = run cs (deduct_one out p t r s).1 in
      ((deduct_one out' p' t' r u).0 ≢ ok true) × ((deduct_one out' p' t' r u).1 ≡ u)
charged_once out out' p t r p' t' s cs h =
    let (row, found, above, left, key) = deduct_one_spends out p t r s h in
    let s' = (deduct_one out p t r s).1 in
    let kept = run-Keeps (HasKey (ride_key r)) (HasKey-kept (ride_key r)) cs s' key in
    let again = deduct_one_repeat out' p' t' r (run cs s') kept in
    (again, deduct_one_atomic out' p' t' r (run cs s') again)

-- ===== src/Packages/Expiry.antt =====
-- The sweep of expired credits (`SweepExpired`, api-server/internal/packages/ledger.go).
use rides_api.Base.{
  ℕ, ◌≡◌, true, false, Option, some, none, List, [], ◌∷◌, Bool, if◌then◌else◌, arith, suc,
}
use rides_api.Base.Int.{ℤ, ◌+ℤ◌, ◌-ℤ◌, int_laws}
use rides_api.Base.Action.{Result, ok, err, is_ok}
use rides_api.Base.Errors.{AppError, unavailable}
use rides_api.Packages.Types.{Entitlement, Credits, Outage, list_balances, find_row, update_row}
use rides_api.Packages.Rows.{Distinct, AreCurrent, Distinct-AreCurrent, update_row-AreCurrent}
use rides_api.Packages.Balance.{Agrees, IsLedgered, post_ok, post-Agrees, find_row-update_row}
use rides_api.Packages.Sweep.{
  expiry_entry, expire, sweep_one, sweep_rows, sweep_expired, swept_rides, swept_bonus,
}

sub-add : (a b : ℤ) → a +ℤ (b -ℤ a) ≡ b
sub-add a b = omega int_laws

module _ (out : Outage) where
  expire-Agrees :
      (d v : ℕ) (e : Entitlement) (a b : ℤ) (s : Credits)
      → Agrees d v s
      → find_row e.driver_id e.vehicle_type_id s.entitlements ≡ some e
      → Agrees d v (expire out e a b s).1
  unfolding expire
  expire-Agrees d v e a b s h found = ground (
    arith,
    post-Agrees out d v (expiry_entry e a b) (update_row e.driver_id e.vehicle_type_id a b) s h,
    find_row-update_row d v e.driver_id e.vehicle_type_id a b s.entitlements e found,
    sub-add e.rides_remaining a,
    sub-add e.bonus_remaining b,
  )

  -- What a transaction of the sweep does to the table.
  expire_rows :
      (e : Entitlement) (a b : ℤ) (s : Credits)
      → let (r, t) = expire out e a b s in
        t.entitlements ≡ (
          if is_ok r
          then update_row e.driver_id e.vehicle_type_id a b s.entitlements
          else s.entitlements)
  unfolding expire
  expire_rows e a b s =
      ground
        (arith, post_ok out (expiry_entry e a b) (update_row e.driver_id e.vehicle_type_id a b) s)

  sweep_one-Agrees :
      (d v : ℕ) (e : Entitlement) (s : Credits)
      → Agrees d v s
      → find_row e.driver_id e.vehicle_type_id s.entitlements ≡ some e
      → Agrees d v (sweep_one out e s).1
  unfolding sweep_one
  sweep_one-Agrees d v e s h found =
      ground (arith, expire-Agrees d v e (swept_rides e s) (swept_bonus e s) s h found)

  sweep_one-AreCurrent :
      (e : Entitlement) (es : List Entitlement) (s : Credits)
      → find_row e.driver_id e.vehicle_type_id es ≡ none
      → AreCurrent s.entitlements es
      → AreCurrent (sweep_one out e s).1.entitlements es
  unfolding sweep_one
  sweep_one-AreCurrent e es s h c = ground (
    arith,
    expire_rows e (swept_rides e s) (swept_bonus e s) s,
    update_row-AreCurrent e.driver_id e.vehicle_type_id (swept_rides e s) (swept_bonus e s)
        s.entitlements es h c,
  )

module _ (outs : Entitlement → Outage) where
  -- What the loop does after a row.
  abbrev pub after_row :
      List Entitlement → ℕ → Credits → Result Bool → ℕ × Option AppError × Credits
  after_row es n t r = elim r [
    | ok more ↦ sweep_rows outs es (if more then suc n else n) t
    | err x ↦ (n, some x, t)
  ]

  sweep_rows-Agrees :
      (d v : ℕ) (es : List Entitlement) (n : ℕ) (s : Credits)
      → Distinct es
      → AreCurrent s.entitlements es
      → Agrees d v s
      → Agrees d v (sweep_rows outs es n s).2
  unfolding sweep_rows
  sweep_rows-Agrees d v [] n s u c h = h
  sweep_rows-Agrees d v (e ∷ es) n s u c h =
      let t = (sweep_one (outs e) e s).1 in
      let k = sweep_one-Agrees (outs e) d v e s h c.0 in
      let rest = λ (m : ℕ).
        sweep_rows-Agrees d v es m t u.1 (sweep_one-AreCurrent (outs e) e es s u.0 c.1) k in
      elim (sweep_one (outs e) e s).0 as (λ r. Agrees d v (after_row es n t r).2) [
        | ok more ↦ rest (if more then suc n else n)
        | err x ↦ k
      ]

-- The sweep keeps the cache in agreement with the ledger, also where it stops half-way.
pub sweep_expired-IsLedgered :
    (out : Outage) (outs : Entitlement → Outage) (s : Credits)
    → Distinct s.entitlements
    → IsLedgered s
    → IsLedgered (sweep_expired out outs s).2
unfolding sweep_expired
sweep_expired-IsLedgered out outs s u h d v =
    elim (out list_balances)
      as (λ b.
        Agrees d v (if b then (0, some unavailable, s) else sweep_rows outs s.entitlements 0 s).2) [
          | true ↦ h d v
          | false ↦
              sweep_rows-Agrees outs d v s.entitlements 0 s u (Distinct-AreCurrent s.entitlements u)
                (h d v)
        ]

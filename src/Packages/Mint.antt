-- ===== src/Packages/Mint.antt =====
-- A refund on its own (`refundOne`, api-server/internal/packages/ledger.go).
use rides_api.Base.{ℕ, ◌≡◌, true, false, Option, none, List, [], ◌∷◌, arith}
use rides_api.Base.Int.{ℤ, pos, ◌+ℤ◌}
use rides_api.Base.Action.{ok}
use rides_api.Packages.Types.{
  Credits, Entitlement, find_row, refund_key, key_exists, cached_rides, cached_bonus, upsert_row,
}
use rides_api.Packages.Entries.{balance_row}
use rides_api.Packages.Ledger.{refund_one, post}
use rides_api.Packages.Resweep.{healthy}

find_row-upsert_row :
    (p t : ℕ) (v : Option ℕ) (r b : ℤ) (es : List Entitlement)
    → (cached_rides (find_row p t (upsert_row (balance_row p t v r b) es)) ≡ r)
      × (cached_bonus (find_row p t (upsert_row (balance_row p t v r b) es)) ≡ b)
find_row-upsert_row p t v r b [] = ground arith
find_row-upsert_row p t v r b (e ∷ es) = ground (arith, find_row-upsert_row p t v r b es)

-- Where no statement fails and the ride has not been refunded yet, a refund gives the driver one paid
-- ride and leaves the bonus, whether or not the ride was ever charged.
pub refund_one_mints :
    (p t r : ℕ) (s : Credits)
    → key_exists (refund_key r) s.entries ≡ false
    → let (x, s') = refund_one healthy p t r s in
      (x ≡ ok true)
      × (cached_rides (find_row p t s'.entitlements)
          ≡ cached_rides (find_row p t s.entitlements) +ℤ pos 1)
      × (cached_bonus (find_row p t s'.entitlements) ≡ cached_bonus (find_row p t s.entitlements))
unfolding refund_one post
refund_one_mints p t r s h =
    let cur = find_row p t s.entitlements in
    ground (
      arith,
      find_row-upsert_row p t none (cached_rides cur +ℤ pos 1) (cached_bonus cur) s.entitlements,
    )

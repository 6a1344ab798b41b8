-- ===== src/Packages/Tests.antt =====
-- The ledger on concrete tables (api-server/internal/packages/ledger.go).
use rides_api.Base.{
  ℕ, ◌≡◌, ◌≢◌, refl, true, false, Option, some, none, List, [], ◌∷◌, ◌==◌, if◌then◌else◌, arith,
}
use rides_api.Base.Int.{ℤ, pos, negsuc, ◌+ℤ◌, ◌<ℤ◌, ltb_ℤ}
use rides_api.Base.Action.{ok}
use rides_api.Packages.Types.{
  Credits, Entitlement, Entry, Outage, commit_tx, find_row, cached_rides, cached_bonus, ride_key,
  key_exists, bonus_grant,
}
use rides_api.Packages.Entries.{grant_entry}
use rides_api.Packages.Ledger.{deduct_one, refund_one, post, deduct_from, spend}
use rides_api.Packages.Spend.{deduct_one_spends, deduct_one_atomic}
use rides_api.Packages.Resweep.{healthy}
use rides_api.Packages.Mint.{refund_one_mints}
use rides_api.Packages.History.{Call, run, top_up, deduct, refund, sweep}
use rides_api.Packages.Sound.{IsSound, run-IsSound, charged_once}

-- The driver 7, whose user is 1, has bought and won nothing yet.
abbrev no_credits_yet : Credits
no_credits_yet = record {
  entries = [];
  entitlements = [];
  profile_of_user = λ u. if u == 1 then some 7 else none;
  vehicle_type_of_code = λ code. some 2;
  active_vehicle = λ p t. none;
  free_trial_used = λ p. false;
  promotion_of = λ t. none;
  now = 1000;
}

-- No transaction commits.
abbrev no_commit : Outage
no_commit commit_tx = true
no_commit _ = false

abbrev history : List (Outage × Call)
history =
    (healthy, top_up 7 2 9 (pos 2) (pos 1) "welcome")
    ∷ (healthy, deduct 1 "MOTO" 50)
    ∷ (no_commit, deduct 1 "MOTO" 51)
    ∷ (healthy, refund 1 "MOTO" 50)
    ∷ (healthy, sweep (λ e. healthy))
    ∷ []

run-IsSound_example : IsSound (run history no_credits_yet)
run-IsSound_example = run-IsSound history no_credits_yet (λ d v. (refl, refl), tt)

-- One row, of 5 paid rides and 1 bonus ride.
abbrev five_rides : Entitlement
five_rides = record {
  driver_id = 7;
  vehicle_type_id = 2;
  vehicle_id = none;
  rides_remaining = pos 5;
  bonus_remaining = pos 1;
}

-- Behind it are 3 paid rides and 1 bonus ride that stay, and 2 paid rides that ran out at the time 900.
abbrev grant_of : ℤ → ℤ → Option ℕ → Entry
grant_of rides bonus expires =
    grant_entry 7 none 2 bonus_grant rides bonus none expires none "" none rides bonus

abbrev with_rides : Credits
with_rides = record no_credits_yet {
  entries = grant_of (pos 3) (pos 1) none ∷ grant_of (pos 2) (pos 0) (some 900) ∷ [];
  entitlements = five_rides ∷ [];
}

deducts : (deduct_one healthy 7 2 50 with_rides).0 ≡ ok true
unfolding deduct_one deduct_from spend post ◌+ℤ◌
deducts = refl

fails_at_commit : (deduct_one no_commit 7 2 50 with_rides).0 ≢ ok true
unfolding deduct_one deduct_from spend post
fails_at_commit h = ground arith

charged_once_example :
    let u = run history (deduct_one healthy 7 2 50 with_rides).1 in
    ((deduct_one healthy 8 3 50 u).0 ≢ ok true) × ((deduct_one healthy 8 3 50 u).1 ≡ u)
charged_once_example = charged_once healthy healthy 7 2 50 8 3 with_rides history deducts

deduct_one_spends_example :
    let s' = (deduct_one healthy 7 2 50 with_rides).1 in
    (row : Entitlement) × (find_row 7 2 with_rides.entitlements ≡ some row)
    × (pos 0 <ℤ row.rides_remaining +ℤ row.bonus_remaining)
    × (find_row 7 2 s'.entitlements
        ≡ some (
            if ltb_ℤ (pos 0) row.rides_remaining
            then record row {
              rides_remaining = row.rides_remaining +ℤ negsuc 0;
              bonus_remaining = row.bonus_remaining;
            }
            else record row { bonus_remaining = row.bonus_remaining +ℤ negsuc 0 }))
    × (key_exists (ride_key 50) s'.entries ≡ true)
deduct_one_spends_example = deduct_one_spends healthy 7 2 50 with_rides deducts

deduct_one_atomic_example : (deduct_one no_commit 7 2 50 with_rides).1 ≡ with_rides
deduct_one_atomic_example = deduct_one_atomic no_commit 7 2 50 with_rides fails_at_commit

refund_one_mints_example :
    let (x, s') = refund_one healthy 7 2 50 with_rides in
    (x ≡ ok true)
    × (cached_rides (find_row 7 2 s'.entitlements)
        ≡ cached_rides (find_row 7 2 with_rides.entitlements) +ℤ pos 1)
    × (cached_bonus (find_row 7 2 s'.entitlements)
        ≡ cached_bonus (find_row 7 2 with_rides.entitlements))
refund_one_mints_example = refund_one_mints 7 2 50 with_rides refl

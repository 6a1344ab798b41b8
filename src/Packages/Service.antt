-- ===== src/Packages/Service.antt =====
-- `LedgerService` of api-server/internal/packages/ledger.go.
use rides_api.Base.{
  ℕ, ◌+◌, ◌*◌, Bool, true, false, Option, none, some, update, if◌then◌else◌, String,
}
use rides_api.Base.Int.{ℤ, pos, ◌+ℤ◌, ltb_ℤ}
use rides_api.Base.Action.{Action, ◌>>=◌, ◌>>◌, pure, gets, modify, return_if}
use rides_api.Packages.Types.{
  purchase_grant, bonus_grant, admin_grant, grant_key, bonus_key, trial_key, Promotion, Credits,
  select_profile, select_type, select_balance, claim_trial, select_promotion, Outage, find_row,
  cached_rides, cached_bonus,
}
use rides_api.Packages.Ledger.{exec, grant, resolve_profile, deduct_one, refund_one}

module _ (out : Outage) where
  -- `LedgerService.GrantPurchase`
  unfoldable pub grant_purchase :
      Bool → ℕ → Option ℕ → ℕ → ℕ → ℤ → ℤ → ℕ → Action Credits (Unit {0})
  grant_purchase has_tx profile_id vehicle_id type_id purchase_id rides bonus expires = do
    (if ltb_ℤ (pos 0) rides
        then grant out has_tx profile_id vehicle_id type_id purchase_grant rides (pos 0)
            (some purchase_id) (some expires) none "" (some (grant_key purchase_id))
        else pure tt)
    (if ltb_ℤ (pos 0) bonus
        then grant out has_tx profile_id vehicle_id type_id bonus_grant (pos 0) bonus
            (some purchase_id) (some expires) none "" (some (bonus_key purchase_id))
        else pure tt)

  -- `LedgerService.AdminGrant`
  unfoldable pub admin_grant_credits : Bool → ℕ → ℕ → ℕ → ℤ → ℤ → String → Action Credits (Unit {0})
  admin_grant_credits has_tx profile_id type_id admin_id rides bonus why =
      grant out has_tx profile_id none type_id admin_grant rides bonus none none (some admin_id) why
        none

  -- `LedgerService.DeductForRide`
  unfoldable pub deduct_for_ride : ℕ → String → ℕ → Action Credits Bool
  deduct_for_ride user_id code ride_id = do
    p ← resolve_profile out user_id code
    deduct_one out p.0 p.1 ride_id

  -- `LedgerService.RefundForRide`
  unfoldable pub refund_for_ride : ℕ → String → ℕ → Action Credits Bool
  refund_for_ride user_id code ride_id = do
    p ← resolve_profile out user_id code
    refund_one out p.0 p.1 ride_id

  -- `LedgerService.HasCredits`
  unfoldable pub has_credits : ℕ → String → Action Credits Bool
  has_credits user_id code = do
    p ← resolve_profile out user_id code
    exec out select_balance
    cur ← gets (λ s. find_row p.0 p.1 s.entitlements)
    pure (ltb_ℤ (pos 0) (cached_rides cur +ℤ cached_bonus cur))

  -- `LedgerService.GrantFreeTrialIfEligible`, from its last step to its first. A driver, a vehicle
  -- type or a promotion that is not there ends the call with no error. The claim is a statement of
  -- its own, outside the transaction of the grant.
  unfoldable pub grant_promotion : ℕ → ℕ → Option Promotion → Action Credits (Unit {0})
  grant_promotion profile_id type_id none = pure tt
  grant_promotion profile_id type_id (some p) = do
    now ← gets (λ s. s.now)
    grant out false profile_id none type_id bonus_grant p.rides p.bonus_rides none
        (some (now + p.validity_days * 86400)) none "free trial" (some (trial_key profile_id))

  unfoldable pub claim_and_grant : ℕ → ℕ → Action Credits (Unit {0})
  claim_and_grant profile_id type_id = do
    exec out claim_trial
    used ← gets (λ s. s.free_trial_used profile_id)
    return_if used tt (do
      modify (λ s. record s { free_trial_used = update s.free_trial_used profile_id true })
      exec out select_promotion
      p ← gets (λ s. s.promotion_of type_id)
      grant_promotion profile_id type_id p)

  unfoldable pub trial_for_type : ℕ → Option ℕ → Action Credits (Unit {0})
  trial_for_type profile_id none = pure tt
  trial_for_type profile_id (some type_id) = claim_and_grant profile_id type_id

  unfoldable pub trial_for_profile : String → Option ℕ → Action Credits (Unit {0})
  trial_for_profile code none = pure tt
  trial_for_profile code (some profile_id) = do
    exec out select_type
    type_id ← gets (λ s. s.vehicle_type_of_code code)
    trial_for_type profile_id type_id

  unfoldable pub grant_free_trial_if_eligible : ℕ → String → Action Credits (Unit {0})
  grant_free_trial_if_eligible user_id code = do
    exec out select_profile
    profile_id ← gets (λ s. s.profile_of_user user_id)
    trial_for_profile code profile_id

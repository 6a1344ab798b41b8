-- ===== src/Purchases/Buy.antt =====
-- How a purchase starts: by a driver (`Create`), by an admin (`AdminCreateOnBehalf`), and by a claim that
-- an admin has approved (api-server/internal/packages/purchase.go).
use rides_api.Base.{
  ℕ, ◌+◌, ◌*◌, Bool, true, false, not, ◌&&◌, ◌||◌, Option, none, some, ◌==◌, if◌then◌else◌, String,
}
use Prim.Native.String.{◌++◌}
use text.Mathlib.Text.{◌==◌ as str_eq}
use rides_api.Base.Int.{ℤ, pos, leb_ℤ}
use rides_api.Base.Errors.{unavailable, not_found, custom}
use rides_api.Base.Action.{ok, err, ◌>>=◌, ◌>>◌, pure, gets, raise_if, return_if, ignore}
use rides_api.Packages.{grant_purchase, admin_grant_credits}
use rides_api.Purchases.Shop.{
  pending, paid, dev_simulated, manual, ProofInput, Purchase, Offer, Env, Call, exec, on_credits,
  found_or, find_where, find_by_id, change, is_pending, get_q, profile_q, proof_q,
}
use rides_api.Purchases.Confirm.{mark_paid, mark_credits_granted, post_sale, confirm}
use rides_api.Purchases.Offer.{resolve_offer, create_purchase_row}

-- `CreateInput`
pub record CreateInput : Type 0 where
  pub package_id : ℕ
  pub idempotency_key : String
  pub momo_provider : String

-- A call whose error is looked at: its result, or none.
abbrev pub attempt : {A : Type 0} → Call A → Call (Option A)
attempt m s = let (r, s') = m s in (ok (elim r [ ok a ↦ some a | err e ↦ none ]), s')

abbrev pub flatten : {A : Type 0} → Option (Option A) → Option A
flatten none = none
flatten (some o) = o

abbrev pub or_else : Option Purchase → Purchase → Purchase
or_else none p = p
or_else (some q) p = q

module _ (env : Env) where
  -- `getPurchaseByID`
  unfoldable pub get_purchase_by_id : ℕ → Call Purchase
  get_purchase_by_id id = do
    exec env get_q
    found_or (← gets (λ s. find_by_id id s.purchases)) unavailable

  -- `driverProfileAndActiveVehicle`
  unfoldable pub driver_profile : ℕ → Call ℕ
  driver_profile user = do
    exec env profile_q
    found_or (← gets (λ s. s.credits.profile_of_user user)) (custom 403 "NOT_A_DRIVER")

  -- `devSettlePending`
  unfoldable pub dev_settle_pending : ℕ → ℕ → Call (Option Purchase)
  dev_settle_pending id ref =
      return_if (not env.dev_auto_confirm) none
        (do confirm env ref (some dev_simulated) true; p ← get_purchase_by_id id; pure (some p))

  -- `Create` for a key that is there: the purchase that has it, settled first in development.
  unfoldable pub resume_purchase : Purchase → Call Purchase
  resume_purchase p = return_if (not (is_pending p.status)) p (do
    settled ← attempt (dev_settle_pending p.id p.payment_ref)
    pure (or_else (flatten settled) p))

  -- A purchase that costs nothing is paid at once; an error of the grant is only logged.
  unfoldable pub buy_free : ℕ → Option ℕ → Offer → String → ℕ → Call Purchase
  buy_free driver vehicle_id o key expires = do
    id ← create_purchase_row env driver vehicle_id o paid "" key none
    mark_paid env id none
    granted ← attempt (
        on_credits (
          grant_purchase env.credits_out false driver vehicle_id o.vehicle_type_id id o.rides
            o.bonus expires))
    elim granted [ none ↦ pure tt | some u ↦ ignore (mark_credits_granted env id) ]
    get_purchase_by_id id

  -- A charge that waits for five minutes. The prompt of the gateway is left out, since its error is only
  -- logged.
  unfoldable pub buy_paid : ℕ → Option ℕ → Offer → String → String → ℕ → Call Purchase
  buy_paid driver vehicle_id o provider key now = do
    id ← create_purchase_row env driver vehicle_id o pending provider key (some (now + 300))
    settled ← dev_settle_pending id env.fresh_ref
    elim settled [ none ↦ get_purchase_by_id id | some p ↦ pure p ]

  unfoldable pub create_new : ℕ → CreateInput → Call Purchase
  create_new user q = do
    driver ← driver_profile user
    o ← resolve_offer env q.package_id driver
    vehicle_id ← gets (λ s. s.credits.active_vehicle driver o.vehicle_type_id)
    now ← gets (λ s. s.credits.now)
    (if leb_ℤ o.price (pos 0) || o.is_promotional
        then buy_free driver vehicle_id o q.idempotency_key (now + o.validity_days * 86400)
        else buy_paid driver vehicle_id o q.momo_provider q.idempotency_key now)

  -- `Create`
  unfoldable pub create : ℕ → CreateInput → Call Purchase
  create user q = do
    existing ← gets (λ s.
        if env.fails get_q
        then none
        else find_where (λ p. str_eq p.idempotency_key q.idempotency_key) s.purchases)
    elim existing [ some p ↦ resume_purchase p | none ↦ create_new user q ]

  -- `SubmitProof`, for the user's own pending purchase
  unfoldable pub submit_proof : ℕ → ℕ → ProofInput → Call Purchase
  submit_proof user id q = do
    raise_if (str_eq q.reference "" && str_eq q.screenshot_url "") (custom 400 "VALIDATION")
    exec env proof_q
    own ← gets (λ s.
        find_where (λ p. p.id == id && is_pending p.status && is_own s.credits.profile_of_user p)
          s.purchases)
    p ← found_or own (custom 409 "NOT_PENDING")
    change id (λ x. record x { proof = some q })
    get_purchase_by_id id
    where
      is_own : (ℕ → Option ℕ) → Purchase → Bool
      is_own profile p = elim (profile user) [ none ↦ false | some d ↦ d == p.driver_id ]

  -- `AdminConfirm`
  unfoldable pub admin_confirm : ℕ → ℕ → Bool → Call Purchase
  admin_confirm id admin success = do
    exec env get_q
    p ← found_or (← gets (λ s. find_by_id id s.purchases)) not_found
    (if is_pending p.status
        then confirm env p.payment_ref (some (manual admin p.payment_ref)) success
        else pure tt)
    get_purchase_by_id id

  -- What `AdminCreateOnBehalf` does for a purchase that is marked as paid, with no transaction around it:
  -- an error of the journal is only logged.
  unfoldable pub settle_manually : ℕ → ℕ → ℕ → Option ℕ → Offer → ℕ → Call (Unit {0})
  settle_manually id admin driver vehicle_id o now = do
    mark_paid env id (some (manual admin env.fresh_ref))
    on_credits (
        grant_purchase env.credits_out false driver vehicle_id o.vehicle_type_id id o.rides o.bonus
          (now + o.validity_days * 86400))
    ignore (mark_credits_granted env id)
    ignore (post_sale env id)

  -- `AdminCreateOnBehalf`
  unfoldable pub admin_create_on_behalf : ℕ → ℕ → ℕ → Bool → Call Purchase
  admin_create_on_behalf admin driver package_id is_marked_paid = do
    o ← resolve_offer env package_id driver
    vehicle_id ← gets (λ s. s.credits.active_vehicle driver o.vehicle_type_id)
    now ← gets (λ s. s.credits.now)
    id ←
        create_purchase_row env driver vehicle_id o (if is_marked_paid then paid else pending)
          "MANUAL" ("admin-" ++ env.text_of_id env.fresh_ref) none
    (if is_marked_paid then settle_manually id admin driver vehicle_id o now else pure tt)
    get_purchase_by_id id

  -- `GrantForManualClaim`
  unfoldable pub grant_for_manual_claim : ℕ → ℕ → ℕ → Call ℕ
  grant_for_manual_claim user package_id admin = do
    driver ← driver_profile user
    p ← admin_create_on_behalf admin driver package_id true
    pure p.id

  -- `GrantCustomForManualClaim`
  unfoldable pub grant_custom_for_manual_claim : ℕ → String → ℤ → ℕ → Call ℕ
  grant_custom_for_manual_claim user code rides admin = do
    raise_if (leb_ℤ rides (pos 0)) (custom 500 "custom claim grant: non-positive ride count")
    driver ← driver_profile user
    type_id ← found_or (← gets (λ s. s.credits.vehicle_type_of_code code)) unavailable
    on_credits (
        admin_grant_credits env.credits_out false driver type_id admin rides (pos 0)
          ("manual custom top-up (manual-custom-" ++ env.text_of_id env.fresh_ref ++ ")"))
    pure env.fresh_ref

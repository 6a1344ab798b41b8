-- ===== src/Purchases/Offer.antt =====
-- The offer of a package and the row of a purchase (`resolveOffer` and `createPurchaseRow`,
-- api-server/internal/packages/purchase.go).
use rides_api.Base.{
  ℕ, suc, Bool, false, not, ◌&&◌, ◌||◌, Option, none, some, List, [], ◌∷◌, ◌==◌, String,
}
use text.Mathlib.Text.{◌==◌ as str_eq}
use rides_api.Base.Int.{ℤ}
use rides_api.Base.Errors.{unavailable, custom}
use rides_api.Base.Action.{◌>>=◌, ◌>>◌, pure, gets, modify, raise_if}
use rides_api.Packages.{null_str}
use rides_api.Purchases.Shop.{
  PurchaseStatus, Purchase, Offer, Campaign, Env, Call, found_or, is_paid, offer_q, create_q,
  profile_q,
}

abbrev pub or_keep : Option ℤ → ℤ → ℤ
or_keep none a = a
or_keep (some b) a = b

abbrev pub has_prior_purchase : ℕ → List Purchase → Bool
has_prior_purchase driver [] = false
has_prior_purchase driver (p ∷ ps) =
    (p.driver_id == driver && is_paid p.status) || has_prior_purchase driver ps

-- What a campaign overrides.
unfoldable pub apply_campaign : Option Campaign → Offer → Offer
apply_campaign none o = o
apply_campaign (some c) o = record o {
  campaign_id = some c.id;
  price = or_keep c.override_price_rwf o.price;
  rides = or_keep c.override_rides o.rides;
  bonus = or_keep c.override_bonus_rides o.bonus;
}

abbrev pub is_used : String → ℕ → List Purchase → Bool
is_used key ref [] = false
is_used key ref (p ∷ ps) =
    str_eq p.idempotency_key key || p.payment_ref == ref || is_used key ref ps

module _ (env : Env) where
  -- `resolveOffer`; the query for earlier purchases is counted as `profile_q`, and its error as none.
  unfoldable pub resolve_offer : ℕ → ℕ → Call Offer
  resolve_offer package_id driver = do
    raise_if (env.fails offer_q) unavailable
    o ← found_or (env.offer_of package_id) (custom 404 "PACKAGE_NOT_FOUND")
    prior ← gets (λ s. not (env.fails profile_q) && has_prior_purchase driver s.purchases)
    pure (apply_campaign (env.campaign_of package_id o.vehicle_type_id prior) o)

  abbrev pub new_row :
      ℕ → ℕ → Option ℕ → Offer → PurchaseStatus → String → String → Option ℕ → Purchase
  new_row id driver vehicle_id o status provider key expires = record {
    id = id;
    driver_id = driver;
    vehicle_id = vehicle_id;
    vehicle_type_id = o.vehicle_type_id;
    package_id = o.package_id;
    campaign_id = o.campaign_id;
    price_paid_rwf = o.price;
    rides_granted = o.rides;
    bonus_rides_granted = o.bonus;
    validity_days = some o.validity_days;
    status = status;
    payment_provider = null_str provider;
    payment_ref = env.fresh_ref;
    provider_txn_id = none;
    idempotency_key = key;
    expires_at = expires;
    paid_at = none;
    credits_granted = false;
    proof = none;
  }

  -- `createPurchaseRow`; `payment_ref` and `idempotency_key` are unique.
  unfoldable pub create_purchase_row :
      ℕ → Option ℕ → Offer → PurchaseStatus → String → String → Option ℕ → Call ℕ
  create_purchase_row driver vehicle_id o status provider key expires = do
    used ← gets (λ s. is_used key env.fresh_ref s.purchases)
    raise_if (env.fails create_q || used) unavailable
    id ← gets (λ s. s.next_id)
    modify (λ s. record s {
      purchases = new_row id driver vehicle_id o status provider key expires ∷ s.purchases;
      next_id = suc id;
    })
    pure id

-- ===== src/Purchases/Reconcile.antt =====
-- The settlement of charges by asking the gateway (api-server/internal/packages/purchase.go).
use rides_api.Base.{
  ℕ, ◌+◌, Bool, true, false, not, ◌&&◌, ◌||◌, Option, none, some, List, [], ◌∷◌, if◌then◌else◌, ltb,
  String, ◌-◌, ◌==◌,
}
use text.Mathlib.Text.{◌==◌ as str_eq}
use rides_api.Base.Errors.{unavailable, not_found, custom}
use rides_api.Base.Action.{◌>>=◌, ◌>>◌, pure, raise, gets, raise_if, return_if}
use rides_api.Purchases.Shop.{
  momo, momo_dev, Purchase, Env, Call, ChargeStatus, success, failure, waiting, exec, found_or,
  find_where, is_pending, get_q, list_q,
}
use rides_api.Purchases.Confirm.{confirm, provider_of}
use rides_api.Purchases.Buy.{get_purchase_by_id, dev_settle_pending, attempt, flatten, or_else}

-- `providerCode`
abbrev pub provider_code : String → String
provider_code stored = if str_eq stored "airtel" then "AIRTEL_MONEY" else "MTN_MOMO"

-- `pendingMoMo`
pub record PendingMoMo : Type 0 where
  pub payment_ref : ℕ
  pub provider : String
  pub expired : Bool

abbrev pub is_past : Option ℕ → ℕ → Bool
is_past none now = false
is_past (some t) now = ltb t now

abbrev pub is_listed : Purchase → Bool
is_listed p =
    is_pending p.status
    && (str_eq (provider_of p.payment_provider) "mtn"
        || str_eq (provider_of p.payment_provider) "airtel")

abbrev pub pending_row : ℕ → Purchase → PendingMoMo
pending_row now p = record {
  payment_ref = p.payment_ref;
  provider = provider_of p.payment_provider;
  expired = is_past p.expires_at now;
}

-- `listPendingMoMoPurchases`, the oldest first: the rows are held with the newest first.
unfoldable pub list_pending_onto : ℕ → List Purchase → List PendingMoMo → List PendingMoMo
list_pending_onto now [] done = done
list_pending_onto now (p ∷ ps) done =
    list_pending_onto now ps (if is_listed p then pending_row now p ∷ done else done)

unfoldable pub take_rows : ℕ → List PendingMoMo → List PendingMoMo
take_rows n [] = []
take_rows n (p ∷ ps) = let rest = take_rows (n - 1) ps in if ltb 0 n then p ∷ rest else []

-- What the answer of the gateway for a charge asks for.
abbrev pub settle_as : Env → ℕ → Option ChargeStatus → Call Bool
settle_as env ref none = pure false
settle_as env ref (some success) = do confirm env ref (some (momo ref)) true; pure true
settle_as env ref (some failure) = do confirm env ref none false; pure true
settle_as env ref (some waiting) = pure false

abbrev pub did : Option Bool → Bool
did none = false
did (some b) = b

abbrev pub provider_or_mtn : Option String → String
provider_or_mtn none = "mtn"
provider_or_mtn (some p) = p

module _ (env : Env) where
  -- One turn of the loop of `ReconcilePending`: did the charge's status change? A charge that is past
  -- its window is failed, and the gateway is not asked.
  unfoldable pub reconcile_one : (String → ℕ → Option ChargeStatus) → PendingMoMo → Call Bool
  reconcile_one ask p = do
    r ← attempt (
        if p.expired
        then (do confirm env p.payment_ref none false; pure true)
        else settle_as env p.payment_ref (ask (provider_code p.provider) p.payment_ref))
    pure (did r)

  unfoldable pub reconcile_all : (String → ℕ → Option ChargeStatus) → List PendingMoMo → ℕ → Call ℕ
  reconcile_all ask [] n = pure n
  reconcile_all ask (p ∷ ps) n = do
    changed ← reconcile_one ask p
    reconcile_all ask ps (if changed then n + 1 else n)

  -- `ReconcilePending`
  unfoldable pub reconcile_pending : Call ℕ
  reconcile_pending = elim env.gateway [
    | none ↦ pure 0
    | some ask ↦ do
      exec env list_q
      rows ← gets (λ s. take_rows 200 (list_pending_onto s.credits.now s.purchases []))
      reconcile_all ask rows 0
  ]

  -- What `ReconcileSingle` does with the gateway's answer, an error included.
  abbrev pub settle_single : ℕ → Option ChargeStatus → Call (Unit {0})
  settle_single ref none = raise unavailable
  settle_single ref (some success) = confirm env ref (some (momo ref)) true
  settle_single ref (some failure) = confirm env ref none false
  settle_single ref (some waiting) = pure tt

  -- `ReconcileSingle`
  unfoldable pub reconcile_single : ℕ → Call Purchase
  reconcile_single id = do
    p ← get_purchase_by_id env id
    return_if (not (is_pending p.status)) p (do
      elim env.gateway [
        | none ↦ do
          raise_if (not env.dev_auto_confirm) (custom 503 "GATEWAY_UNAVAILABLE")
          confirm env p.payment_ref (some (momo_dev p.payment_ref)) true
        | some ask ↦
            settle_single p.payment_ref
              (ask (provider_code (provider_or_mtn p.payment_provider)) p.payment_ref)
      ]
      get_purchase_by_id env id)

  -- `GetStatus`: the user's own purchase, settled on the way
  unfoldable pub get_status : ℕ → ℕ → Call Purchase
  get_status user id = do
    exec env get_q
    own ←
        gets (λ s.
          find_where (λ p. p.id == id && is_own (s.credits.profile_of_user user) p) s.purchases)
    p ← found_or own not_found
    return_if (not (is_pending p.status)) p (do
      settled ← attempt (elim env.gateway [
        | none ↦ dev_settle_pending env p.id p.payment_ref
        | some ask ↦ (do q ← reconcile_single p.id; pure (some q))
      ])
      pure (or_else (flatten settled) p))
    where
      is_own : Option ℕ → Purchase → Bool
      is_own none p = false
      is_own (some d) p = d == p.driver_id

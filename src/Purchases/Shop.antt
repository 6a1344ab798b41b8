-- ===== src/Purchases/Shop.antt =====
-- The table `package_purchases`, the ledgers beside it, and what a purchase takes from outside
-- (api-server/internal/packages/purchase.go).
use rides_api.Base.{
  ℕ, Bool, true, false, ◌&&◌, Option, none, some, List, [], ◌∷◌, ◌==◌, if◌then◌else◌, String,
}
use rides_api.Base.Int.{ℤ}
use rides_api.Base.Errors.{AppError, unavailable}
use rides_api.Base.Action.{Action, pure, raise, modify, raise_if}
use rides_api.Packages.{Credits}
use rides_api.Packages as Packages
use rides_api.Journal.Posting.{Journal}
use rides_api.Journal.Posting as Posting

-- The column `status`.
pub data PurchaseStatus : Type 0 where
  pending paid failed : PurchaseStatus

-- The column `provider_txn_id`: `MOMO-<ref>`, `MANUAL-<admin>-<ref>`, `MOMO-DEV-<ref>`,
-- `DEV-SIMULATED`, or an id that a callback of the provider gives.
pub data TxnId : Type 0 where
  momo momo_dev provided : ℕ → TxnId
  manual : ℕ → ℕ → TxnId
  dev_simulated : TxnId

abbrev pub txn_eq : TxnId → TxnId → Bool
txn_eq (momo a) (momo b) = a == b
txn_eq (momo_dev a) (momo_dev b) = a == b
txn_eq (provided a) (provided b) = a == b
txn_eq (manual a b) (manual c d) = (a == c) && (b == d)
txn_eq dev_simulated dev_simulated = true
txn_eq _ _ = false

-- `ProofInput`
pub record ProofInput : Type 0 where
  pub reference : String
  pub phone : String
  pub screenshot_url : String
  pub note : String

-- A row of `package_purchases`, as far as the code reads it: `validity_days` is the one of its version,
-- times are in seconds, and references are numbers.
pub record Purchase : Type 0 where
  pub id : ℕ
  pub driver_id : ℕ
  pub vehicle_id : Option ℕ
  pub vehicle_type_id : ℕ
  pub package_id : ℕ
  pub campaign_id : Option ℕ
  pub price_paid_rwf : ℤ
  pub rides_granted : ℤ
  pub bonus_rides_granted : ℤ
  pub validity_days : Option ℕ
  pub status : PurchaseStatus
  pub payment_provider : Option String
  pub payment_ref : ℕ
  pub provider_txn_id : Option TxnId
  pub idempotency_key : String
  pub expires_at : Option ℕ
  pub paid_at : Option ℕ
  pub credits_granted : Bool
  pub proof : Option ProofInput

pub record Shop : Type 0 where
  pub purchases : List Purchase
  pub next_id : ℕ
  pub credits : Credits
  pub journal : Journal

pub data Statement : Type 0 where
  begin_q commit_q get_q profile_q offer_q create_q lock_q duplicate_q mark_paid_q : Statement
  mark_failed_q mark_granted_q sale_q proof_q list_q : Statement

-- `resolvedOffer`, without the texts
pub record Offer : Type 0 where
  pub package_id : ℕ
  pub vehicle_type_id : ℕ
  pub price : ℤ
  pub rides : ℤ
  pub bonus : ℤ
  pub validity_days : ℕ
  pub is_promotional : Bool
  pub campaign_id : Option ℕ

-- The campaign with the highest priority that applies to a package.
pub record Campaign : Type 0 where
  pub id : ℕ
  pub override_price_rwf : Option ℤ
  pub override_rides : Option ℤ
  pub override_bonus_rides : Option ℤ

-- What `QueryStatus` of the gateway answers.
pub data ChargeStatus : Type 0 where
  success failure waiting : ChargeStatus

-- What a call takes from outside: which statements fail, also in the two ledgers, whether a journal is
-- wired, the gateway, if there is one, by the provider and the reference (`none` for an error), the
-- switch for development, a fresh reference, the text of an id, `strings.ToLower`, and the packages' and
-- campaigns' tables: the active version of a package, and the campaign that applies to it, to a vehicle
-- type and to drivers with or without an earlier purchase.
pub record Env : Type 0 where
  pub fails : Statement → Bool
  pub credits_out : Packages.Outage
  pub journal_out : Posting.Outage
  pub has_journal : Bool
  pub gateway : Option (String → ℕ → Option ChargeStatus)
  pub dev_auto_confirm : Bool
  pub fresh_ref : ℕ
  pub text_of_id : ℕ → String
  pub to_lower : String → String
  pub offer_of : ℕ → Option Offer
  pub campaign_of : ℕ → ℕ → Bool → Option Campaign

abbrev pub Call : Type 0 → Type 0
Call A = Action Shop A

abbrev pub exec : Env → Statement → Call (Unit {0})
exec env q = raise_if (env.fails q) unavailable

-- The parts of a call that work on one of the ledgers, in the transaction that is open.
abbrev pub on_credits : {A : Type 0} → Action Credits A → Call A
on_credits m s = let (r, c) = m s.credits in (r, record s { credits = c })

abbrev pub on_journal : {A : Type 0} → Action Journal A → Call A
on_journal m s = let (r, j) = m s.journal in (r, record s { journal = j })

abbrev pub found_or : {A : Type 0} → Option A → AppError → Call A
found_or none e = raise e
found_or (some a) e = pure a

abbrev pub find_where : (Purchase → Bool) → List Purchase → Option Purchase
find_where p [] = none
find_where p (x ∷ xs) = if p x then some x else find_where p xs

abbrev pub find_by_ref : ℕ → List Purchase → Option Purchase
find_by_ref ref = find_where (λ p. p.payment_ref == ref)

abbrev pub find_by_id : ℕ → List Purchase → Option Purchase
find_by_id id = find_where (λ p. p.id == id)

abbrev pub write_row : ℕ → (Purchase → Purchase) → Purchase → Purchase
write_row id f p = if p.id == id then f p else p

-- An UPDATE by the id.
abbrev pub write_at : ℕ → (Purchase → Purchase) → List Purchase → List Purchase
write_at id f [] = []
write_at id f (p ∷ ps) = write_row id f p ∷ write_at id f ps

abbrev pub change : ℕ → (Purchase → Purchase) → Call (Unit {0})
change id f = modify (λ s. record s { purchases = write_at id f s.purchases })

abbrev pub is_pending : PurchaseStatus → Bool
is_pending pending = true
is_pending paid = false
is_pending failed = false

abbrev pub is_paid : PurchaseStatus → Bool
is_paid paid = true
is_paid pending = false
is_paid failed = false

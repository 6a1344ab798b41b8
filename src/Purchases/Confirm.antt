-- ===== src/Purchases/Confirm.antt =====
-- `confirm` and what it calls (api-server/internal/packages/purchase.go).
use rides_api.Base.{
  ℕ, ◌+◌, ◌*◌, Bool, true, false, not, ◌&&◌, ◌||◌, Option, none, some, List, [], ◌∷◌, ◌==◌,
  if◌then◌else◌, String, is_some,
}
use Prim.Native.String.{◌++◌}
use text.Mathlib.Text.{◌==◌ as str_eq}
use rides_api.Base.Int.{pos, leb_ℤ}
use rides_api.Base.Errors.{not_found, unavailable, custom}
use rides_api.Base.Action.{◌>>=◌, ◌>>◌, gets, raise_if, return_if, transaction}
use rides_api.Packages.{grant_purchase, coalesce}
use rides_api.Journal.Posting.{Entry, post, acct_cash_mo_mo, acct_cash_manual, acct_package_revenue}
use rides_api.Purchases.Shop.{
  paid, failed, TxnId, txn_eq, Purchase, Env, Call, exec, begin_q, commit_q, lock_q, duplicate_q,
  mark_paid_q, mark_failed_q, mark_granted_q, sale_q, on_credits, on_journal, found_or, find_by_ref,
  find_by_id, change, is_pending, is_paid,
}

abbrev pub has_txn : TxnId → Option TxnId → Bool
has_txn t none = false
has_txn t (some u) = txn_eq t u

-- Another row that is PAID has this transaction.
abbrev pub is_duplicate : TxnId → ℕ → List Purchase → Bool
is_duplicate t ref [] = false
is_duplicate t ref (p ∷ ps) =
    (has_txn t p.provider_txn_id && is_paid p.status && not (p.payment_ref == ref))
    || is_duplicate t ref ps

-- The unique index on `provider_txn_id`: another row has it.
abbrev pub is_taken : Option TxnId → ℕ → List Purchase → Bool
is_taken none id ps = false
is_taken (some t) id [] = false
is_taken (some t) id (p ∷ ps) =
    (has_txn t p.provider_txn_id && not (p.id == id)) || is_taken (some t) id ps

abbrev pub check_duplicate : Option TxnId → ℕ → List Purchase → Bool
check_duplicate none ref ps = false
check_duplicate (some t) ref ps = is_duplicate t ref ps

abbrev pub provider_of : Option String → String
provider_of none = ""
provider_of (some p) = p

abbrev pub is_mobile_money : String → Bool
is_mobile_money p = str_eq p "mtn" || str_eq p "airtel" || str_eq p "momo"

abbrev pub or_now : Option ℕ → ℕ → ℕ
or_now none now = now
or_now (some t) now = t

-- COALESCE(v.validity_days, 30)
abbrev pub valid_days : Option ℕ → ℕ
valid_days none = 30
valid_days (some d) = d

module _ (env : Env) where
  -- `markPaid`
  unfoldable pub mark_paid : ℕ → Option TxnId → Call (Unit {0})
  mark_paid id txn = do
    ps ← gets (λ s. s.purchases)
    now ← gets (λ s. s.credits.now)
    raise_if (env.fails mark_paid_q || is_taken txn id ps) unavailable
    change id (λ p. record p {
      status = paid;
      provider_txn_id = coalesce txn p.provider_txn_id;
      paid_at = some now;
    })

  -- `markFailed`
  unfoldable pub mark_failed : ℕ → Call (Unit {0})
  mark_failed id = do exec env mark_failed_q; change id (λ p. record p { status = failed })

  -- `markCreditsGranted`
  unfoldable pub mark_credits_granted : ℕ → Call (Unit {0})
  mark_credits_granted id = do
    exec env mark_granted_q
    change id (λ p. record p { credits_granted = true })

  -- Where a sale's money goes.
  abbrev pub cash_account : Option String → String
  cash_account provider =
      if is_mobile_money (env.to_lower (provider_of provider))
      then acct_cash_mo_mo
      else acct_cash_manual

  -- The entry of a sale: cash against revenue, under the key of the purchase.
  abbrev pub sale_entry : ℕ → ℕ → Purchase → Entry
  sale_entry id now p = record {
    header = record {
      date = or_now p.paid_at now;
      description = "Package sale " ++ env.text_of_id p.payment_ref;
      source_type = "package_purchase";
      source_id = some id;
      idempotency_key = "purchase_paid:" ++ env.text_of_id id;
      created_by = "";
    };
    lines =
        (record {
          account = cash_account p.payment_provider;
          debit = p.price_paid_rwf;
          credit = pos 0;
          memo = "package sale";
        })
        ∷ (record {
          account = acct_package_revenue;
          debit = pos 0;
          credit = p.price_paid_rwf;
          memo = "package sale";
        })
        ∷ [];
  }

  -- `postSale`: nothing for a free purchase
  unfoldable pub post_sale : ℕ → Call (Unit {0})
  post_sale id = return_if (not env.has_journal) tt (do
    exec env sale_q
    p ← found_or (← gets (λ s. find_by_id id s.purchases)) not_found
    now ← gets (λ s. s.credits.now)
    return_if (leb_ℤ p.price_paid_rwf (pos 0)) tt
        (on_journal (post env.journal_out (sale_entry id now p))))

  -- The statements for a payment that came: all of them in the transaction of `confirm`.
  unfoldable pub settle_paid : Purchase → Option TxnId → Call (Unit {0})
  settle_paid p txn = do
    mark_paid p.id txn
    now ← gets (λ s. s.credits.now)
    on_credits (
        grant_purchase env.credits_out true p.driver_id p.vehicle_id p.vehicle_type_id p.id
          p.rides_granted p.bonus_rides_granted (now + valid_days p.validity_days * 86400))
    mark_credits_granted p.id
    post_sale p.id

  unfoldable pub settle : ℕ → Option TxnId → Bool → Purchase → Call (Unit {0})
  settle ref txn success p = return_if (not (is_pending p.status)) tt (do
    ps ← gets (λ s. s.purchases)
    raise_if (success && is_some txn && env.fails duplicate_q) unavailable
    raise_if (success && check_duplicate txn ref ps) (custom 409 "DUPLICATE_TRANSACTION")
    (if success then settle_paid p txn else mark_failed p.id)
    exec env commit_q)

  -- `confirm`. A query that fails in a transaction makes the later ones fail.
  unfoldable pub confirm : ℕ → Option TxnId → Bool → Call (Unit {0})
  confirm ref txn success = transaction (do
    exec env begin_q
    exec env lock_q
    p ← found_or (← gets (λ s. find_by_ref ref s.purchases)) not_found
    settle ref txn success p)

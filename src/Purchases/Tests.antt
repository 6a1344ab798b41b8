-- ===== src/Purchases/Tests.antt =====
-- A charge of 5000 RWF that waits (api-server/internal/packages/purchase.go).
use rides_api.Base.{◌+◌, ◌*◌, ◌≡◌, refl, true, false, some, none, [], ◌∷◌, if◌then◌else◌}
use text.Mathlib.Text.{◌==◌ as str_eq}
use rides_api.Base.Int.{pos}
use rides_api.Base.Action.{is_ok}
use rides_api.Packages.{grant_purchase}
use rides_api.Packages as Packages
use rides_api.Ride.Sample.{no_entries}
use rides_api.Journal.Posting.{
  Journal, post, asset, revenue, check_entry, check_lines, check_line, insert_lines,
}
use rides_api.Purchases.Shop.{pending, momo, success, Purchase, Shop, Env, find_by_ref}
use rides_api.Purchases.Confirm.{
  confirm, settle, settle_paid, mark_paid, mark_credits_granted, post_sale,
}
use rides_api.Purchases.Reconcile.{PendingMoMo, reconcile_one}
use rides_api.Purchases.Settled.{paid_row, granted_row, confirm_settles, due_sale}
use rides_api.Purchases.Once.{failed_row, confirm_once, expired_is_lost}

abbrev a_purchase : Purchase
a_purchase = record {
  id = 3;
  driver_id = 7;
  vehicle_id = none;
  vehicle_type_id = 3;
  package_id = 4;
  campaign_id = none;
  price_paid_rwf = pos 5000;
  rides_granted = pos 20;
  bonus_rides_granted = pos 2;
  validity_days = some 7;
  status = pending;
  payment_provider = some "mtn";
  payment_ref = 99;
  provider_txn_id = none;
  idempotency_key = "k";
  expires_at = some 900;
  paid_at = none;
  credits_granted = false;
  proof = none;
}

abbrev a_journal : Journal
a_journal = record {
  entries = [];
  dates = λ i. 0;
  lines = [];
  next_id = 1;
  account_type = λ code.
      if str_eq code "1000" then some asset else if str_eq code "4000" then some revenue else none;
}

abbrev a_shop : Shop
a_shop = record {
  purchases = a_purchase ∷ [];
  next_id = 4;
  credits = no_entries;
  journal = a_journal;
}

abbrev env : Env
env = record {
  fails = λ q. false;
  credits_out = λ q. false;
  journal_out = record { entry_fails = false; line_fails = λ i. false };
  has_journal = true;
  gateway = none;
  dev_auto_confirm = false;
  fresh_ref = 100;
  text_of_id = λ i. "3";
  to_lower = λ s. s;
  offer_of = λ p. none;
  campaign_of = λ p v b. none;
}

confirms : is_ok (confirm env 99 (some (momo 99)) true a_shop).0 ≡ true
unfolding confirm settle settle_paid mark_paid mark_credits_granted post_sale grant_purchase post
    check_entry check_lines check_line insert_lines Packages.grant Packages.grant_body Packages.post
confirms = refl

confirm_settles_example :
    let s' = (confirm env 99 (some (momo 99)) true a_shop).1 in
    let row = granted_row (paid_row (some (momo 99)) 1000 a_purchase) in
    let grant =
      grant_purchase env.credits_out true 7 none 3 3
        (pos 20)
        (pos 2)
        (1000 + 7 * 86400)
        no_entries in
    let sale = due_sale env 3 1000 row a_journal in
    (find_by_ref 99 s'.purchases ≡ some row)
    × (is_ok grant.0 ≡ true)
    × (s'.credits ≡ grant.1)
    × (is_ok sale.0 ≡ true)
    × (s'.journal ≡ sale.1)
confirm_settles_example =
    confirm_settles env 99 (some (momo 99)) a_purchase a_shop refl refl refl confirms

confirm_once_example :
    let s' = (confirm env 99 (some (momo 99)) true a_shop).1 in
    (confirm env 99 none false s').1 ≡ s'
confirm_once_example =
    confirm_once env 99 (some (momo 99)) a_purchase a_shop refl env none true false confirms

abbrev a_charge : PendingMoMo
a_charge = record { payment_ref = 99; provider = "mtn"; expired = true }

expired_is_lost_example :
    let s' = (reconcile_one env (λ p r. some success) a_charge a_shop).1 in
    (find_by_ref 99 s'.purchases ≡ some (failed_row a_purchase))
    × ((confirm env 99 (some (momo 99)) true s').1 ≡ s')
expired_is_lost_example =
    expired_is_lost env env (λ p r. some success) a_charge a_purchase (some (momo 99)) a_shop refl
      refl refl (λ q. refl)

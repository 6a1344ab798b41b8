-- ===== src/Journal/Tests.antt =====
-- The journal with a few entries (api-server/internal/ledger/ledger.go).
use rides_api.Base.{
  ◌≡◌, refl, true, false, some, none, List, [], ◌∷◌, String, if◌then◌else◌, arith, ◌==◌, Bool,
}
use text.Mathlib.Text.{◌==◌ as str_eq}
use rides_api.Base.Int.{pos, ◌+ℤ◌, ◌-ℤ◌}
use rides_api.Base.Action.{is_ok}
use rides_api.Journal.Posting.{
  asset, revenue, Entry, Journal, Outage, check_entry, check_lines, check_line, insert_lines, post,
  has_key, acct_cash_mo_mo, acct_package_revenue,
}
use rides_api.Journal.Revenue.{revenue_between, sum_where}
use rides_api.Journal.Balance.{debits, credits, post_all, trial_balance}
use rides_api.Journal.Once.{post_once, gap_stays, later_posts}

abbrev empty : Journal
empty = record {
  entries = [];
  dates = λ i. 0;
  lines = [];
  next_id = 1;
  account_type = λ code.
      if str_eq code "1000" then some asset else if str_eq code "4000" then some revenue else none;
}

abbrev sale : String → Entry
sale key = record {
  header = record {
    date = 5;
    description = "Package sale";
    source_type = "package_purchase";
    source_id = some 3;
    idempotency_key = key;
    created_by = "";
  };
  lines =
      (record { account = acct_cash_mo_mo; debit = pos 5000; credit = pos 0; memo = "" })
      ∷ (record { account = acct_package_revenue; debit = pos 0; credit = pos 5000; memo = "" })
      ∷ [];
}

abbrev calm : Outage
calm = record { entry_fails = false; line_fails = λ i. false }

-- The INSERT of the first line fails.
abbrev storm : Outage
storm = record { entry_fails = false; line_fails = λ i. i == 0 }

posts : is_ok (post calm (sale "a") empty).0 ≡ true
unfolding post check_entry check_lines check_line insert_lines
posts = refl

counts_the_sale : (revenue_between (post calm (sale "a") empty).1 0 10).total ≡ pos 5000
unfolding post check_entry check_lines check_line insert_lines revenue_between sum_where ◌+ℤ◌ ◌-ℤ◌
counts_the_sale = refl

checks : check_entry (sale "a") ≡ none
unfolding check_entry check_lines check_line
checks = refl

abbrev history : List (Outage × Entry)
history = (calm, sale "a") ∷ (storm, sale "b") ∷ (calm, sale "a") ∷ []

small :
    (debits (post_all history empty).lines ≡ 5000) × (credits (post_all history empty).lines ≡ 5000)
unfolding post_all post check_entry check_lines check_line insert_lines
small = (refl, refl)

trial_balance_example :
    debits (post_all history empty).lines ≡ credits (post_all history empty).lines
trial_balance_example =
    trial_balance history empty refl (omega (arith, small.0)) (omega (arith, small.1))

post_once_example : let j' = (post calm (sale "a") empty).1 in (post calm (sale "a") j').1 ≡ j'
post_once_example = post_once calm calm (sale "a") (sale "a") empty posts refl

-- Another sale comes first, without a transaction, then the backfill in one, then one more try.
abbrev between : List (Bool × Outage × Entry)
between = (false, calm, sale "b") ∷ (true, calm, sale "a") ∷ []

gap_stays_example :
    let j' = (post storm (sale "a") empty).1 in
    let j'' = later_posts between j' in
    (is_ok (post storm (sale "a") empty).0 ≡ false)
    × (j'.lines ≡ [])
    × (has_key "a" j'.entries ≡ true)
    × ((post calm (sale "a") j'').1 ≡ j'')
gap_stays_example =
    gap_stays storm calm (sale "a") (sale "a") between empty checks refl refl refl refl

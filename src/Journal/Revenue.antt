-- ===== src/Journal/Revenue.antt =====
-- `RevenueBetween` (api-server/internal/ledger/ledger.go).
use rides_api.Base.{
  ℕ, Bool, true, false, ◌&&◌, Option, none, some, List, [], ◌∷◌, ltb, leb, if◌then◌else◌, String,
}
use text.Mathlib.Text.{◌==◌ as str_eq}
use rides_api.Base.Int.{ℤ, pos, ◌+ℤ◌, ◌-ℤ◌}
use rides_api.Journal.Posting.{
  AccountType, asset, liability, equity, revenue, expense, LineRow, Journal, acct_package_revenue,
  acct_commission_revenue,
}

-- `Revenue`
pub record Revenue : Type 0 where
  pub total : ℤ
  pub package_sales : ℤ
  pub commission : ℤ

abbrev pub is_revenue : Option AccountType → Bool
is_revenue (some revenue) = true
is_revenue (some asset) = false
is_revenue (some liability) = false
is_revenue (some equity) = false
is_revenue (some expense) = false
is_revenue none = false

-- The WHERE clause: a line of a revenue account, with a date in [from, to).
abbrev pub counts : Journal → ℕ → ℕ → LineRow → Bool
counts j from to r =
    is_revenue (j.account_type r.line.account)
    && leb from (j.dates r.entry_id)
    && ltb (j.dates r.entry_id) to

abbrev pub amount_if : Bool → LineRow → ℤ
amount_if b r = if b then r.line.credit -ℤ r.line.debit else pos 0

-- SUM over the lines for which the test holds.
unfoldable pub sum_where : (LineRow → Bool) → List LineRow → ℤ
sum_where p [] = pos 0
sum_where p (r ∷ rs) = amount_if (p r) r +ℤ sum_where p rs

abbrev pub on_account : String → LineRow → Bool
on_account code r = str_eq r.line.account code

-- `RevenueBetween`, where the query does not fail
unfoldable pub revenue_between : Journal → ℕ → ℕ → Revenue
revenue_between j from to = record {
  total = sum_where (counts j from to) j.lines;
  package_sales = sum_where (λ r. counts j from to r && on_account acct_package_revenue r) j.lines;
  commission = sum_where (λ r. counts j from to r && on_account acct_commission_revenue r) j.lines;
}

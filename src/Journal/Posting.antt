-- ===== src/Journal/Posting.antt =====
-- `Post` (api-server/internal/ledger/ledger.go) on the tables `journal_entries`, `journal_lines` and
-- `ledger_accounts`.
use rides_api.Base.{
  ℕ, ◌+◌, ◌%◌, suc, Bool, true, false, not, ◌||◌, Option, none, some, List, [], ◌∷◌, ◌==◌, is_some,
  length, ltb, if◌then◌else◌, String, ◌&&◌,
}
use text.Mathlib.Text.{◌==◌ as str_eq}
use rides_api.Base.Int.{ℤ, pos, pos_part, ltb_ℤ}
use rides_api.Base.Errors.{AppError, custom, unavailable}
use rides_api.Base.Action.{Action, ◌>>=◌, ◌>>◌, pure, raise, gets, modify, raise_if, return_if}

-- The column `type` of an account.
pub data AccountType : Type 0 where
  asset liability equity revenue expense : AccountType

abbrev pub acct_cash_mo_mo : String
acct_cash_mo_mo = "1000"

abbrev pub acct_cash_manual : String
acct_cash_manual = "1010"

abbrev pub acct_package_revenue : String
acct_package_revenue = "4000"

abbrev pub acct_commission_revenue : String
acct_commission_revenue = "4100"

-- `Line`; an amount is an `int64`.
pub record Line : Type 0 where
  pub account : String
  pub debit : ℤ
  pub credit : ℤ
  pub memo : String

-- The columns of `journal_entries` that a caller gives, times in nanoseconds.
pub record Header : Type 0 where
  pub date : ℕ
  pub description : String
  pub source_type : String
  pub source_id : Option ℕ
  pub idempotency_key : String
  pub created_by : String

-- `Entry`
pub record Entry : Type 0 where
  pub header : Header
  pub lines : List Line

-- A row of `journal_lines`.
pub record LineRow : Type 0 where
  pub entry_id : ℕ
  pub line : Line

-- The tables: the newest rows come first, `dates` is the column `entry_date` by the entry's id, and
-- `account_type` is `ledger_accounts`.
pub record Journal : Type 0 where
  pub entries : List Header
  pub dates : ℕ → ℕ
  pub lines : List LineRow
  pub next_id : ℕ
  pub account_type : String → Option AccountType

-- Which statements fail: the INSERT of the entry, and the one of the line at a position.
pub record Outage : Type 0 where
  pub entry_fails : Bool
  pub line_fails : ℕ → Bool

-- An error that is only text.
abbrev pub plain : String → AppError
plain text = custom 500 text

-- An `int64` has 64 bits, and the totals wrap around.
abbrev pub add64 : ℕ → ℕ → ℕ
add64 a b = (a + b) % 18446744073709551616

abbrev pub is_zero : ℤ → Bool
is_zero a = not (ltb_ℤ a (pos 0)) && not (ltb_ℤ (pos 0) a)

abbrev pub same_test : Bool → Bool → Bool
same_test true b = b
same_test false b = not b

-- The checks of one line.
unfoldable pub check_line : Line → Option AppError
check_line l =
    if str_eq l.account ""
    then some (plain "ledger: line has empty account code")
    else if same_test (is_zero l.debit) (is_zero l.credit)
    then some (plain "ledger: line must have exactly one of debit/credit set")
    else if ltb_ℤ l.debit (pos 0) || ltb_ℤ l.credit (pos 0)
    then some (plain "ledger: line has a negative amount")
    else none

abbrev pub first_error : Option AppError → Option AppError → Option AppError
first_error none rest = rest
first_error (some e) rest = some e

-- The loop over the lines, with the totals so far, and the comparison of the totals.
unfoldable pub check_lines : List Line → ℕ → ℕ → Option AppError
check_lines [] debit credit =
    if debit == credit then none else some (plain "ledger: unbalanced entry")
check_lines (l ∷ ls) debit credit =
    first_error (check_line l)
      (check_lines ls (add64 debit (pos_part l.debit)) (add64 credit (pos_part l.credit)))

unfoldable pub check_entry : Entry → Option AppError
check_entry e =
    if ltb (length e.lines) 2
    then some (plain "ledger: an entry needs at least two lines")
    else if str_eq e.header.idempotency_key ""
    then some (plain "ledger: idempotency key is required")
    else check_lines e.lines 0 0

abbrev pub has_key : String → List Header → Bool
has_key k [] = false
has_key k (h ∷ hs) = str_eq h.idempotency_key k || has_key k hs

abbrev pub creator : Header → Header
creator h = if str_eq h.created_by "" then record h { created_by = "system" } else h

-- The INSERT of an entry, which gives its id.
abbrev pub insert_entry : Header → Action Journal ℕ
insert_entry h = do
  id ← gets (λ j. j.next_id)
  modify (λ j. record j {
    entries = creator h ∷ j.entries;
    dates = λ i. if i == id then h.date else j.dates i;
    next_id = suc id;
  })
  pure id

-- The INSERTs of the lines; the account of a line must exist.
unfoldable pub insert_lines : Outage → ℕ → ℕ → List Line → Action Journal (Unit {0})
insert_lines out i id [] = pure tt
insert_lines out i id (l ∷ ls) = do
  known ← gets (λ j. is_some (j.account_type l.account))
  raise_if (out.line_fails i || not known) unavailable
  modify (λ j. record j { lines = (record { entry_id = id; line = l }) ∷ j.lines })
  insert_lines out (suc i) id ls

abbrev pub raise_some : Option AppError → Action Journal (Unit {0})
raise_some none = pure tt
raise_some (some e) = raise e

-- `Post`: a key that is there makes it do nothing.
unfoldable pub post : Outage → Entry → Action Journal (Unit {0})
post out e = do
  raise_some (check_entry e)
  raise_if out.entry_fails unavailable
  taken ← gets (λ j. has_key e.header.idempotency_key j.entries)
  return_if taken tt (do id ← insert_entry e.header; insert_lines out 0 id e.lines)

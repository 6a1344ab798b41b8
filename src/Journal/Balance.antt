-- ===== src/Journal/Balance.antt =====
-- The trial balance (api-server/internal/ledger/ledger.go).
use rides_api.Base.{ℕ, ◌+◌, ◌%◌, ◌<◌, ◌≡◌, true, none, List, [], ◌∷◌, suc, arith}
use rides_api.Base.Int.{pos_part}
use rides_api.Base.Action.{is_ok, transaction, Keeps-transaction}
use rides_api.Journal.Posting.{
  Line, LineRow, Entry, Journal, Outage, add64, check_lines, check_entry, insert_lines,
  insert_entry, post,
}

abbrev pub debits_of : List Line → ℕ
debits_of [] = 0
debits_of (l ∷ ls) = pos_part l.debit + debits_of ls

abbrev pub credits_of : List Line → ℕ
credits_of [] = 0
credits_of (l ∷ ls) = pos_part l.credit + credits_of ls

-- The two sides of the trial balance.
abbrev pub debits : List LineRow → ℕ
debits [] = 0
debits (r ∷ rs) = pos_part r.line.debit + debits rs

abbrev pub credits : List LineRow → ℕ
credits [] = 0
credits (r ∷ rs) = pos_part r.line.credit + credits rs

-- The sides agree as far as 64 bits show.
abbrev pub IsBalanced : Journal → Type 0
IsBalanced j = debits j.lines % 18446744073709551616 ≡ credits j.lines % 18446744073709551616

-- Calls of `Post`, each in a transaction of its caller.
unfoldable pub post_all : List (Outage × Entry) → Journal → Journal
post_all [] j = j
post_all ((out, e) ∷ es) j = post_all es (transaction (post out e) j).1

check_lines-totals :
    (ls : List Line) (d c : ℕ)
    → check_lines ls d c ≡ none
    → (d + debits_of ls) % 18446744073709551616 ≡ (c + credits_of ls) % 18446744073709551616
unfolding check_lines
check_lines-totals [] d c h = ground arith
check_lines-totals (l ∷ ls) d c h =
    let rest =
      check_lines-totals ls (add64 d (pos_part l.debit)) (add64 c (pos_part l.credit))
        (ground arith) in
    omega (arith, rest)

check_entry-totals :
    (e : Entry)
    → check_entry e ≡ none
    → debits_of e.lines % 18446744073709551616 ≡ credits_of e.lines % 18446744073709551616
unfolding check_entry
check_entry-totals e h =
    let all = check_lines-totals e.lines 0 0 (ground arith) in omega (arith, all)

insert_lines-sums :
    (out : Outage) (i id : ℕ) (ls : List Line) (j : Journal)
    → is_ok (insert_lines out i id ls j).0 ≡ true
    → (debits (insert_lines out i id ls j).1.lines ≡ debits_of ls + debits j.lines)
      × (credits (insert_lines out i id ls j).1.lines ≡ credits_of ls + credits j.lines)
unfolding insert_lines
insert_lines-sums out i id [] j h = (omega arith, omega arith)
insert_lines-sums out i id (l ∷ ls) j h =
    let rest =
      insert_lines-sums out (suc i) id ls
        (record j { lines = (record { entry_id = id; line = l }) ∷ j.lines }) in
    ground arith

add-balanced :
    (a b c d : ℕ)
    → a % 18446744073709551616 ≡ b % 18446744073709551616
    → c % 18446744073709551616 ≡ d % 18446744073709551616
    → (a + c) % 18446744073709551616 ≡ (b + d) % 18446744073709551616
add-balanced a b c d h k = omega (arith, h, k)

post-IsBalanced :
    (out : Outage) (e : Entry) (j : Journal)
    → IsBalanced j
    → is_ok (post out e j).0 ≡ true
    → IsBalanced (post out e j).1
unfolding post
post-IsBalanced out e j h fine =
    let j1 = (insert_entry e.header j).1 in
    let sums = insert_lines-sums out 0 j.next_id e.lines j1 in
    let fair = check_entry-totals e in
    let all =
      add-balanced (debits_of e.lines) (credits_of e.lines) (debits j.lines) (credits j.lines) in
    ground arith

post_all-IsBalanced :
    (es : List (Outage × Entry)) (j : Journal) → IsBalanced j → IsBalanced (post_all es j)
unfolding post_all
post_all-IsBalanced [] j h = h
post_all-IsBalanced ((out, e) ∷ es) j h =
    post_all-IsBalanced es (transaction (post out e) j).1
      (Keeps-transaction IsBalanced (post out e) (post-IsBalanced out e) j h)

-- The trial balance of an empty journal to which entries are posted, each in a transaction of its
-- caller and whatever fails: the debits are the credits, as long as both stay below 2 ^ 64. No entry
-- is looked at: those that do not balance are refused.
pub trial_balance :
    (es : List (Outage × Entry)) (j : Journal)
    → j.lines ≡ []
    → debits (post_all es j).lines < 18446744073709551616
    → credits (post_all es j).lines < 18446744073709551616
    → debits (post_all es j).lines ≡ credits (post_all es j).lines
trial_balance es j new low high =
    let all = post_all-IsBalanced es j (ground (arith, new)) in omega (arith, all, low, high)

-- ===== src/Wallet/Books.antt =====
-- The balance of a wallet is what its transactions add up to (api-server/internal/wallet).
use rides_api.Base.{
  ℕ, ◌≡◌, Bool, true, false, List, [], ◌∷◌, ◌==◌, if◌then◌else◌, arith, String, Option, none, some,
  ap, sym, ◌∙◌, refl,
}
use rides_api.Base.Int.{ℤ, pos, ◌+ℤ◌, ltb_ℤ}
use rides_api.Base.Action.{
  ok, is_ok, Keeps-transaction, Result, err, Keeps, Keeps-bind, Keeps-raise_if,
}
use rides_api.Wallet.Mutate.{
  TxType, Transaction, new_balance, add_row, audit_row, set_balance, TxStatus, Wallet, Wallets,
  mutate_body, mutate, Outage, exec, begin_tx,
}
use mathlib.Core.Path.{subst}
use rides_api.Base.Errors.{AppError, unavailable}
use mathlib.Core.Bool.{false≢true}
use rides_api.Wallet.Exact.{signed, is_int64, is_balance, new_balance-exact}

-- The sum of a user's transactions: the abstract account.
unfoldable pub account : ℕ → List Transaction → ℤ
account user [] = pos 0
account user (t ∷ ts) =
    let rest = account user ts in
    if t.user_id == user then rest +ℤ signed t.tx_type t.amount_rwf else rest

-- The books of one user: a balance that is not negative, and that the transactions add up to.
abbrev pub AreKept : ℕ → Wallets → Option Wallet → Type 0
AreKept user s none = Unit
AreKept user s (some w) =
    (is_balance w.balance_rwf ≡ true) × (w.balance_rwf ≡ account user s.transactions)

abbrev pub IsSound : ℕ → Wallets → Type 0
IsSound user s = AreKept user s (s.wallets user)

-- What `mutate` leaves where it succeeds.
abbrev written :
    Wallets → ℕ → Wallet → TxType → ℤ → ℤ → String → String → String → TxStatus → Wallets
written s j w kind amount b phone ref text status =
    add_row (audit_row s j w kind amount b phone ref text status) (set_balance j w b s)

module _ (user j : ℕ) (kind : TxType) (amount : ℤ) (phone ref text : String) (status : TxStatus)
    (fits : is_int64 amount ≡ true) where
  account-own :
      (t : Transaction) (ts : List Transaction)
      → (user == t.user_id) ≡ true
      → account user (t ∷ ts) ≡ account user ts +ℤ signed t.tx_type t.amount_rwf
  unfolding account
  account-own t ts here = ground arith

  account-other :
      (t : Transaction) (ts : List Transaction)
      → (user == t.user_id) ≡ false
      → account user (t ∷ ts) ≡ account user ts
  unfolding account
  account-other t ts there = ground arith

  same_books :
      (s s' : Wallets) (o : Option Wallet)
      → account user s'.transactions ≡ account user s.transactions
      → AreKept user s o
      → AreKept user s' o
  same_books s s' none eq k = tt
  same_books s s' (some w) eq k = (k.0, k.1 ∙ sym eq)

  written-IsSound :
      (s : Wallets) (w : Wallet) (b : ℤ) (same : Bool)
      → (user == j) ≡ same
      → s.wallets j ≡ some w
      → new_balance kind w.balance_rwf amount ≡ ok b
      → ltb_ℤ b (pos 0) ≡ false
      → IsSound user s
      → IsSound user (written s j w kind amount b phone ref text status)
  written-IsSound s w b true here found new up k =
      let own : s.wallets user ≡ some w = ground arith in
      let (low, sums) = subst (AreKept user s) own k in
      let (exact, high) = new_balance-exact kind w.balance_rwf amount b low fits new up in
      rw here (
        high,
        exact
            ∙ ap (λ x. x +ℤ signed kind amount) sums
            ∙ sym (
                account-own (audit_row s j w kind amount b phone ref text status) s.transactions
                  here),
      )
  written-IsSound s w b false here found new up k = rw here (
      same_books s (written s j w kind amount b phone ref text status) (s.wallets user)
        (account-other (audit_row s j w kind amount b phone ref text status) s.transactions here) k)

  module _ (out : Outage) (s : Wallets) where
    body-written :
        (w : Wallet) (b : ℤ)
        → s.wallets j ≡ some w
        → new_balance kind w.balance_rwf amount ≡ ok b
        → is_ok (mutate_body out j kind amount phone ref text status s).0 ≡ true
        → ((mutate_body out j kind amount phone ref text status s).1
            ≡ written s j w kind amount b phone ref text status)
          × (ltb_ℤ b (pos 0) ≡ false)
    unfolding mutate_body
    body-written w b found new h = ground arith

    body-unknown :
        s.wallets j ≡ none → is_ok (mutate_body out j kind amount phone ref text status s).0 ≡ false
    unfolding mutate_body
    body-unknown missing = ground arith

    body-refused :
        (w : Wallet) (e : AppError)
        → s.wallets j ≡ some w
        → new_balance kind w.balance_rwf amount ≡ err e
        → is_ok (mutate_body out j kind amount phone ref text status s).0 ≡ false
    unfolding mutate_body
    body-refused w e found no_funds = ground arith

    abbrev Done : Type 0
    Done = IsSound user (mutate_body out j kind amount phone ref text status s).1

    body_of_wallet :
        (w : Wallet) (r : Result ℤ)
        → s.wallets j ≡ some w
        → new_balance kind w.balance_rwf amount ≡ r
        → is_ok (mutate_body out j kind amount phone ref text status s).0 ≡ true
        → IsSound user s
        → Done
    body_of_wallet w (ok b) found new h k =
        let (same, up) = body-written w b found new h in
        subst (IsSound user) (sym same) (written-IsSound s w b (user == j) refl found new up k)
    body_of_wallet w (err e) found new h k =
        absurd (false≢true (sym (body-refused w e found new) ∙ h))

    body-IsSound :
        (o : Option Wallet)
        → s.wallets j ≡ o
        → IsSound user s
        → is_ok (mutate_body out j kind amount phone ref text status s).0 ≡ true
        → Done
    body-IsSound none missing k h = absurd (false≢true (sym (body-unknown missing) ∙ h))
    body-IsSound (some w) found k h =
        body_of_wallet w (new_balance kind w.balance_rwf amount) found refl h k

  mutate-IsSound :
      (out : Outage) → Keeps (IsSound user) (mutate out j kind amount phone ref text status)
  unfolding mutate
  mutate-IsSound out s k =
      Keeps-bind (IsSound user) (exec out begin_tx) _
        (Keeps-raise_if (IsSound user) (out begin_tx) unavailable)
        (λ a.
          Keeps-transaction (IsSound user) (mutate_body out j kind amount phone ref text status)
            (λ s' k' h. body-IsSound out s' (s'.wallets j) refl k' h))
        s k

-- The calls of the repository that change wallets, with amounts of 64 bits. The service makes those
-- that deduct a package's price and grant a credit.
pub data Call : Type 0 where
  change :
      ℕ
      → TxType
      → (amount : ℤ) → is_int64 amount ≡ true
      → String
      → String
      → String
      → TxStatus
      → Call

unfoldable pub run : List (Outage × Call) → Wallets → Wallets
run [] s = s
run ((out, change j kind amount fits phone ref text status) ∷ cs) s =
    run cs (mutate out j kind amount phone ref text status s).1

-- Whatever calls change the wallets, and whatever fails in them, the balance of a user's wallet stays an
-- amount from 0 to 2 ^ 63 - 1 and the sum of what the user's transactions add and take: an addition
-- that would wrap around is rolled back.
pub books_agree :
    (cs : List (Outage × Call)) (user : ℕ) (s : Wallets) → IsSound user s → IsSound user (run cs s)
unfolding run
books_agree [] user s k = k
books_agree ((out, change j kind amount fits phone ref text status) ∷ cs) user s k =
    books_agree cs user (mutate out j kind amount phone ref text status s).1
      (mutate-IsSound user j kind amount phone ref text status fits out s k)

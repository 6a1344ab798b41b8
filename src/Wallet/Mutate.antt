-- ===== src/Wallet/Mutate.antt =====
-- The tables `wallets` and `wallet_transactions` and the one transaction that changes them
-- (`mutate`, api-server/internal/wallet/repository.go and types.go).
use rides_api.Base.{
  ℕ, suc, Bool, ◌||◌, Option, none, some, List, ◌∷◌, update, if◌then◌else◌, String,
}
use rides_api.Base.Int.{ℤ, pos, negsuc, ◌+ℤ◌, ◌-ℤ◌, ltb_ℤ}
use rides_api.Base.Errors.{AppError, not_found, unavailable, custom}
use rides_api.Base.Action.{
  Action, Result, ok, err, ◌>>=◌, ◌>>◌, pure, raise, gets, modify, raise_if, transaction,
}

-- `TxType`
pub data TxType : Type 0 where
  tx_top_up tx_withdraw tx_package_purchase tx_credit_grant tx_refund : TxType

-- `TxStatus`
pub data TxStatus : Type 0 where
  status_completed status_pending status_failed : TxStatus

-- `Wallet`
pub record Wallet : Type 0 where
  pub id : ℕ
  pub user_id : ℕ
  pub balance_rwf : ℤ
  pub updated_at : ℕ

-- `Transaction`
pub record Transaction : Type 0 where
  pub id : ℕ
  pub wallet_id : ℕ
  pub user_id : ℕ
  pub tx_type : TxType
  pub amount_rwf : ℤ
  pub balance_after : ℤ
  pub description : String
  pub phone_number : String
  pub external_ref : String
  pub status : TxStatus
  pub created_at : ℕ

-- The tables, with the wallets by their user and the newest transaction first.
pub record Wallets : Type 0 where
  pub wallets : ℕ → Option Wallet
  pub transactions : List Transaction
  pub next_id : ℕ
  pub now : ℕ

pub data Statement : Type 0 where
  begin_tx select_wallet update_wallet insert_transaction commit_tx : Statement

-- Which statements fail on their own, and the isolation's conflicts with them.
abbrev pub Outage : Type 0
Outage = Statement → Bool

-- The addition of `int64`s wraps around.
abbrev pub max_int64 : ℤ
max_int64 = pos 9223372036854775807

abbrev pub min_int64 : ℤ
min_int64 = negsuc 9223372036854775807

unfoldable pub wrap_int64 : ℤ → ℤ
wrap_int64 a =
    if ltb_ℤ max_int64 a
    then a -ℤ pos 18446744073709551616
    else if ltb_ℤ a min_int64
    then a +ℤ pos 18446744073709551616
    else a

abbrev pub insufficient_funds : AppError
insufficient_funds = custom 402 "INSUFFICIENT_FUNDS"

abbrev pub unless_negative : ℤ → Result ℤ
unless_negative a = if ltb_ℤ a (pos 0) then err insufficient_funds else ok a

-- The `switch` over the type.
unfoldable pub new_balance : TxType → ℤ → ℤ → Result ℤ
new_balance tx_top_up current amount = ok (wrap_int64 (current +ℤ amount))
new_balance tx_credit_grant current amount = ok (wrap_int64 (current +ℤ amount))
new_balance tx_refund current amount = ok (wrap_int64 (current +ℤ amount))
new_balance tx_withdraw current amount = unless_negative (wrap_int64 (current -ℤ amount))
new_balance tx_package_purchase current amount = unless_negative (wrap_int64 (current -ℤ amount))

abbrev pub lift : {A : Type 0} → Result A → Action Wallets A
lift (ok a) = pure a
lift (err e) = raise e

abbrev pub wallet_or : Option Wallet → Action Wallets Wallet
wallet_or none = raise not_found
wallet_or (some w) = pure w

abbrev pub set_balance : ℕ → Wallet → ℤ → Wallets → Wallets
set_balance user w balance s = record s {
  wallets = update s.wallets user (some (record w { balance_rwf = balance; updated_at = s.now }));
}

abbrev pub audit_row :
    Wallets → ℕ → Wallet → TxType → ℤ → ℤ → String → String → String → TxStatus → Transaction
audit_row s user w kind amount balance phone ref text status = record {
  id = s.next_id;
  wallet_id = w.id;
  user_id = user;
  tx_type = kind;
  amount_rwf = amount;
  balance_after = balance;
  description = text;
  phone_number = phone;
  external_ref = ref;
  status = status;
  created_at = s.now;
}

abbrev pub add_row : Transaction → Wallets → Wallets
add_row t s = record s { transactions = t ∷ s.transactions; next_id = suc s.next_id }

module _ (out : Outage) where
  abbrev pub exec : Statement → Action Wallets (Unit {0})
  exec q = raise_if (out q) unavailable

  -- The statements of `mutate` in their transaction. The column has CHECK (balance_rwf >= 0).
  unfoldable pub mutate_body :
      ℕ → TxType → ℤ → String → String → String → TxStatus → Action Wallets Transaction
  mutate_body user kind amount phone ref text status = do
    exec select_wallet
    found ← gets (λ s. s.wallets user)
    w ← wallet_or found
    balance ← lift (new_balance kind w.balance_rwf amount)
    raise_if (out update_wallet || ltb_ℤ balance (pos 0)) unavailable
    modify (set_balance user w balance)
    exec insert_transaction
    t ← gets (λ s. audit_row s user w kind amount balance phone ref text status)
    modify (add_row t)
    exec commit_tx
    pure t

  -- `mutate`
  unfoldable pub mutate :
      ℕ → TxType → ℤ → String → String → String → TxStatus → Action Wallets Transaction
  mutate user kind amount phone ref text status = do
    exec begin_tx
    transaction (mutate_body user kind amount phone ref text status)

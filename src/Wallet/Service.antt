-- ===== src/Wallet/Service.antt =====
-- The operations of api-server/internal/wallet/repository.go and service.go.
use rides_api.Base.{ℕ, ◌||◌, Option, none, some, if◌then◌else◌, String}
use Prim.Native.String.{◌++◌}
use rides_api.Base.Int.{ℤ, pos, ltb_ℤ, leb_ℤ}
use rides_api.Base.Errors.{AppError, custom}
use rides_api.Base.Action.{Action, ◌>>=◌, ◌>>◌, raise, gets, raise_if}
use rides_api.Wallet.Mutate.{
  tx_top_up, tx_withdraw, tx_package_purchase, tx_credit_grant, status_completed, Wallet,
  Transaction, Wallets, Outage, select_wallet, exec, wallet_or, mutate,
}

-- Go's `int` of a limit or an offset.
abbrev pub page_limit : ℤ → ℤ
page_limit limit = if leb_ℤ limit (pos 0) || ltb_ℤ (pos 100) limit then pos 20 else limit

abbrev pub payments_disabled : AppError
payments_disabled = custom 501 "PAYMENTS_DISABLED"

-- `validateAmount`, an error where there is one
unfoldable pub validate_amount : ℤ → ℤ → Option AppError
validate_amount amount max =
    if ltb_ℤ amount (pos 100)
    then some (custom 500 "wallet: minimum amount is 100 RWF")
    else if ltb_ℤ max amount
    then some (custom 500 "wallet: maximum amount")
    else none

module _ (out : Outage) where
  -- `GetByUserID`, also `GetWallet` of the service
  unfoldable pub get_wallet : ℕ → Action Wallets Wallet
  get_wallet user = do exec out select_wallet; wallet_or (← gets (λ s. s.wallets user))

  -- The operations of the repository.
  unfoldable pub repo_top_up : ℕ → ℤ → String → String → String → Action Wallets Transaction
  repo_top_up user amount phone ref text =
      mutate out user tx_top_up amount phone ref text status_completed

  unfoldable pub repo_withdraw : ℕ → ℤ → String → String → String → Action Wallets Transaction
  repo_withdraw user amount phone ref text =
      mutate out user tx_withdraw amount phone ref text status_completed

  unfoldable pub repo_deduct_for_package : ℕ → ℤ → String → Action Wallets Transaction
  repo_deduct_for_package user amount text =
      mutate out user tx_package_purchase amount "" "" text status_completed

  unfoldable pub credit_grant : ℕ → ℤ → String → Action Wallets Transaction
  credit_grant user amount text = mutate out user tx_credit_grant amount "" "" text status_completed

  -- The operations of the service. No gateway for payments is wired.
  unfoldable pub top_up : ℕ → ℤ → String → Action Wallets Transaction
  top_up user amount phone = raise payments_disabled

  unfoldable pub withdraw : ℕ → ℤ → String → Action Wallets Transaction
  withdraw user amount phone = raise payments_disabled

  unfoldable pub deduct_for_package : ℕ → ℤ → String → Action Wallets Transaction
  deduct_for_package user amount name =
      repo_deduct_for_package user amount ("Package purchase: " ++ name)

  unfoldable pub admin_credit_grant : ℕ → ℤ → String → Action Wallets Transaction
  admin_credit_grant user amount reason = do
    raise_if (leb_ℤ amount (pos 0)) (custom 500 "wallet: grant amount must be positive")
    credit_grant user amount ("Admin credit: " ++ reason)

-- ===== src/Wallet/Effects.antt =====
-- What the operations of a wallet do (api-server/internal/wallet/service.go).
use rides_api.Base.{ℕ, ◌≡◌, true, false, some, String, arith, refl, if◌then◌else◌, ap}
use mathlib.Core.Option
use rides_api.Base.Int.{ℤ, ◌-ℤ◌, ltb_ℤ, leb_ℤ, -ℤ_parts}
use rides_api.Base.Action.{ok, err, is_ok}
use rides_api.Wallet.Mutate.{
  Wallet, Wallets, Outage, Statement, begin_tx, select_wallet, update_wallet, insert_transaction,
  commit_tx, insufficient_funds, new_balance, wrap_int64, mutate, mutate_body, tx_package_purchase,
}
use rides_api.Wallet.Service.{deduct_for_package, repo_deduct_for_package}
use rides_api.Wallet.Exact.{is_balance}

funds :
    (b a : ℤ)
    → is_balance b ≡ true
    → is_balance a ≡ true
    → leb_ℤ a b ≡ true
    → new_balance tx_package_purchase b a ≡ ok (b -ℤ a)
unfolding new_balance wrap_int64
funds b a low fits enough = ground (arith, -ℤ_parts b a)

no_funds :
    (b a : ℤ)
    → is_balance b ≡ true
    → is_balance a ≡ true
    → ltb_ℤ b a ≡ true
    → new_balance tx_package_purchase b a ≡ err insufficient_funds
unfolding new_balance wrap_int64
no_funds b a low fits short = ground (arith, -ℤ_parts b a)

deduct_refuses :
    (out : Outage) (user : ℕ) (price : ℤ) (name : String) (s : Wallets) (w : Wallet)
    → s.wallets user ≡ some w
    → is_balance w.balance_rwf ≡ true
    → is_balance price ≡ true
    → ltb_ℤ w.balance_rwf price ≡ true
    → out begin_tx ≡ false
    → out select_wallet ≡ false
    → deduct_for_package out user price name s ≡ (err insufficient_funds, s)
unfolding deduct_for_package repo_deduct_for_package mutate mutate_body
deduct_refuses out user price name s w found low fits short up up' =
    ground (arith, no_funds w.balance_rwf price low fits short)

deduct_pays :
    (out : Outage) (user : ℕ) (price : ℤ) (name : String) (s : Wallets) (w : Wallet)
    → s.wallets user ≡ some w
    → is_balance w.balance_rwf ≡ true
    → is_balance price ≡ true
    → leb_ℤ price w.balance_rwf ≡ true
    → ((q : Statement) → out q ≡ false)
    → let (r, s') = deduct_for_package out user price name s in
      (is_ok r ≡ true)
      × (Option.map (λ x. x.balance_rwf) (s'.wallets user) ≡ some (w.balance_rwf -ℤ price))
unfolding deduct_for_package repo_deduct_for_package mutate mutate_body
deduct_pays out user price name s w found low fits enough up = ground (
  arith,
  funds w.balance_rwf price low fits enough,
  -ℤ_parts w.balance_rwf price,
  up begin_tx,
  up select_wallet,
  up update_wallet,
  up insert_transaction,
  up commit_tx,
)

-- Where no statement fails, the deduction of a package's price from a wallet succeeds just when the
-- balance covers it; it then takes the price, and otherwise leaves the balance.
pub deduct_takes :
    (out : Outage) (user : ℕ) (price : ℤ) (name : String) (s : Wallets) (w : Wallet)
    → s.wallets user ≡ some w
    → is_balance w.balance_rwf ≡ true
    → is_balance price ≡ true
    → ((q : Statement) → out q ≡ false)
    → let (r, s') = deduct_for_package out user price name s in
      let covered = leb_ℤ price w.balance_rwf in
      (is_ok r ≡ covered)
      × (Option.map (λ x. x.balance_rwf) (s'.wallets user)
          ≡ some (if covered then w.balance_rwf -ℤ price else w.balance_rwf))
deduct_takes out user price name s w found low fits up =
    elim (leb_ℤ price w.balance_rwf)
        as (λ b.
          leb_ℤ price w.balance_rwf ≡ b
          → let (r, s') = deduct_for_package out user price name s in
            (is_ok r ≡ b)
            × (Option.map (λ x. x.balance_rwf) (s'.wallets user)
                ≡ some (if b then w.balance_rwf -ℤ price else w.balance_rwf))) [
                  | true ↦ λ enough. deduct_pays out user price name s w found low fits enough up
                  | false ↦ λ short.
                      rw
                        (deduct_refuses out user price name s w found low fits (ground arith)
                          (up begin_tx) (up select_wallet))
                        (refl, ap (Option.map (λ x. x.balance_rwf)) found)
                ]
      refl

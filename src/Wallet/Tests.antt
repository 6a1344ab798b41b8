-- ===== src/Wallet/Tests.antt =====
-- A wallet with 1000 RWF (api-server/internal/wallet).
use rides_api.Base.{◌≡◌, refl, true, false, some, none, List, [], ◌∷◌, ◌==◌, if◌then◌else◌}
use mathlib.Core.Option
use rides_api.Base.Int.{pos, ◌+ℤ◌, ◌-ℤ◌}
use rides_api.Base.Action.{is_ok}
use rides_api.Wallet.Mutate.{
  tx_top_up, tx_credit_grant, tx_withdraw, status_completed, Wallet, Transaction, Wallets, Outage,
}
use rides_api.Wallet.Service.{deduct_for_package}
use rides_api.Wallet.Books.{account, IsSound, Call, change, run, books_agree}
use rides_api.Wallet.Effects.{deduct_takes}

abbrev a_wallet : Wallet
a_wallet = record { id = 10; user_id = 1; balance_rwf = pos 1000; updated_at = 5 }

abbrev a_grant : Transaction
a_grant = record {
  id = 1;
  wallet_id = 10;
  user_id = 1;
  tx_type = tx_credit_grant;
  amount_rwf = pos 1000;
  balance_after = pos 1000;
  description = "Admin credit";
  phone_number = "";
  external_ref = "";
  status = status_completed;
  created_at = 5;
}

abbrev bank : Wallets
bank = record {
  wallets = λ u. if u == 1 then some a_wallet else none;
  transactions = a_grant ∷ [];
  next_id = 2;
  now = 6;
}

abbrev calm : Outage
calm q = false

-- An addition that would wrap around is among them.
abbrev calls : List (Outage × Call)
calls =
    (calm, change 1 tx_withdraw (pos 300) refl "" "" "" status_completed)
    ∷ (calm, change 1 tx_top_up (pos 9223372036854775807) refl "" "" "" status_completed)
    ∷ (calm, change 1 tx_withdraw (pos 701) refl "" "" "" status_completed)
    ∷ []

bank-IsSound : IsSound 1 bank
unfolding account ◌+ℤ◌
bank-IsSound = (refl, refl)

books_agree_example : IsSound 1 (run calls bank)
books_agree_example = books_agree calls 1 bank bank-IsSound

deduct_takes_example :
    let (r, s') = deduct_for_package calm 1 (pos 400) "Weekly" bank in
    (is_ok r ≡ true) × (Option.map (λ x. x.balance_rwf) (s'.wallets 1) ≡ some (pos 1000 -ℤ pos 400))
deduct_takes_example =
    deduct_takes calm 1 (pos 400) "Weekly" bank a_wallet refl refl refl (λ q. refl)

-- ===== src/Wallet/Exact.antt =====
-- The arithmetic of a wallet (`mutate`, api-server/internal/wallet/repository.go).
use rides_api.Base.{◌≡◌, ◌&&◌, Bool, true, false, arith}
use rides_api.Base.Int.{ℤ, pos, ◌+ℤ◌, ◌-ℤ◌, ◌≤ℤ◌, ltb_ℤ, leb_ℤ, int_laws, +ℤ_parts, -ℤ_parts}
use rides_api.Base.Action.{ok}
use rides_api.Wallet.Mutate.{
  TxType, tx_top_up, tx_withdraw, tx_package_purchase, tx_credit_grant, tx_refund, max_int64,
  min_int64, wrap_int64, new_balance,
}

-- What a transaction adds to the balance, by the column `type`.
abbrev pub signed : TxType → ℤ → ℤ
signed tx_top_up a = a
signed tx_credit_grant a = a
signed tx_refund a = a
signed tx_withdraw a = pos 0 -ℤ a
signed tx_package_purchase a = pos 0 -ℤ a

abbrev pub is_int64 : ℤ → Bool
is_int64 a = leb_ℤ min_int64 a && leb_ℤ a max_int64

abbrev pub is_balance : ℤ → Bool
is_balance a = leb_ℤ (pos 0) a && leb_ℤ a max_int64

wrap_int64-exact :
    (a : ℤ)
    → min_int64 ≤ℤ a
    → a ≤ℤ pos 18446744073709551615
    → pos 0 ≤ℤ wrap_int64 a
    → (wrap_int64 a ≡ a) × (a ≤ℤ max_int64)
unfolding wrap_int64
wrap_int64-exact a low high up = ground (arith, -ℤ_parts a (pos 18446744073709551616))

added :
    (current amount b : ℤ)
    → is_balance current ≡ true
    → is_int64 amount ≡ true
    → b ≡ wrap_int64 (current +ℤ amount)
    → ltb_ℤ b (pos 0) ≡ false
    → (b ≡ current +ℤ amount) × (is_balance b ≡ true)
added current amount b low fits eq up =
    let exact = wrap_int64-exact (current +ℤ amount) in
    let parts = +ℤ_parts current amount in
    let positive : pos 0 ≤ℤ wrap_int64 (current +ℤ amount) = ground arith in ground arith

taken :
    (current amount b : ℤ)
    → is_balance current ≡ true
    → is_int64 amount ≡ true
    → b ≡ wrap_int64 (current -ℤ amount)
    → ltb_ℤ b (pos 0) ≡ false
    → (b ≡ current -ℤ amount) × (is_balance b ≡ true)
taken current amount b low fits eq up =
    let exact = wrap_int64-exact (current -ℤ amount) in
    let parts = -ℤ_parts current amount in
    let positive : pos 0 ≤ℤ wrap_int64 (current -ℤ amount) = ground arith in ground arith

sub_as_add : (a b : ℤ) → a -ℤ b ≡ a +ℤ (pos 0 -ℤ b)
sub_as_add a b = omega int_laws

pub new_balance-exact :
    (kind : TxType) (current amount b : ℤ)
    → is_balance current ≡ true
    → is_int64 amount ≡ true
    → new_balance kind current amount ≡ ok b
    → ltb_ℤ b (pos 0) ≡ false
    → (b ≡ current +ℤ signed kind amount) × (is_balance b ≡ true)
unfolding new_balance
new_balance-exact tx_top_up current amount b low fits eq up =
    added current amount b low fits (ground arith) up
new_balance-exact tx_credit_grant current amount b low fits eq up =
    added current amount b low fits (ground arith) up
new_balance-exact tx_refund current amount b low fits eq up =
    added current amount b low fits (ground arith) up
new_balance-exact tx_withdraw current amount b low fits eq up =
    rw sub_as_add at (taken current amount b low fits (ground arith) up)
new_balance-exact tx_package_purchase current amount b low fits eq up =
    rw sub_as_add at (taken current amount b low fits (ground arith) up)

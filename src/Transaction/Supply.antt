-- ===== src/Transaction/Supply.antt =====
-- The sum of all balances under update_balances.
use bootcamp.Base.{
  ap, ◌∙◌, ℕ, ◌+◌, ◌-◌, ◌%◌, ◌≤◌, ◌<◌, ◌≡◌, true, false, arith, if◌then◌else◌, ok, Bool-cases, inl,
  inr,
}
use bootcamp.SortedMap.Total.{
  total, total-insert, total-erase, find-add-find-le-total, find-le-total,
}
use bootcamp.Crypto.{HashResult, hash_eq}
use bootcamp.Crypto.Order.{hash_order, same_key-hash_eq, hash_eq_iff}
use bootcamp.Transaction.{
  Txn, BalanceMap, uint64_mod, balance_available, add_balance, update_balances,
}
use bootcamp.Transaction.Balances.{balance, settled, balance-add_balance, update_balances-settled}

-- Everything but the balance of `s`.
abbrev rest : HashResult → BalanceMap → ℕ
rest s m = total m - balance s m

pub total-add_balance :
    (addr : HashResult) (x : ℕ) (m : BalanceMap)
    → total (add_balance addr x m) + balance addr m ≡ total m + (balance addr m + x) % uint64_mod
unfolding add_balance
total-add_balance addr x m = total-insert addr _ m

balance-le-rest :
    (s addr : HashResult) (m : BalanceMap)
    → hash_eq s addr ≡ false
    → balance addr m + balance s m ≤ total m
balance-le-rest s addr m h =
    omega (arith, find-add-find-le-total s addr m (same_key-hash_eq s addr ∙ h))

rest-add_balance :
    (s addr : HashResult) (x : ℕ) (m : BalanceMap)
    → rest s m + x < uint64_mod
    → rest s (add_balance addr x m) ≡ rest s m + (if hash_eq s addr then 0 else x)
rest-add_balance s addr x m h = elim (Bool-cases (hash_eq s addr)) [
  | inl e ↦
      let same : balance s m ≡ balance addr m = ap (λ a. balance a m) ((hash_eq_iff s addr).0 e) in
      ground (
        arith,
        total-add_balance addr x m,
        balance-add_balance s addr x m,
        find-le-total s m,
        e,
        same,
      )
  | inr e ↦ ground (
    arith,
    total-add_balance addr x m,
    balance-add_balance s addr x m,
    balance-le-rest s addr m e,
    e,
  )
]

-- What a transaction destroys: money that it sends or returns to the address that it then erases.
abbrev pub destroyed : Txn → BalanceMap → ℕ
destroyed t m =
    (if hash_eq t.source_addr t.dest_addr then t.amount else 0)
    + (if hash_eq t.source_addr t.change_addr then balance t.source_addr m - t.amount else 0)

pub total-settled :
    (t : Txn) (m : BalanceMap)
    → total m < uint64_mod
    → t.amount ≤ balance t.source_addr m
    → total (settled t m) + destroyed t m ≡ total m
total-settled t m h paid =
    let s = t.source_addr in
    let m1 = add_balance t.dest_addr t.amount m in
    let change = balance s m - t.amount in
    let m2 = add_balance t.change_addr change m1 in
    let held : balance s m ≤ total m = find-le-total s m in
    let first : rest s m1 ≡ rest s m + (if hash_eq s t.dest_addr then 0 else t.amount) =
      rest-add_balance s t.dest_addr t.amount m (omega arith) in
    let small : rest s m1 + change < uint64_mod = ground arith in
    let second : rest s m2 ≡ rest s m1 + (if hash_eq s t.change_addr then 0 else change) =
      rest-add_balance s t.change_addr change m1 small in
    ground (arith, first, second, total-erase s m2, find-le-total s m2)

pub available-le :
    (t : Txn) (m : BalanceMap) → balance_available t m ≡ true → t.amount ≤ balance t.source_addr m
unfolding balance_available
available-le t m h = ground arith

-- While the balances sum up to less than 2 ^ 64, a transaction whose sender can pay leaves the sum
-- as it is, but for what it sends or returns to its own source address: that money is destroyed.
pub update_balances-total :
    (t : Txn) (m : BalanceMap)
    → total m < uint64_mod
    → balance_available t m ≡ true
    → (m' : BalanceMap) × (update_balances t m ≡ ok m') × (total m' + destroyed t m ≡ total m)
update_balances-total t m h paid =
    (settled t m, update_balances-settled t m paid, total-settled t m h (available-le t m paid))

-- ===== src/Transaction/Balances.antt =====
-- txn_t::update_balances on any map: what every address holds afterwards.
use bootcamp.Base.{ℕ, ◌+◌, ◌-◌, ◌%◌, ◌≡◌, Bool, true, false, none, arith, if◌then◌else◌, ok}
use bootcamp.SortedMap.{find, erase, value_or_zero, IsSorted}
use bootcamp.SortedMap.Laws.{find-insert, find-erase, insert-IsSorted, erase-IsSorted}
use bootcamp.Crypto.{HashResult, hash_eq}
use bootcamp.Crypto.Order.{hash_order, same_key-hash_eq, hash_eq_iff}
use bootcamp.Transaction.{
  Txn, BalanceMap, uint64_mod, balance_available, add_balance, update_balances,
}

-- What an address holds; one that is not in the map holds nothing.
abbrev pub balance : HashResult → BalanceMap → ℕ
balance addr balances = value_or_zero (find addr balances)

-- Money that an address may receive, in a uint64_t.
abbrev pub credit : Bool → ℕ → ℕ → ℕ
credit receives x held = if receives then (held + x) % uint64_mod else held

pub balance-add_balance :
    (j addr : HashResult) (x : ℕ) (m : BalanceMap)
    → balance j (add_balance addr x m) ≡ credit (hash_eq j addr) x (balance j m)
unfolding add_balance
balance-add_balance j addr x m = ground (
  arith,
  find-insert j addr ((balance addr m + x) % uint64_mod) m,
  same_key-hash_eq j addr,
  (hash_eq_iff j addr).0,
)

pub add_balance-IsSorted :
    (addr : HashResult) (x : ℕ) (m : BalanceMap) → IsSorted m → IsSorted (add_balance addr x m)
unfolding add_balance
add_balance-IsSorted addr x m s = insert-IsSorted addr _ m s

-- The map that a transaction leaves where the sender can pay.
abbrev pub settled : Txn → BalanceMap → BalanceMap
settled t m = erase t.source_addr (
    add_balance t.change_addr (balance t.source_addr m - t.amount)
      (add_balance t.dest_addr t.amount m))

-- The asserts of update_balances hold wherever balance_available answers true.
pub update_balances-settled :
    (t : Txn) (m : BalanceMap)
    → balance_available t m ≡ true
    → update_balances t m ≡ ok (settled t m)
unfolding balance_available update_balances
update_balances-settled t m h = ground arith

pub settled-IsSorted : (t : Txn) (m : BalanceMap) → IsSorted m → IsSorted (settled t m)
settled-IsSorted t m s =
    erase-IsSorted t.source_addr _
      (add_balance-IsSorted t.change_addr _ _ (add_balance-IsSorted t.dest_addr _ m s))

-- After a transaction whose sender can pay, the sender's address is gone, and every other address
-- holds what it held, plus the amount if it is the receiver's, plus what the sender had left if it
-- is the change address's. The entries stay in order.
pub update_balances_lem :
    (t : Txn) (m : BalanceMap)
    → IsSorted m
    → balance_available t m ≡ true
    → (m' : BalanceMap) × (update_balances t m ≡ ok m')
      × (find t.source_addr m' ≡ none)
      × ((j : HashResult)
          → hash_eq j t.source_addr ≡ false
          → balance j m'
            ≡ credit
                (hash_eq j t.change_addr)
                (balance t.source_addr m - t.amount)
                (credit (hash_eq j t.dest_addr) t.amount (balance j m)))
      × IsSorted m'
update_balances_lem t m s h = (
  settled t m,
  update_balances-settled t m h,
  ground (
    arith,
    find-erase t.source_addr t.source_addr _ sorted,
    same_key-hash_eq t.source_addr t.source_addr,
    (hash_eq_iff t.source_addr t.source_addr).1,
  ),
  (λ j other. ground (
    arith,
    find-erase j t.source_addr _ sorted,
    same_key-hash_eq j t.source_addr,
    balance-add_balance j t.change_addr (balance t.source_addr m - t.amount)
        (add_balance t.dest_addr t.amount m),
    balance-add_balance j t.dest_addr t.amount m,
  )),
  settled-IsSorted t m s,
)
  where
    sorted : IsSorted (
        add_balance t.change_addr
          (balance t.source_addr m - t.amount)
          (add_balance t.dest_addr t.amount m))
    sorted = add_balance-IsSorted t.change_addr _ _ (add_balance-IsSorted t.dest_addr _ m s)

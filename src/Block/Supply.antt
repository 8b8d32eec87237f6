-- ===== src/Block/Supply.antt =====
-- The money supply: how the sum of the balances moves from one block to the next.
use bootcamp.Base.{ℕ, ◌+◌, ◌<◌, ◌≡◌, true, List, [], ◌∷◌, arith, ok}
use bootcamp.SortedMap.{IsSorted}
use bootcamp.SortedMap.Total.{total, find-le-total}
use bootcamp.Crypto.{OpenSsl, HashResult}
use bootcamp.Crypto.Order.{hash_order}
use bootcamp.Transaction.{Txn, BalanceMap, uint64_mod, add_balance}
use bootcamp.Transaction.Balances.{settled, settled-IsSorted, add_balance-IsSorted}
use bootcamp.Transaction.Supply.{destroyed, total-settled, total-add_balance, available-le}
use bootcamp.Block.{Block, Store, block_reward, validate}
use bootcamp.Block.Validate.{
  settle_all, IsPayable, accepted_block, start_balances, validate_block-eq-true,
  validate-IsAcceptable,
}

-- What the transactions of a block destroy between them.
abbrev pub destroyed_all : List Txn → BalanceMap → ℕ
destroyed_all [] m = 0
destroyed_all (t ∷ ts) m = destroyed t m + destroyed_all ts (settled t m)

total-settle_all :
    (ts : List Txn) (m : BalanceMap)
    → total m < uint64_mod
    → IsPayable ts m
    → total (settle_all ts m) + destroyed_all ts m ≡ total m
total-settle_all [] m h p = omega arith
total-settle_all (t ∷ ts) m h (paid, p) =
    let one : total (settled t m) + destroyed t m ≡ total m =
      total-settled t m h (available-le t m paid) in
    omega (arith, one, total-settle_all ts (settled t m) (omega (arith, one)) p)

settle_all-IsSorted : (ts : List Txn) (m : BalanceMap) → IsSorted m → IsSorted (settle_all ts m)
settle_all-IsSorted [] m s = s
settle_all-IsSorted (t ∷ ts) m s = settle_all-IsSorted ts (settled t m) (settled-IsSorted t m s)

total-add_balance_exact :
    (addr : HashResult) (x : ℕ) (m : BalanceMap)
    → total m + x < uint64_mod
    → total (add_balance addr x m) ≡ total m + x
total-add_balance_exact addr x m h = omega (arith, total-add_balance addr x m, find-le-total addr m)

module _ (ssl : OpenSsl) where
  pub validate-accepted_block :
      (store : Store) (b b' : Block)
      → validate ssl store b ≡ ok (b', true)
      → b' ≡ accepted_block ssl store b
  validate-accepted_block store b b' h =
      cc (validate-IsAcceptable ssl store b (validate_block-eq-true ssl store b b' h))

  -- A block that validate accepts, on balances whose sum leaves room for the reward in a uint64_t,
  -- ends with exactly the sum that it started from, plus the reward, less what its transactions
  -- destroyed by paying to or returning change to their own source address.
  pub total-validate :
      (store : Store) (b b' : Block)
      → total (start_balances store b) + block_reward < uint64_mod
      → validate ssl store b ≡ ok (b', true)
      → total b'.balances + destroyed_all b.transactions (start_balances store b)
        ≡ total (start_balances store b) + block_reward
  total-validate store b b' room h =
      let m = start_balances store b in
      let acceptable = validate_block-eq-true ssl store b b' h in
      let spent : total (settle_all b.transactions m) + destroyed_all b.transactions m ≡ total m =
        total-settle_all b.transactions m (omega arith) acceptable.payable in
      rw (validate-accepted_block store b b' h) (
        omega (
          arith,
          spent,
          total-add_balance_exact b.reward_addr block_reward (settle_all b.transactions m)
              (omega (arith, spent)),
        ))

  pub validate-IsSorted :
      (store : Store) (b b' : Block)
      → IsSorted (start_balances store b)
      → validate ssl store b ≡ ok (b', true)
      → IsSorted b'.balances
  validate-IsSorted store b b' s h =
      rw (validate-accepted_block store b b' h)
        (add_balance-IsSorted b.reward_addr _ _ (settle_all-IsSorted b.transactions _ s))

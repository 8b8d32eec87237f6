-- ===== src/Day1.antt =====
-- day1/transaction.cpp and day1/blockchain.cpp where they differ from the later days: the
-- transaction is not tested for its amount, the block validates all transactions before it moves
-- any money, and the hashes are compared without an early exit.
pub mod Agree
use bootcamp.Base.{
  ℕ, ◌≡◌, Bool, true, false, not, ◌&&◌, none, some, List, [], ◌∷◌, ◌-◌, ◌==◌, leb, if◌then◌else◌,
  Result, ok, err, assertion, assert, ◌>>=◌, ◌>>◌,
}
use bootcamp.SortedMap.{find, insert, erase}
use bootcamp.Crypto.{HashResult, OpenSsl, rsa_public_key, verify}
use bootcamp.Crypto.Order.{hash_order}
use bootcamp.Transaction.{Txn, BalanceMap, txn_preimage, balance_available, add_balance}
use bootcamp.Block.{Block, Store, block_reward, reset_balances, hash_input}

-- check_if_hashes_equal, with what is known so far; both arrays are equally long.
unfoldable pub hashes_equal : Bool → HashResult → HashResult → Bool
hashes_equal result [] [] = result
hashes_equal result (x ∷ xs) (y ∷ ys) = hashes_equal (result && x == y) xs ys
hashes_equal result [] (y ∷ ys) = false
hashes_equal result (x ∷ xs) [] = false

-- txn_t::update_balances
unfoldable pub update_balances : Txn → BalanceMap → Result BalanceMap
update_balances t balances = elim (find t.source_addr balances) [
  | none ↦ err assertion
  | some held ↦ do
    assert (leb t.amount held)
    let change = held - t.amount
    let credited = add_balance t.change_addr change (add_balance t.dest_addr t.amount balances)
    ok (erase t.source_addr (insert t.source_addr 0 credited))
]

-- The second loop of block_t::validate.
unfoldable pub pay_all : List Txn → BalanceMap → Result (BalanceMap × Bool)
pay_all [] balances = ok (balances, true)
pay_all (t ∷ ts) balances = elim (balance_available t balances) [
  | false ↦ ok (balances, false)
  | true ↦ do paid ← update_balances t balances; pay_all ts paid
]

module _ (ssl : OpenSsl) where
  -- sha256_tx_verify
  unfoldable pub sha256_tx_verify : Txn → HashResult
  sha256_tx_verify t = ssl.sha256 (txn_preimage t)

  -- The last lines of txn_t::validate.
  unfoldable pub check_signature : Txn → Bool → Bool → Result (Txn × Bool)
  check_signature t heq1 heq2 = do
    pubkey ← rsa_public_key ssl t.public_key
    ver ← verify ssl pubkey t.tx_hash t.tx_sign
    ok (record t { valid = heq1 && (heq2 && ver) }, heq1 && (heq2 && ver))

  -- txn_t::validate
  unfoldable pub validate_txn : Txn → Result (Txn × Bool)
  validate_txn t =
      let heq1 = hashes_equal true (ssl.sha256 t.public_key) t.source_addr in
      let heq2 = hashes_equal true (sha256_tx_verify t) t.tx_hash in
      if not heq1
      then ok (record t { valid = false }, false)
      else if not heq2
      then ok (record t { valid = false }, false)
      else check_signature t heq1 heq2

  -- The first loop of block_t::validate: && validates no transaction behind an invalid one.
  unfoldable pub validate_all : List Txn → Result (List Txn × Bool)
  validate_all [] = ok ([], true)
  validate_all (tx ∷ txs) = do
    (t, v) ← validate_txn tx
    elim v [
      | false ↦ ok (t ∷ txs, false)
      | true ↦ do (ts, all) ← validate_all txs; ok (t ∷ ts, all)
    ]

  -- check_compute_block_hash
  unfoldable pub check_compute_block_hash : Block → HashResult
  check_compute_block_hash b = ssl.sha256 (hash_input b.transactions b.reward_addr b.prev_hash)

  -- What follows the two loops of block_t::validate.
  unfoldable pub check_hash : Block → Block × Bool
  check_hash b =
      let same = hashes_equal true (check_compute_block_hash b) b.blk_hash in
      (
        record b { balances = add_balance b.reward_addr block_reward b.balances; valid = same },
        same,
      )

  -- block_t::validate, behind the first loop.
  unfoldable pub pay_and_check : Block → Result (Block × Bool)
  pay_and_check b = do
    (balances, done) ← pay_all b.transactions b.balances
    let paid = record b { balances = balances }
    ok (if done then check_hash paid else (record paid { valid = false }, false))

  -- block_t::validate
  unfoldable pub validate_block : Store → Block → Result (Block × Bool)
  validate_block store blk = do
    let b = reset_balances store blk
    (txs, all) ← validate_all b.transactions
    let checked = record b { transactions = txs }
    elim all [ false ↦ ok (record checked { valid = false }, false) | true ↦ pay_and_check checked ]

-- ===== src/Block.antt =====
-- blockchain.h and blockchain.cpp (day 3 and day 4): block_t, but for the file format.
-- Blocks are shared by pointers, so they live in a store; a pointer is an index into it. A
-- transaction belongs to one block, and stands in that block.
pub mod Validate
pub mod Supply
use bootcamp.Base.{
  ℕ, ◌+◌, ◌%◌, ◌^◌, Bool, true, false, not, ◌&&◌, Option, none, some, List, [], ◌∷◌, ◌++◌, ◌==◌,
  if◌then◌else◌, get_elem?, Result, ok, err, out_of_bounds, assert, ◌>>=◌, ◌>>◌,
}
use bootcamp.Crypto.{HashResult, empty_hash, hash_eq, OpenSsl}
use bootcamp.Transaction.{
  Txn, BalanceMap, balance_available, add_balance, update_balances, validate as validate_txn,
}

abbrev pub block_reward : ℕ
block_reward = 100

abbrev pub max_transactions : ℕ
max_transactions = 64

-- block_t
pub record Block : Type 0 where
  pub valid : Bool
  pub balances : BalanceMap
  pub length : ℕ
  pub reward_addr : HashResult
  pub transactions : List Txn
  pub prev_hash : HashResult
  pub blk_hash : HashResult
  pub prev_block : Option ℕ

abbrev pub Store : Type 0
Store = List Block

-- *prev_block
abbrev pub prev_of : Store → Block → Option Block
prev_of store b = elim b.prev_block [ none ↦ none | some p ↦ get_elem? store p ]

-- block_t::reset_balances
unfoldable pub reset_balances : Store → Block → Block
reset_balances store b = elim (prev_of store b) [
  | none ↦ record b { balances = [] }
  | some prev ↦ record b { balances = prev.balances }
]

-- block_t::block_t()
unfoldable pub default_block : Block
unfolding empty_hash
default_block = record {
  valid = false;
  balances = [];
  length = 1;
  reward_addr = empty_hash;
  transactions = [];
  prev_hash = empty_hash;
  blk_hash = empty_hash;
  prev_block = none;
}

-- length + 1, in an unsigned int.
abbrev pub next_length : ℕ → ℕ
next_length h = (h + 1) % 2 ^ 32

-- block_t::block_t(prev)
unfoldable pub block_on : Store → ℕ → Result Block
unfolding default_block
block_on store p = elim (get_elem? store p) [
  | none ↦ err out_of_bounds
  | some prev ↦ ok (record default_block {
    length = next_length prev.length;
    prev_hash = prev.blk_hash;
    prev_block = some p;
    balances = prev.balances;
  })
]

-- block_t::set_prev_block
unfoldable pub set_prev_block : Store → Option ℕ → Block → Block
unfolding reset_balances
set_prev_block store prev b =
    let b1 = record b { prev_block = prev } in
    reset_balances store (elim (prev_of store b1) [
      | none ↦ b1
      | some blk ↦ record b1 { length = next_length blk.length }
    ])

abbrev pub all_zero : HashResult → Bool
all_zero [] = true
all_zero (x ∷ xs) = if x == 0 then all_zero xs else false

abbrev pub is_null : Option ℕ → Bool
is_null none = true
is_null (some p) = false

-- block_t::is_coinbase
unfoldable pub is_coinbase : Block → Result Bool
is_coinbase b =
    if not (all_zero b.prev_hash)
    then ok false
    else do assert (is_null b.prev_block); assert (b.length == 1); ok true

-- The bytes that compute_block_hash passes to the digest.
unfoldable pub hash_input : List Txn → HashResult → HashResult → List ℕ
hash_input [] reward prev = reward ++ prev
hash_input (t ∷ ts) reward prev = t.tx_hash ++ hash_input ts reward prev

abbrev pub block_input : Block → List ℕ
block_input b = hash_input b.transactions b.reward_addr b.prev_hash

module _ (ssl : OpenSsl) where
  -- block_t::compute_block_hash
  unfoldable pub compute_block_hash : Block → HashResult
  compute_block_hash b = ssl.sha256 (block_input b)

  -- block_t::set_hash
  unfoldable pub set_hash : Block → Block
  unfolding compute_block_hash
  set_hash b = record b { blk_hash = compute_block_hash b }

  -- The loop of block_t::validate: the transactions after it, the balances, and whether it ended
  -- without a return.
  unfoldable pub validate_txns : List Txn → BalanceMap → Result (List Txn × BalanceMap × Bool)
  validate_txns [] balances = ok ([], balances, true)
  validate_txns (tx ∷ txs) balances = do
    (t, _) ← validate_txn ssl tx
    elim (t.valid && balance_available t balances) [
      | false ↦ ok (t ∷ txs, balances, false)
      | true ↦ do
        paid ← update_balances t balances
        (ts, final, done) ← validate_txns txs paid
        ok (t ∷ ts, final, done)
    ]

  -- What follows the loop of block_t::validate.
  unfoldable pub check_hash : Block → Block × Bool
  unfolding compute_block_hash
  check_hash b =
      let rewarded = record b { balances = add_balance b.reward_addr block_reward b.balances } in
      let same = hash_eq (compute_block_hash rewarded) b.blk_hash in
      (record rewarded { valid = same }, same)

  -- block_t::validate
  unfoldable pub validate : Store → Block → Result (Block × Bool)
  validate store blk = do
    let b = record (reset_balances store blk) { valid = false }
    (txs, balances, done) ← validate_txns b.transactions b.balances
    let b1 = record b { transactions = txs; balances = balances }
    ok (if done then check_hash b1 else (b1, false))

  -- block_t::add_transaction: the block, the transaction, whose flag validate sets, and the result.
  unfoldable pub add_transaction : Block → Txn → Bool → Result (Block × Txn × Bool)
  add_transaction b tx false =
      ok (record b { transactions = b.transactions ++ (tx ∷ []) }, tx, true)
  add_transaction b tx true = do
    (t, v) ← validate_txn ssl tx
    elim (v && balance_available t b.balances) [
      | false ↦ ok (b, t, false)
      | true ↦ do
        paid ← update_balances t b.balances
        ok (record b { transactions = b.transactions ++ (t ∷ []); balances = paid }, t, true)
    ]

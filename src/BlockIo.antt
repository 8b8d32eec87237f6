-- ===== src/BlockIo.antt =====
-- blockchain.cpp (day 3 and day 4): the file format of a block, block_t::size, write and
-- read(data, blkSz, bmap), and the map from hashes to blocks.
pub mod Codec
pub mod Safety
pub mod Parsed
use bootcamp.Base.{
  drop, ℕ, zero, suc, ◌+◌, ◌-◌, ◌%◌, ◌^◌, ◌≡◌, Bool, true, false, not, ◌&&◌, Option, none, some,
  List, [], ◌∷◌, ◌++◌, ltb, leb, ◌==◌, if◌then◌else◌, length, Result, ok, assert, ◌>>=◌, ◌>>◌,
}
use bootcamp.Wire.{encode_le, read_bytes, read_word, is_negative}
use bootcamp.Crypto.{HashResult, hash_size, hash_eq, size}
use bootcamp.Transaction.{Txn, default_txn, txn_size, write as write_txn, read as read_txn}
use bootcamp.Block.{Block, Store, max_transactions, set_prev_block, is_coinbase}

-- block_map_t: an unordered_map, as an association list.
abbrev pub BlockMap : Type 0
BlockMap = List (HashResult × ℕ)

unfoldable pub find_block : HashResult → BlockMap → Option ℕ
find_block h [] = none
find_block h ((k, p) ∷ m) = if hash_eq k h then some p else find_block h m

-- bmap[h] = p;
unfoldable pub insert_block : HashResult → ℕ → BlockMap → BlockMap
insert_block h p [] = (h, p) ∷ []
insert_block h p ((k, q) ∷ m) = if hash_eq k h then (k, p) ∷ m else (k, q) ∷ insert_block h p m

abbrev pub block_header_size : ℕ
block_header_size = 4 + hash_size + hash_size + hash_size

unfoldable pub txns_size : List Txn → ℕ
txns_size [] = 0
txns_size (t ∷ ts) = txn_size t + txns_size ts

-- block_t::size
unfoldable pub block_size : Block → ℕ
unfolding size
block_size b =
    4 + size b.reward_addr + size b.prev_hash + size b.blk_hash + txns_size b.transactions

-- The loop of block_t::write.
unfoldable pub write_txns : List Txn → List ℕ → Result (List ℕ)
write_txns [] out = ok out
write_txns (t ∷ ts) out = do written ← write_txn t out; write_txns ts written

-- block_t::write
unfoldable pub write : Block → List ℕ → Result (List ℕ)
write b out = do
  let tx_count = length b.transactions % 2 ^ 32
  assert (not (is_negative tx_count) && leb tx_count max_transactions)
  write_txns b.transactions
      (out ++ (encode_le 4 tx_count ++ (b.reward_addr ++ (b.prev_hash ++ b.blk_hash))))

-- The loop of block_t::read, with the rounds that are left: what was read, where the data goes on,
-- the bytes left, and whether no transaction failed. `i != tx_count` counts up, so a negative
-- tx_count makes as many rounds as its bit pattern says. A transaction that fails leaves 0; one
-- that does not takes at most the bytes that are left.
unfoldable pub read_txns : ℕ → List Txn → List ℕ → ℕ → Result (List Txn × List ℕ × ℕ × Bool)
read_txns zero txns at0 left = ok (txns, at0, left, true)
read_txns (suc rounds) txns at0 left = do
  (t, n) ← read_txn (default_txn 0 false) at0 left
  elim (n == 0) [
    | true ↦ ok (txns, at0, left, false)
    | false ↦ read_txns rounds (txns ++ (t ∷ [])) (drop n at0) (left - n)
  ]

-- The end of block_t::read: the pointer to the block before.
unfoldable pub link_prev : Store → BlockMap → Block → Result Block
link_prev store bmap b = do
  coinbase ← is_coinbase b
  elim coinbase [
    | true ↦ ok b
    | false ↦ elim (find_block b.prev_hash bmap) [
      | none ↦ ok (record b { prev_block = none; balances = [] })
      | some p ↦ ok (set_prev_block store (some p) b)
    ]
  ]

-- The rest of block_t::read, behind the loop over the transactions.
unfoldable pub finish_read :
    Store → BlockMap → Block → List ℕ → List ℕ → ℕ → ℕ → Bool → Result (Block × ℕ)
finish_read store bmap b start at5 left blk_sz false = ok (b, 0)
finish_read store bmap b start at5 left blk_sz true = do
  linked ← link_prev store bmap b
  assert ((length start - length at5) == (blk_sz - left))
  ok (linked, length start - length at5)

-- block_t::read(data, blkSz, bmap): the block after the call, and the returned size.
unfoldable pub read : Store → BlockMap → Block → List ℕ → ℕ → Result (Block × ℕ)
read store bmap blk start blk_sz = if ltb blk_sz block_header_size then ok (blk, 0) else do
  (tx_count, at1) ← read_word 4 start
  (reward_addr, at2) ← read_bytes hash_size at1
  (prev_hash, at3) ← read_bytes hash_size at2
  (blk_hash, at4) ← read_bytes hash_size at3
  (txns, at5, left, done) ← read_txns tx_count [] at4 (blk_sz - block_header_size)
  let b = record blk {
    transactions = txns;
    length = 1;
    reward_addr = reward_addr;
    prev_hash = prev_hash;
    blk_hash = blk_hash;
  }
  finish_read store bmap b start at5 left blk_sz done

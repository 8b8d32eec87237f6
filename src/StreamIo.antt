-- ===== src/StreamIo.antt =====
-- transaction.cpp and blockchain.cpp: txn_t::read and block_t::read of a std::istream. A stream is
-- the bytes that it has left and its failbit; its badbit, which only a failing device sets, stays
-- clear. A read that runs short takes what there is and sets the failbit, and a stream with the
-- failbit reads nothing.
pub mod Codec
pub mod Blocks
use bootcamp.Base.{
  ℕ, zero, suc, Bool, true, false, ◌||◌, List, [], ◌∷◌, ◌++◌, ltb, leb, if◌then◌else◌, length, take,
  drop, Result, ok, ◌>>=◌,
}
use bootcamp.Wire.{encode_le, decode_le, is_negative}
use bootcamp.Crypto.{HashResult, hash_size}
use bootcamp.Transaction.{Txn, default_txn, resize}
use bootcamp.Block.{Block, Store, max_transactions}
use bootcamp.BlockIo.{BlockMap, link_prev}

pub record IStream : Type 0 where
  pub left : List ℕ
  pub failed : Bool

-- in.read(ptr, n), where `memory` is what ptr points to: the memory and the stream afterwards.
unfoldable pub stream_read : ℕ → List ℕ → IStream → List ℕ × IStream
stream_read n memory s =
    if s.failed
    then (memory, s)
    else if leb n (length s.left)
    then (take n s.left, record { left = drop n s.left; failed = false })
    else (s.left ++ drop (length s.left) memory, record { left = []; failed = true })

-- The reads of txn_t::read(in) behind the size checks.
unfoldable pub stream_fields : Txn → IStream → Txn × IStream
stream_fields t s =
    let (public_key, s1) = stream_read (length t.public_key) t.public_key s in
    let (source_addr, s2) = stream_read hash_size t.source_addr s1 in
    let (dest_addr, s3) = stream_read hash_size t.dest_addr s2 in
    let (change_addr, s4) = stream_read hash_size t.change_addr s3 in
    let (tx_hash, s5) = stream_read hash_size t.tx_hash s4 in
    let (tx_sign, s6) = stream_read (length t.tx_sign) t.tx_sign s5 in
    (
      record t {
        public_key = public_key;
        source_addr = source_addr;
        dest_addr = dest_addr;
        change_addr = change_addr;
        tx_hash = tx_hash;
        tx_sign = tx_sign;
      },
      s6,
    )

-- txn_t::read(in) behind the reads of the sizes and the amount.
unfoldable pub stream_sized : Txn → ℕ → ℕ → IStream → Txn × Bool × IStream
stream_sized t pubkey_sz sign_sz s =
    let (filled, s1) =
      stream_fields
        (record t {
          valid = false;
          public_key = resize pubkey_sz t.public_key;
          tx_sign = resize sign_sz t.tx_sign;
        })
        s in
    if is_negative pubkey_sz || leb 1024 pubkey_sz
    then (t, false, s)
    else if is_negative sign_sz || ltb 1024 sign_sz
    then (t, false, s)
    else (filled, true, s1)

-- txn_t::read(in). pubkey_sz and sign_sz are not initialised: `key_memory` and `sign_memory` are
-- the bytes that they hold at first.
unfoldable pub txn_read : List ℕ → List ℕ → Txn → IStream → Txn × Bool × IStream
txn_read key_memory sign_memory t s =
    let (pubkey_sz, s1) = stream_read 4 key_memory s in
    let (sign_sz, s2) = stream_read 4 sign_memory s1 in
    let (amount, s3) = stream_read 8 (encode_le 8 t.amount) s2 in
    stream_sized (record t { amount = decode_le amount }) (decode_le pubkey_sz) (decode_le sign_sz)
      s3

-- The loop of block_t::read(in): the transactions, and whether it ended without a return. Each
-- call of txn_t::read finds `memory` in its two sizes.
unfoldable pub txns_read : List ℕ → ℕ → List Txn → IStream → List Txn × Bool × IStream
txns_read memory zero txns s = (txns, true, s)
txns_read memory (suc rounds) txns s =
    let (t, r, s1) = txn_read memory memory (default_txn 0 false) s in
    let others = txns_read memory rounds (txns ++ (t ∷ [])) s1 in
    if s1.failed then (txns, false, s1) else others

-- block_t::read(in, bmap), behind the checks of tx_count.
unfoldable pub block_fields :
    List ℕ → Store → BlockMap → Block → ℕ → IStream → Result (Block × Bool × IStream)
block_fields memory store bmap b tx_count s =
    let (reward_addr, s1) = stream_read hash_size b.reward_addr s in
    let (prev_hash, s2) = stream_read hash_size b.prev_hash s1 in
    let (blk_hash, s3) = stream_read hash_size b.blk_hash s2 in
    let (txns, done, s4) = txns_read memory tx_count [] s3 in
    let header : Block = record b {
      valid = false;
      transactions = [];
      length = 1;
      reward_addr = reward_addr;
      prev_hash = prev_hash;
      blk_hash = blk_hash;
    } in
    let filled : Block = record header { transactions = txns } in
    let linked : Result (Block × Bool × IStream) =
      link_prev store bmap filled >>= λ b1. ok (b1, true, s4) in
    if s3.failed then ok (header, false, s3) else if done then linked else ok (filled, false, s4)

-- block_t::read(in, bmap). tx_count is not initialised, and `memory` is what it holds at first.
unfoldable pub block_read :
    List ℕ → Store → BlockMap → Block → IStream → Result (Block × Bool × IStream)
block_read memory store bmap b s =
    let (count, s1) = stream_read 4 memory s in
    let tx_count = decode_le count in
    let filled = block_fields memory store bmap b tx_count s1 in
    if s1.failed
    then ok (b, false, s1)
    else if is_negative tx_count || ltb max_transactions tx_count
    then ok (b, false, s1)
    else filled

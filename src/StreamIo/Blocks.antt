-- ===== src/StreamIo/Blocks.antt =====
-- block_t::read of a stream: the round trip with block_t::write.
use bootcamp.Base.{
  ℕ, ◌≡◌, ◌∙◌, refl, ap, true, false, List, [], ◌∷◌, ◌++◌, map, All, length, append_assoc,
  append-nil, ok, arith,
}
use bootcamp.Wire.{encode_le}
use bootcamp.Wire.Laws.{length-encode_le, decode_le-encode_le}
use bootcamp.Crypto.{hash_size}
use bootcamp.Transaction.{Txn, default_txn}
use bootcamp.Transaction.Codec.{txn_bytes}
use bootcamp.Block.{Block, Store, default_block}
use bootcamp.BlockIo.{BlockMap, write}
use bootcamp.BlockIo.Codec.{
  IsStorable, IsStorableBlock, unvalidated, txns_bytes, block_bytes, block_bytes-append, linked,
  parsed, link_prev-linked, write-block_bytes,
}
use bootcamp.StreamIo.{txns_read, block_fields, block_read}
use bootcamp.StreamIo.Codec.{good, stream_read-append, txn_read-txn_bytes}

txns_read-txns_bytes :
    (memory : List ℕ) (ts acc : List Txn) (rest : List ℕ)
    → All IsStorable ts
    → txns_read memory (length ts) acc (good (txns_bytes ts ++ rest))
      ≡ (acc ++ map unvalidated ts, true, good rest)
unfolding txns_read txns_bytes
txns_read-txns_bytes memory [] acc rest h = rw append-nil refl
txns_read-txns_bytes memory (t ∷ ts) acc rest ((sizes, w), h) =
    let more = txns_bytes ts ++ rest in
    let others = txns_read-txns_bytes memory ts (acc ++ (unvalidated t ∷ [])) rest h in
    let joined = append_assoc acc (unvalidated t ∷ []) (map unvalidated ts) in
    rw
      (
        append_assoc (txn_bytes t) (txns_bytes ts) rest,
        txn_read-txn_bytes memory memory t (default_txn 0 false) more sizes w,
      )
      (others ∙ ap (λ l. (l, true, good rest)) joined)

block_read-block_bytes :
    (memory : List ℕ) (store : Store) (bmap : BlockMap) (b : Block) (rest : List ℕ)
    → IsStorableBlock b
    → block_read memory store bmap default_block (good (block_bytes b ++ rest))
      ≡ ok (linked store bmap (parsed b), true, good rest)
unfolding block_read block_fields default_block
block_read-block_bytes memory store bmap b rest h =
    let n = length b.transactions in
    let at4 = txns_bytes b.transactions ++ rest in
    let at3 = b.blk_hash ++ at4 in
    let at2 = b.prev_hash ++ at3 in
    let at1 = b.reward_addr ++ at2 in
    ground (
      arith,
      block_bytes-append b rest,
      h.few,
      stream_read-append 4 memory (encode_le 4 n) at1 (length-encode_le 4 n),
      decode_le-encode_le 4 n (omega (arith, h.few)),
      stream_read-append hash_size default_block.reward_addr b.reward_addr at2 h.reward_size,
      stream_read-append hash_size default_block.prev_hash b.prev_hash at3 h.prev_size,
      stream_read-append hash_size default_block.blk_hash b.blk_hash at4 h.hash_size_of,
      txns_read-txns_bytes memory b.transactions [] rest h.storable,
      link_prev-linked store bmap (parsed b) refl refl,
    )

-- A block of at most MAX_TRANSACTIONS transactions, with keys and signatures of 1 to 1023 bytes, is
-- written as bytes that a new block_t reads from a stream, which may hold more behind them: it
-- returns true, leaves the stream behind those bytes, and has the same transactions, not yet
-- validated, reward address and hashes; where it is not the first of a chain it is linked to the
-- block that the map has under the hash of the block before, if any.
pub block_read-write :
    (memory : List ℕ) (store : Store) (bmap : BlockMap) (b : Block) (out rest : List ℕ)
    → IsStorableBlock b
    → (bytes : List ℕ) × (write b out ≡ ok (out ++ bytes))
      × (block_read memory store bmap default_block (good (bytes ++ rest))
          ≡ ok (linked store bmap (parsed b), true, good rest))
block_read-write memory store bmap b out rest h =
    (block_bytes b, write-block_bytes b out h, block_read-block_bytes memory store bmap b rest h)

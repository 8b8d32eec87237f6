-- ===== src/BlockIo/Codec.antt =====
-- block_t::write and block_t::read(data, blkSz, bmap): the round trip.
use bootcamp.Base.{
  ◌^◌, ◌%◌, true, false, ℕ, suc, ◌+◌, ◌-◌, ◌≤◌, ◌<◌, ◌≡◌, ◌∙◌, refl, sym, none, some, List, [], ◌∷◌,
  ◌++◌, map, All, length, drop, length-append, drop-append_length, arith, ok, append_assoc,
  append-nil, if◌then◌else◌,
}
use bootcamp.Wire.{encode_le}
use bootcamp.Wire.Laws.{length-encode_le, read_bytes-append, read_word-append}
use bootcamp.Crypto.{hash_size, size}
use bootcamp.Transaction.{Txn, default_txn, txn_size, read as read_txn}
use bootcamp.Transaction.Preimage.{HasFieldSizes}
use bootcamp.Transaction.Codec.{
  IsWritable, txn_bytes, length-txn_bytes, write-txn_bytes, read-txn_bytes,
}
use bootcamp.Block.{
  Block, Store, max_transactions, set_prev_block, is_coinbase, all_zero, default_block,
}
use bootcamp.BlockIo.{
  finish_read, BlockMap, find_block, block_header_size, txns_size, block_size, write_txns, write,
  read_txns, link_prev, read,
}

-- A transaction that write accepts, with the sizes of its fields.
abbrev pub IsStorable : Txn → Type 0
IsStorable t = HasFieldSizes t × IsWritable t

abbrev pub unvalidated : Txn → Txn
unvalidated t = record t { valid = false }

unfoldable pub txns_bytes : List Txn → List ℕ
txns_bytes [] = []
txns_bytes (t ∷ ts) = txn_bytes t ++ txns_bytes ts

write_txns-txns_bytes :
    (ts : List Txn) (out : List ℕ)
    → All IsStorable ts
    → write_txns ts out ≡ ok (out ++ txns_bytes ts)
unfolding write_txns txns_bytes
write_txns-txns_bytes [] out h = rw append-nil
write_txns-txns_bytes (t ∷ ts) out ((sizes, w), h) =
    rw (write-txn_bytes t out w, write_txns-txns_bytes ts (out ++ txn_bytes t) h, append_assoc)

length-txns_bytes : (ts : List Txn) → All IsStorable ts → length (txns_bytes ts) ≡ txns_size ts
unfolding txns_bytes txns_size
length-txns_bytes [] h = refl
length-txns_bytes (t ∷ ts) ((sizes, w), h) = omega (
  arith,
  length-append (txn_bytes t) (txns_bytes ts),
  length-txn_bytes t sizes,
  length-txns_bytes ts h,
)

read_txns-step :
    (k n left : ℕ) (t : Txn) (acc : List Txn) (at0 : List ℕ)
    → read_txn (default_txn 0 false) at0 left ≡ ok (t, n)
    → 0 < n
    → read_txns (suc k) acc at0 left ≡ read_txns k (acc ++ (t ∷ [])) (drop n at0) (left - n)
unfolding read_txns
read_txns-step k n left t acc at0 e h = ground arith

txn_size_pos : (t : Txn) → 0 < txn_size t
unfolding txn_size size
txn_size_pos t = omega arith

pub read_txns-txns_bytes :
    (ts acc : List Txn) (rest : List ℕ) (left : ℕ)
    → All IsStorable ts
    → txns_size ts ≤ left
    → read_txns (length ts) acc (txns_bytes ts ++ rest) left
      ≡ ok (acc ++ map unvalidated ts, rest, left - txns_size ts, true)
unfolding txns_bytes txns_size
read_txns-txns_bytes [] acc rest left h fits = unfold read_txns in rw append-nil (ground arith)
read_txns-txns_bytes (t ∷ ts) acc rest left ((sizes, w), h) fits =
    let more = txns_bytes ts ++ rest in
    let n = txn_size t in
    rw (append_assoc) (
      read_txns-step (length ts) n left (unvalidated t) acc (txn_bytes t ++ more)
        (read-txn_bytes t _ more left sizes w (omega arith)) (txn_size_pos t)
      ∙ rw (drop-append_length (txn_bytes t) more n (sym (length-txn_bytes t sizes))) (
          read_txns-txns_bytes ts (acc ++ (unvalidated t ∷ [])) rest (left - n) h (omega arith)
          ∙ ground (arith, append_assoc acc (unvalidated t ∷ []) (map unvalidated ts))))

-- The sizes that block_t::write's assert and the file format ask for.
pub record IsStorableBlock (b : Block) : Type 0 where
  pub few : length b.transactions ≤ max_transactions
  pub storable : All IsStorable b.transactions
  pub reward_size : length b.reward_addr ≡ hash_size
  pub prev_size : length b.prev_hash ≡ hash_size
  pub hash_size_of : length b.blk_hash ≡ hash_size

-- What block_t::read does to a block whose fields have been read: nothing where it is the first of
-- its chain, and otherwise the pointer, the length and the balances come from the block that the
-- map has under the hash of the block before.
abbrev pub linked : Store → BlockMap → Block → Block
linked store bmap b = if all_zero b.prev_hash then b else elim (find_block b.prev_hash bmap) [
  | none ↦ record b { prev_block = none; balances = [] }
  | some p ↦ set_prev_block store (some p) b
]

-- The block that the fields in the file make of a new block_t, before it is linked.
abbrev pub parsed : Block → Block
parsed b = record default_block {
  transactions = map unvalidated b.transactions;
  reward_addr = b.reward_addr;
  prev_hash = b.prev_hash;
  blk_hash = b.blk_hash;
}

pub link_prev-linked :
    (store : Store) (bmap : BlockMap) (b : Block)
    → b.prev_block ≡ none
    → b.length ≡ 1
    → link_prev store bmap b ≡ ok (linked store bmap b)
unfolding link_prev is_coinbase
link_prev-linked store bmap b p l = ground arith

pub block_bytes : Block → List ℕ
block_bytes b =
    encode_le 4 (length b.transactions)
    ++ (b.reward_addr ++ (b.prev_hash ++ (b.blk_hash ++ txns_bytes b.transactions)))

pub write-block_bytes :
    (b : Block) (out : List ℕ) → IsStorableBlock b → write b out ≡ ok (out ++ block_bytes b)
unfolding write block_bytes
write-block_bytes b out h =
    let n = length b.transactions in
    let body = txns_bytes b.transactions in
    let header = encode_le 4 n ++ (b.reward_addr ++ (b.prev_hash ++ b.blk_hash)) in
    let exact : n % 2 ^ 32 ≡ n = omega (arith, h.few) in
    let joined : (out ++ header) ++ body
        ≡ out ++ (encode_le 4 n ++ (b.reward_addr ++ (b.prev_hash ++ (b.blk_hash ++ body)))) =
      simp append_assoc in
    rw exact (
      ground
        (arith, h.few, write_txns-txns_bytes b.transactions (out ++ header) h.storable, joined))

pub length-block_bytes : (b : Block) → IsStorableBlock b → length (block_bytes b) ≡ block_size b
unfolding block_bytes block_size size
length-block_bytes b h = omega (
  arith,
  length-append {0},
  length-encode_le 4 (length b.transactions),
  length-txns_bytes b.transactions h.storable,
  h.reward_size,
  h.prev_size,
  h.hash_size_of,
)

pub block_bytes-append :
    (b : Block) (rest : List ℕ)
    → block_bytes b ++ rest
      ≡ encode_le 4 (length b.transactions)
        ++ (b.reward_addr ++ (b.prev_hash ++ (b.blk_hash ++ (txns_bytes b.transactions ++ rest))))
unfolding block_bytes
block_bytes-append b rest = simp append_assoc

block_size-txns : (b : Block) → block_size b ≡ block_header_size + txns_size b.transactions
unfolding block_size size
block_size-txns b = omega arith

pub read-block_bytes :
    (store : Store) (bmap : BlockMap) (b : Block) (rest : List ℕ) (bufsz : ℕ)
    → IsStorableBlock b
    → block_size b ≤ bufsz
    → read store bmap default_block (block_bytes b ++ rest) bufsz
      ≡ ok (linked store bmap (parsed b), block_size b)
unfolding read finish_read default_block
read-block_bytes store bmap b rest bufsz h fits =
    let n = length b.transactions in
    let at5 = rest in
    let at4 = txns_bytes b.transactions ++ at5 in
    let at3 = b.blk_hash ++ at4 in
    let at2 = b.prev_hash ++ at3 in
    let at1 = b.reward_addr ++ at2 in
    let joined : block_bytes b ++ rest ≡ encode_le 4 n ++ at1 = block_bytes-append b rest in
    ground (
      arith,
      joined,
      h.few,
      read_word-append 4 n at1 (omega (arith, h.few)),
      read_bytes-append hash_size b.reward_addr at2 h.reward_size,
      read_bytes-append hash_size b.prev_hash at3 h.prev_size,
      read_bytes-append hash_size b.blk_hash at4 h.hash_size_of,
      read_txns-txns_bytes b.transactions [] rest (bufsz - block_header_size) h.storable
          (omega (arith, block_size-txns b)),
      link_prev-linked store bmap (parsed b) refl refl,
      length-append (block_bytes b) rest,
      length-block_bytes b h,
      block_size-txns b,
    )

-- A block of at most MAX_TRANSACTIONS transactions, with keys and signatures of 1 to 1023 bytes,
-- is written as block_size bytes; and a new block_t that reads them, out of a buffer in which they
-- may be followed by more, takes exactly those bytes and has the same transactions, not yet
-- validated, reward address and hashes; where it is not the first of a chain it is linked to the
-- block that the map has under the hash of the block before, if any.
pub read-write_block :
    (store : Store) (bmap : BlockMap) (b : Block) (out rest : List ℕ) (bufsz : ℕ)
    → IsStorableBlock b
    → block_size b ≤ bufsz
    → (bytes : List ℕ) × (write b out ≡ ok (out ++ bytes))
      × (length bytes ≡ block_size b)
      × (read store bmap default_block (bytes ++ rest) bufsz
          ≡ ok (linked store bmap (parsed b), block_size b))
read-write_block store bmap b out rest bufsz h fits = (
  block_bytes b,
  write-block_bytes b out h,
  length-block_bytes b h,
  read-block_bytes store bmap b rest bufsz h fits,
)

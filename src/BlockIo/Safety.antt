-- ===== src/BlockIo/Safety.antt =====
-- block_t::read(data, blkSz, bmap) on any bytes at all.
use bootcamp.Base.{
  ℕ, zero, suc, ◌+◌, ◌-◌, ◌≤◌, ◌≡◌, ◌==◌, ltb, refl, ap, true, false, Bool, Bool-cases, none, List,
  [], ◌∷◌, ◌++◌, length, drop, length-drop, arith, ok, Returns, Returns-bind, Returns-weaken,
  Returns-if, ◌⊎◌, inl, inr,
}
use bootcamp.Wire.Laws.{read_bytes-Returns, read_word-Returns}
use bootcamp.Crypto.{hash_size, size}
use bootcamp.Transaction.{Txn, default_txn, txn_size, read as read_txn}
use bootcamp.Transaction.Safety.{ReadWithin, read_stays_within}
use bootcamp.Block.{reset_balances, Block, Store, set_prev_block, is_coinbase}
use bootcamp.BlockIo.{
  finish_read, BlockMap, block_header_size, txns_size, block_size, read_txns, link_prev, read,
}

txns_size-snoc : (ts : List Txn) (t : Txn) → txns_size (ts ++ (t ∷ [])) ≡ txns_size ts + txn_size t
unfolding txns_size
txns_size-snoc [] t = omega arith
txns_size-snoc (u ∷ ts) t = omega (arith, txns_size-snoc ts t)

-- The loop of block_t::read took as many bytes off the memory as off the limit, and they are
-- those of the transactions that it read.
abbrev Consumed : List Txn → List ℕ → ℕ → List Txn × List ℕ × ℕ × Bool → Type 0
Consumed acc at0 left (ts, at1, left', _) =
    (length at1 + left ≡ length at0 + left') × (txns_size ts + left' ≡ txns_size acc + left)

-- One more transaction.
Consumed-step :
    (acc : List Txn) (at0 : List ℕ) (left n : ℕ) (t : Txn) (r : List Txn × List ℕ × ℕ × Bool)
    → n ≡ txn_size t
    → n ≤ left
    → left ≤ length at0
    → Consumed (acc ++ (t ∷ [])) (drop n at0) (left - n) r
    → Consumed acc at0 left r
Consumed-step acc at0 left n t (ts, at1, left', done) e fits h (same, sizes) =
    (omega (arith, length-drop n at0), omega (arith, txns_size-snoc acc t))

read_txns-Returns :
    (rounds : ℕ) (acc : List Txn) (at0 : List ℕ) (left : ℕ)
    → left ≤ length at0
    → Returns (Consumed acc at0 left) (read_txns rounds acc at0 left)
unfolding read_txns
read_txns-Returns zero acc at0 left h = (refl, refl)
read_txns-Returns (suc rounds) acc at0 left h =
    Returns-bind (ReadWithin left) (Consumed acc at0 left) (read_txn (default_txn 0 false) at0 left)
      _ (read_stays_within (default_txn 0 false) at0 left h)
      (λ (t, n) r. go t n r (read_txns-Returns rounds (acc ++ (t ∷ [])) (drop n at0) (left - n)))
  where
    go :
        (t : Txn) (n : ℕ)
        → ReadWithin left (t, n)
        → (left - n ≤ length (drop n at0)
            → Returns
                (Consumed (acc ++ (t ∷ [])) (drop n at0) (left - n))
                (read_txns rounds (acc ++ (t ∷ [])) (drop n at0) (left - n)))
        → Returns (Consumed acc at0 left) (elim (n == 0) [
          | true ↦ ok (acc, at0, left, false)
          | false ↦ read_txns rounds (acc ++ (t ∷ [])) (drop n at0) (left - n)
        ])
    go t n (inl e) more = rw e (refl, refl)
    go t n (inr (sizes, fits, _)) more = elim (Bool-cases (n == 0)) [
      | inl e ↦ rw e (refl, refl)
      | inr e ↦ rw e (
          Returns-weaken (Consumed (acc ++ (t ∷ [])) (drop n at0) (left - n))
            (Consumed acc at0 left) _ (λ r. Consumed-step acc at0 left n t r sizes.taken fits h)
            (more (omega (arith, length-drop n at0))))
    ]

link_prev-Returns :
    (store : Store) (bmap : BlockMap) (b : Block)
    → b.prev_block ≡ none
    → b.length ≡ 1
    → Returns (λ r. r.transactions ≡ b.transactions) (link_prev store bmap b)
unfolding link_prev is_coinbase set_prev_block reset_balances
link_prev-Returns store bmap b p l = ground arith

-- How a read of at most `limit` bytes may end: it gave up, or the returned size is that of the
-- block that it read.
abbrev pub BlockReadWithin : ℕ → Block × ℕ → Type 0
BlockReadWithin limit (b, n) = (n ≡ 0) ⊎ ((n ≡ block_size b) × (n ≤ limit))

finish_read-Returns :
    (store : Store) (bmap : BlockMap) (b : Block) (start at5 : List ℕ) (left blk_sz : ℕ)
    (done : Bool)
    → b.prev_block ≡ none
    → b.length ≡ 1
    → length start - length at5 ≡ blk_sz - left
    → length start - length at5 ≡ block_size b
    → Returns (BlockReadWithin blk_sz) (finish_read store bmap b start at5 left blk_sz done)
unfolding finish_read
finish_read-Returns store bmap b start at5 left blk_sz false p l same sizes = inl refl
finish_read-Returns store bmap b start at5 left blk_sz true p l same sizes =
    Returns-bind (λ r. r.transactions ≡ b.transactions) (BlockReadWithin blk_sz)
      (link_prev store bmap b) _ (link_prev-Returns store bmap b p l)
      λ r e. unfold block_size size in ground (arith, same, sizes, ap txns_size e)

-- Whatever the bytes are, and whatever the count of transactions in them claims, a block_t that
-- points to no block before reads inside the buffer and trips no assert: it returns 0, or the size
-- of the block that it read, which is within the limit.
pub read_block_stays_within :
    (store : Store) (bmap : BlockMap) (b : Block) (start : List ℕ) (blk_sz : ℕ)
    → b.prev_block ≡ none
    → blk_sz ≤ length start
    → Returns (BlockReadWithin blk_sz) (read store bmap b start blk_sz)
unfolding read
read_block_stays_within store bmap b start blk_sz p fits =
    Returns-if (BlockReadWithin blk_sz) (ltb blk_sz block_header_size) _ _ (λ _. inl refl)
      λ big. read_word-Returns 4 start _ (BlockReadWithin blk_sz) (ground arith) λ tx_count at1 r1.
        read_bytes-Returns hash_size at1 _ (BlockReadWithin blk_sz) (ground arith)
          λ reward at2 l2 r2.
            read_bytes-Returns hash_size at2 _ (BlockReadWithin blk_sz) (ground arith)
              λ prev at3 l3 r3.
                read_bytes-Returns hash_size at3 _ (BlockReadWithin blk_sz) (ground arith)
                  λ hash at4 l4 r4.
                    let room : blk_sz - block_header_size ≤ length at4 = ground arith in
                    Returns-bind (Consumed [] at4 (blk_sz - block_header_size))
                      (BlockReadWithin blk_sz) _ _
                      (read_txns-Returns tx_count [] at4 (blk_sz - block_header_size) room)
                      (λ (txns, at5, left, done) c.
                        finish_read-Returns store bmap
                          (record b {
                            transactions = txns;
                            length = 1;
                            reward_addr = reward;
                            prev_hash = prev;
                            blk_hash = hash;
                          })
                          start at5 left blk_sz done p refl (ground (arith, c.0, c.1))
                          (unfold block_size size txns_size in ground (arith, c.0, c.1)))

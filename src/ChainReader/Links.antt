-- ===== src/ChainReader/Links.antt =====
-- What block_t::read makes of the pointer to the block before.
use bootcamp.Base.{
  ℕ, ◌-◌, ◌<◌, ◌≡◌, ◌∙◌, refl, ap, true, false, Bool, Bool-cases, Option-cases, inl, inr, ◌⊎◌, none,
  some, List, [], get_elem?, arith, ok, bind-ok, ltb,
}
use bootcamp.Wire.{read_bytes, read_word}
use bootcamp.Crypto.{hash_size}
use bootcamp.Block.{
  Block, Store, next_length, default_block, set_prev_block, reset_balances, all_zero,
}
use bootcamp.BlockIo.{BlockMap, block_header_size, find_block, read_txns, finish_read, read}
use bootcamp.BlockIo.Codec.{linked, link_prev-linked}

-- The block has no block before it, or points to the one that the map has under prev_hash, and is
-- one longer.
abbrev pub HasLink : Store → BlockMap → Block → Type 0
HasLink store bmap b =
    ((b.prev_block ≡ none) × (b.length ≡ 1))
    ⊎ ((p : ℕ) × (find_block b.prev_hash bmap ≡ some p)
        × (b.prev_block ≡ some p)
        × ((prev : Block) → get_elem? store p ≡ some prev → b.length ≡ next_length prev.length))

set_prev_block-fields :
    (store : Store) (p : ℕ) (b : Block)
    → ((set_prev_block store (some p) b).prev_block ≡ some p)
      × ((set_prev_block store (some p) b).prev_hash ≡ b.prev_hash)
      × ((prev : Block)
          → get_elem? store p ≡ some prev
          → (set_prev_block store (some p) b).length ≡ next_length prev.length)
unfolding set_prev_block reset_balances
set_prev_block-fields store p b = elim (Option-cases (get_elem? store p)) [
  | inl missing ↦ (ground (arith, missing), ground (arith, missing), λ prev e. cc (e, missing))
  | inr (blk, e) ↦ (ground (arith, e), ground (arith, e), λ prev same. ground (arith, e, same))
]

linked-HasLink :
    (store : Store) (bmap : BlockMap) (b : Block)
    → b.prev_block ≡ none
    → b.length ≡ 1
    → HasLink store bmap (linked store bmap b)
linked-HasLink store bmap b p l = elim (Bool-cases (all_zero b.prev_hash)) [
  | inl zeros ↦ rw zeros (inl (p, l))
  | inr other ↦ elim (Option-cases (find_block b.prev_hash bmap)) [
    | inl missing ↦ rw (other, missing) (inl (refl, l))
    | inr (q, e) ↦
        let (pointer, same, longer) = set_prev_block-fields store q b in
        rw (other, e) (inr (q, ap (λ h. find_block h bmap) same ∙ e, pointer, longer))
  ]
]

finish_read-linked :
    (store : Store) (bmap : BlockMap) (b b' : Block) (start at5 : List ℕ) (left blk_sz n : ℕ)
    (done : Bool)
    → b.prev_block ≡ none
    → b.length ≡ 1
    → finish_read store bmap b start at5 left blk_sz done ≡ ok (b', n)
    → 0 < n
    → b' ≡ linked store bmap b
unfolding finish_read
finish_read-linked store bmap b b' start at5 left blk_sz n false p l e h = absurd (ground arith)
finish_read-linked store bmap b b' start at5 left blk_sz n true p l e h =
    ground (arith, link_prev-linked store bmap b p l)

-- A read that returns a size has linked the block.
pub read-HasLink :
    (store : Store) (bmap : BlockMap) (b : Block) (start : List ℕ) (blk_sz n : ℕ)
    → read store bmap default_block start blk_sz ≡ ok (b, n)
    → 0 < n
    → HasLink store bmap b
unfolding read default_block
read-HasLink store bmap b start blk_sz n e h = elim (Bool-cases (ltb blk_sz block_header_size)) [
  | inl small ↦ absurd (ground arith)
  | inr big ↦
      let e0 : _ ≡ ok (b, n) = rw big at e in
      let ((tx_count, at1), e1, _) = bind-ok _ (read_word 4 start) _ e0 in
      let ((reward, at2), e2, _) = bind-ok _ (read_bytes hash_size at1) _ e1 in
      let ((prev, at3), e3, _) = bind-ok _ (read_bytes hash_size at2) _ e2 in
      let ((hash, at4), e4, _) = bind-ok _ (read_bytes hash_size at3) _ e3 in
      let ((txns, at5, left, done), e5, _) =
        bind-ok _ (read_txns tx_count [] at4 (blk_sz - block_header_size)) _ e4 in
      let got : Block = record default_block {
        transactions = txns;
        reward_addr = reward;
        prev_hash = prev;
        blk_hash = hash;
      } in
      let same = finish_read-linked store bmap got b start at5 left blk_sz n done refl refl e5 h in
      rw same (linked-HasLink store bmap got refl refl)
]

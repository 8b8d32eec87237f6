-- ===== src/BlockIo/Parsed.antt =====
-- block_t::read: what the block that it returns tells of its fields.
use bootcamp.Base.{
  subst, Result, ℕ, zero, suc, ◌-◌, ◌≤◌, ◌≡◌, ◌∙◌, refl, sym, ap, true, false, Bool, Bool-cases,
  List, [], ◌∷◌, ◌++◌, map, All, All-append, length, drop, length-drop, arith, ok, bind-ok, ltb,
  inl, inr, Returns, ◌==◌,
}
use bootcamp.Wire.{read_bytes, read_word}
use bootcamp.Wire.Laws.{read_bytes-taken, read_word-taken}
use bootcamp.Crypto.{hash_size}
use bootcamp.Transaction.{Txn, default_txn, read as read_txn}
use bootcamp.Transaction.Safety.{ReadWithin, read_stays_within}
use bootcamp.Block.{Block, Store, default_block, set_prev_block, reset_balances}
use bootcamp.BlockIo.{BlockMap, block_header_size, finish_read, read_txns, read}
use bootcamp.BlockIo.Codec.{linked, parsed, unvalidated, link_prev-linked}

-- The fields that a block has in a file.
pub record HasFields (b c : Block) : Type 0 where
  pub txns : map unvalidated b.transactions ≡ map unvalidated c.transactions
  pub reward : b.reward_addr ≡ c.reward_addr
  pub prev : b.prev_hash ≡ c.prev_hash
  pub hash : b.blk_hash ≡ c.blk_hash

-- Blocks with the same fields are read as the same.
pub parsed-HasFields : (b c : Block) → HasFields b c → parsed b ≡ parsed c
parsed-HasFields b c h = cc (h.txns, h.reward, h.prev, h.hash)

pub linked-HasFields :
    (store : Store) (bmap : BlockMap) (b : Block) → HasFields (linked store bmap b) b
unfolding set_prev_block reset_balances
linked-HasFields store bmap b = record {
  txns = ground arith;
  reward = ground arith;
  prev = ground arith;
  hash = ground arith;
}

abbrev IsUnvalidated : Txn → Type 0
IsUnvalidated t = unvalidated t ≡ t

map-unvalidated : (ts : List Txn) → All IsUnvalidated ts → map unvalidated ts ≡ ts
map-unvalidated [] h = refl
map-unvalidated (t ∷ ts) (e, h) = rw (e, map-unvalidated ts h)

-- A transaction that read_txns keeps is not validated, and leaves no more bytes than there are.
read_txn-IsUnvalidated :
    (at0 : List ℕ) (left n : ℕ) (t : Txn)
    → left ≤ length at0
    → read_txn (default_txn 0 false) at0 left ≡ ok (t, n)
    → (n == 0) ≡ false
    → IsUnvalidated t × (left - n ≤ length (drop n at0))
read_txn-IsUnvalidated at0 left n t fits e some_bytes =
    let within : Returns (ReadWithin left) (ok (t, n)) =
      subst (Returns (ReadWithin left)) e (read_stays_within (default_txn 0 false) at0 left fits) in
    elim within [
      | inl gave_up ↦ absurd (ground (arith, gave_up, some_bytes))
      | inr (sizes, small, cleared) ↦
          (ap (λ v. record t { valid = v }) (sym cleared), omega (arith, length-drop n at0, fits))
    ]

abbrev after_txn : ℕ → List Txn → List ℕ → ℕ → Txn × ℕ → Result (List Txn × List ℕ × ℕ × Bool)
after_txn rounds acc at0 left (t, n) = elim (n == 0) [
  | true ↦ ok (acc, at0, left, false)
  | false ↦ read_txns rounds (acc ++ (t ∷ [])) (drop n at0) (left - n)
]

read_txns-IsUnvalidated :
    (rounds : ℕ) (acc : List Txn) (at0 : List ℕ) (left : ℕ) (ts : List Txn) (at1 : List ℕ)
    (left1 : ℕ) (done : Bool)
    → left ≤ length at0
    → All IsUnvalidated acc
    → read_txns rounds acc at0 left ≡ ok (ts, at1, left1, done)
    → All IsUnvalidated ts
unfolding read_txns
read_txns-IsUnvalidated zero acc at0 left ts at1 left1 done fits h e =
    let same : acc ≡ ts = ground (arith, e) in subst (All IsUnvalidated) same h
read_txns-IsUnvalidated (suc rounds) acc at0 left ts at1 left1 done fits h e =
    let ((t, n), e2, e1) =
      bind-ok (after_txn rounds acc at0 left) (read_txn (default_txn 0 false) at0 left) _ e in
    elim (Bool-cases (n == 0)) [
      | inl stuck ↦
          let same : acc ≡ ts = ground (arith, e2, stuck) in subst (All IsUnvalidated) same h
      | inr taken ↦
          let (cleared, fits1) = read_txn-IsUnvalidated at0 left n t fits e1 taken in
          read_txns-IsUnvalidated rounds (acc ++ (t ∷ [])) (drop n at0) (left - n) ts at1 left1 done
            fits1 (All-append IsUnvalidated acc (t ∷ []) h (cleared, tt))
            (ground (arith, e2, taken))
    ]

finish_read-parsed :
    (store : Store) (bmap : BlockMap) (b got : Block) (start at5 : List ℕ) (left blk_sz n : ℕ)
    (done : Bool)
    → got ≡ parsed got
    → finish_read store bmap got start at5 left blk_sz done ≡ ok (b, n)
    → (n == 0) ≡ false
    → b ≡ linked store bmap (parsed b)
unfolding finish_read default_block
finish_read-parsed store bmap b got start at5 left blk_sz n false own e taken =
    absurd (ground (arith, e, taken))
finish_read-parsed store bmap b got start at5 left blk_sz n true own e taken =
    let same : b ≡ linked store bmap got = ground (
      arith,
      link_prev-linked store bmap got (ap (λ x. x.prev_block) own) (ap (λ x. x.length) own),
      e,
    ) in
    let fields : HasFields b got =
      subst (λ x. HasFields x got) (sym same) (linked-HasFields store bmap got) in
    same ∙ ap (linked store bmap) (own ∙ sym (parsed-HasFields b got fields))

-- A new block_t that has read something is the block that its own fields make.
pub read-parsed :
    (store : Store) (bmap : BlockMap) (b : Block) (start : List ℕ) (blk_sz n : ℕ)
    → blk_sz ≤ length start
    → read store bmap default_block start blk_sz ≡ ok (b, n)
    → (n == 0) ≡ false
    → b ≡ linked store bmap (parsed b)
unfolding read default_block
read-parsed store bmap b start blk_sz n fits e h =
    elim (Bool-cases (ltb blk_sz block_header_size)) [
      | inl small ↦ absurd (ground (arith, e, h, small))
      | inr big ↦
          let large : block_header_size ≤ blk_sz = ground (arith, big) in
          let e0 : _ ≡ ok (b, n) = rw big at e in
          let ((tx_count, at1), e1, r1) = bind-ok _ (read_word 4 start) _ e0 in
          let ((reward, at2), e2, r2) = bind-ok _ (read_bytes hash_size at1) _ e1 in
          let ((prev, at3), e3, r3) = bind-ok _ (read_bytes hash_size at2) _ e2 in
          let ((hash, at4), e4, r4) = bind-ok _ (read_bytes hash_size at3) _ e3 in
          let ((txns, at5, left, done), e5, r5) =
            bind-ok _ (read_txns tx_count [] at4 (blk_sz - block_header_size)) _ e4 in
          let room : blk_sz - block_header_size ≤ length at4 = omega (
            arith,
            fits,
            large,
            read_word-taken 4 tx_count start at1 r1,
            (read_bytes-taken hash_size at1 reward at2 r2).1,
            (read_bytes-taken hash_size at2 prev at3 r3).1,
            (read_bytes-taken hash_size at3 hash at4 r4).1,
          ) in
          let cleared =
            read_txns-IsUnvalidated tx_count [] at4 (blk_sz - block_header_size) txns at5 left done
              room tt r5 in
          let got : Block = record default_block {
            transactions = txns;
            reward_addr = reward;
            prev_hash = prev;
            blk_hash = hash;
          } in
          finish_read-parsed store bmap b got start at5 left blk_sz n done
            (ap (λ ts. record got { transactions = ts }) (sym (map-unvalidated txns cleared))) e5 h
    ]

-- ===== src/Transaction/Safety.antt =====
-- txn_t::read(buffer, bufsz) on any bytes at all.
use bootcamp.Base.{
  Returns-weaken, leb, ◌||◌, Returns-if, ℕ, ◌+◌, ◌≤◌, ◌≡◌, refl, false, List, length, arith, ◌⊎◌,
  inl, inr, Bool-cases, ltb, Returns,
}
use bootcamp.Wire.Laws.{read_bytes-Returns, read_word-Returns}
use bootcamp.Crypto.{hash_size, size}
use bootcamp.Transaction.{
  is_negative, Txn, read, read_sized, read_fields, txn_size, header_size, body_size,
}

-- The fields that a successful read fills have the sizes of a txn_t's fields.
pub record HasReadSizes (t : Txn) (n : ℕ) : Type 0 where
  pub source_size : length t.source_addr ≡ hash_size
  pub dest_size : length t.dest_addr ≡ hash_size
  pub change_size : length t.change_addr ≡ hash_size
  pub tx_hash_size : length t.tx_hash ≡ hash_size
  pub taken : n ≡ txn_size t

read_fields-Returns :
    (t : Txn) (pk sg : ℕ) (start at0 : List ℕ)
    → length start ≡ length at0 + header_size
    → body_size pk sg ≤ length at0
    → Returns
        (λ r. HasReadSizes r.0 r.1 × (r.0.valid ≡ t.valid) × (r.1 ≡ header_size + body_size pk sg))
        (read_fields t pk sg start at0)
unfolding read_fields txn_size size
read_fields-Returns t pk sg start at0 e fits =
    read_bytes-Returns pk at0 _ _ (omega arith) λ key at1 l1 r1.
      read_bytes-Returns hash_size at1 _ _ (omega arith) λ source at2 l2 r2.
        read_bytes-Returns hash_size at2 _ _ (omega arith) λ dest at3 l3 r3.
          read_bytes-Returns hash_size at3 _ _ (omega arith) λ change at4 l4 r4.
            read_bytes-Returns hash_size at4 _ _ (omega arith) λ hash at5 l5 r5.
              read_bytes-Returns sg at5 _ _ (omega arith) λ sign at6 l6 r6. ground arith

-- How a read of at most `bufsz` bytes may end: it gave up, or it filled the transaction.
abbrev pub ReadWithin : ℕ → Txn × ℕ → Type 0
ReadWithin bufsz (t, n) = (n ≡ 0) ⊎ (HasReadSizes t n × (n ≤ bufsz) × (t.valid ≡ false))

read_sized-Returns :
    (t : Txn) (pk sg : ℕ) (start at0 : List ℕ) (bufsz : ℕ)
    → length start ≡ length at0 + header_size
    → bufsz ≤ length start
    → Returns (ReadWithin bufsz) (read_sized t pk sg start at0 bufsz)
unfolding read_sized
read_sized-Returns t pk sg start at0 bufsz e fits =
    Returns-if (ReadWithin bufsz) (is_negative pk || leb 1024 pk) _ _ (λ _. inl refl)
      λ _.
        Returns-if (ReadWithin bufsz) (is_negative sg || ltb 1024 sg) _ _ (λ _. inl refl)
          λ _.
            Returns-if (ReadWithin bufsz) (ltb bufsz (header_size + body_size pk sg)) _ _
              (λ _. inl refl)
              λ big.
                Returns-weaken _ (ReadWithin bufsz) _
                  (λ (r, n) (sizes, cleared, counted). inr (sizes, ground arith, cleared))
                  (read_fields-Returns _ pk sg start at0 e (ground arith))

-- Whatever the bytes are, a read that is given no more than the buffer's size stays inside the
-- buffer and trips no assert: it returns 0, or a size within the limit, with the hashes 32 bytes
-- long, the flag cleared, and the returned size that of the transaction that was read.
pub read_stays_within :
    (u : Txn) (buffer : List ℕ) (bufsz : ℕ)
    → bufsz ≤ length buffer
    → Returns (ReadWithin bufsz) (read u buffer bufsz)
unfolding read
read_stays_within u buffer bufsz fits = elim (Bool-cases (ltb bufsz header_size)) [
  | inl small ↦ rw small (inl refl)
  | inr big ↦ rw big (
      read_word-Returns 4 buffer _ (ReadWithin bufsz) (ground arith) λ pk at1 r1.
        read_word-Returns 4 at1 _ (ReadWithin bufsz) (ground arith) λ sg at2 r2.
          read_word-Returns 8 at2 _ (ReadWithin bufsz) (ground arith)
            λ amount at3 r3. read_sized-Returns _ pk sg buffer at3 bufsz (omega arith) fits)
]

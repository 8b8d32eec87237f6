-- ===== src/Transaction/Preimage.antt =====
-- The bytes that a transaction's hash covers determine the transaction.
use bootcamp.Base.{
  ℕ, ◌+◌, ◌<◌, ◌≡◌, ◌∙◌, sym, ap, List, ◌++◌, length, length-append, append-injective, arith,
}
use bootcamp.Wire.{encode_le, decode_le}
use bootcamp.Wire.Laws.{length-encode_le, decode_le-encode_le}
use bootcamp.Crypto.{HashResult, hash_size}
use bootcamp.Transaction.{Txn, uint64_mod, preimage, txn_preimage}

-- The fixed-width fields behind the public key.
tail_bytes : HashResult → HashResult → HashResult → ℕ → List ℕ
tail_bytes source dest change amount = source ++ (dest ++ (change ++ encode_le 8 amount))

length-tail_bytes :
    (source dest change : HashResult) (amount : ℕ)
    → length (tail_bytes source dest change amount)
      ≡ length source + (length dest + (length change + 8))
unfolding tail_bytes
length-tail_bytes source dest change amount = omega (
  arith,
  length-append source (dest ++ (change ++ encode_le 8 amount)),
  length-append dest (change ++ encode_le 8 amount),
  length-append change (encode_le 8 amount),
  length-encode_le 8 amount,
)

-- The sizes of a txn_t's fields.
pub record HasFieldSizes (t : Txn) : Type 0 where
  pub source_size : length t.source_addr ≡ hash_size
  pub dest_size : length t.dest_addr ≡ hash_size
  pub change_size : length t.change_addr ≡ hash_size
  pub hash_size_of : length t.tx_hash ≡ hash_size
  pub amount_range : t.amount < uint64_mod

encode_le-injective :
    (x y : ℕ) → x < uint64_mod → y < uint64_mod → encode_le 8 x ≡ encode_le 8 y → x ≡ y
encode_le-injective x y hx hy e =
    sym (decode_le-encode_le 8 x hx) ∙ (ap decode_le e ∙ decode_le-encode_le 8 y hy)

public_key_length :
    (t u : Txn)
    → HasFieldSizes t
    → HasFieldSizes u
    → txn_preimage t ≡ txn_preimage u
    → length t.public_key ≡ length u.public_key
unfolding preimage tail_bytes
public_key_length t u ht hu e = omega (
  arith,
  ap length e,
  length-append t.public_key (tail_bytes t.source_addr t.dest_addr t.change_addr t.amount),
  length-append u.public_key (tail_bytes u.source_addr u.dest_addr u.change_addr u.amount),
  length-tail_bytes t.source_addr t.dest_addr t.change_addr t.amount,
  length-tail_bytes u.source_addr u.dest_addr u.change_addr u.amount,
  ht.source_size,
  ht.dest_size,
  ht.change_size,
  hu.source_size,
  hu.dest_size,
  hu.change_size,
)

-- Though the digest is fed the fields with no separator and no length of the public key, two
-- transactions with the same bytes under the hash have the same public key, source, destination
-- and change address and amount.
pub txn_preimage-injective :
    (t u : Txn)
    → HasFieldSizes t
    → HasFieldSizes u
    → txn_preimage t ≡ txn_preimage u
    → (t.public_key ≡ u.public_key)
      × (t.source_addr ≡ u.source_addr)
      × (t.dest_addr ≡ u.dest_addr)
      × (t.change_addr ≡ u.change_addr)
      × (t.amount ≡ u.amount)
unfolding preimage
txn_preimage-injective t u ht hu e =
    let (keys, e1) =
      append-injective t.public_key u.public_key _ _ (public_key_length t u ht hu e) e in
    let (sources, e2) =
      append-injective t.source_addr u.source_addr _ _ (ht.source_size ∙ sym hu.source_size) e1 in
    let (dests, e3) =
      append-injective t.dest_addr u.dest_addr _ _ (ht.dest_size ∙ sym hu.dest_size) e2 in
    let (changes, e4) =
      append-injective t.change_addr u.change_addr _ _ (ht.change_size ∙ sym hu.change_size) e3 in
    (keys, sources, dests, changes, encode_le-injective _ _ ht.amount_range hu.amount_range e4)

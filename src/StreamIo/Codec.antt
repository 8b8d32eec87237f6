-- ===== src/StreamIo/Codec.antt =====
-- The reader of a transaction from a stream: its round trip.
use bootcamp.Base.{
  length-replicate, ◌-◌, take, replicate, length-take, ℕ, ◌<◌, ◌≤◌, ◌≡◌, refl, sym, true, false,
  List, ◌++◌, length, length-append, take-append_length, drop-append_length, arith,
}
use bootcamp.Wire.{encode_le}
use bootcamp.Wire.Laws.{length-encode_le, decode_le-encode_le}
use bootcamp.Crypto.{hash_size}
use bootcamp.Transaction.{Txn, resize}
use bootcamp.Transaction.Preimage.{HasFieldSizes}
use bootcamp.Transaction.Codec.{IsWritable, txn_bytes, packed, body_bytes, txn_bytes-append}
use bootcamp.StreamIo.{IStream, stream_read, stream_fields, stream_sized, txn_read}

abbrev pub good : List ℕ → IStream
good bytes = record { left = bytes; failed = false }

pub stream_read-append :
    (n : ℕ) (memory xs rest : List ℕ)
    → length xs ≡ n
    → stream_read n memory (good (xs ++ rest)) ≡ (xs, good rest)
unfolding stream_read
stream_read-append n memory xs rest e = ground (
  arith,
  length-append xs rest,
  take-append_length xs rest n (sym e),
  drop-append_length xs rest n (sym e),
)

stream_fields-body_bytes :
    (t u : Txn) (rest : List ℕ)
    → HasFieldSizes t
    → length u.public_key ≡ length t.public_key
    → length u.tx_sign ≡ length t.tx_sign
    → stream_fields u (good (body_bytes t rest))
      ≡ (record t { amount = u.amount; valid = u.valid }, good rest)
unfolding stream_fields body_bytes
stream_fields-body_bytes t u rest h ek es =
    let at5 = t.tx_sign ++ rest in
    let at4 = t.tx_hash ++ at5 in
    let at3 = t.change_addr ++ at4 in
    let at2 = t.dest_addr ++ at3 in
    let at1 = t.source_addr ++ at2 in
    rw
      (
        stream_read-append (length u.public_key) u.public_key t.public_key at1 (sym ek),
        stream_read-append hash_size u.source_addr t.source_addr at2 h.source_size,
        stream_read-append hash_size u.dest_addr t.dest_addr at3 h.dest_size,
        stream_read-append hash_size u.change_addr t.change_addr at4 h.change_size,
        stream_read-append hash_size u.tx_hash t.tx_hash at5 h.hash_size_of,
        stream_read-append (length u.tx_sign) u.tx_sign t.tx_sign rest (sym es),
      )
      refl

length-resize : (n : ℕ) (v : List ℕ) → length (resize n v) ≡ n
length-resize n v = omega (
  arith,
  length-append (take n v) (replicate (n - length v) 0),
  length-take n v,
  length-replicate {A = ℕ} (n - length v) 0,
)

stream_sized-body_bytes :
    (t u : Txn) (rest : List ℕ)
    → HasFieldSizes t
    → length t.public_key < 1024
    → length t.tx_sign ≤ 1024
    → stream_sized u (length t.public_key) (length t.tx_sign) (good (body_bytes t rest))
      ≡ (record t { amount = u.amount; valid = false }, true, good rest)
unfolding stream_sized
stream_sized-body_bytes t u rest h hk hs =
    let u1 : Txn = record u {
      valid = false;
      public_key = resize (length t.public_key) u.public_key;
      tx_sign = resize (length t.tx_sign) u.tx_sign;
    } in
    let filled =
      stream_fields-body_bytes t u1 rest h (length-resize (length t.public_key) u.public_key)
        (length-resize (length t.tx_sign) u.tx_sign) in
    ground (arith, filled, hk, hs)

-- A transaction whose public key and signature have 1 to 1023 bytes, as write puts it on a stream,
-- is what txn_t::read(in) makes of whatever object reads it, not yet validated: it returns true,
-- and leaves the stream, whatever else it holds, behind those bytes.
pub txn_read-txn_bytes :
    (key_memory sign_memory : List ℕ) (t u : Txn) (rest : List ℕ)
    → HasFieldSizes t
    → IsWritable t
    → txn_read key_memory sign_memory u (good (txn_bytes t ++ rest))
      ≡ (record t { valid = false }, true, good rest)
unfolding txn_read packed
txn_read-txn_bytes key_memory sign_memory t u rest h w =
    let at3 = body_bytes t rest in
    let at2 = encode_le 8 t.amount ++ at3 in
    let at1 = encode_le 4 (length t.tx_sign) ++ at2 in
    rw
      (
        txn_bytes-append t rest,
        stream_read-append 4 key_memory (encode_le 4 (length t.public_key)) at1
            (length-encode_le 4 (length t.public_key)),
        stream_read-append 4 sign_memory (encode_le 4 (length t.tx_sign)) at2
            (length-encode_le 4 (length t.tx_sign)),
        stream_read-append 8 (encode_le 8 u.amount) (encode_le 8 t.amount) at3
            (length-encode_le 8 t.amount),
        decode_le-encode_le 4 (length t.public_key) (omega (arith, w.key_bound)),
        decode_le-encode_le 4 (length t.tx_sign) (omega (arith, w.sign_bound)),
        decode_le-encode_le 8 t.amount h.amount_range,
      )
      (stream_sized-body_bytes t _ rest h w.key_bound (omega (arith, w.sign_bound)))

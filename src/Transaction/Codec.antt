-- ===== src/Transaction/Codec.antt =====
-- txn_t::write and txn_t::read(buffer, bufsz): the round trip, and that the reader stays inside
-- the bytes that it was given.
use bootcamp.Base.{
  ℕ, ◌+◌, ◌≤◌, ◌<◌, ◌^◌, ◌≡◌, ◌∙◌, refl, ap, false, List, ◌++◌, [], length, length-append, arith,
  ok, append_assoc,
}
use bootcamp.Wire.{encode_le}
use bootcamp.Wire.Laws.{length-encode_le, read_bytes-append, read_word-append}
use bootcamp.Crypto.{hash_size, size}
use bootcamp.Transaction.{
  resize, Txn, uint64_mod, write, read, read_sized, read_fields, txn_size, header_size, body_size,
  int_size,
}
use bootcamp.Transaction.Preimage.{HasFieldSizes}

-- The bytes behind the header.
unfoldable pub body_bytes : Txn → List ℕ → List ℕ
body_bytes t rest =
    t.public_key
    ++ (t.source_addr ++ (t.dest_addr ++ (t.change_addr ++ (t.tx_hash ++ (t.tx_sign ++ rest)))))

length-body_bytes :
    (t : Txn) (rest : List ℕ)
    → HasFieldSizes t
    → length (body_bytes t rest) ≡ body_size (length t.public_key) (length t.tx_sign) + length rest
unfolding body_bytes
length-body_bytes t rest h =
    omega (arith, length-append {0}, h.source_size, h.dest_size, h.change_size, h.hash_size_of)

read_fields-body_bytes :
    (t u : Txn) (start rest : List ℕ)
    → HasFieldSizes t
    → length start ≡ length (body_bytes t rest) + header_size
    → read_fields u (length t.public_key) (length t.tx_sign) start (body_bytes t rest)
      ≡ ok (
        record t { amount = u.amount; valid = u.valid },
        header_size + body_size (length t.public_key) (length t.tx_sign),
      )
unfolding read_fields body_bytes
read_fields-body_bytes t u start rest h e =
    let at5 = t.tx_sign ++ rest in
    let at4 = t.tx_hash ++ at5 in
    let at3 = t.change_addr ++ at4 in
    let at2 = t.dest_addr ++ at3 in
    let at1 = t.source_addr ++ at2 in
    ground (
      arith,
      read_bytes-append (length t.public_key) t.public_key at1 refl,
      read_bytes-append hash_size t.source_addr at2 h.source_size,
      read_bytes-append hash_size t.dest_addr at3 h.dest_size,
      read_bytes-append hash_size t.change_addr at4 h.change_size,
      read_bytes-append hash_size t.tx_hash at5 h.hash_size_of,
      read_bytes-append (length t.tx_sign) t.tx_sign rest refl,
      length-body_bytes t rest h,
    )

-- What write appends, with a rest behind it.
unfoldable pub packed : Txn → List ℕ → List ℕ
packed t rest =
    encode_le 4 (length t.public_key)
    ++ (encode_le 4 (length t.tx_sign) ++ (encode_le 8 t.amount ++ body_bytes t rest))

length-packed :
    (t : Txn) (rest : List ℕ) → HasFieldSizes t → length (packed t rest) ≡ txn_size t + length rest
unfolding packed txn_size size
length-packed t rest h = omega (
  arith,
  length-append (encode_le 4 (length t.public_key))
      (encode_le 4 (length t.tx_sign) ++ (encode_le 8 t.amount ++ body_bytes t rest)),
  length-append (encode_le 4 (length t.tx_sign)) (encode_le 8 t.amount ++ body_bytes t rest),
  length-append (encode_le 8 t.amount) (body_bytes t rest),
  length-encode_le 4 (length t.public_key),
  length-encode_le 4 (length t.tx_sign),
  length-encode_le 8 t.amount,
  length-body_bytes t rest h,
)

-- The sizes that write's asserts accept.
pub record IsWritable (t : Txn) : Type 0 where
  pub has_key : 0 < length t.public_key
  pub key_bound : length t.public_key < 1024
  pub has_sign : 0 < length t.tx_sign
  pub sign_bound : length t.tx_sign < 1024

-- The bytes that write appends.
pub txn_bytes : Txn → List ℕ
txn_bytes t =
    encode_le 4 (length t.public_key)
    ++ (encode_le 4 (length t.tx_sign)
        ++ (encode_le 8 t.amount
            ++ (t.public_key
                ++ (t.source_addr
                    ++ (t.dest_addr ++ (t.change_addr ++ (t.tx_hash ++ t.tx_sign)))))))

pub txn_bytes-append : (t : Txn) (rest : List ℕ) → txn_bytes t ++ rest ≡ packed t rest
unfolding packed body_bytes txn_bytes
txn_bytes-append t rest = simp append_assoc

int_size-eq : (v : List ℕ) → length v < 1024 → int_size v ≡ length v
int_size-eq v h = omega arith

pub write-txn_bytes :
    (t : Txn) (out : List ℕ) → IsWritable t → write t out ≡ ok (out ++ txn_bytes t)
unfolding write txn_bytes
write-txn_bytes t out h =
    rw (int_size-eq t.public_key h.key_bound, int_size-eq t.tx_sign h.sign_bound) (ground arith)

read_sized-body_bytes :
    (t u : Txn) (start rest : List ℕ) (bufsz : ℕ)
    → HasFieldSizes t
    → length t.public_key < 1024
    → length t.tx_sign ≤ 1024
    → txn_size t ≤ bufsz
    → length start ≡ length (body_bytes t rest) + header_size
    → read_sized u (length t.public_key) (length t.tx_sign) start (body_bytes t rest) bufsz
      ≡ ok (record t { amount = u.amount; valid = false }, txn_size t)
unfolding read_sized txn_size size
read_sized-body_bytes t u start rest bufsz h hk hs fits e =
    let u1 = record u {
      public_key = resize (length t.public_key) u.public_key;
      tx_sign = resize (length t.tx_sign) u.tx_sign;
      valid = false;
    } in
    ground (arith, read_fields-body_bytes t u1 start rest h e)

read_header :
    (u : Txn) (pk sg amount : ℕ) (body : List ℕ) (bufsz : ℕ)
    → pk < 2 ^ 32
    → sg < 2 ^ 32
    → amount < uint64_mod
    → header_size ≤ bufsz
    → let buffer = encode_le 4 pk ++ (encode_le 4 sg ++ (encode_le 8 amount ++ body)) in
      read u buffer bufsz ≡ read_sized (record u { amount = amount }) pk sg buffer body bufsz
unfolding read
read_header u pk sg amount body bufsz hp hs ha fits = ground (
  arith,
  read_word-append 4 pk (encode_le 4 sg ++ (encode_le 8 amount ++ body)),
  read_word-append 4 sg (encode_le 8 amount ++ body),
  read_word-append 8 amount body,
)

read-packed :
    (t u : Txn) (rest : List ℕ) (bufsz : ℕ)
    → HasFieldSizes t
    → length t.public_key < 1024
    → length t.tx_sign ≤ 1024
    → txn_size t ≤ bufsz
    → read u (packed t rest) bufsz ≡ ok (record t { valid = false }, txn_size t)
unfolding txn_size size packed
read-packed t u rest bufsz h hk hs fits =
    read_header u (length t.public_key) (length t.tx_sign) t.amount (body_bytes t rest) bufsz
      (omega arith) (omega arith) h.amount_range (omega arith)
    ∙ read_sized-body_bytes t _ _ rest bufsz h hk hs fits
        (omega (arith, length-packed t rest h, length-body_bytes t rest h))

pub length-txn_bytes : (t : Txn) → HasFieldSizes t → length (txn_bytes t) ≡ txn_size t
length-txn_bytes t h =
    omega (
      arith,
      length-packed t [] h,
      ap length (txn_bytes-append t []),
      length-append (txn_bytes t) [],
    )

pub read-txn_bytes :
    (t u : Txn) (rest : List ℕ) (bufsz : ℕ)
    → HasFieldSizes t
    → IsWritable t
    → txn_size t ≤ bufsz
    → read u (txn_bytes t ++ rest) bufsz ≡ ok (record t { valid = false }, txn_size t)
read-txn_bytes t u rest bufsz h w fits =
    rw (txn_bytes-append t rest) (read-packed t u rest bufsz h w.key_bound (omega arith) fits)

-- A transaction whose public key and signature have 1 to 1023 bytes is written, after what the
-- stream held, as txn_size bytes; and whatever object reads them back, out of a buffer in which
-- they may be followed by more, becomes that transaction, not yet validated, and takes exactly
-- those bytes.
pub read-write :
    (t u : Txn) (out rest : List ℕ) (bufsz : ℕ)
    → HasFieldSizes t
    → IsWritable t
    → txn_size t ≤ bufsz
    → (bytes : List ℕ) × (write t out ≡ ok (out ++ bytes))
      × (length bytes ≡ txn_size t)
      × (read u (bytes ++ rest) bufsz ≡ ok (record t { valid = false }, txn_size t))
read-write t u out rest bufsz h w fits = (
  txn_bytes t,
  write-txn_bytes t out w,
  length-txn_bytes t h,
  read-txn_bytes t u rest bufsz h w fits,
)

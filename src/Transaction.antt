-- ===== src/Transaction.antt =====
-- transaction.h and transaction.cpp (day 3 and day 4): txn_t and its operations.
-- A uint64_t is a number below 2 ^ 64. An output stream is the list of the bytes written so far.
pub mod Codec
pub mod Balances
pub mod Supply
pub mod Safety
pub mod Authentic
pub mod Preimage
pub mod Signing
pub mod Refusal
use bootcamp.Base.{
  ℕ, ◌+◌, ◌-◌, ◌%◌, ◌^◌, Bool, false, not, ◌&&◌, ◌||◌, none, some, List, [], ◌++◌, ltb, leb, ◌==◌,
  if◌then◌else◌, length, take, replicate, Result, ok, err, assertion, assert, ◌>>=◌, ◌>>◌,
}
use bootcamp.Wire.{encode_le, read_bytes, read_word, is_negative}
use bootcamp.SortedMap.{Entries, find, insert, erase, value_or_zero}
use bootcamp.Crypto.{
  HashResult, hash_size, empty_hash, hash_eq, size, OpenSsl, rsa_public_key, verify, sign,
}
use bootcamp.Crypto.Order.{hash_order}

-- balance_map_t
abbrev pub BalanceMap : Type 0
BalanceMap = Entries HashResult ℕ

abbrev pub uint64_mod : ℕ
uint64_mod = 2 ^ 64

-- txn_t
pub record Txn : Type 0 where
  pub public_key : List ℕ
  pub source_addr : HashResult
  pub dest_addr : HashResult
  pub change_addr : HashResult
  pub amount : ℕ
  pub tx_hash : HashResult
  pub tx_sign : List ℕ
  pub valid : Bool

-- txn_t::txn_t(): the amount and the flag are not initialised, and hold what the memory held.
unfoldable pub default_txn : ℕ → Bool → Txn
unfolding empty_hash
default_txn amount valid = record {
  public_key = [];
  source_addr = empty_hash;
  dest_addr = empty_hash;
  change_addr = empty_hash;
  amount = amount;
  tx_hash = empty_hash;
  tx_sign = [];
  valid = valid;
}

-- The bytes that the SHA256_Update calls pass to the digest.
unfoldable pub preimage : List ℕ → HashResult → HashResult → HashResult → ℕ → List ℕ
preimage public_key source dest change amount =
    public_key ++ (source ++ (dest ++ (change ++ encode_le 8 amount)))

abbrev pub txn_preimage : Txn → List ℕ
txn_preimage t = preimage t.public_key t.source_addr t.dest_addr t.change_addr t.amount

-- txn_t::balance_available
unfoldable pub balance_available : Txn → BalanceMap → Bool
balance_available t balances = elim (find t.source_addr balances) [
  | none ↦ false
  | some held ↦ leb t.amount held
]

-- balances[addr] += x;
unfoldable pub add_balance : HashResult → ℕ → BalanceMap → BalanceMap
add_balance addr x balances =
    insert addr ((value_or_zero (find addr balances) + x) % uint64_mod) balances

-- txn_t::update_balances
unfoldable pub update_balances : Txn → BalanceMap → Result BalanceMap
unfolding add_balance
update_balances t balances = elim (find t.source_addr balances) [
  | none ↦ err assertion
  | some held ↦ do
    assert (leb t.amount held)
    let change = held - t.amount
    let credited = add_balance t.dest_addr t.amount balances
    ok (erase t.source_addr (add_balance t.change_addr change credited))
]

-- txn_t::size
unfoldable pub txn_size : Txn → ℕ
unfolding size
txn_size t =
    4
    + 4
    + 8
    + length t.public_key
    + size t.source_addr
    + size t.dest_addr
    + size t.change_addr
    + size t.tx_hash
    + length t.tx_sign

module _ (ssl : OpenSsl) where
  -- txn_t::txn_t(privkey, pubkey, src_addr, dst_addr, chng_addr, amt)
  unfoldable pub signed_txn :
      ssl.PrivateKey → List ℕ → HashResult → HashResult → HashResult → ℕ → Txn
  unfolding sign
  signed_txn privkey pubkey src dst chng amt =
      let hash = ssl.sha256 (preimage pubkey src dst chng amt) in
      record {
        public_key = pubkey;
        source_addr = src;
        dest_addr = dst;
        change_addr = chng;
        amount = amt;
        tx_hash = hash;
        tx_sign = sign ssl privkey hash;
        valid = false;
      }

  -- The last lines of txn_t::validate.
  unfoldable pub check_signature : Txn → HashResult → Result (Txn × Bool)
  unfolding rsa_public_key verify
  check_signature t hash = do
    pubkey ← rsa_public_key ssl t.public_key
    v ← verify ssl pubkey hash t.tx_sign
    ok (record t { valid = v }, v)

  -- txn_t::validate
  unfoldable pub validate : Txn → Result (Txn × Bool)
  unfolding check_signature size hash_eq
  validate txn =
      let t = record txn { valid = false } in
      let hash = ssl.sha256 (txn_preimage t) in
      let checked = check_signature t hash in
      if leb t.amount 0
      then ok (t, false)
      else if not (size t.source_addr == hash_size)
      then ok (t, false)
      else if not (size t.dest_addr == hash_size)
      then ok (t, false)
      else if not (size t.change_addr == hash_size)
      then ok (t, false)
      else if not (hash_eq (ssl.sha256 t.public_key) t.source_addr)
      then ok (t, false)
      else if not (size t.tx_hash == hash_size)
      then ok (t, false)
      else if not (hash_eq t.tx_hash hash)
      then ok (t, false)
      else checked

-- An int holds a std::vector's size modulo 2 ^ 32, and 0 < n < 1024 excludes the negative ones.
abbrev pub int_size : List ℕ → ℕ
int_size v = length v % 2 ^ 32

abbrev pub is_sane : ℕ → Bool
is_sane n = ltb 0 n && ltb n 1024

-- txn_t::write
unfoldable pub write : Txn → List ℕ → Result (List ℕ)
write t out = do
  assert (is_sane (int_size t.public_key))
  assert (is_sane (int_size t.tx_sign))
  ok (
      out
      ++ (encode_le 4 (int_size t.public_key)
          ++ (encode_le 4 (int_size t.tx_sign)
              ++ (encode_le 8 t.amount
                  ++ (t.public_key
                      ++ (t.source_addr
                          ++ (t.dest_addr ++ (t.change_addr ++ (t.tx_hash ++ t.tx_sign)))))))))

-- std::vector::resize
abbrev pub resize : ℕ → List ℕ → List ℕ
resize n v = take n v ++ replicate (n - length v) 0

abbrev pub header_size : ℕ
header_size = 4 + 4 + 8

abbrev pub body_size : ℕ → ℕ → ℕ
body_size pubkey_sz sign_sz = pubkey_sz + hash_size + hash_size + hash_size + hash_size + sign_sz

-- The copies of txn_t::read(buffer, bufsz), from the end of the header on.
unfoldable pub read_fields : Txn → ℕ → ℕ → List ℕ → List ℕ → Result (Txn × ℕ)
read_fields t pubkey_sz sign_sz start at0 = do
  (public_key, at1) ← read_bytes pubkey_sz at0
  (source_addr, at2) ← read_bytes hash_size at1
  (dest_addr, at3) ← read_bytes hash_size at2
  (change_addr, at4) ← read_bytes hash_size at3
  (tx_hash, at5) ← read_bytes hash_size at4
  (tx_sign, at6) ← read_bytes sign_sz at5
  assert ((length start - length at6) == header_size + body_size pubkey_sz sign_sz)
  ok (
    record t {
      public_key = public_key;
      source_addr = source_addr;
      dest_addr = dest_addr;
      change_addr = change_addr;
      tx_hash = tx_hash;
      tx_sign = tx_sign;
    },
    header_size + body_size pubkey_sz sign_sz,
  )

-- The size checks of txn_t::read(buffer, bufsz).
unfoldable pub read_sized : Txn → ℕ → ℕ → List ℕ → List ℕ → ℕ → Result (Txn × ℕ)
read_sized t pubkey_sz sign_sz start at0 bufsz =
    let t1 = record t {
      public_key = resize pubkey_sz t.public_key;
      tx_sign = resize sign_sz t.tx_sign;
      valid = false;
    } in
    let copied = read_fields t1 pubkey_sz sign_sz start at0 in
    if is_negative pubkey_sz || leb 1024 pubkey_sz
    then ok (t, 0)
    else if is_negative sign_sz || ltb 1024 sign_sz
    then ok (t, 0)
    else if ltb bufsz (header_size + body_size pubkey_sz sign_sz)
    then ok (t1, 0)
    else copied

-- txn_t::read(buffer, bufsz): the transaction after the call, and the returned size.
unfoldable pub read : Txn → List ℕ → ℕ → Result (Txn × ℕ)
read txn buffer bufsz = if ltb bufsz header_size then ok (txn, 0) else do
  (pubkey_sz, at1) ← read_word 4 buffer
  (sign_sz, at2) ← read_word 4 at1
  (amount, at3) ← read_word 8 at2
  read_sized (record txn { amount = amount }) pubkey_sz sign_sz buffer at3 bufsz

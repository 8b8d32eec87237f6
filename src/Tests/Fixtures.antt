-- ===== src/Tests/Fixtures.antt =====
-- A stand-in for OpenSSL that satisfies what the theorems ask of it, two users, and a chain of
-- two blocks. The digest is the little-endian number of the bytes plus one, cut to 32 bytes; a
-- signature is the key followed by what is signed; every key but the empty one decodes.
use bootcamp.Base.{ℕ, ◌+◌, Option, none, some, List, [], ◌∷◌, ◌++◌, replicate, if◌then◌else◌, true}
use bootcamp.Wire.{encode_le, decode_le}
use bootcamp.Crypto.{HashResult, OpenSsl, AuthStatus, accepted, rejected, hash_eq}
use bootcamp.Transaction.{Txn, BalanceMap, signed_txn}
use bootcamp.Block.{Block, Store, block_input, default_block}

abbrev pub decode_key : List ℕ → Option (List ℕ)
decode_key [] = none
decode_key (b ∷ bs) = some (b ∷ bs)

abbrev pub digest : List ℕ → List ℕ
unfolding encode_le decode_le
digest bytes = encode_le 32 (decode_le bytes + 1)

abbrev pub check : List ℕ → List ℕ → List ℕ → AuthStatus
unfolding hash_eq
check key blk sign = if hash_eq sign (key ++ blk) then accepted else rejected

abbrev pub toy_ssl : OpenSsl
toy_ssl = record {
  PublicKey = List ℕ;
  PrivateKey = List ℕ;
  sha256 = digest;
  d2i_public = decode_key;
  i2d_public = λ key. key;
  digest_verify = check;
  digest_sign = λ key blk. key ++ blk;
}

abbrev pub alice_key : List ℕ
alice_key = 1 ∷ []

abbrev pub alice : HashResult
alice = 2 ∷ replicate 31 0

abbrev pub bob : HashResult
bob = 3 ∷ replicate 31 0

abbrev pub carol : HashResult
carol = 4 ∷ replicate 31 0

-- Alice pays 30 to Bob, and has the change sent to Carol.
abbrev pub payment : Txn
payment = signed_txn toy_ssl alice_key alice_key alice bob carol 30

-- Alice pays 30 to Bob, and asks for the change at the address that she pays from.
abbrev pub change_to_self : Txn
change_to_self = signed_txn toy_ssl alice_key alice_key alice bob alice 30

abbrev pub opening : BalanceMap
opening = (alice, 100) ∷ []

-- The block that pays Alice, with no block before it, and the store of that block.
abbrev pub genesis_fields : Block
genesis_fields = record default_block { reward_addr = alice }

abbrev pub genesis : Block
genesis = record genesis_fields {
  balances = (alice, 100) ∷ [];
  blk_hash = digest (block_input genesis_fields);
  valid = true;
}

abbrev pub store : Store
store = genesis ∷ []

-- The block that holds Alice's payment and pays Carol.
abbrev pub second_fields : Block
second_fields = record default_block {
  reward_addr = carol;
  transactions = payment ∷ [];
  prev_hash = genesis.blk_hash;
  prev_block = some 0;
  length = 2;
}

abbrev pub second : Block
second = record second_fields { blk_hash = digest (block_input second_fields) }

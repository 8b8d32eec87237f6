-- ===== src/Tests/Generators.antt =====
-- The generator, with a digest that is never 0.
use bootcamp.Base.{ℕ, suc, ◌+◌, ◌*◌, ◌≡◌, refl, List, [], ◌∷◌, ◌++◌, replicate, length, arith, ok}
use bootcamp.Wire.{decode_le}
use bootcamp.Crypto.{OpenSsl, hash_eq, accepted}
use bootcamp.Crypto.Order.{hash_eq_iff}
use bootcamp.Transaction.Signing.{IsKeyPair}
use bootcamp.ChainReader.{Chain, read_chain}
use bootcamp.Generator.{Sources, create_chain_and_write}
use bootcamp.Generator.Funds.{IsSupply}
use bootcamp.Generator.Chains.{IsLine, create_chain_and_write-read_chain}
use bootcamp.Tests.Fixtures.{toy_ssl, check}

-- The number of the bytes and one more, in front of 0.
abbrev counting_digest : List ℕ → List ℕ
unfolding decode_le
counting_digest bytes = suc (decode_le bytes) ∷ replicate 31 0

-- The stand-in of the fixtures, with this digest.
abbrev counting_ssl : OpenSsl
counting_ssl = record toy_ssl { sha256 = counting_digest }

abbrev key_of : ℕ → List ℕ
key_of i = suc i ∷ []

abbrev toy_sources : Sources counting_ssl
toy_sources = record { keys = λ i. (key_of i, key_of i); rand = λ i. 5 * i + 3; visit = λ m. m }

signs : (key m : List ℕ) → check key m (key ++ m) ≡ accepted
unfolding hash_eq
signs key m = rw ((hash_eq_iff (key ++ m) (key ++ m)).1 refl) refl

key_of-IsKeyPair : (i : ℕ) → IsKeyPair counting_ssl (key_of i) (key_of i) (key_of i)
key_of-IsKeyPair i = record {
  decodes = refl;
  encodes = omega arith;
  accepts = λ m. signs (key_of i) m;
}

toy_sources-IsSupply : IsSupply counting_ssl toy_sources 12
unfolding decode_le
toy_sources-IsSupply = record {
  pair = λ i. (key_of i, key_of-IsKeyPair i);
  fresh = λ i j p q e. ground (arith, e);
  der_size = λ i. (omega arith, omega arith);
  sign_size = λ i bytes. (omega arith, omega arith);
  digest_size = λ bytes. refl;
  not_zero = λ bytes. ground arith;
  entries = λ m k u. ((λ t. t), (λ t. t));
  count = λ m. refl;
}

create_chain_and_write-read_chain_example :
    (out : List ℕ) × (c : Chain) × (create_chain_and_write counting_ssl toy_sources 2 3 ≡ ok out)
    × (read_chain counting_ssl out ≡ ok c)
    × (length c.store ≡ 2)
    × IsLine c.store
create_chain_and_write-read_chain_example =
    create_chain_and_write-read_chain counting_ssl toy_sources 12 toy_sources-IsSupply 2 3
      (omega arith) (omega arith) (omega arith)

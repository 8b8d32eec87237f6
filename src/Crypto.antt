-- ===== src/Crypto.antt =====
-- crypto.h and crypto.cpp: hash_result_t, and the key classes over what OpenSSL provides.
-- A hash_result_t is the list of its SHA256_DIGEST_LENGTH bytes.
pub mod Order
pub mod Print
use bootcamp.Base.{
  ℕ, suc, ◌+◌, ◌/◌, ◌%◌, ◌≡◌, Bool, true, false, not, Option, none, some, List, [], ◌∷◌, ◌++◌, ltb,
  ◌==◌, if◌then◌else◌, length, replicate, All, Result, ok, err, exception, assertion, assert,
  out_of_bounds, ◌>>=◌, ◌>>◌,
}
use bootcamp.Wire.{IsByte}

abbrev pub HashResult : Type 0
HashResult = List ℕ

abbrev pub hash_size : ℕ
hash_size = 32

abbrev pub IsHash : HashResult → Type 0
IsHash h = (length h ≡ hash_size) × All IsByte h

-- hash_result_t::hash_result_t()
unfoldable pub empty_hash : HashResult
empty_hash = replicate hash_size 0

-- hash_result_t::size()
unfoldable pub size : HashResult → ℕ
size h = hash_size

-- The loop over both arrays, which are equally long; the last two clauses are never reached.
unfoldable pub hash_eq : HashResult → HashResult → Bool
hash_eq [] [] = true
hash_eq (x ∷ xs) (y ∷ ys) = if x == y then hash_eq xs ys else false
hash_eq [] (y ∷ ys) = false
hash_eq (x ∷ xs) [] = false

-- Between arrays of unequal length, which do not occur, a prefix is the lesser one.
unfoldable pub hash_lt : HashResult → HashResult → Bool
hash_lt [] [] = false
hash_lt (x ∷ xs) (y ∷ ys) = if ltb x y then true else if ltb y x then false else hash_lt xs ys
hash_lt [] (y ∷ ys) = true
hash_lt (x ∷ xs) [] = false

-- What EVP_DigestVerifyFinal answers: 1, 0, or any other number.
pub data AuthStatus : Type 0 where
  accepted rejected failed : AuthStatus

-- The calls of OpenSSL, on whose results the program branches.
pub record OpenSsl : Type 1 where
  pub PublicKey : Type 0
  pub PrivateKey : Type 0
  pub sha256 : List ℕ → List ℕ
  pub d2i_public : List ℕ → Option PublicKey
  pub i2d_public : PublicKey → List ℕ
  pub digest_verify : PublicKey → List ℕ → List ℕ → AuthStatus
  pub digest_sign : PrivateKey → List ℕ → List ℕ

-- A digest has SHA256_DIGEST_LENGTH bytes.
abbrev pub DigestIsHash : OpenSsl → Type 0
DigestIsHash ssl = (bytes : List ℕ) → IsHash (ssl.sha256 bytes)

module _ (ssl : OpenSsl) where
  -- rsa_public_key_t
  pub record RsaPublicKey : Type 0 where
    pub rsa : ssl.PublicKey
    pub key_der : List ℕ

  -- rsa_public_key_t::_createDERBuffer
  unfoldable pub create_der_buffer : ssl.PublicKey → Result RsaPublicKey
  create_der_buffer key = do
    assert (ltb 0 (length (ssl.i2d_public key)))
    ok (record { rsa = key; key_der = ssl.i2d_public key })

  -- rsa_public_key_t::rsa_public_key_t(der, derSz)
  unfoldable pub rsa_public_key : List ℕ → Result RsaPublicKey
  unfolding create_der_buffer
  rsa_public_key der = elim (ssl.d2i_public der) [
    | none ↦ err exception
    | some key ↦ create_der_buffer key
  ]

  abbrev pub auth_result : AuthStatus → Result Bool
  auth_result accepted = ok true
  auth_result rejected = ok false
  auth_result failed = err assertion

  -- rsa_private_key_t::sign
  unfoldable pub sign : ssl.PrivateKey → List ℕ → List ℕ
  sign key blk = ssl.digest_sign key blk

  -- rsa_public_key_t::verify
  unfoldable pub verify : RsaPublicKey → List ℕ → List ℕ → Result Bool
  verify key blk sig = auth_result (ssl.digest_verify key.rsa blk sig)

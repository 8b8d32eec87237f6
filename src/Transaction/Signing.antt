-- ===== src/Transaction/Signing.antt =====
-- The headline facts of validate: exactly what it accepts, that what the signing constructor
-- makes is accepted, and that the signed bytes determine the transaction.
use bootcamp.Base.{refl, ◌∙◌, ap, sym, ℕ, ◌<◌, ◌≡◌, ◌↔◌, true, some, List, length, ok}
use bootcamp.Crypto.{OpenSsl, HashResult, accepted}
use bootcamp.Transaction.{Txn, validate, signed_txn}
use bootcamp.Transaction.Authentic.{IsSealed, Answers, validate-Answers, validate-eq-true}

module _ (ssl : OpenSsl) where
  -- validate answers true and leaves the transaction t' exactly where the transaction is sealed,
  -- OpenSSL accepts the signature of its hash under its public key, and t' is the transaction with
  -- its flag set. So there is no other transaction for which it answers true.
  pub validate_iff :
      (t t' : Txn)
      → (validate ssl t ≡ ok (t', true)) ↔ (
          IsSealed ssl t
          × ((key : ssl.PublicKey) × Answers ssl t key accepted)
          × (t' ≡ record t { valid = true }))
  validate_iff t t' = (
    validate-eq-true ssl t t',
    (λ h.
        let (sealed, (key, a), same) = h in
        validate-Answers ssl t key accepted sealed a ∙ ap (λ x. ok (x, true)) (sym same)),
  )

  -- A key pair: the public key decodes, and what the private key signs it accepts.
  pub record IsKeyPair (private : ssl.PrivateKey) (der : List ℕ) (key : ssl.PublicKey)
      : Type 0 where
    pub decodes : ssl.d2i_public der ≡ some key
    pub encodes : 0 < length (ssl.i2d_public key)
    pub accepts : (m : List ℕ) → ssl.digest_verify key m (ssl.digest_sign private m) ≡ accepted

  -- A transaction of a positive amount that the signing constructor makes with a key pair, for the
  -- address of its public key, is valid.
  pub validate-signed_txn :
      (private : ssl.PrivateKey) (der : List ℕ) (key : ssl.PublicKey) (dest change : HashResult)
      (amount : ℕ)
      → IsKeyPair private der key
      → 0 < amount
      → let t = signed_txn ssl private der (ssl.sha256 der) dest change amount in
        validate ssl t ≡ ok (record t { valid = true }, true)
  unfolding signed_txn
  validate-signed_txn private der key dest change amount pair positive =
      validate-Answers ssl (signed_txn ssl private der (ssl.sha256 der) dest change amount) key
        accepted (record { spends = positive; owned = refl; hashed = refl })
        (record { decodes = pair.decodes; encodes = pair.encodes; verdict = pair.accepts _ })

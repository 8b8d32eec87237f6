-- ===== src/Transaction/Authentic.antt =====
-- txn_t::validate against a description of an authentic transaction, and the constructor that
-- signs.
use bootcamp.Base.{
  ◌&&◌, leb, Bool-cases, ap, inr, ◌∙◌, Option-cases, sym, inl, ◌⊎◌, assertion, Bool, err, true,
  Result, ok, ◌<◌, ◌≡◌, false, some, length, arith,
}
use bootcamp.Crypto.{hash_eq, failed, rejected, HashResult, accepted, OpenSsl, AuthStatus}
use bootcamp.Crypto.Order.{hash_eq_iff}
use bootcamp.Transaction.{Txn, txn_preimage, validate, check_signature}

module _ (ssl : OpenSsl) where
  -- The transaction spends money, its source is the hash of its public key, and its hash covers
  -- its fields.
  pub record IsSealed (t : Txn) : Type 0 where
    pub spends : 0 < t.amount
    pub owned : ssl.sha256 t.public_key ≡ t.source_addr
    pub hashed : ssl.sha256 (txn_preimage t) ≡ t.tx_hash

  -- The public key decodes to `key`, and OpenSSL answers `status` to the signature of the hash.
  pub record Answers (t : Txn) (key : ssl.PublicKey) (status : AuthStatus) : Type 0 where
    pub decodes : ssl.d2i_public t.public_key ≡ some key
    pub encodes : 0 < length (ssl.i2d_public key)
    pub verdict : ssl.digest_verify key t.tx_hash t.tx_sign ≡ status

  -- A sealed transaction that is validated comes to its signature.
  pub validate-IsSealed :
      (t : Txn)
      → IsSealed t
      → validate ssl t
        ≡ check_signature ssl (record t { valid = false }) (ssl.sha256 (txn_preimage t))
  unfolding validate
  validate-IsSealed t h = ground (
    arith,
    (hash_eq_iff (ssl.sha256 t.public_key) t.source_addr).1,
    (hash_eq_iff t.tx_hash (ssl.sha256 (txn_preimage t))).1,
  )

  abbrev verdict_result : Txn → AuthStatus → Result (Txn × Bool)
  verdict_result t accepted = ok (record t { valid = true }, true)
  verdict_result t rejected = ok (record t { valid = false }, false)
  verdict_result t failed = err assertion

  -- What validate returns for a sealed transaction whose key decodes, by OpenSSL's verdict: a
  -- verdict other than 1 and 0 trips the assert.
  pub validate-Answers :
      (t : Txn) (key : ssl.PublicKey) (status : AuthStatus)
      → IsSealed t
      → Answers t key status
      → validate ssl t ≡ verdict_result t status
  unfolding check_signature
  validate-Answers t key accepted h a =
      ground (arith, validate-IsSealed t h, h.hashed, a.decodes, a.verdict)
  validate-Answers t key rejected h a =
      ground (arith, validate-IsSealed t h, h.hashed, a.decodes, a.verdict)
  validate-Answers t key failed h a =
      ground (arith, validate-IsSealed t h, h.hashed, a.decodes, a.verdict)

  -- A transaction that is not sealed is rejected without a look at its key.
  pub validate_unsealed :
      (t : Txn) → ¬ IsSealed t → validate ssl t ≡ ok (record t { valid = false }, false)
  unfolding validate
  validate_unsealed t h = ground (
    arith,
    (hash_eq_iff (ssl.sha256 t.public_key) t.source_addr).0,
    (hash_eq_iff t.tx_hash (ssl.sha256 (txn_preimage t))).0,
    λ (p : 0 < t.amount) (q : ssl.sha256 t.public_key ≡ t.source_addr)
          (r : ssl.sha256 (txn_preimage t) ≡ t.tx_hash).
        h (record { spends = p; owned = q; hashed = r }),
  )

  -- The key, when the signature is accepted.
  check_signature-eq-true :
      (t t' : Txn) (hash : HashResult)
      → check_signature ssl t hash ≡ ok (t', true)
      → (key : ssl.PublicKey) × (ssl.d2i_public t.public_key ≡ some key)
        × (0 < length (ssl.i2d_public key))
        × (ssl.digest_verify key hash t.tx_sign ≡ accepted)
        × (t' ≡ record t { valid = true })
  unfolding check_signature
  check_signature-eq-true t t' hash h = elim (Option-cases (ssl.d2i_public t.public_key)) [
    | inl undecodable ↦ absurd (ground arith)
    | inr (key, decodes) ↦ (key, decodes, ground arith, ground arith, ground arith)
  ]

  pub IsSealed-cases : (t : Txn) → IsSealed t ⊎ (¬ IsSealed t)
  IsSealed-cases t = elim (Bool-cases (leb 1 t.amount && (owned && hashed))) [
    | inl e ↦ inl (record {
      spends = ground arith;
      owned = (hash_eq_iff _ _).0 (ground arith);
      hashed = (hash_eq_iff _ _).0 (ground arith);
    })
    | inr e ↦
        inr
          (λ s. ground (arith, (hash_eq_iff _ _).1 s.owned, (hash_eq_iff _ _).1 s.hashed, s.spends))
  ]
    where
      owned : Bool
      owned = hash_eq (ssl.sha256 t.public_key) t.source_addr

      hashed : Bool
      hashed = hash_eq (ssl.sha256 (txn_preimage t)) t.tx_hash

  -- Where validate answers true, the transaction is sealed, its key decodes, the signature of its
  -- hash is accepted under that key, and only the flag was set.
  pub validate-eq-true :
      (t t' : Txn)
      → validate ssl t ≡ ok (t', true)
      → IsSealed t
        × ((key : ssl.PublicKey) × Answers t key accepted)
        × (t' ≡ record t { valid = true })
  validate-eq-true t t' h = elim (IsSealed-cases t) [
    | inl sealed ↦
        let (key, decodes, encodes, verdict, same) =
          check_signature-eq-true (record t { valid = false }) t' (ssl.sha256 (txn_preimage t))
            (sym (validate-IsSealed t sealed) ∙ h) in
        (
          sealed,
          (
            key,
            record {
              decodes = decodes;
              encodes = encodes;
              verdict = ap (λ x. ssl.digest_verify key x t.tx_sign) (sym sealed.hashed) ∙ verdict;
            },
          ),
          same,
        )
    | inr unsealed ↦ cc (validate_unsealed t unsealed)
  ]

  -- The flag that validate leaves is what it returns.
  pub validate-flag : (t t' : Txn) (v : Bool) → validate ssl t ≡ ok (t', v) → t'.valid ≡ v
  unfolding validate check_signature
  validate-flag t t' v h = ground arith

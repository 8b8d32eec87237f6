-- ===== src/Transaction/Refusal.antt =====
-- How txn_t::validate ends where it does not return: main of the readers catches nothing, and the
-- asserts are compiled in.
use bootcamp.Base.{
  false, ◌∙◌, sym, refl, ap, ◌≡◌, ◌↔◌, ◌⊎◌, inl, inr, ltb, Bool-cases, Option-cases, none, some,
  length, err, Error, assertion, exception, arith,
}
use bootcamp.Crypto.{
  OpenSsl, AuthStatus, accepted, rejected, failed, create_der_buffer, rsa_public_key, verify,
}
use bootcamp.Transaction.{Txn, validate, check_signature}
use bootcamp.Transaction.Authentic.{IsSealed, IsSealed-cases, validate-IsSealed, validate_unsealed}

AuthStatus-cases : (v : AuthStatus) → (v ≡ accepted) ⊎ (v ≡ rejected) ⊎ (v ≡ failed)
AuthStatus-cases accepted = inl refl
AuthStatus-cases rejected = inr (inl refl)
AuthStatus-cases failed = inr (inr refl)

module _ (ssl : OpenSsl) where
  -- OpenSSL decodes the public key, but cannot encode it again, or fails to verify the signature.
  abbrev pub IsUnusable : Txn → Type 0
  IsUnusable t =
      (key : ssl.PublicKey) × (ssl.d2i_public t.public_key ≡ some key)
      × ((length (ssl.i2d_public key) ≡ 0) ⊎ (ssl.digest_verify key t.tx_hash t.tx_sign ≡ failed))

  -- Why the public key and the signature of a transaction end the program.
  abbrev pub Ends : Txn → Error → Type 0
  Ends t why =
      ((why ≡ exception) × (ssl.d2i_public t.public_key ≡ none))
      ⊎ ((why ≡ assertion) × IsUnusable t)

  check_signature-eq-err :
      (t : Txn) (why : Error)
      → check_signature ssl (record t { valid = false }) t.tx_hash ≡ err why
      → Ends t why
  unfolding check_signature rsa_public_key create_der_buffer verify
  check_signature-eq-err t why e = elim (Option-cases (ssl.d2i_public t.public_key)) [
    | inl undecodable ↦ inl (ground (arith, e, undecodable), undecodable)
    | inr (key, decodes) ↦ elim (Bool-cases (ltb 0 (length (ssl.i2d_public key)))) [
      | inr empty ↦
          inr (ground (arith, e, decodes, empty), (key, decodes, inl (ground (arith, empty))))
      | inl encodes ↦ elim (AuthStatus-cases (ssl.digest_verify key t.tx_hash t.tx_sign)) [
        | inl accepts ↦ absurd (ground (arith, e, decodes, encodes, accepts))
        | inr (inl rejects) ↦ absurd (ground (arith, e, decodes, encodes, rejects))
        | inr (inr fails) ↦
            inr (ground (arith, e, decodes, encodes, fails), (key, decodes, inr fails))
      ]
    ]
  ]

  check_signature-Ends :
      (t : Txn) (why : Error)
      → Ends t why
      → check_signature ssl (record t { valid = false }) t.tx_hash ≡ err why
  unfolding check_signature rsa_public_key create_der_buffer verify
  check_signature-Ends t why (inl (same, undecodable)) = ground (arith, same, undecodable)
  check_signature-Ends t why (inr (same, (key, decodes, inl empty))) =
      ground (arith, same, decodes, empty)
  check_signature-Ends t why (inr (same, (key, decodes, inr fails))) =
      elim (Bool-cases (ltb 0 (length (ssl.i2d_public key)))) [
        | inl encodes ↦ ground (arith, same, decodes, encodes, fails)
        | inr empty ↦ ground (arith, same, decodes, empty)
      ]

  -- txn_t::validate does not return exactly where the transaction is sealed, and its public key does
  -- not decode, which ends the program by an exception, or its key decodes, but OpenSSL cannot encode
  -- it again or fails to verify the signature, which trips an assert. So a transaction that is not
  -- sealed never ends the program, whatever its key and its signature are.
  pub validate_err_iff :
      (t : Txn) (why : Error) → (validate ssl t ≡ err why) ↔ (IsSealed ssl t × Ends t why)
  validate_err_iff t why = (
    (λ e. elim (IsSealed-cases ssl t) [
      | inr unsealed ↦ cc (e, validate_unsealed ssl t unsealed)
      | inl sealed ↦ (sealed, check_signature-eq-err t why (sym (reached t sealed) ∙ e))
    ]),
    (λ h. reached t h.0 ∙ check_signature-Ends t why h.1),
  )
    where
      reached :
          (t : Txn)
          → IsSealed ssl t
          → validate ssl t ≡ check_signature ssl (record t { valid = false }) t.tx_hash
      reached t sealed =
          validate-IsSealed ssl t sealed
          ∙ ap (check_signature ssl (record t { valid = false })) sealed.hashed

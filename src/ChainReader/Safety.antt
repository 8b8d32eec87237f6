-- ===== src/ChainReader/Safety.antt =====
-- The reader of a chain on any bytes at all.
use bootcamp.Base.{
  Option, ◌&&◌, ℕ, zero, suc, ◌-◌, ◌≤◌, ◌≡◌, ◌==◌, refl, Bool, true, false, none, some, inl, inr,
  List, [], ◌∷◌, length, drop, length-drop, arith, Result, assertion, exception, out_of_bounds,
  missing_return, ok, err, ◌>>=◌, Returns, leb, ltb, assert, if◌then◌else◌, not, ◌&&◌,
}
use bootcamp.SortedMap.{find}
use bootcamp.Crypto.{
  RsaPublicKey, AuthStatus, auth_result, accepted, rejected, failed, create_der_buffer, hash_eq,
  OpenSsl, rsa_public_key, verify,
}
use bootcamp.Crypto.Order.{hash_order}
use bootcamp.Transaction.{
  txn_preimage, Txn, BalanceMap, balance_available, update_balances, check_signature,
}
use bootcamp.Transaction
use bootcamp.Block.{Block, Store, default_block, validate_txns, validate}
use bootcamp.BlockIo.{read}
use bootcamp.BlockIo.Safety.{BlockReadWithin, read_block_stays_within}
use bootcamp.ChainReader.{Chain, empty_chain, read_next, read_blocks, read_chain}

-- The call reads nothing outside of the memory that it is given; what it returns satisfies the
-- predicate.
abbrev pub StaysInside {ℓ} : {A : Type ℓ} → (A → Type 0) → Result A → Type 0
StaysInside P (ok a) = P a
StaysInside P (err assertion) = Unit
StaysInside P (err exception) = Unit
StaysInside P (err out_of_bounds) = ⊥
StaysInside P (err missing_return) = ⊥

abbrev pub Anything {ℓ} : {A : Type ℓ} → A → Type 0
Anything a = Unit

StaysInside-bind {ℓ κ} :
    {A : Type ℓ} {B : Type κ} (P : A → Type 0) (Q : B → Type 0) (r : Result A) (f : A → Result B)
    → StaysInside P r
    → ((a : A) → P a → StaysInside Q (f a))
    → StaysInside Q (r >>= f)
StaysInside-bind P Q (ok a) f h next = next a h
StaysInside-bind P Q (err assertion) f h next = tt
StaysInside-bind P Q (err exception) f h next = tt
StaysInside-bind P Q (err out_of_bounds) f h next = absurd h
StaysInside-bind P Q (err missing_return) f h next = absurd h

Returns-StaysInside {ℓ} :
    {A : Type ℓ} (P : A → Type 0) (r : Result A) → Returns P r → StaysInside P r
Returns-StaysInside P (ok a) h = h
Returns-StaysInside P (err why) h = absurd h

module _ {ℓ} {A : Type ℓ} (P : A → Type 0) where
  StaysInside-if :
      (b : Bool) (x y : Result A)
      → StaysInside P x
      → StaysInside P y
      → StaysInside P (if b then x else y)
  StaysInside-if true x y f g = f
  StaysInside-if false x y f g = g

  StaysInside-elim :
      (b : Bool) (x y : Result A)
      → (b ≡ true → StaysInside P x)
      → (b ≡ false → StaysInside P y)
      → StaysInside P (elim b [ true ↦ x | false ↦ y ])
  StaysInside-elim true x y f g = f refl
  StaysInside-elim false x y f g = g refl

  StaysInside-option {κ} :
      {B : Type κ} (o : Option B) (x : Result A) (f : B → Result A)
      → StaysInside P x
      → ((b : B) → StaysInside P (f b))
      → StaysInside P (elim o [ none ↦ x | some b ↦ f b ])
  StaysInside-option none x f h next = h
  StaysInside-option (some b) x f h next = next b

assert-StaysInside : (b : Bool) → StaysInside Anything (assert b)
assert-StaysInside b = StaysInside-if Anything b (ok tt) (err assertion) tt tt

update_balances-StaysInside :
    (t : Txn) (m : BalanceMap) → StaysInside Anything (update_balances t m)
unfolding update_balances
update_balances-StaysInside t m = StaysInside-option Anything (find t.source_addr m) _ _ tt λ held.
    StaysInside-bind Anything Anything (assert (leb t.amount held)) _
      (assert-StaysInside (leb t.amount held)) (λ _ _. tt)

module _ (ssl : OpenSsl) where
  auth_result-StaysInside : (status : AuthStatus) → StaysInside Anything (auth_result ssl status)
  auth_result-StaysInside accepted = tt
  auth_result-StaysInside rejected = tt
  auth_result-StaysInside failed = tt

  create_der_buffer-StaysInside :
      (key : ssl.PublicKey) → StaysInside Anything (create_der_buffer ssl key)
  unfolding create_der_buffer
  create_der_buffer-StaysInside key =
      let encodes = ltb 0 (length (ssl.i2d_public key)) in
      let made : Unit {0} → Result (RsaPublicKey ssl) =
        λ _. ok (record { rsa = key; key_der = ssl.i2d_public key }) in
      StaysInside-bind Anything Anything (assert encodes) made (assert-StaysInside encodes)
        (λ _ _. tt)

  rsa_public_key-StaysInside : (der : List ℕ) → StaysInside Anything (rsa_public_key ssl der)
  unfolding rsa_public_key
  rsa_public_key-StaysInside der =
      StaysInside-option Anything (ssl.d2i_public der) _ _ tt create_der_buffer-StaysInside

  check_signature-StaysInside :
      (t : Txn) (hash : List ℕ) → StaysInside Anything (check_signature ssl t hash)
  unfolding check_signature verify
  check_signature-StaysInside t hash =
      StaysInside-bind Anything Anything (rsa_public_key ssl t.public_key) _
        (rsa_public_key-StaysInside t.public_key)
        (λ key _.
          StaysInside-bind Anything Anything (verify ssl key hash t.tx_sign) _
            (auth_result-StaysInside (ssl.digest_verify key.rsa hash t.tx_sign)) (λ v _. tt))

  validate_txn-StaysInside : (t : Txn) → StaysInside Anything (Transaction.validate ssl t)
  unfolding Transaction.validate
  validate_txn-StaysInside t =
      let u = record t { valid = false } in
      let hash = ssl.sha256 (txn_preimage u) in
      let no : Result (Txn × Bool) = ok (u, false) in
      let signed = check_signature ssl u hash in
      let sealed = if not (hash_eq t.tx_hash hash) then no else signed in
      let keyed = if not (hash_eq (ssl.sha256 t.public_key) t.source_addr) then no else sealed in
      StaysInside-if Anything (leb t.amount 0) no keyed tt (
        StaysInside-if Anything (not (hash_eq (ssl.sha256 t.public_key) t.source_addr)) no sealed tt
          (StaysInside-if Anything (not (hash_eq t.tx_hash hash)) no signed tt
            (check_signature-StaysInside u hash)))

  validate_txns-StaysInside :
      (ts : List Txn) (m : BalanceMap) → StaysInside Anything (validate_txns ssl ts m)
  unfolding validate_txns
  validate_txns-StaysInside [] m = tt
  validate_txns-StaysInside (t ∷ ts) m =
      StaysInside-bind Anything Anything (Transaction.validate ssl t) _ (validate_txn-StaysInside t)
        (λ (u, v) _.
          StaysInside-elim Anything (u.valid && balance_available u m) _ _
            (λ _.
              StaysInside-bind Anything Anything (update_balances u m) _
                (update_balances-StaysInside u m)
                (λ paid _.
                  StaysInside-bind Anything Anything (validate_txns ssl ts paid) _
                    (validate_txns-StaysInside ts paid) (λ r _. tt)))
            (λ _. tt))

  validate-StaysInside : (store : Store) (b : Block) → StaysInside Anything (validate ssl store b)
  unfolding validate
  validate-StaysInside store b =
      StaysInside-bind Anything Anything _ _ (validate_txns-StaysInside _ _) (λ r _. tt)

  read_next-StaysInside :
      (c : Chain) (at0 : List ℕ) (left : ℕ)
      → left ≤ length at0
      → StaysInside (λ (c', n). n ≤ left) (read_next ssl c at0 left)
  unfolding read_next default_block
  read_next-StaysInside c at0 left h =
      StaysInside-bind (BlockReadWithin left) (λ (c', n). n ≤ left)
        (read c.store c.bmap default_block at0 left) _
        (Returns-StaysInside (BlockReadWithin left) _
          (read_block_stays_within c.store c.bmap default_block at0 left refl h))
        (λ (blk, n) within.
          StaysInside-elim (λ (c', k). k ≤ left) (n == 0) _ _ (λ _. omega arith)
            (λ taken.
              StaysInside-bind Anything (λ (c', k). k ≤ left) (validate ssl c.store blk) _
                (validate-StaysInside c.store blk)
                (λ (b, v) _.
                  StaysInside-elim (λ (c', k). k ≤ left) v _ _ (λ _. fits n blk within taken)
                    (λ _. fits n blk within taken))))
    where
      fits : (n : ℕ) (b : Block) → BlockReadWithin left (b, n) → (n == 0) ≡ false → n ≤ left
      fits n b (inl e) taken = absurd (ground (arith, taken, e))
      fits n b (inr (_, h)) taken = h

  read_blocks-StaysInside :
      (rounds : ℕ) (c : Chain) (at0 : List ℕ) (left : ℕ)
      → left ≤ length at0
      → StaysInside Anything (read_blocks ssl rounds c at0 left)
  unfolding read_blocks
  read_blocks-StaysInside zero c at0 left h = tt
  read_blocks-StaysInside (suc rounds) c at0 left h =
      StaysInside-elim Anything (left == 0) _ _ (λ _. tt)
        (λ bytes.
          StaysInside-bind (λ (c', n). n ≤ left) Anything (read_next ssl c at0 left) _
            (read_next-StaysInside c at0 left h)
            (λ (next, n) fits.
              StaysInside-elim Anything (n == 0) _ _ (λ _. tt)
                (λ taken.
                  read_blocks-StaysInside rounds next (drop n at0) (left - n)
                    (omega (arith, length-drop n at0, h, fits)))))

  -- Whatever a file holds, and however its bytes claim to go on, the reader reads nothing outside
  -- the bytes of the file.
  pub read_chain-StaysInside : (bytes : List ℕ) → StaysInside Anything (read_chain ssl bytes)
  unfolding read_chain
  read_chain-StaysInside bytes =
      read_blocks-StaysInside (length bytes) empty_chain bytes (length bytes) (omega arith)

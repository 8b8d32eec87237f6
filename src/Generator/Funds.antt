-- ===== src/Generator/Funds.antt =====
-- The map of the generator while it runs: each entry belongs to a key pair that was made, and there
-- are enough of them.
use bootcamp.Base.{
  ℕ, ◌^◌, ◌≤◌, ◌<◌, ◌≡◌, ◌↔◌, ◌∙◌, false, Bool-cases, Option-cases, inl, inr, none, some, List,
  length, arith,
}
use bootcamp.Crypto.{HashResult, hash_eq, OpenSsl, hash_size}
use bootcamp.Transaction.Signing.{IsKeyPair}
use bootcamp.Block.{all_zero}
use bootcamp.Generator.{Utxo, UtxoMap, Sources, World, find_utxo, set_utxo, new_utxo}
use bootcamp.Generator.Utxos.{
  HasEntry, find_utxo-HasEntry, HasEntry-set_utxo, find_utxo-set_utxo, Distinct, set_utxo-Distinct,
}

module _ (ssl : OpenSsl) (src : Sources ssl) (limit : ℕ) where
  -- What the generator is given: key pairs whose keys and signatures have 1 to 1023 bytes and of
  -- which the first `limit` have different addresses, digests of 32 bytes that are not all 0, and
  -- iterations that visit the entries of a map.
  pub record IsSupply : Type 0 where
    pub pair : (i : ℕ) → (key : ssl.PublicKey) × IsKeyPair ssl (src.keys i).0 (src.keys i).1 key
    pub fresh :
        (i j : ℕ)
        → i < limit
        → j < limit
        → ssl.sha256 (src.keys i).1 ≡ ssl.sha256 (src.keys j).1
        → i ≡ j
    pub der_size : (i : ℕ) → (0 < length (src.keys i).1) × (length (src.keys i).1 < 1024)
    pub sign_size :
        (i : ℕ) (bytes : List ℕ)
        → let sign = ssl.digest_sign (src.keys i).0 (ssl.sha256 bytes) in
          (0 < length sign) × (length sign < 1024)
    pub digest_size : (bytes : List ℕ) → length (ssl.sha256 bytes) ≡ hash_size
    pub not_zero : (bytes : List ℕ) → all_zero (ssl.sha256 bytes) ≡ false
    pub entries :
        (m : UtxoMap ssl) (k : HashResult) (u : Utxo ssl)
        → HasEntry ssl k u (src.visit m) ↔ HasEntry ssl k u m
    pub count : (m : UtxoMap ssl) → length (src.visit m) ≡ length m

  -- An entry that stands under the address of one of the first `made` key pairs.
  pub record IsOwned (made : ℕ) (k : HashResult) (u : Utxo ssl) : Type 0 where
    pub here : k ≡ u.addr
    pub small : u.amount < 2 ^ 64
    pub number : ℕ
    pub used : number < made
    pub priv : u.priv_key ≡ (src.keys number).0
    pub der : u.pub_key ≡ (src.keys number).1
    pub hashed : u.addr ≡ ssl.sha256 (src.keys number).1

  pub record IsFunded (w : World ssl) : Type 0 where
    pub distinct : Distinct ssl w.utxos
    pub owned : (k : HashResult) (u : Utxo ssl) → HasEntry ssl k u w.utxos → IsOwned w.made k u

  abbrev pub HasKey : HashResult → World ssl → Type 0
  HasKey k w = (u : Utxo ssl) × (find_utxo ssl k w.utxos ≡ some u)

  IsOwned-later :
      (made more : ℕ) (k : HashResult) (u : Utxo ssl)
      → made ≤ more
      → IsOwned made k u
      → IsOwned more k u
  IsOwned-later made more k u h o = record {
    here = o.here;
    small = o.small;
    number = o.number;
    used = omega (arith, h, o.used);
    priv = o.priv;
    der = o.der;
    hashed = o.hashed;
  }

  -- The address of a new key pair has no entry.
  pub new_utxo-missing :
      (w : World ssl)
      → IsSupply
      → IsFunded w
      → w.made < limit
      → find_utxo ssl (new_utxo ssl src w.made).addr w.utxos ≡ none
  unfolding new_utxo
  new_utxo-missing w s f room =
      elim (Option-cases (find_utxo ssl (new_utxo ssl src w.made).addr w.utxos)) [
        | inl missing ↦ missing
        | inr (u, e) ↦
            let o = f.owned _ u (find_utxo-HasEntry ssl _ u w.utxos e) in
            let same : w.made ≡ o.number =
              s.fresh w.made o.number room (omega (arith, o.used, room)) (o.here ∙ o.hashed) in
            absurd (omega (arith, same, o.used))
      ]

  -- A world behind another, with no fewer addresses.
  pub record Grows (w w' : World ssl) : Type 0 where
    pub funded : IsFunded w'
    pub kept : (k : HashResult) → HasKey k w → HasKey k w'

  set_utxo-HasKey :
      (k j : HashResult) (u : Utxo ssl) (w : World ssl)
      → HasKey j w
      → (v : Utxo ssl) × (find_utxo ssl j (set_utxo ssl k u w.utxos) ≡ some v)
  set_utxo-HasKey k j u w (v, e) = elim (Bool-cases (hash_eq k j)) [
    | inl same ↦ (u, ground (arith, find_utxo-set_utxo ssl k j u w.utxos, same))
    | inr other ↦ (v, ground (arith, find_utxo-set_utxo ssl k j u w.utxos, other, e))
  ]

  -- An entry that is set, under its own address.
  pub set_utxo-Grows :
      (k : HashResult) (u : Utxo ssl) (w : World ssl) (made : ℕ)
      → IsFunded w
      → w.made ≤ made
      → IsOwned made k u
      → Grows w (record w { utxos = set_utxo ssl k u w.utxos; made = made })
  set_utxo-Grows k u w made f later o = record {
    funded = record {
      distinct = set_utxo-Distinct ssl k u w.utxos f.distinct;
      owned = λ j v t. elim (HasEntry-set_utxo ssl k j u v w.utxos t) [
        | inl (key, value) ↦ rw (key, value) o
        | inr old ↦ IsOwned-later w.made made j v later (f.owned j v old)
      ];
    };
    kept = λ j h. set_utxo-HasKey k j u w h;
  }

  pub IsOwned-amount :
      (made : ℕ) (k : HashResult) (u : Utxo ssl) (amount : ℕ)
      → amount < 2 ^ 64
      → IsOwned made k u
      → IsOwned made k (record u { amount = amount })
  IsOwned-amount made k u amount h o = record {
    here = o.here;
    small = h;
    number = o.number;
    used = o.used;
    priv = o.priv;
    der = o.der;
    hashed = o.hashed;
  }

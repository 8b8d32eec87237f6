-- ===== src/Generator/Choices.antt =====
-- What the generator chooses for a transaction: the three entries and the amount.
use bootcamp.Base.{
  not, ◌&&◌, ltb, ℕ, suc, ◌+◌, ◌%◌, ◌^◌, ◌<◌, ◌≡◌, ◌∙◌, sym, ap, subst, true, false, Bool-cases,
  Option-cases, inl, inr, none, some, List, [], ◌∷◌, length, arith, ok,
}
use mathlib.Core.List.{Memᴰ}
use bootcamp.Crypto.{HashResult, hash_eq, OpenSsl}
use bootcamp.Transaction.{preimage, validate as validate_txn, signed_txn, uint64_mod}
use bootcamp.Transaction.Signing.{validate-signed_txn}
use bootcamp.Block.Validate.{mark_valid}
use bootcamp.BlockIo.Codec.{IsStorable}
use bootcamp.Generator.{
  Utxo, UtxoMap, Sources, World, is_listed, find_spendable, find_other, create_txn, draw_amount,
}
use bootcamp.Generator.Utxos.{HasEntry, unlisted}
use bootcamp.Generator.Funds.{IsSupply, IsOwned, IsFunded}

module _ (ssl : OpenSsl) where
  pub find_spendable-found :
      (reward : HashResult) (m : UtxoMap ssl) (u : Utxo ssl)
      → find_spendable ssl reward m ≡ some u
      → (k : HashResult) × HasEntry ssl k u m × (0 < u.amount) × (hash_eq k reward ≡ false)
  unfolding find_spendable
  find_spendable-found reward [] u e = cc e
  find_spendable-found reward ((k, v) ∷ m) u e =
      elim (Bool-cases (ltb 0 v.amount && not (hash_eq k reward))) [
        | inl fits ↦
            let same : v ≡ u = ground (arith, e, fits) in
            let rich : 0 < v.amount = ground (arith, fits) in
            (
              k,
              Memᴰ.head (ap (λ x. (k, x)) (sym same)),
              subst (λ x. 0 < x.amount) same rich,
              ground (arith, fits),
            )
        | inr other ↦
            let (j, there, rich, apart) =
              find_spendable-found reward m u (ground (arith, e, other)) in
            (j, Memᴰ.tail there, rich, apart)
      ]

  find_other-found :
      (addrs : List HashResult) (m : UtxoMap ssl) (u : Utxo ssl)
      → find_other ssl addrs m ≡ some u
      → (k : HashResult) × HasEntry ssl k u m × (is_listed k addrs ≡ false)
  unfolding find_other
  find_other-found addrs [] u e = cc e
  find_other-found addrs ((k, v) ∷ m) u e = elim (Bool-cases (is_listed k addrs)) [
    | inr free ↦
        let same : v ≡ u = ground (arith, e, free) in
        (k, Memᴰ.head (ap (λ x. (k, x)) (sym same)), free)
    | inl listed ↦
        let (j, there, fact) = find_other-found addrs m u (ground (arith, e, listed)) in
        (j, Memᴰ.tail there, fact)
  ]

  find_other-none :
      (addrs : List HashResult) (m : UtxoMap ssl) (k : HashResult) (u : Utxo ssl)
      → find_other ssl addrs m ≡ none
      → HasEntry ssl k u m
      → is_listed k addrs ≡ true
  unfolding find_other
  find_other-none addrs [] k u e t = elim t [ ]
  find_other-none addrs ((j, v) ∷ m) k u e (Memᴰ.head same) =
      ap (λ x. is_listed x.0 addrs) same ∙ ground (arith, e)
  find_other-none addrs ((j, v) ∷ m) k u e (Memᴰ.tail t) =
      find_other-none addrs m k u (ground (arith, e)) t

module _ (ssl : OpenSsl) (src : Sources ssl) (limit : ℕ) (s : IsSupply ssl src limit) where
  -- The program finds an entry under none of the addresses, if there are more entries.
  pub find_other-IsOwned :
      (addrs : List HashResult) (w : World ssl)
      → IsFunded ssl src limit w
      → length addrs < length w.utxos
      → (u : Utxo ssl) × (find_other ssl addrs (src.visit w.utxos) ≡ some u)
        × IsOwned ssl src limit w.made u.addr u
        × (is_listed u.addr addrs ≡ false)
  find_other-IsOwned addrs w f more =
      elim (Option-cases (find_other ssl addrs (src.visit w.utxos))) [
        | inl missing ↦
            let (k, u, there, free) = unlisted ssl addrs w.utxos f.distinct more in
            let listed =
              find_other-none ssl addrs (src.visit w.utxos) k u missing
                ((s.entries w.utxos k u).1 there) in
            cc (free, listed)
        | inr (u, e) ↦
            let (k, there, free) = find_other-found ssl addrs (src.visit w.utxos) u e in
            let o = f.owned k u ((s.entries w.utxos k u).0 there) in
            (
              u,
              e,
              subst (λ x. IsOwned ssl src limit w.made x u) o.here o,
              subst (λ x. is_listed x addrs ≡ false) o.here free,
            )
      ]

  -- The amount is positive after the first draw.
  pub draw_amount-pos :
      (draws held drawn : ℕ)
      → 0 < held
      → held < 2 ^ 64
      → (amount : ℕ) × (draw_amount ssl src (suc draws) held drawn ≡ (amount, drawn + 1))
        × (0 < amount)
        × (amount < 2 ^ 64)
  unfolding draw_amount
  draw_amount-pos draws held drawn some_held small =
      let x = src.rand drawn % held in
      let below : x < held = omega (arith, some_held) in
      let exact : (x + 1) % uint64_mod ≡ x + 1 = omega (arith, below, small) in
      (x + 1, ground (arith, exact), omega arith, omega (arith, below, small))

  -- The transactions that create_txn makes are valid, and fit the format of a file.
  pub create_txn-valid :
      (made : ℕ) (snd rcv chng : Utxo ssl) (amount : ℕ)
      → IsOwned ssl src limit made snd.addr snd
      → IsOwned ssl src limit made rcv.addr rcv
      → IsOwned ssl src limit made chng.addr chng
      → 0 < amount
      → amount < 2 ^ 64
      → let t = create_txn ssl snd rcv chng amount in
        (validate_txn ssl t ≡ ok (mark_valid t, true)) × IsStorable (mark_valid t)
  unfolding create_txn signed_txn
  create_txn-valid made snd rcv chng amount o r c positive small =
      let i = o.number in
      let (key, pair) = s.pair i in
      let valid =
        validate-signed_txn ssl (src.keys i).0 (src.keys i).1 key rcv.addr chng.addr amount pair
          positive in
      let made_of : signed_txn ssl (src.keys i).0 (src.keys i).1 (ssl.sha256 (src.keys i).1)
            rcv.addr chng.addr amount
          ≡ create_txn ssl snd rcv chng amount =
        cc (o.priv, o.der, o.hashed) in
      let key_size = s.der_size i in
      let sign_size =
        s.sign_size i
          (preimage (src.keys i).1 (ssl.sha256 (src.keys i).1) rcv.addr chng.addr amount) in
      subst (λ t. (validate_txn ssl t ≡ ok (mark_valid t, true)) × IsStorable (mark_valid t))
        made_of
        (
          valid,
          (
            record {
              source_size = s.digest_size (src.keys i).1;
              dest_size = ap length r.hashed ∙ s.digest_size (src.keys r.number).1;
              change_size = ap length c.hashed ∙ s.digest_size (src.keys c.number).1;
              hash_size_of = s.digest_size _;
              amount_range = small;
            },
            record {
              has_key = key_size.0;
              key_bound = key_size.1;
              has_sign = sign_size.0;
              sign_bound = sign_size.1;
            },
          ),
        )

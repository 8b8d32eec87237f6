-- ===== src/Generator/Ensuring.antt =====
-- What the generator does to its map: new entries, and a payment.
use bootcamp.Base.{
  ◌%◌, ℕ, zero, suc, ◌+◌, ◌-◌, ◌≤◌, ◌<◌, ◌≡◌, ◌∙◌, refl, true, false, Bool-cases, inl, inr, none,
  length, arith, ok, ltb,
}
use bootcamp.Crypto.{HashResult, hash_eq, OpenSsl}
use bootcamp.Transaction.{uint64_mod}
use bootcamp.Generator.{
  Utxo, UtxoMap, Sources, World, find_utxo, set_utxo, new_utxo, ensure_min_utxos, transfer,
}
use bootcamp.Generator.Utxos.{
  HasEntry-erase_utxo, find_utxo-erase_utxo, erase_utxo-Distinct, length-set_utxo,
  length-erase_utxo, length-le-set_utxo,
}
use bootcamp.Generator.Funds.{
  Grows, IsFunded, IsSupply, IsOwned, HasKey, set_utxo-Grows, IsOwned-amount, new_utxo-missing,
}

module _ (ssl : OpenSsl) (src : Sources ssl) (limit : ℕ) where
  Grows-trans :
      (w w1 w2 : World ssl)
      → Grows ssl src limit w w1
      → Grows ssl src limit w1 w2
      → Grows ssl src limit w w2
  Grows-trans w w1 w2 g h = record { funded = h.funded; kept = λ k has. h.kept k (g.kept k has) }

  abbrev with_new : World ssl → World ssl
  with_new w =
      let u = new_utxo ssl src w.made in
      record w { utxos = set_utxo ssl u.addr u w.utxos; made = w.made + 1 }

  with_new-Grows : (w : World ssl) → IsFunded ssl src limit w → Grows ssl src limit w (with_new w)
  unfolding new_utxo
  with_new-Grows w f =
      set_utxo-Grows ssl src limit _ (new_utxo ssl src w.made) w (w.made + 1) f (omega arith)
        (record {
          here = refl;
          small = omega arith;
          number = w.made;
          used = omega arith;
          priv = refl;
          der = refl;
          hashed = refl;
        })

  abbrev credited : Utxo ssl → Utxo ssl → Utxo ssl → ℕ → UtxoMap ssl → UtxoMap ssl
  credited spend recv change amount m =
      let received = record recv { amount = (recv.amount + amount) % uint64_mod } in
      let changed = record change { amount = (spend.amount + uint64_mod - amount) % uint64_mod } in
      set_utxo ssl change.addr changed (set_utxo ssl recv.addr received m)

  length-le-credited :
      (spend recv change : Utxo ssl) (amount : ℕ) (m : UtxoMap ssl)
      → length m ≤ length (credited spend recv change amount m)
  length-le-credited spend recv change amount m =
      let received = record recv { amount = (recv.amount + amount) % uint64_mod } in
      let changed = record change { amount = (spend.amount + uint64_mod - amount) % uint64_mod } in
      omega (
        arith,
        length-le-set_utxo ssl recv.addr received m,
        length-le-set_utxo ssl change.addr changed (set_utxo ssl recv.addr received m),
      )

  -- The loop of ensure_min_utxos ends with as many entries as it is asked for, makes no more keys
  -- than entries were missing, and trips no assert.
  pub record Ensured (min_utxos : ℕ) (w w' : World ssl) : Type 0 where
    pub grows : Grows ssl src limit w w'
    pub enough : min_utxos ≤ length w'.utxos
    pub few : w'.made ≤ w.made + (min_utxos - length w.utxos)

  ensure_min_utxos-step :
      (rounds min_utxos : ℕ) (w : World ssl)
      → ltb (length w.utxos) min_utxos ≡ true
      → find_utxo ssl (new_utxo ssl src w.made).addr w.utxos ≡ none
      → ensure_min_utxos ssl src (suc rounds) min_utxos w
        ≡ ensure_min_utxos ssl src rounds min_utxos (with_new w)
  unfolding ensure_min_utxos
  ensure_min_utxos-step rounds min_utxos w missing free = ground (arith, missing, free)

  pub ensure_min_utxos-Ensured :
      (rounds min_utxos : ℕ) (w : World ssl)
      → IsSupply ssl src limit
      → IsFunded ssl src limit w
      → min_utxos ≤ length w.utxos + rounds
      → w.made + (min_utxos - length w.utxos) ≤ limit
      → (w' : World ssl) × (ensure_min_utxos ssl src rounds min_utxos w ≡ ok w')
        × Ensured min_utxos w w'
  unfolding ensure_min_utxos
  ensure_min_utxos-Ensured zero min_utxos w s f bound room = (
    w,
    refl,
    record {
      grows = record { funded = f; kept = λ k h. h };
      enough = omega (arith, bound);
      few = omega arith;
    },
  )
  ensure_min_utxos-Ensured (suc rounds) min_utxos w s f bound room =
      elim (Bool-cases (ltb (length w.utxos) min_utxos)) [
        | inr done ↦ (
          w,
          ground (arith, done),
          record {
            grows = record { funded = f; kept = λ k h. h };
            enough = ground (arith, done);
            few = omega arith;
          },
        )
        | inl missing ↦
            let less : length w.utxos < min_utxos = ground (arith, missing) in
            let free = new_utxo-missing ssl src limit w s f (omega (arith, room, less)) in
            let w1 = with_new w in
            let g = with_new-Grows w f in
            let longer : length w1.utxos ≡ suc (length w.utxos) =
              length-set_utxo ssl _ (new_utxo ssl src w.made) w.utxos free in
            let (w2, e, more) =
              ensure_min_utxos-Ensured rounds min_utxos w1 s g.funded (omega (arith, longer, bound))
                (omega (arith, longer, room, less)) in
            (
              w2,
              ensure_min_utxos-step rounds min_utxos w missing free ∙ e,
              record {
                grows = Grows-trans w w1 w2 g more.grows;
                enough = more.enough;
                few = omega (arith, more.few, longer, less);
              },
            )
      ]

  -- The entries after a payment: those of the receiver and the change are set, the spender's is
  -- erased, and no other is.
  transfer_entries-Grows :
      (spend recv change : Utxo ssl) (amount : ℕ) (w : World ssl)
      → IsFunded ssl src limit w
      → IsOwned ssl src limit w.made recv.addr recv
      → IsOwned ssl src limit w.made change.addr change
      → Grows ssl src limit w (record w { utxos = credited spend recv change amount w.utxos })
  transfer_entries-Grows spend recv change amount w f r c =
      let received = record recv { amount = (recv.amount + amount) % uint64_mod } in
      let changed : Utxo ssl = record change {
        amount = (spend.amount + uint64_mod - amount) % uint64_mod;
      } in
      let w1 = record w { utxos = set_utxo ssl recv.addr received w.utxos } in
      let g1 =
        set_utxo-Grows ssl src limit recv.addr received w w.made f (omega arith)
          (IsOwned-amount ssl src limit w.made recv.addr recv _ (omega arith) r) in
      let g2 =
        set_utxo-Grows ssl src limit change.addr changed w1 w.made g1.funded (omega arith)
          (IsOwned-amount ssl src limit w.made change.addr change _ (omega arith) c) in
      Grows-trans w w1 _ g1 g2

  -- What a payment leaves.
  pub record Paid (spend : HashResult) (w w' : World ssl) : Type 0 where
    pub funded : IsFunded ssl src limit w'
    pub kept :
        (k : HashResult)
        → hash_eq spend k ≡ false
        → HasKey ssl src limit k w
        → HasKey ssl src limit k w'
    pub short : length w.utxos ≤ suc (length w'.utxos)

  pub transfer-Paid :
      (spend recv change : Utxo ssl) (amount : ℕ) (w : World ssl)
      → IsFunded ssl src limit w
      → IsOwned ssl src limit w.made recv.addr recv
      → IsOwned ssl src limit w.made change.addr change
      → Paid spend.addr w (record w { utxos = transfer ssl spend recv change amount w.utxos })
  unfolding transfer
  transfer-Paid spend recv change amount w f r c =
      let m = credited spend recv change amount w.utxos in
      let g = transfer_entries-Grows spend recv change amount w f r c in
      record {
        funded = record {
          distinct = erase_utxo-Distinct ssl spend.addr m g.funded.distinct;
          owned = λ k u t. g.funded.owned k u (HasEntry-erase_utxo ssl spend.addr k u m t).0;
        };
        kept = λ k other h.
            let (u, e) = g.kept k h in (u, find_utxo-erase_utxo ssl spend.addr k m other ∙ e);
        short = omega (
          arith,
          length-erase_utxo ssl spend.addr m g.funded.distinct,
          length-le-credited spend recv change amount w.utxos,
        );
      }

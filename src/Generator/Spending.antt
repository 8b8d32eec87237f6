-- ===== src/Generator/Spending.antt =====
-- The loop of the generator over the transactions of a block.
use bootcamp.Base.{
  ℕ, zero, suc, ◌+◌, ◌^◌, ◌≤◌, ◌<◌, ◌≡◌, ◌∙◌, refl, ap, subst, false, Option-cases, inl, inr, [],
  ◌∷◌, length, arith, ok,
}
use bootcamp.Crypto.{HashResult, hash_eq, OpenSsl}
use bootcamp.Transaction.{BalanceMap}
use bootcamp.Block.{Block}
use bootcamp.Generator.{
  Utxo, Sources, World, find_spendable, create_txn, transfer, pay, spend_one, spend_all,
}
use bootcamp.Generator.Utxos.{HasEntry}
use bootcamp.Generator.Funds.{IsSupply, IsOwned, IsFunded, HasKey}
use bootcamp.Generator.Ensuring.{ensure_min_utxos-Ensured, transfer-Paid}
use bootcamp.Generator.Payments.{IsBuilding, Fills, add_transaction-Fills}
use bootcamp.Generator.Choices.{
  find_spendable-found, find_other-IsOwned, draw_amount-pos, create_txn-valid,
}

module _ (ssl : OpenSsl) (src : Sources ssl) (limit : ℕ) (s : IsSupply ssl src limit) where
  -- What a transaction does to the map: there are enough entries behind it, and only the spender's
  -- is gone.
  pub record Spent (num_txns rounds : ℕ) (reward : HashResult) (w w' : World ssl) : Type 0 where
    pub funded : IsFunded ssl src limit w'
    pub enough : num_txns ≤ length w'.utxos
    pub few : w'.made ≤ w.made + rounds
    pub rewards : HasKey ssl src limit reward w'

  pay-Spent :
      (num_txns : ℕ) (reward : HashResult) (spend recv change : Utxo ssl) (amount : ℕ)
      (m : BalanceMap) (b : Block) (w : World ssl)
      → IsFunded ssl src limit w
      → IsOwned ssl src limit w.made spend.addr spend
      → IsOwned ssl src limit w.made recv.addr recv
      → IsOwned ssl src limit w.made change.addr change
      → 0 < amount
      → amount < 2 ^ 64
      → num_txns ≤ length w.utxos
      → w.made + 1 ≤ limit
      → HasKey ssl src limit reward w
      → hash_eq spend.addr reward ≡ false
      → IsBuilding ssl m b
      → (b' : Block) × (w' : World ssl) × (pay ssl src num_txns spend recv change amount b w
          ≡ ok (b', w'))
        × Fills ssl m 1 b b'
        × Spent num_txns 1 reward w w'
  unfolding pay
  pay-Spent num_txns reward spend recv change amount m b w f o r c positive small enough room has
        apart building =
      let (valid, storable) =
        create_txn-valid ssl src limit s w.made spend recv change amount o r c positive small in
      let t = create_txn ssl spend recv change amount in
      let (b', v, added, fills) = add_transaction-Fills ssl m b t building storable valid in
      let paid = transfer-Paid ssl src limit spend recv change amount w f r c in
      let w1 = record w { utxos = transfer ssl spend recv change amount w.utxos } in
      let (w2, ensures, done) =
        ensure_min_utxos-Ensured ssl src limit num_txns num_txns w1 s paid.funded (omega arith)
          (omega (arith, paid.short, enough, room)) in
      (
        b',
        w2,
        ground (arith, valid, added, ensures),
        fills,
        record {
          funded = done.grows.funded;
          enough = done.enough;
          few = omega (arith, done.few, paid.short, enough);
          rewards = done.grows.kept reward (paid.kept reward apart has);
        },
      )

  spend_one-Spent :
      (num_txns : ℕ) (reward k : HashResult) (spend : Utxo ssl) (m : BalanceMap) (b : Block)
      (w : World ssl)
      → 3 ≤ num_txns
      → IsFunded ssl src limit w
      → num_txns ≤ length w.utxos
      → w.made + 1 ≤ limit
      → HasKey ssl src limit reward w
      → HasEntry ssl k spend w.utxos
      → 0 < spend.amount
      → hash_eq k reward ≡ false
      → IsBuilding ssl m b
      → (b' : Block) × (w' : World ssl) × (spend_one ssl src num_txns spend b w ≡ ok (b', w'))
        × Fills ssl m 1 b b'
        × Spent num_txns 1 reward w w'
  unfolding spend_one
  spend_one-Spent num_txns reward k spend m b w three f enough room has there rich apart building =
      let o = f.owned k spend there in
      let own = subst (λ x. IsOwned ssl src limit w.made x spend) o.here o in
      let other = subst (λ x. hash_eq x reward ≡ false) o.here apart in
      let (recv, found, r, _) =
        find_other-IsOwned ssl src limit s (spend.addr ∷ []) w f (omega (arith, three, enough)) in
      let (change, found2, c, _) =
        find_other-IsOwned ssl src limit s (spend.addr ∷ recv.addr ∷ []) w f
          (omega (arith, three, enough)) in
      let (amount, drew, positive, small) =
        draw_amount-pos ssl src limit s 1 spend.amount w.drawn rich o.small in
      let (b', w', pays, fills, spent) =
        pay-Spent num_txns reward spend recv change amount m b (record w { drawn = w.drawn + 1 })
          (record { distinct = f.distinct; owned = f.owned }) own r c positive small enough room has
          other building in
      (
        b',
        w',
        ground (arith, found, found2, drew, pays),
        fills,
        record {
          funded = spent.funded;
          enough = spent.enough;
          few = spent.few;
          rewards = spent.rewards;
        },
      )

  abbrev refill : Block → Block → Block
  refill b b2 = record b { transactions = b2.transactions; balances = b2.balances }

  Fills-trans :
      (m : BalanceMap) (rounds : ℕ) (b b1 b2 : Block)
      → Fills ssl m 1 b b1
      → Fills ssl m rounds b1 b2
      → Fills ssl m (suc rounds) b b2
  Fills-trans m rounds b b1 b2 f g = record {
    building = g.building;
    others = g.others ∙ ap (λ x. refill x b2) f.others;
    few = omega (arith, f.few, g.few);
  }

  -- The loop fills the block with valid transactions, and trips no assert.
  pub spend_all-Spent :
      (num_txns rounds : ℕ) (reward : HashResult) (m : BalanceMap) (b : Block) (w : World ssl)
      → 3 ≤ num_txns
      → IsFunded ssl src limit w
      → num_txns ≤ length w.utxos
      → w.made + rounds ≤ limit
      → HasKey ssl src limit reward w
      → IsBuilding ssl m b
      → (b' : Block) × (w' : World ssl) × (spend_all ssl src num_txns rounds reward b w
          ≡ ok (b', w'))
        × Fills ssl m rounds b b'
        × Spent num_txns rounds reward w w'
  unfolding spend_all
  spend_all-Spent num_txns zero reward m b w three f enough room has building = (
    b,
    w,
    refl,
    record { building = building; others = refl; few = omega arith },
    record { funded = f; enough = enough; few = omega arith; rewards = has },
  )
  spend_all-Spent num_txns (suc rounds) reward m b w three f enough room has building =
      elim (Option-cases (find_spendable ssl reward (src.visit w.utxos))) [
        | inl nothing ↦ (
          b,
          w,
          ground (arith, nothing),
          record { building = building; others = refl; few = omega arith },
          record { funded = f; enough = enough; few = omega arith; rewards = has },
        )
        | inr (spend, found) ↦
            let (k, there, rich, apart) =
              find_spendable-found ssl reward (src.visit w.utxos) spend found in
            let (b1, w1, once, fills, spent) =
              spend_one-Spent num_txns reward k spend m b w three f enough (omega (arith, room)) has
                ((s.entries w.utxos k spend).0 there) rich apart building in
            let (b2, w2, more, fills2, spent2) =
              spend_all-Spent num_txns rounds reward m b1 w1 three spent.funded spent.enough
                (omega (arith, spent.few, room)) spent.rewards fills.building in
            (
              b2,
              w2,
              ground (arith, found, once, more),
              Fills-trans m rounds b b1 b2 fills fills2,
              record {
                funded = spent2.funded;
                enough = spent2.enough;
                few = omega (arith, spent.few, spent2.few);
                rewards = spent2.rewards;
              },
            )
      ]

-- ===== src/Generator/Payments.antt =====
-- The block that the generator fills with transactions.
use bootcamp.Base.{
  ℕ, ◌+◌, ◌≤◌, ◌≡◌, ◌∙◌, refl, sym, ap, true, false, Bool, Bool-cases, inl, inr, List, [], ◌∷◌,
  ◌++◌, All, All-append, length, length-append, arith, ok,
}
use bootcamp.Crypto.{OpenSsl}
use bootcamp.Transaction.{Txn, BalanceMap, balance_available, validate as validate_txn}
use bootcamp.Transaction.Balances.{settled, update_balances-settled}
use bootcamp.Transaction.Authentic.{validate-eq-true}
use bootcamp.Block.{Block, add_transaction}
use bootcamp.Block.Validate.{IsAuthentic, IsPayable, settle_all, mark_valid}
use bootcamp.BlockIo.Codec.{IsStorable}

settle_all-snoc :
    (ts : List Txn) (t : Txn) (m : BalanceMap)
    → settle_all (ts ++ (t ∷ [])) m ≡ settled t (settle_all ts m)
settle_all-snoc [] t m = refl
settle_all-snoc (u ∷ ts) t m = settle_all-snoc ts t (settled u m)

IsPayable-snoc :
    (ts : List Txn) (t : Txn) (m : BalanceMap)
    → IsPayable ts m
    → balance_available t (settle_all ts m) ≡ true
    → IsPayable (ts ++ (t ∷ [])) m
IsPayable-snoc [] t m p e = (e, tt)
IsPayable-snoc (u ∷ ts) t m (p, ps) e = (p, IsPayable-snoc ts t (settled u m) ps e)

module _ (ssl : OpenSsl) where
  -- A block with transactions that validate accepts behind the balances `m`.
  pub record IsBuilding (m : BalanceMap) (b : Block) : Type 0 where
    pub authentic : All (IsAuthentic ssl) b.transactions
    pub storable : All IsStorable b.transactions
    pub payable : IsPayable b.transactions m
    pub settles : b.balances ≡ settle_all b.transactions m

  -- A block after more transactions.
  pub record Fills (m : BalanceMap) (rounds : ℕ) (b b' : Block) : Type 0 where
    pub building : IsBuilding m b'
    pub others : b' ≡ record b { transactions = b'.transactions; balances = b'.balances }
    pub few : length b'.transactions ≤ length b.transactions + rounds

  validate_txn-mark_valid :
      (t : Txn)
      → validate_txn ssl t ≡ ok (mark_valid t, true)
      → validate_txn ssl (mark_valid t) ≡ ok (mark_valid t, true)
  unfolding validate_txn
  validate_txn-mark_valid t e = e

  -- The block with one more transaction.
  abbrev with_txn : Block → Txn → Block
  with_txn b t = record b {
    transactions = b.transactions ++ (mark_valid t ∷ []);
    balances = settled t b.balances;
  }

  with_txn-Fills :
      (m : BalanceMap) (b : Block) (t : Txn)
      → IsBuilding m b
      → IsAuthentic ssl (mark_valid t)
      → IsStorable (mark_valid t)
      → balance_available t b.balances ≡ true
      → Fills m 1 b (with_txn b t)
  unfolding balance_available
  with_txn-Fills m b t h authentic storable available = record {
    building = record {
      authentic = All-append (IsAuthentic ssl) b.transactions _ h.authentic (authentic, tt);
      storable = All-append IsStorable b.transactions _ h.storable (storable, tt);
      payable =
          IsPayable-snoc b.transactions (mark_valid t) m h.payable
            (ap (balance_available (mark_valid t)) (sym h.settles) ∙ available);
      settles = ap (settled t) h.settles ∙ sym (settle_all-snoc b.transactions (mark_valid t) m);
    };
    others = refl;
    few = omega (arith, length-append b.transactions (mark_valid t ∷ []));
  }

  -- add_transaction with a transaction that is valid: it is added where the sender can pay.
  pub add_transaction-Fills :
      (m : BalanceMap) (b : Block) (t : Txn)
      → IsBuilding m b
      → IsStorable (mark_valid t)
      → validate_txn ssl t ≡ ok (mark_valid t, true)
      → (b' : Block) × (v : Bool) × (add_transaction ssl b (mark_valid t) true
          ≡ ok (b', mark_valid t, v))
        × Fills m 1 b b'
  unfolding add_transaction balance_available
  add_transaction-Fills m b t h storable e =
      let valid = validate_txn-mark_valid t e in
      let (sealed, answers, _) = validate-eq-true ssl (mark_valid t) _ valid in
      elim (Bool-cases (balance_available t b.balances)) [
        | inl available ↦ (
          with_txn b t,
          true,
          ground (arith, valid, available, update_balances-settled (mark_valid t) b.balances),
          with_txn-Fills m b t h (sealed, answers) storable available,
        )
        | inr poor ↦ (
          b,
          false,
          ground (arith, valid, poor),
          record { building = h; others = refl; few = omega arith },
        )
      ]

-- ===== src/Block/Validate.antt =====
-- block_t::validate against a description of an acceptable block.
use bootcamp.Base.{
  ◌⊎◌, ◌≡◌, ◌↔◌, ◌∙◌, ap, sym, refl, Bool, true, false, List, [], ◌∷◌, map, All, arith, ok, inl,
  inr, bind-ok,
}
use bootcamp.Crypto.{OpenSsl, HashResult, hash_eq, accepted}
use bootcamp.Crypto.Order.{hash_eq_iff}
use bootcamp.Transaction.{Txn, BalanceMap, balance_available, add_balance, validate as validate_txn}
use bootcamp.Transaction.Balances.{settled, update_balances-settled}
use bootcamp.Transaction.Authentic.{
  IsSealed, Answers, validate-Answers, validate-eq-true, validate-flag,
}
use bootcamp.Block.{
  Block, Store, block_reward, reset_balances, block_input, hash_input, validate_txns, check_hash,
  validate,
}

-- The balances after the transactions of a block, in order.
abbrev pub settle_all : List Txn → BalanceMap → BalanceMap
settle_all [] m = m
settle_all (t ∷ ts) m = settle_all ts (settled t m)

-- Every sender can pay when its turn comes.
abbrev pub IsPayable : List Txn → BalanceMap → Type 0
IsPayable [] m = Unit
IsPayable (t ∷ ts) m = (balance_available t m ≡ true) × IsPayable ts (settled t m)

abbrev pub mark_valid : Txn → Txn
mark_valid t = record t { valid = true }

-- The balances that a block starts from: those of the block before it, or none.
abbrev pub start_balances : Store → Block → BalanceMap
start_balances store b = (reset_balances store b).balances

pub hash_input-mark_valid :
    (ts : List Txn) (reward prev : HashResult)
    → hash_input (map mark_valid ts) reward prev ≡ hash_input ts reward prev
unfolding hash_input
hash_input-mark_valid [] reward prev = refl
hash_input-mark_valid (t ∷ ts) reward prev = rw (hash_input-mark_valid ts reward prev)

abbrev pub rest_of : List Txn → List Txn
rest_of [] = []
rest_of (t ∷ ts) = ts

module _ (ssl : OpenSsl) where
  -- What txn_t::validate accepts.
  abbrev pub IsAuthentic : Txn → Type 0
  IsAuthentic t = IsSealed ssl t × ((key : ssl.PublicKey) × Answers ssl t key accepted)

  validate_txns-accepts :
      (ts : List Txn) (m : BalanceMap)
      → All IsAuthentic ts
      → IsPayable ts m
      → validate_txns ssl ts m ≡ ok (map mark_valid ts, settle_all ts m, true)
  unfolding validate_txns balance_available
  validate_txns-accepts [] m h p = refl
  validate_txns-accepts (t ∷ ts) m ((sealed, (key, answers)), h) (p, ps) = ground (
    arith,
    validate-Answers ssl t key accepted sealed answers,
    update_balances-settled (mark_valid t) m p,
    validate_txns-accepts ts (settled t m) h ps,
  )

  -- How a txn_t::validate that returns has ended.
  validate_txn-cases :
      (tx t : Txn) (v : Bool) → validate_txn ssl tx ≡ ok (t, v) → (t.valid ≡ false) ⊎ IsAuthentic tx
  validate_txn-cases tx t true e =
      let (sealed, answers, _) = validate-eq-true ssl tx t e in inr (sealed, answers)
  validate_txn-cases tx t false e = inl (validate-flag ssl tx t false e)

  validate_txns-authentic :
      (tx : Txn) (txs ts' : List Txn) (m m' : BalanceMap)
      → IsAuthentic tx
      → validate_txns ssl (tx ∷ txs) m ≡ ok (ts', m', true)
      → (balance_available tx m ≡ true)
        × (validate_txns ssl txs (settled tx m) ≡ ok (rest_of ts', m', true))
  unfolding validate_txns balance_available
  validate_txns-authentic tx txs ts' m m' (sealed, (key, answers)) e = ground (
    arith,
    validate-Answers ssl tx key accepted sealed answers,
    update_balances-settled (mark_valid tx) m,
  )

  validate_txns-first :
      (tx : Txn) (txs ts' : List Txn) (m m' : BalanceMap)
      → validate_txns ssl (tx ∷ txs) m ≡ ok (ts', m', true)
      → IsAuthentic tx
  unfolding validate_txns
  validate_txns-first tx txs ts' m m' e =
      let ((t, v), e2, e1) = bind-ok _ (validate_txn ssl tx) _ e in
      elim (validate_txn-cases tx t v e1) [
        | inl invalid ↦ absurd (ground (arith, e2))
        | inr authentic ↦ authentic
      ]

  validate_txns-eq-true :
      (ts ts' : List Txn) (m m' : BalanceMap)
      → validate_txns ssl ts m ≡ ok (ts', m', true)
      → All IsAuthentic ts × IsPayable ts m
  unfolding validate_txns
  validate_txns-eq-true [] ts' m m' e = (tt, tt)
  validate_txns-eq-true (tx ∷ txs) ts' m m' e =
      let first = validate_txns-first tx txs ts' m m' e in
      let (paid, others) = validate_txns-authentic tx txs ts' m m' first e in
      let (authentic, payable) = validate_txns-eq-true txs (rest_of ts') (settled tx m) m' others in
      ((first, authentic), (paid, payable))

  -- The block that validate leaves where it accepts.
  abbrev pub accepted_block : Store → Block → Block
  accepted_block store b = record b {
    valid = true;
    transactions = map mark_valid b.transactions;
    balances =
        add_balance b.reward_addr block_reward (settle_all b.transactions (start_balances store b));
  }

  -- What makes a block acceptable.
  pub record IsAcceptable (store : Store) (b : Block) : Type 0 where
    pub authentic : All IsAuthentic b.transactions
    pub payable : IsPayable b.transactions (start_balances store b)
    pub hashed : ssl.sha256 (block_input b) ≡ b.blk_hash

  pub reset-fields :
      (store : Store) (b : Block)
      → reset_balances store b ≡ record b { balances = start_balances store b }
  unfolding reset_balances
  reset-fields store b = ground arith

  pub validate-IsAcceptable :
      (store : Store) (b : Block)
      → IsAcceptable store b
      → validate ssl store b ≡ ok (accepted_block store b, true)
  unfolding validate check_hash
  validate-IsAcceptable store b h = ground (
    arith,
    reset-fields store b,
    validate_txns-accepts b.transactions (start_balances store b) h.authentic h.payable,
    hash_input-mark_valid b.transactions b.reward_addr b.prev_hash,
    (hash_eq_iff (ssl.sha256 (block_input b)) b.blk_hash).1,
    h.hashed,
  )

  validate_parts :
      (store : Store) (b b' : Block)
      → validate ssl store b ≡ ok (b', true)
      → (txs : List Txn) × (m : BalanceMap) × (validate_txns ssl b.transactions
            (start_balances store b)
          ≡ ok (txs, m, true))
        × (hash_eq (ssl.sha256 (hash_input txs b.reward_addr b.prev_hash)) b.blk_hash ≡ true)
  unfolding validate check_hash
  validate_parts store b b' h =
      let ((txs, m, done), e2, e1) =
        bind-ok _ (validate_txns ssl (reset_balances store b).transactions _) _ h in
      (
        txs,
        m,
        ground (arith, e1, e2, reset-fields store b),
        ground (arith, e1, e2, reset-fields store b),
      )

  pub validate_block-eq-true :
      (store : Store) (b b' : Block) → validate ssl store b ≡ ok (b', true) → IsAcceptable store b
  validate_block-eq-true store b b' h =
      let (txs, m, e, same) = validate_parts store b b' h in
      let (authentic, payable) = validate_txns-eq-true b.transactions txs _ m e in
      record {
        authentic = authentic;
        payable = payable;
        hashed = cc (
          validate_txns-accepts b.transactions _ authentic payable,
          hash_input-mark_valid b.transactions b.reward_addr b.prev_hash,
          (hash_eq_iff _ _).0 same,
        );
      }

  -- block_t::validate answers true and leaves the block b' exactly where every transaction is
  -- authentic, every sender can pay when its turn comes, starting from the balances of the block
  -- before, the block's hash covers its transactions, its reward address and the hash of the block
  -- before, and b' has the balances after all transactions with the reward added, is marked valid
  -- with its transactions, and is b otherwise. So there is no other block for which it answers true.
  pub validate_block_iff :
      (store : Store) (b b' : Block)
      → (validate ssl store b ≡ ok (b', true))
        ↔ (IsAcceptable store b × (b' ≡ accepted_block store b))
  validate_block_iff store b b' = (
    (λ e.
        let h = validate_block-eq-true store b b' e in
        (h, cc (validate-IsAcceptable store b h, e))),
    (λ h. validate-IsAcceptable store b h.0 ∙ ap (λ c. ok (c, true)) (sym h.1)),
  )

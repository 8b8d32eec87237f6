-- ===== src/Day1/Agree.antt =====
-- The day 1 functions against the later ones.
use mathlib.Core.Path.{fun_ext}
use bootcamp.Block.{reset_balances, hash_input, block_input}
use bootcamp.Day1.{pay_and_check}
use bootcamp.Base.{
  Result, ◌-◌, ◌>>=◌, Option-cases, ◌==◌, ◌<◌, ◌≡◌, ◌↔◌, ◌∙◌, refl, sym, ap, Bool, true, false,
  ◌&&◌, List, [], ◌∷◌, map, All, arith, ok, Bool-cases, inl, inr, bind-ok, KeyOrder,
}
use bootcamp.SortedMap.{Entries, find, insert, erase}
use bootcamp.Crypto.{OpenSsl, HashResult, hash_eq}
use bootcamp.Crypto.Order.{hash_order, hash_eq_iff}
use bootcamp.Transaction.{
  txn_preimage, Txn, BalanceMap, balance_available, add_balance, check_signature,
}
use bootcamp.Transaction
use bootcamp.Transaction.Balances.{settled, update_balances-settled}
use bootcamp.Transaction.Signing.{validate_iff}
use bootcamp.Transaction.Authentic.{validate-eq-true}
use bootcamp.Block.{validate, Block, Store}
use bootcamp.Block.Validate.{
  IsAcceptable, IsAuthentic, accepted_block, reset-fields, hash_input-mark_valid,
  validate_block-eq-true, validate-IsAcceptable, settle_all, IsPayable, mark_valid, rest_of,
  start_balances,
}
use bootcamp.Day1.{
  hashes_equal, update_balances, pay_all, sha256_tx_verify, validate_txn, validate_all,
  check_compute_block_hash, check_hash, validate_block,
}
use bootcamp.Day1

hashes_equal-eq : (r : Bool) (a b : HashResult) → hashes_equal r a b ≡ (r && hash_eq a b)
unfolding hashes_equal hash_eq
hashes_equal-eq r [] [] = ground arith
hashes_equal-eq r (x ∷ xs) (y ∷ ys) = ground (arith, hashes_equal-eq (r && x == y) xs ys)
hashes_equal-eq r [] (y ∷ ys) = ground arith
hashes_equal-eq r (x ∷ xs) [] = ground arith

hash_eq_comm : (a b : HashResult) → hash_eq a b ≡ hash_eq b a
unfolding hash_eq
hash_eq_comm [] [] = refl
hash_eq_comm (x ∷ xs) (y ∷ ys) = ground (arith, hash_eq_comm xs ys)
hash_eq_comm [] (y ∷ ys) = refl
hash_eq_comm (x ∷ xs) [] = refl

erase-insert_self {ℓ} :
    {K V : Type ℓ} ⦃o : KeyOrder K⦄ (k : K) (v : V) (m : Entries K V)
    → erase k (insert k v m) ≡ erase k m
unfolding erase insert
erase-insert_self ⦃o⦄ k v [] = ground (arith, o.lt_irrefl k)
erase-insert_self ⦃o⦄ k v ((j, w) ∷ m) =
    ground (arith, o.lt_irrefl k, o.lt_irrefl j, erase-insert_self k v m)

-- To set the sender's balance to zero before it is erased changes nothing: on every map, the two
-- versions of update_balances return the same map, or both trip an assert.
pub update_balances_agree :
    (t : Txn) (m : BalanceMap) → update_balances t m ≡ Transaction.update_balances t m
unfolding Day1.update_balances Transaction.update_balances
update_balances_agree t m = elim (Option-cases (find t.source_addr m)) [
  | inl missing ↦ ground arith
  | inr (held, e) ↦
      let credited =
        add_balance t.change_addr (held - t.amount) (add_balance t.dest_addr t.amount m) in
      ground (arith, e, erase-insert_self t.source_addr 0 credited)
]

-- On a transaction of a positive amount, validate of day 1 and of the later days return the same.
pub validate_txn_agree :
    (ssl : OpenSsl) (t : Txn) → 0 < t.amount → validate_txn ssl t ≡ Transaction.validate ssl t
unfolding validate_txn Transaction.validate Day1.check_signature Transaction.check_signature
    sha256_tx_verify
validate_txn_agree ssl t h =
    let hash = ssl.sha256 (txn_preimage t) in
    ground (
      arith,
      hashes_equal-eq true (ssl.sha256 t.public_key) t.source_addr,
      hashes_equal-eq true hash t.tx_hash,
      hash_eq_comm hash t.tx_hash,
      (hash_eq_iff hash t.tx_hash).0,
    )

abbrev pub HasPositiveAmounts : List Txn → Type 0
HasPositiveAmounts = All (λ t. 0 < t.amount)

pay_all-eq-true :
    (ts : List Txn) (m m' : BalanceMap)
    → pay_all ts m ≡ ok (m', true)
    → IsPayable ts m × (m' ≡ settle_all ts m)
unfolding pay_all
pay_all-eq-true [] m m' e = (tt, ground arith)
pay_all-eq-true (t ∷ ts) m m' e = elim (Bool-cases (balance_available t m)) [
  | inl paid ↦
      let others : pay_all ts (settled t m) ≡ ok (m', true) =
        ground (arith, update_balances_agree t m, update_balances-settled t m paid) in
      let (p, q) = pay_all-eq-true ts (settled t m) m' others in ((paid, p), q)
  | inr short ↦ absurd (ground arith)
]

pay_all-IsPayable :
    (ts : List Txn) (m : BalanceMap) → IsPayable ts m → pay_all ts m ≡ ok (settle_all ts m, true)
unfolding pay_all
pay_all-IsPayable [] m p = refl
pay_all-IsPayable (t ∷ ts) m (paid, p) = ground (
  arith,
  update_balances_agree t m,
  update_balances-settled t m paid,
  pay_all-IsPayable ts (settled t m) p,
)

pay_then : Txn → BalanceMap → (BalanceMap → Result (BalanceMap × Bool)) → Result (BalanceMap × Bool)
pay_then t m next = elim (balance_available t m) [
  | false ↦ ok (m, false)
  | true ↦ do paid ← Day1.update_balances t m; next paid
]

pay_all-mark_valid : (ts : List Txn) (m : BalanceMap) → pay_all (map mark_valid ts) m ≡ pay_all ts m
unfolding pay_all balance_available Day1.update_balances pay_then
pay_all-mark_valid [] m = refl
pay_all-mark_valid (t ∷ ts) m = ap (pay_then t m) (fun_ext (pay_all-mark_valid ts))

module _ (ssl : OpenSsl) where
  validate_all-authentic :
      (ts : List Txn)
      → HasPositiveAmounts ts
      → All (IsAuthentic ssl) ts
      → validate_all ssl ts ≡ ok (map mark_valid ts, true)
  unfolding validate_all
  validate_all-authentic [] pos h = refl
  validate_all-authentic (t ∷ ts) (p, pos) (a, h) = rw (
    validate_txn_agree ssl t p,
    (validate_iff ssl t _).1 (a.0, a.1, refl),
    validate_all-authentic ts pos h,
  )

  validate_all-first :
      (t : Txn) (ts ts' : List Txn)
      → 0 < t.amount
      → validate_all ssl (t ∷ ts) ≡ ok (ts', true)
      → IsAuthentic ssl t
  unfolding validate_all
  validate_all-first t ts ts' p e =
      let ((t', v), e2, e1) = bind-ok _ (validate_txn ssl t) _ e in
      elim (Bool-cases v) [
        | inl valid ↦
            let (sealed, answers, _) =
              validate-eq-true ssl t t' (sym (validate_txn_agree ssl t p) ∙ cc (e1, valid)) in
            (sealed, answers)
        | inr invalid ↦ absurd (ground (arith, e2))
      ]

  validate_all-eq-true :
      (ts ts' : List Txn)
      → HasPositiveAmounts ts
      → validate_all ssl ts ≡ ok (ts', true)
      → All (IsAuthentic ssl) ts
  unfolding validate_all
  validate_all-eq-true [] ts' pos e = tt
  validate_all-eq-true (t ∷ ts) ts' (p, pos) e =
      let first = validate_all-first t ts ts' p e in
      let others : validate_all ssl ts ≡ ok (rest_of ts', true) =
        ground
          (arith, validate_txn_agree ssl t p, (validate_iff ssl t _).1 (first.0, first.1, refl)) in
      (first, validate_all-eq-true ts (rest_of ts') pos others)

  block-IsAcceptable :
      (store : Store) (b : Block)
      → HasPositiveAmounts b.transactions
      → IsAcceptable ssl store b
      → validate_block ssl store b ≡ ok (accepted_block ssl store b, true)
  unfolding validate_block pay_and_check Day1.check_hash check_compute_block_hash
  block-IsAcceptable store b pos h =
      let txs = b.transactions in
      let m = start_balances store b in
      ground (
        arith,
        reset-fields ssl store b,
        validate_all-authentic txs pos h.authentic,
        pay_all-mark_valid txs m,
        pay_all-IsPayable txs m h.payable,
        hash_input-mark_valid txs b.reward_addr b.prev_hash,
        hashes_equal-eq true (ssl.sha256 (hash_input txs b.reward_addr b.prev_hash)) b.blk_hash,
        (hash_eq_iff (ssl.sha256 (hash_input txs b.reward_addr b.prev_hash)) b.blk_hash).1,
        h.hashed,
      )

  paid_parts :
      (b b' : Block)
      → pay_and_check ssl b ≡ ok (b', true)
      → (m : BalanceMap) × (pay_all b.transactions b.balances ≡ ok (m, true))
        × (hashes_equal true (ssl.sha256 (block_input b)) b.blk_hash ≡ true)
  unfolding pay_and_check Day1.check_hash check_compute_block_hash
  paid_parts b b' h =
      let ((m, done), e2, e1) = bind-ok _ (pay_all b.transactions b.balances) _ h in
      (m, ground (arith, e1, e2), ground (arith, e1, e2))

  block_parts :
      (store : Store) (b b' : Block)
      → validate_block ssl store b ≡ ok (b', true)
      → (txs : List Txn) × (validate_all ssl b.transactions ≡ ok (txs, true))
        × (pay_and_check ssl (record b { transactions = txs; balances = start_balances store b })
            ≡ ok (b', true))
  unfolding validate_block
  block_parts store b b' h =
      let ((txs, all), e2, e1) =
        bind-ok _ (validate_all ssl (reset_balances store b).transactions) _ h in
      (
        txs,
        ground (arith, e1, e2, reset-fields ssl store b),
        ground (arith, e1, e2, reset-fields ssl store b),
      )

  block-eq-true :
      (store : Store) (b b' : Block)
      → HasPositiveAmounts b.transactions
      → validate_block ssl store b ≡ ok (b', true)
      → IsAcceptable ssl store b
  block-eq-true store b b' pos h =
      let (txs, e1, e) = block_parts store b b' h in
      let (m, e2, same) = paid_parts _ b' e in
      let authentic = validate_all-eq-true b.transactions txs pos e1 in
      let marked : txs ≡ map mark_valid b.transactions =
        cc (validate_all-authentic b.transactions pos authentic) in
      let (payable, _) = pay_all-eq-true b.transactions (start_balances store b) m (
        sym (pay_all-mark_valid b.transactions (start_balances store b))
        ∙ (ap (λ ts. pay_all ts (start_balances store b)) (sym marked) ∙ e2)) in
      let digest = ssl.sha256 (hash_input b.transactions b.reward_addr b.prev_hash) in
      let hashed : digest ≡ b.blk_hash = (hash_eq_iff digest b.blk_hash).0 (
        ground (
          arith,
          same,
          ap (λ ts. hash_input ts b.reward_addr b.prev_hash) marked,
          hash_input-mark_valid b.transactions b.reward_addr b.prev_hash,
          hashes_equal-eq true digest b.blk_hash,
        )) in
      record { authentic = authentic; payable = payable; hashed = hashed }

  -- On blocks whose transactions all have positive amounts, validate of day 1 answers true exactly
  -- where validate of the later days does, and leaves the same block.
  pub validate_block_agree :
      (store : Store) (b b' : Block)
      → HasPositiveAmounts b.transactions
      → (validate_block ssl store b ≡ ok (b', true)) ↔ (validate ssl store b ≡ ok (b', true))
  validate_block_agree store b b' pos = (
    (λ h.
        let acceptable = block-eq-true store b b' pos h in
        cc (
          h,
          block-IsAcceptable store b pos acceptable,
          validate-IsAcceptable ssl store b acceptable,
        )),
    (λ h.
        let acceptable = validate_block-eq-true ssl store b b' h in
        cc (
          h,
          block-IsAcceptable store b pos acceptable,
          validate-IsAcceptable ssl store b acceptable,
        )),
  )

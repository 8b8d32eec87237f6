-- ===== src/Generator/Sealing.antt =====
-- The blocks that the generator seals are those that the reader accepts.
use bootcamp.Base.{
  ℕ, suc, ◌≤◌, ◌≡◌, ◌∙◌, refl, sym, ap, subst, true, false, some, List, [], ◌∷◌, ◌++◌, map, All,
  length, get_elem?, arith, ok,
}
use bootcamp.Crypto.{empty_hash, OpenSsl, HashResult, hash_size}
use bootcamp.Transaction.{Txn, BalanceMap, balance_available}
use bootcamp.Transaction.Balances.{settled}
use bootcamp.Block.{
  compute_block_hash, Block, Store, default_block, next_length, set_prev_block, reset_balances,
  set_hash, hash_input, is_coinbase, all_zero, validate, max_transactions,
}
use bootcamp.Block.Validate.{
  IsAuthentic, IsPayable, IsAcceptable, settle_all, mark_valid, start_balances, accepted_block,
  validate-IsAcceptable, validate_block-eq-true,
}
use bootcamp.Block.Supply.{validate-accepted_block}
use bootcamp.BlockIo.{find_block}
use bootcamp.BlockIo.Codec.{IsStorable, IsStorableBlock, linked, parsed, unvalidated}
use bootcamp.BlockIo.Parsed.{parsed-HasFields}
use bootcamp.ChainReader.{Chain, empty_chain}
use bootcamp.ChainReader.RoundTrip.{Accepts, validate-HasFields}
use bootcamp.Generator.{seal_block, create_coinbase}
use bootcamp.Generator.Payments.{IsBuilding}

-- A block with the flags of its transactions cleared.
abbrev reread : Block → BalanceMap → Block
reread b m = record b { valid = false; balances = m; transactions = map unvalidated b.transactions }

settle_all-unvalidated :
    (ts : List Txn) (m : BalanceMap) → settle_all (map unvalidated ts) m ≡ settle_all ts m
settle_all-unvalidated [] m = refl
settle_all-unvalidated (t ∷ ts) m = settle_all-unvalidated ts (settled t m)

IsPayable-unvalidated :
    (ts : List Txn) (m : BalanceMap) → IsPayable ts m → IsPayable (map unvalidated ts) m
unfolding balance_available
IsPayable-unvalidated [] m h = tt
IsPayable-unvalidated (t ∷ ts) m (p, ps) = (p, IsPayable-unvalidated ts (settled t m) ps)

mark_valid-unvalidated : (ts : List Txn) → map mark_valid (map unvalidated ts) ≡ map mark_valid ts
mark_valid-unvalidated [] = refl
mark_valid-unvalidated (t ∷ ts) = ap (λ us. mark_valid t ∷ us) (mark_valid-unvalidated ts)

hash_input-unvalidated :
    (ts : List Txn) (reward prev : HashResult)
    → hash_input (map unvalidated ts) reward prev ≡ hash_input ts reward prev
unfolding hash_input
hash_input-unvalidated [] reward prev = refl
hash_input-unvalidated (t ∷ ts) reward prev =
    ap (λ bytes. t.tx_hash ++ bytes) (hash_input-unvalidated ts reward prev)

start_balances-reread :
    (store : Store) (b : Block) (m : BalanceMap)
    → start_balances store (reread b m) ≡ start_balances store b
unfolding reset_balances
start_balances-reread store b m = ground arith

All-map_lem {ℓ} :
    {A : Type ℓ} (P Q : A → Type 0) (f : A → A) (xs : List A)
    → ((x : A) → P x → Q (f x))
    → All P xs
    → All Q (map f xs)
All-map_lem P Q f [] h p = tt
All-map_lem P Q f (x ∷ xs) h (p, ps) = (h x p, All-map_lem P Q f xs h ps)

length-map_lem : (f : Txn → Txn) (ts : List Txn) → length (map f ts) ≡ length ts
length-map_lem f [] = refl
length-map_lem f (t ∷ ts) = ap suc (length-map_lem f ts)

IsStorable-mark_valid : (t : Txn) → IsStorable t → IsStorable (mark_valid t)
IsStorable-mark_valid t (sizes, w) = (
  record {
    source_size = sizes.source_size;
    dest_size = sizes.dest_size;
    change_size = sizes.change_size;
    hash_size_of = sizes.hash_size_of;
    amount_range = sizes.amount_range;
  },
  record {
    has_key = w.has_key;
    key_bound = w.key_bound;
    has_sign = w.has_sign;
    sign_bound = w.sign_bound;
  },
)

module _ (ssl : OpenSsl) where
  IsAuthentic-unvalidated : (t : Txn) → IsAuthentic ssl t → IsAuthentic ssl (unvalidated t)
  IsAuthentic-unvalidated t (sealed, (key, answers)) = (
    record { spends = sealed.spends; owned = sealed.owned; hashed = sealed.hashed },
    (
      key,
      record { decodes = answers.decodes; encodes = answers.encodes; verdict = answers.verdict },
    ),
  )

  -- What validate made of a block it makes of the block as it is read.
  validate-reread :
      (store : Store) (b b' : Block) (m : BalanceMap)
      → validate ssl store b ≡ ok (b', true)
      → validate ssl store (reread b m) ≡ ok (b', true)
  validate-reread store b b' m e =
      let a = validate_block-eq-true ssl store b b' e in
      let start = start_balances-reread store b m in
      let again : IsAcceptable ssl store (reread b m) = record {
        authentic =
            All-map_lem (IsAuthentic ssl) (IsAuthentic ssl) unvalidated b.transactions
              IsAuthentic-unvalidated a.authentic;
        payable =
            subst (IsPayable (map unvalidated b.transactions)) (sym start)
              (IsPayable-unvalidated b.transactions (start_balances store b) a.payable);
        hashed =
            ap ssl.sha256 (hash_input-unvalidated b.transactions b.reward_addr b.prev_hash)
            ∙ a.hashed;
      } in
      let same : accepted_block ssl store (reread b m) ≡ accepted_block ssl store b =
        rw
          (
            start,
            mark_valid-unvalidated b.transactions,
            settle_all-unvalidated b.transactions (start_balances store b),
          )
          refl in
      validate-IsAcceptable ssl store (reread b m) again
      ∙ ap (λ x. ok (x, true)) (same ∙ sym (validate-accepted_block ssl store b b' e))

  validate-Accepts :
      (c : Chain) (b b' : Block) (m : BalanceMap)
      → validate ssl c.store b ≡ ok (b', true)
      → linked c.store c.bmap (parsed b) ≡ reread b m
      → Accepts ssl c b'
  validate-Accepts c b b' m e l =
      let fields = parsed-HasFields b b' (validate-HasFields ssl c.store b b' e) in
      ap (validate ssl c.store) (ap (linked c.store c.bmap) (sym fields) ∙ l)
      ∙ validate-reread c.store b b' m e

  -- A block behind `prev`, which stands at `p`, as block_t::block_t(prev) makes it, with its reward
  -- address, its transactions and its balances filled in.
  abbrev pub IsBehind : ℕ → Block → Block → Type 0
  IsBehind p prev b = b ≡ record default_block {
    length = next_length prev.length;
    prev_hash = prev.blk_hash;
    prev_block = some p;
    reward_addr = b.reward_addr;
    transactions = b.transactions;
    balances = b.balances;
  }

  linked-reread :
      (c : Chain) (p : ℕ) (prev b : Block)
      → get_elem? c.store p ≡ some prev
      → find_block prev.blk_hash c.bmap ≡ some p
      → all_zero prev.blk_hash ≡ false
      → IsBehind p prev b
      → linked c.store c.bmap (parsed (set_hash ssl b)) ≡ reread (set_hash ssl b) prev.balances
  unfolding set_hash set_prev_block reset_balances default_block
  linked-reread c p prev b there found seal behind =
      let hash : b.prev_hash ≡ prev.blk_hash = ap (λ x. x.prev_hash) behind in
      let longer : b.length ≡ next_length prev.length = ap (λ x. x.length) behind in
      let pointer : b.prev_block ≡ some p = ap (λ x. x.prev_block) behind in
      let other : all_zero b.prev_hash ≡ false = ap all_zero hash ∙ seal in
      let listed : find_block b.prev_hash c.bmap ≡ some p =
        ap (λ h. find_block h c.bmap) hash ∙ found in
      ground (arith, other, listed, there, longer, pointer)

  -- A block that is filled with transactions that validate accepts trips no assert when it is
  -- sealed, and the reader accepts what it has become.
  pub seal_block-Accepts :
      (c : Chain) (p : ℕ) (prev b : Block)
      → get_elem? c.store p ≡ some prev
      → find_block prev.blk_hash c.bmap ≡ some p
      → all_zero prev.blk_hash ≡ false
      → IsBehind p prev b
      → IsBuilding ssl prev.balances b
      → let b' = accepted_block ssl c.store (set_hash ssl b) in
        (seal_block ssl c.store b ≡ ok b') × Accepts ssl c b'
  unfolding seal_block set_hash is_coinbase reset_balances compute_block_hash
  seal_block-Accepts c p prev b there found seal behind building =
      let pointer : b.prev_block ≡ some p = ap (λ x. x.prev_block) behind in
      let other : all_zero b.prev_hash ≡ false = ap (λ x. all_zero x.prev_hash) behind ∙ seal in
      let start : start_balances c.store (set_hash ssl b) ≡ prev.balances =
        ground (arith, there, pointer) in
      let acceptable : IsAcceptable ssl c.store (set_hash ssl b) = record {
        authentic = building.authentic;
        payable = subst (IsPayable b.transactions) (sym start) building.payable;
        hashed = refl;
      } in
      let valid = validate-IsAcceptable ssl c.store (set_hash ssl b) acceptable in
      (
        ground (arith, other, valid),
        validate-Accepts c (set_hash ssl b) _ prev.balances valid
            (linked-reread c p prev b there found seal behind),
      )

  -- The first block of a chain.
  pub create_coinbase-Accepts :
      (addr : HashResult)
      → ((bytes : List ℕ) → length (ssl.sha256 bytes) ≡ hash_size)
      → length addr ≡ hash_size
      → let b =
          accepted_block ssl [] (set_hash ssl (record default_block { reward_addr = addr })) in
        (create_coinbase ssl addr ≡ ok b) × Accepts ssl empty_chain b × IsStorableBlock b
  unfolding create_coinbase set_hash compute_block_hash default_block empty_hash
  create_coinbase-Accepts addr digest size =
      let b = set_hash ssl (record default_block { reward_addr = addr }) in
      let acceptable : IsAcceptable ssl [] b = record {
        authentic = tt;
        payable = tt;
        hashed = refl;
      } in
      let valid = validate-IsAcceptable ssl [] b acceptable in
      (
        ground (arith, valid),
        validate-Accepts empty_chain b _ [] valid refl,
        record {
          few = omega arith;
          storable = tt;
          reward_size = size;
          prev_size = refl;
          hash_size_of = digest _;
        },
      )

  -- A sealed block fits the format of a file.
  pub sealed-IsStorableBlock :
      (store : Store) (p : ℕ) (prev b : Block)
      → ((bytes : List ℕ) → length (ssl.sha256 bytes) ≡ hash_size)
      → length b.reward_addr ≡ hash_size
      → length prev.blk_hash ≡ hash_size
      → length b.transactions ≤ max_transactions
      → All IsStorable b.transactions
      → IsBehind p prev b
      → IsStorableBlock (accepted_block ssl store (set_hash ssl b))
  unfolding set_hash compute_block_hash
  sealed-IsStorableBlock store p prev b digest reward hash few storable behind = record {
    few = omega (arith, length-map_lem mark_valid b.transactions, few);
    storable =
        All-map_lem IsStorable IsStorable mark_valid b.transactions IsStorable-mark_valid storable;
    reward_size = reward;
    prev_size = ap (λ x. length x.prev_hash) behind ∙ hash;
    hash_size_of = digest _;
  }

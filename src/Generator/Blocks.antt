-- ===== src/Generator/Blocks.antt =====
-- A block of the generator: it trips no assert, and the reader accepts it.
use bootcamp.Base.{
  ℕ, suc, ◌+◌, ◌%◌, ◌≤◌, ◌<◌, ◌≡◌, ◌∙◌, refl, sym, ap, subst, false, Option, some, [], ◌∷◌, length,
  get_elem?, arith, ok,
}
use bootcamp.Crypto.{HashResult, OpenSsl, hash_size}
use bootcamp.Transaction.{uint64_mod}
use bootcamp.Block.{
  Block, Store, default_block, block_on, next_length, all_zero, block_reward, set_hash,
  max_transactions,
}
use bootcamp.Block.Validate.{accepted_block}
use bootcamp.BlockIo.{BlockMap, find_block}
use bootcamp.BlockIo.Codec.{IsStorableBlock}
use bootcamp.ChainReader.{Chain, empty_chain}
use bootcamp.ChainReader.RoundTrip.{Extends-nil, Accepts, Extends}
use bootcamp.Generator.{
  seal_block, create_behind, Sources, World, set_utxo, pick_reward, pay_reward, create_block,
  spend_all,
}
use bootcamp.Generator.Utxos.{find_utxo-HasEntry, HasEntry-find_utxo, get_elem?-HasEntry}
use bootcamp.Generator.Funds.{IsSupply, IsOwned-amount, IsFunded, HasKey, set_utxo-Grows}
use bootcamp.Generator.Payments.{IsBuilding}
use bootcamp.Generator.Spending.{Spent, spend_all-Spent}
use bootcamp.Generator.Sealing.{
  IsBehind, seal_block-Accepts, create_coinbase-Accepts, sealed-IsStorableBlock,
}

module _ (ssl : OpenSsl) (src : Sources ssl) (limit : ℕ) (s : IsSupply ssl src limit) where
  -- The last block, with what the next one takes from it.
  abbrev pub HasLast : Store → BlockMap → Type 0
  HasLast store bmap =
      (p : ℕ)
      → suc p ≡ length store
      → (prev : Block) × (get_elem? store p ≡ some prev)
        × (find_block prev.blk_hash bmap ≡ some p)
        × (all_zero prev.blk_hash ≡ false)
        × (length prev.blk_hash ≡ hash_size)

  -- What a new block is like.
  pub record IsMade (store : Store) (bmap : BlockMap) (tip : Option ℕ) (b : Block) : Type 0 where
    pub valid : Accepts ssl (record { store = store; bmap = bmap; tip = tip }) b
    pub stored : IsStorableBlock b
    pub behind : (p : ℕ) → suc p ≡ length store → b.prev_block ≡ some p
    pub not_zero : all_zero b.blk_hash ≡ false

  -- The reward address is that of an entry.
  pub pick_reward-HasKey :
      (w : World ssl)
      → IsFunded ssl src limit w
      → 0 < length w.utxos
      → (addr : HashResult) × (pick_reward ssl src w ≡ ok (addr, record w { drawn = w.drawn + 1 }))
        × HasKey ssl src limit addr w
        × (length addr ≡ hash_size)
  unfolding pick_reward
  pick_reward-HasKey w f some_entries =
      let i = src.rand w.drawn % length w.utxos in
      let below : i < length (src.visit w.utxos) = omega (arith, s.count w.utxos, some_entries) in
      let (addr, u, e, there) = get_elem?-HasEntry ssl i (src.visit w.utxos) below in
      let entry = (s.entries w.utxos addr u).0 there in
      let o = f.owned addr u entry in
      (
        addr,
        ground (arith, e),
        HasEntry-find_utxo ssl addr u w.utxos entry,
        ap length (o.here ∙ o.hashed) ∙ s.digest_size (src.keys o.number).1,
      )

  pub pay_reward-Grows :
      (addr : HashResult) (w : World ssl)
      → IsFunded ssl src limit w
      → HasKey ssl src limit addr w
      → (w' : World ssl) × (pay_reward ssl addr w ≡ ok w')
        × IsFunded ssl src limit w'
        × (w'.made ≡ w.made)
  unfolding pay_reward
  pay_reward-Grows addr w f (u, e) =
      let o = f.owned addr u (find_utxo-HasEntry ssl addr u w.utxos e) in
      let richer = record u { amount = (u.amount + block_reward) % uint64_mod } in
      let g =
        set_utxo-Grows ssl src limit addr richer w w.made f (omega arith)
          (IsOwned-amount ssl src limit w.made addr u _ (omega arith) o) in
      (record w { utxos = set_utxo ssl addr richer w.utxos }, ground (arith, e), g.funded, refl)

  -- block_t::block_t(prev), with the reward address.
  abbrev started : ℕ → Block → HashResult → Block
  started p prev reward = record default_block {
    length = next_length prev.length;
    prev_hash = prev.blk_hash;
    prev_block = some p;
    balances = prev.balances;
    reward_addr = reward;
  }

  abbrev fill_in : ℕ → Block → Block → HashResult → Block
  fill_in p prev b reward = record default_block {
    length = next_length prev.length;
    prev_hash = prev.blk_hash;
    prev_block = some p;
    reward_addr = reward;
    transactions = b.transactions;
    balances = b.balances;
  }

  started-IsBuilding :
      (p : ℕ) (prev : Block) (reward : HashResult)
      → IsBuilding ssl prev.balances (started p prev reward)
  unfolding default_block
  started-IsBuilding p prev reward = record {
    authentic = tt;
    storable = tt;
    payable = tt;
    settles = refl;
  }

  create_behind-steps :
      (num_txns p : ℕ) (store : Store) (prev : Block) (reward : HashResult) (w : World ssl)
      (b : Block) (w' : World ssl) (sealed : Block)
      → get_elem? store p ≡ some prev
      → spend_all ssl src num_txns num_txns reward (started p prev reward) w ≡ ok (b, w')
      → seal_block ssl store b ≡ ok sealed
      → create_behind ssl src num_txns p store reward w ≡ ok (sealed, w')
  unfolding create_behind block_on
  create_behind-steps num_txns p store prev reward w b w' sealed there filled seals =
      ground (arith, there, filled, seals)

  -- A block behind others.
  next_block-IsMade :
      (num_txns p : ℕ) (store : Store) (bmap : BlockMap) (tip : Option ℕ) (prev : Block)
      (reward : HashResult) (w : World ssl)
      → 3 ≤ num_txns
      → num_txns ≤ max_transactions
      → suc p ≡ length store
      → get_elem? store p ≡ some prev
      → find_block prev.blk_hash bmap ≡ some p
      → all_zero prev.blk_hash ≡ false
      → length prev.blk_hash ≡ hash_size
      → IsFunded ssl src limit w
      → num_txns ≤ length w.utxos
      → w.made + num_txns ≤ limit
      → HasKey ssl src limit reward w
      → length reward ≡ hash_size
      → (b : Block) × (w' : World ssl) × (create_behind ssl src num_txns p store reward w
          ≡ ok (b, w'))
        × IsMade store bmap tip b
        × Spent ssl src limit s num_txns num_txns reward w w'
  unfolding default_block set_hash
  next_block-IsMade num_txns p store bmap tip prev reward w three few size there found seal hash f
        enough room has addr =
      let first = started p prev reward in
      let (b, w', filled, fills, spent) =
        spend_all-Spent ssl src limit s num_txns num_txns reward prev.balances first w three f
          enough room has (started-IsBuilding p prev reward) in
      let behind : IsBehind ssl p prev b =
        fills.others ∙ ap (λ r. fill_in p prev b r) (sym (ap (λ x. x.reward_addr) fills.others)) in
      let address : length b.reward_addr ≡ hash_size =
        ap (λ x. length x.reward_addr) fills.others ∙ addr in
      let c : Chain = record { store = store; bmap = bmap; tip = tip } in
      let (seals, accepts) =
        seal_block-Accepts ssl c p prev b there found seal behind fills.building in
      (
        accepted_block ssl store (set_hash ssl b),
        w',
        create_behind-steps num_txns p store prev reward w b w' _ there filled seals,
        record {
          valid = accepts;
          stored =
              sealed-IsStorableBlock ssl store p prev b s.digest_size address hash
                (omega (arith, fills.few, few)) fills.building.storable behind;
          behind = λ q last. ap (λ x. x.prev_block) behind ∙ ap some (omega (arith, size, last));
          not_zero = s.not_zero _;
        },
        spent,
      )

  pub create_block-IsMade :
      (num_txns : ℕ) (store : Store) (bmap : BlockMap) (tip : Option ℕ) (reward : HashResult)
      (w : World ssl)
      → Extends ssl empty_chain store (record { store = store; bmap = bmap; tip = tip })
      → HasLast store bmap
      → 3 ≤ num_txns
      → num_txns ≤ max_transactions
      → IsFunded ssl src limit w
      → num_txns ≤ length w.utxos
      → w.made + num_txns ≤ limit
      → HasKey ssl src limit reward w
      → length reward ≡ hash_size
      → (b : Block) × (w' : World ssl) × (create_block ssl src num_txns store reward w ≡ ok (b, w'))
        × IsMade store bmap tip b
        × Spent ssl src limit s num_txns num_txns reward w w'
  unfolding create_block set_hash
  create_block-IsMade num_txns [] bmap tip reward w t last three few f enough room has addr =
      let (makes, accepts, stored) = create_coinbase-Accepts ssl reward s.digest_size addr in
      let b =
        accepted_block ssl [] (set_hash ssl (record default_block { reward_addr = reward })) in
      (
        b,
        w,
        ground (arith, makes),
        record {
          valid = subst (λ c. Accepts ssl c b) (Extends-nil ssl _ _ t) accepts;
          stored = stored;
          behind = λ q e. absurd (omega (arith, e));
          not_zero = s.not_zero _;
        },
        record { funded = f; enough = enough; few = omega arith; rewards = has },
      )
  create_block-IsMade num_txns (x ∷ store) bmap tip reward w t last three few f enough room has
        addr =
      let (prev, there, found, seal, hash) = last (length store) refl in
      next_block-IsMade num_txns (length store) (x ∷ store) bmap tip prev reward w three few refl
        there found seal hash f enough room has addr

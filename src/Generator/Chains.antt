-- ===== src/Generator/Chains.antt =====
-- create_chain_and_write: the run trips no assert, and the reader reads what it has written.
use bootcamp.Base.{
  ℕ, zero, suc, ◌+◌, ◌*◌, ◌≤◌, ◌≡◌, ◌∙◌, refl, sym, ap, subst, false, inl, inr, Option, none, some,
  List, [], ◌∷◌, ◌++◌, All, All-append, length, length-append, get_elem?, append-nil, arith, ok,
}
use native.Mathlib.Nat.{mul-suc}
use bootcamp.Crypto.{OpenSsl, hash_size}
use bootcamp.Block.{Block, Store, all_zero, max_transactions}
use bootcamp.BlockIo.{BlockMap, find_block, insert_block}
use bootcamp.BlockIo.Codec.{IsStorableBlock, block_bytes, write-block_bytes}
use bootcamp.Rewriter.Layout.{blocks_bytes, blocks_bytes-append}
use bootcamp.ChainReader.{Chain, empty_chain, keep_block, read_chain}
use bootcamp.ChainReader.Lookup.{get_elem?-last, get_elem?-snoc, find_block-insert_block_same}
use bootcamp.ChainReader.RoundTrip.{Extends, same, Extends-snoc, read_chain-Extends_bytes}
use bootcamp.Generator.{
  Sources, World, Progress, add_block, add_blocks, empty_progress, create_chain_and_write,
}
use bootcamp.Generator.Funds.{IsSupply, IsFunded}
use bootcamp.Generator.Ensuring.{ensure_min_utxos-Ensured}
use bootcamp.Generator.Blocks.{
  HasLast, IsMade, pick_reward-HasKey, pay_reward-Grows, create_block-IsMade,
}

-- Each block points to the one before it.
abbrev pub IsLine : Store → Type 0
IsLine store = (i : ℕ) (b : Block) → get_elem? store (suc i) ≡ some b → b.prev_block ≡ some i

IsLine-snoc :
    (store : Store) (b : Block)
    → IsLine store
    → ((p : ℕ) → suc p ≡ length store → b.prev_block ≡ some p)
    → IsLine (store ++ (b ∷ []))
IsLine-snoc store b line last i x e = elim (get_elem?-snoc store b x (suc i) e) [
  | inl old ↦ line i x old
  | inr (at_end, this) ↦ ap (λ y. y.prev_block) this ∙ last i at_end
]

module _ (ssl : OpenSsl) (src : Sources ssl) (limit : ℕ) (s : IsSupply ssl src limit) where
  -- The program between two blocks: what is written is read as a chain of the blocks in the store.
  record IsRunning (p : Progress ssl) : Type 0 where
    bmap : BlockMap
    tip : Option ℕ
    extends : Extends ssl empty_chain p.store (record { store = p.store; bmap = bmap; tip = tip })
    storable : All IsStorableBlock p.store
    line : IsLine p.store
    last : HasLast ssl src limit s p.store bmap
    written : p.out ≡ blocks_bytes p.store
    funded : IsFunded ssl src limit p.world

  -- The program with one more block.
  IsMade-IsRunning :
      (p : Progress ssl) (r : IsRunning p) (b : Block) (w : World ssl)
      → IsMade ssl src limit s p.store r.bmap r.tip b
      → IsFunded ssl src limit w
      → IsRunning (record { store = p.store ++ (b ∷ []); world = w; out = p.out ++ block_bytes b })
  unfolding keep_block blocks_bytes
  IsMade-IsRunning p r b w m f = record {
    bmap = insert_block b.blk_hash (length p.store) r.bmap;
    tip = some (length p.store);
    extends = Extends-snoc ssl empty_chain _ p.store b r.extends m.valid;
    storable = All-append IsStorableBlock p.store (b ∷ []) r.storable (m.stored, tt);
    line = IsLine-snoc p.store b r.line m.behind;
    last = λ q e.
        let at_end : length p.store ≡ q = omega (arith, e, length-append p.store (b ∷ [])) in
        subst
          (λ k.
            (prev : Block) × (get_elem? (p.store ++ (b ∷ [])) k ≡ some prev)
            × (find_block prev.blk_hash (insert_block b.blk_hash (length p.store) r.bmap) ≡ some k)
            × (all_zero prev.blk_hash ≡ false)
            × (length prev.blk_hash ≡ hash_size))
          at_end
          (
            b,
            get_elem?-last p.store b,
            find_block-insert_block_same b.blk_hash (length p.store) r.bmap,
            m.not_zero,
            m.stored.hash_size_of,
          );
    written =
        ap (λ bytes. bytes ++ block_bytes b) r.written
        ∙ sym (
            blocks_bytes-append p.store (b ∷ [])
            ∙ ap (λ bytes. blocks_bytes p.store ++ bytes) (append-nil (block_bytes b)));
    funded = f;
  }

  -- What a round of the loop over the blocks leaves.
  abbrev Advances : ℕ → ℕ → Progress ssl → Progress ssl → Type 0
  Advances num_txns blocks p p' =
      IsRunning p'
      × (length p'.store ≡ length p.store + blocks)
      × (p'.world.made ≤ p.world.made + 2 * num_txns * blocks)

  add_block-Advances :
      (num_txns : ℕ) (p : Progress ssl)
      → 3 ≤ num_txns
      → num_txns ≤ max_transactions
      → p.world.made + 2 * num_txns ≤ limit
      → IsRunning p
      → (p' : Progress ssl) × (add_block ssl src num_txns p ≡ ok p') × Advances num_txns 1 p p'
  unfolding add_block
  add_block-Advances num_txns p three few room r =
      let (w1, ensures, done) =
        ensure_min_utxos-Ensured ssl src limit num_txns num_txns p.world s r.funded (omega arith)
          (omega (arith, room)) in
      let (reward, picks, has, addr) =
        pick_reward-HasKey ssl src limit s w1 done.grows.funded
          (omega (arith, done.enough, three)) in
      let w2 = record w1 { drawn = w1.drawn + 1 } in
      let (b, w3, makes, made, spent) =
        create_block-IsMade ssl src limit s num_txns p.store r.bmap r.tip reward w2 r.extends r.last
          three few
          (record { distinct = done.grows.funded.distinct; owned = done.grows.funded.owned })
          done.enough (omega (arith, done.few, room)) has addr in
      let (w4, pays, funded, unmade) =
        pay_reward-Grows ssl src limit s reward w3 spent.funded spent.rewards in
      (
        record { store = p.store ++ (b ∷ []); world = w4; out = p.out ++ block_bytes b },
        ground (arith, ensures, picks, makes, write-block_bytes b p.out made.stored, pays),
        (
          IsMade-IsRunning p r b w4 made funded,
          length-append p.store (b ∷ []),
          omega (arith, unmade, spent.few, done.few),
        ),
      )

  add_blocks-Advances :
      (blocks num_txns : ℕ) (p : Progress ssl)
      → 3 ≤ num_txns
      → num_txns ≤ max_transactions
      → p.world.made + 2 * num_txns * blocks ≤ limit
      → IsRunning p
      → (p' : Progress ssl) × (add_blocks ssl src num_txns blocks p ≡ ok p')
        × Advances num_txns blocks p p'
  unfolding add_blocks
  add_blocks-Advances zero num_txns p three few room r = (p, refl, (r, omega arith, omega arith))
  add_blocks-Advances (suc blocks) num_txns p three few room r =
      let more = mul-suc (2 * num_txns) blocks in
      let (p1, once, (r1, longer, made)) =
        add_block-Advances num_txns p three few (omega (arith, room, more)) r in
      let (p2, others, (r2, longer2, made2)) =
        add_blocks-Advances blocks num_txns p1 three few (omega (arith, room, more, made)) r1 in
      (
        p2,
        ground (arith, once, others),
        (r2, omega (arith, longer, longer2), omega (arith, made, made2, more)),
      )

  empty_progress-IsRunning : IsRunning (empty_progress ssl)
  unfolding blocks_bytes
  empty_progress-IsRunning = record {
    bmap = [];
    tip = none;
    extends = same empty_chain;
    storable = tt;
    line = λ i b e. cc e;
    last = λ p e. absurd (omega (arith, e));
    written = refl;
    funded = record { distinct = tt; owned = λ k u t. elim t [ ] };
  }

  -- With 3 to MAX_TRANSACTIONS transactions a block, key pairs of which the first 2 * num_txns * len
  -- have different addresses, keys and signatures of 1 to 1023 bytes, and digests that are not all
  -- 0, create_chain_and_write comes to its end, whatever rand returns and in whatever order the map
  -- is visited: no assert is tripped, and no null pointer is followed. And what it has written is
  -- read by the reader as a chain of len blocks, each of which points to the one before it.
  pub create_chain_and_write-read_chain :
      (len num_txns : ℕ)
      → 3 ≤ num_txns
      → num_txns ≤ max_transactions
      → 2 * num_txns * len ≤ limit
      → (out : List ℕ) × (c : Chain) × (create_chain_and_write ssl src len num_txns ≡ ok out)
        × (read_chain ssl out ≡ ok c)
        × (length c.store ≡ len)
        × IsLine c.store
  unfolding create_chain_and_write
  create_chain_and_write-read_chain len num_txns three few room =
      let (p, runs, (r, count, _)) =
        add_blocks-Advances len num_txns (empty_progress ssl) three few (omega (arith, room))
          empty_progress-IsRunning in
      let c : Chain = record { store = p.store; bmap = r.bmap; tip = r.tip } in
      (
        p.out,
        c,
        ground (arith, runs),
        ap (read_chain ssl) r.written ∙ read_chain-Extends_bytes ssl c p.store r.extends r.storable,
        omega (arith, count),
        r.line,
      )

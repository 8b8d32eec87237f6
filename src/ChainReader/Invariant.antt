-- ===== src/ChainReader/Invariant.antt =====
-- What holds of the chain after every round: the blocks are valid and sealed, linked by hash and
-- pointer to earlier ones, and create no money but the rewards.
use bootcamp.Base.{
  ℕ, zero, suc, ◌+◌, ◌*◌, ◌-◌, ◌^◌, ◌<◌, ◌≤◌, ◌≡◌, ◌==◌, ◌∙◌, refl, sym, ap, true, false, Bool,
  Bool-cases, inl, inr, ◌⊎◌, none, some, List, [], ◌∷◌, ◌++◌, length, length-append, get_elem?,
  arith, ok, Result, ◌>>=◌, bind-ok, drop,
}
use bootcamp.SortedMap.Total.{total}
use bootcamp.Crypto.{OpenSsl, HashResult}
use bootcamp.Block.{
  default_block, reset_balances, Block, Store, block_input, block_reward, validate,
}
use bootcamp.Block.Validate.{hash_input-mark_valid, start_balances, validate_block-eq-true}
use bootcamp.Block.Supply.{validate-accepted_block, total-validate}
use bootcamp.BlockIo.{find_block, read}
use bootcamp.ChainReader.{Chain, empty_chain, keep_block, read_next, read_blocks, read_chain}
use bootcamp.ChainReader.Lookup.{
  get_elem?-append_left, get_elem?-last, get_elem?-snoc, get_elem?-lt, find_block-insert_block,
}
use bootcamp.ChainReader.Rounds.{after_round, read_blocks-suc}
use bootcamp.ChainReader.Links.{HasLink, read-HasLink}

-- A block before this one, in the store, with its hash in prev_hash, and one shorter.
abbrev pub HasPrev : Store → ℕ → Block → Type 0
HasPrev store i b =
    (p : ℕ) × (prev : Block) × (b.prev_block ≡ some p)
    × (p < i)
    × (get_elem? store p ≡ some prev)
    × (prev.blk_hash ≡ b.prev_hash)
    × (b.length ≡ prev.length + 1)

module _ (ssl : OpenSsl) where
  -- What holds of the block that was kept as number `i`.
  pub record IsKept (store : Store) (i : ℕ) (b : Block) : Type 0 where
    pub flag : b.valid ≡ true
    pub sealed : ssl.sha256 (block_input b) ≡ b.blk_hash
    pub link : ((b.prev_block ≡ none) × (b.length ≡ 1)) ⊎ HasPrev store i b
    pub deep : b.length ≤ suc i
    pub supply : total b.balances ≤ block_reward * b.length

  pub record IsChain (c : Chain) : Type 0 where
    pub kept : (i : ℕ) (b : Block) → get_elem? c.store i ≡ some b → IsKept c.store i b
    pub known :
        (h : HashResult) (p : ℕ)
        → find_block h c.bmap ≡ some p
        → (b : Block) × (get_elem? c.store p ≡ some b) × (b.blk_hash ≡ h)
    pub last : (p : ℕ) → c.tip ≡ some p → suc p ≡ length c.store

  IsKept-append :
      (store : Store) (x : Block) (i : ℕ) (b : Block)
      → IsKept store i b
      → IsKept (store ++ (x ∷ [])) i b
  IsKept-append store x i b k = record {
    flag = k.flag;
    sealed = k.sealed;
    link = elim k.link [
      | inl first ↦ inl first
      | inr (p, prev, pointer, before, e, hash, longer) ↦
          inr
            (p, prev, pointer, before, get_elem?-append_left store (x ∷ []) p prev e, hash, longer)
    ];
    deep = k.deep;
    supply = k.supply;
  }

  -- Where a block that has been read gets its balances and its length from.
  abbrev Origin : Store → Block → Type 0
  Origin store b =
      ((b.prev_block ≡ none) × (b.length ≡ 1) × (start_balances store b ≡ []))
      ⊎ ((prev : Block) × HasPrev store (length store) b
          × (total (start_balances store b) ≤ block_reward * prev.length)
          × (b.length ≡ prev.length + 1)
          × (prev.length ≤ length store))

  HasLink-Origin :
      (c : Chain) (b : Block)
      → IsChain c
      → length c.store + 1 < 2 ^ 32
      → HasLink c.store c.bmap b
      → Origin c.store b
  unfolding reset_balances
  HasLink-Origin c b chain few (inl (p, l)) = inl (p, l, ground (arith, p))
  HasLink-Origin c b chain few (inr (q, found, pointer, longer)) =
      let (prev, e, hash) = chain.known b.prev_hash q found in
      let k = chain.kept q prev e in
      let short : q < length c.store = get_elem?-lt c.store q prev e in
      let one_more : b.length ≡ prev.length + 1 = longer prev e ∙ omega (arith, k.deep, short) in
      let started : start_balances c.store b ≡ prev.balances = ground (arith, pointer, e) in
      inr (
        prev,
        (q, prev, pointer, short, e, hash, one_more),
        rw started k.supply,
        one_more,
        omega (arith, k.deep, short),
      )

  -- With the reward, the block has no more than a reward for each block up to it.
  Origin-supply :
      (store : Store) (b : Block)
      → Origin store b
      → (total (start_balances store b) + block_reward ≤ block_reward * b.length)
        × (b.length ≤ suc (length store))
  Origin-supply store b (inl (p, l, e)) = (omega (arith, ap total e, l), omega (arith, l))
  Origin-supply store b (inr (prev, link, rich, longer, deep)) =
      (omega (arith, rich, longer), omega (arith, longer, deep))

  Origin-link :
      (store : Store) (b : Block)
      → Origin store b
      → ((b.prev_block ≡ none) × (b.length ≡ 1)) ⊎ HasPrev store (length store) b
  Origin-link store b (inl (p, l, e)) = inl (p, l)
  Origin-link store b (inr (prev, link, _, _, _)) = inr link

  accepted-IsKept :
      (store : Store) (b b' : Block)
      → length store + 1 < 2 ^ 32
      → Origin store b
      → validate ssl store b ≡ ok (b', true)
      → IsKept store (length store) b'
  accepted-IsKept store b b' few origin e =
      let same = validate-accepted_block ssl store b b' e in
      let sealed = (validate_block-eq-true ssl store b b' e).hashed in
      let (supply, deep) = Origin-supply store b origin in
      let created : total b'.balances ≤ block_reward * b.length =
        omega (arith, supply, total-validate ssl store b b' (omega (arith, supply, deep)) e) in
      rw same (record {
        flag = refl;
        sealed =
            ap ssl.sha256 (hash_input-mark_valid b.transactions b.reward_addr b.prev_hash) ∙ sealed;
        link = Origin-link store b origin;
        deep = deep;
        supply = omega (arith, created, ap (λ x. total x.balances) same, ap (λ x. x.length) same);
      })

  keep_block-IsChain :
      (c : Chain) (b : Block)
      → IsChain c
      → IsKept c.store (length c.store) b
      → IsChain (keep_block c b)
  unfolding keep_block
  keep_block-IsChain c b chain k = record {
    kept = λ i x e. elim (get_elem?-snoc c.store b x i e) [
      | inl old ↦ IsKept-append c.store b i x (chain.kept i x old)
      | inr (at_end, same) ↦ rw (at_end, same) (IsKept-append c.store b (length c.store) b k)
    ];
    known = λ h p e. elim (find_block-insert_block h b.blk_hash p (length c.store) c.bmap e) [
      | inl (hash, at_end) ↦ (b, rw at_end (get_elem?-last c.store b), sym hash)
      | inr old ↦
          let (x, found, hash) = chain.known h p old in
          (x, get_elem?-append_left c.store (b ∷ []) p x found, hash)
    ];
    last = λ p e. ground (arith, e, length-append c.store (b ∷ []));
  }

  -- What a round does with what validate returned.
  abbrev pub keep_if : Chain → ℕ → Block × Bool → Result (Chain × ℕ)
  keep_if c n (b, v) = elim v [ true ↦ ok (keep_block c b, n) | false ↦ ok (c, n) ]

  -- A round keeps the invariant, and keeps at most one block.
  read_next-IsChain :
      (c c' : Chain) (at0 : List ℕ) (left n : ℕ)
      → IsChain c
      → length c.store + 1 < 2 ^ 32
      → read_next ssl c at0 left ≡ ok (c', n)
      → IsChain c' × (length c'.store ≤ length c.store + 1)
  unfolding read_next keep_block
  read_next-IsChain c c' at0 left n chain few e =
      let ((blk, m), e1, e0) = bind-ok _ (read c.store c.bmap default_block at0 left) _ e in
      let unchanged : c ≡ c' → IsChain c' × (length c'.store ≤ length c.store + 1) =
        λ same. rw (← same) (chain, omega arith) in
      elim (Bool-cases (m == 0)) [
        | inl stuck ↦ unchanged (ground (arith, e1, stuck))
        | inr taken ↦
            let e2 : validate ssl c.store blk >>= keep_if c m ≡ ok (c', n) =
              ground (arith, e1, taken) in
            let ((b, v), e3, valid) = bind-ok (keep_if c m) (validate ssl c.store blk) _ e2 in
            elim (Bool-cases v) [
              | inr dropped ↦ unchanged (ground (arith, e3, dropped))
              | inl accepts ↦
                  let link =
                    read-HasLink c.store c.bmap blk at0 left m e0 (ground (arith, taken)) in
                  let origin = HasLink-Origin c blk chain few link in
                  let k =
                    accepted-IsKept c.store blk b few origin
                      (valid ∙ ap (λ t. ok (b, t)) accepts) in
                  let same : keep_block c b ≡ c' = ground (arith, e3, accepts) in
                  rw (← same)
                    (keep_block-IsChain c b chain k, omega (arith, length-append c.store (b ∷ [])))
            ]
      ]

  read_blocks-IsChain :
      (rounds : ℕ) (c c' : Chain) (at0 : List ℕ) (left : ℕ)
      → IsChain c
      → length c.store + left < 2 ^ 32
      → read_blocks ssl rounds c at0 left ≡ ok c'
      → IsChain c'
  unfolding read_blocks
  read_blocks-IsChain zero c c' at0 left chain few e =
      let same : c ≡ c' = ground (arith, e) in rw (← same) chain
  read_blocks-IsChain (suc rounds) c c' at0 left chain few e = elim (Bool-cases (left == 0)) [
    | inl empty ↦ let same : c ≡ c' = ground (arith, e, empty) in rw (← same) chain
    | inr bytes ↦
        let e0 : read_next ssl c at0 left >>= after_round ssl rounds at0 left ≡ ok c' =
          sym (read_blocks-suc ssl rounds c at0 left bytes) ∙ e in
        let ((next, n), e2, e1) =
          bind-ok (after_round ssl rounds at0 left) (read_next ssl c at0 left) _ e0 in
        let (more, grown) =
          read_next-IsChain c next at0 left n chain (ground (arith, few, bytes)) e1 in
        elim (Bool-cases (n == 0)) [
          | inl stuck ↦ let same : next ≡ c' = ground (arith, e2, stuck) in rw (← same) more
          | inr taken ↦
              let others : read_blocks ssl rounds next (drop n at0) (left - n) ≡ ok c' =
                ground (arith, e2, taken) in
              read_blocks-IsChain rounds next c' (drop n at0) (left - n) more
                (ground (arith, grown, few, bytes, taken)) others
        ]
  ]

  empty_chain-IsChain : IsChain empty_chain
  unfolding find_block
  empty_chain-IsChain = record { kept = λ i b e. cc e; known = λ h p e. cc e; last = λ p e. cc e }

  chain_of_file :
      (bytes : List ℕ) (c : Chain) → length bytes < 2 ^ 32 → read_chain ssl bytes ≡ ok c → IsChain c
  unfolding read_chain
  chain_of_file bytes c few e =
      read_blocks-IsChain (length bytes) empty_chain c bytes (length bytes) empty_chain-IsChain
        (omega (arith, few)) e

  -- Whatever a file of less than 2 ^ 32 bytes holds, each block that the reader keeps, as number i,
  -- is flagged valid and sealed by its hash; it has length 1 and no block before it, or is one
  -- longer than an earlier kept block, which it points to and whose hash it names; its length is at
  -- most i + 1; and its balances sum up to no more than a reward for each block of its length.
  pub read_chain-IsKept :
      (bytes : List ℕ) (c : Chain) (i : ℕ) (b : Block)
      → length bytes < 2 ^ 32
      → read_chain ssl bytes ≡ ok c
      → get_elem? c.store i ≡ some b
      → IsKept c.store i b
  read_chain-IsKept bytes c i b few e found = (chain_of_file bytes c few e).kept i b found

  -- In the chain that the reader makes of a file of less than 2 ^ 32 bytes, what bmap has under a
  -- hash is a kept block with that hash.
  pub read_chain_bmap :
      (bytes : List ℕ) (c : Chain) (h : HashResult) (p : ℕ)
      → length bytes < 2 ^ 32
      → read_chain ssl bytes ≡ ok c
      → find_block h c.bmap ≡ some p
      → (b : Block) × (get_elem? c.store p ≡ some b) × (b.blk_hash ≡ h)
  read_chain_bmap bytes c h p few e found = (chain_of_file bytes c few e).known h p found

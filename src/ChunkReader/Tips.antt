-- ===== src/ChunkReader/Tips.antt =====
-- What readChunk enters into tails.
use bootcamp.Base.{
  ℕ, zero, suc, ◌-◌, ◌%◌, ◌^◌, ◌+◌, ◌<◌, ◌≡◌, ◌∙◌, ◌==◌, refl, ap, sym, subst, take,
  take-append_length, take-append_left, Bool, true, false, not, ◌&&◌, Bool-cases, none, some, inl,
  inr, ◌⊎◌, List, [], ◌∷◌, ◌++◌, All, All-append, length, get_elem?, drop, arith, Result, ok,
  bind-ok, ◌>>=◌, if◌then◌else◌,
}
use bootcamp.SortedMap.{IsSorted}
use bootcamp.Crypto.{OpenSsl, HashResult}
use bootcamp.Crypto.Order.{hash_order}
use bootcamp.Transaction.{BalanceMap}
use bootcamp.Block.{Block, Store, validate, default_block, is_coinbase}
use bootcamp.Block.Supply.{validate-IsSorted}
use bootcamp.BlockIo.{insert_block, read}
use bootcamp.BalanceIo.{read_balance_map}
use bootcamp.IndexedFile.{balance_maps_equal}
use bootcamp.IndexedFile.Maps.{balance, balance_maps_equal_iff}
use bootcamp.ChainReader.Lookup.{get_elem?-append_left, get_elem?-last, get_elem?-lt}
use bootcamp.ChunkReader.{
  Shared, Chunk, attach, keep, check_block, place_block, read_round, read_rounds, initial_balances,
  finish_chunk, read_chunk,
}
use bootcamp.ChunkReader.Order.{
  HasSortedBalances, All-get_elem?, read_balance_map-IsSorted, start_balances-IsSorted,
}

module _ (ssl : OpenSsl) where
  -- validate accepted a block that was read, with the blocks that stand before number `p`, and left
  -- block `b`, which is number `p`.
  abbrev pub IsAccepted : Store → ℕ → Block → Type 0
  IsAccepted store p b =
      (get_elem? store p ≡ some b)
      × ((b0 : Block) × (validate ssl (take p store) b0 ≡ ok (b, true)))

  IsAccepted-append :
      (store more : Store) (p : ℕ) (b : Block)
      → IsAccepted store p b
      → IsAccepted (store ++ more) p b
  IsAccepted-append store more p b (there, (b0, accepts)) =
      let inside = get_elem?-lt store p b there in
      let same = take-append_left p store more (omega (arith, inside)) in
      (get_elem?-append_left store more p b there, (b0, rw same accepts))

  record IsChunk (c : Chunk) : Type 0 where
    sorted : All HasSortedBalances c.shared.store
    top :
        (c.tip ≡ none) ⊎ ((p : ℕ) × (b : Block) × (c.tip ≡ some p) × IsAccepted c.shared.store p b)

  -- To keep another block alive changes nothing.
  IsChunk-grow :
      (c : Chunk) (b : Block)
      → IsChunk c
      → HasSortedBalances b
      → IsChunk (record c { shared = record c.shared { store = c.shared.store ++ (b ∷ []) } })
  IsChunk-grow c b h s = record {
    sorted = All-append HasSortedBalances c.shared.store (b ∷ []) h.sorted (s, tt);
    top = elim h.top [
      | inl empty ↦ inl empty
      | inr (p, t, e, accepted) ↦
          inr (p, t, e, IsAccepted-append c.shared.store (b ∷ []) p t accepted)
    ];
  }

  keep-IsChunk :
      (first : Bool) (c c' : Chunk) (b0 b : Block)
      → IsChunk c
      → HasSortedBalances b
      → validate ssl c.shared.store b0 ≡ ok (b, true)
      → keep first c b ≡ ok c'
      → IsChunk c' × (c'.shared.tails ≡ c.shared.tails)
  unfolding keep
  keep-IsChunk first c c' b0 b h s accepted e =
      let (coinbase, e1, _) = bind-ok _ (if first then is_coinbase b else ok true) _ e in
      let stored : c'.shared.store ≡ c.shared.store ++ (b ∷ []) = ground (arith, e1) in
      let tip : c'.tip ≡ some (length c.shared.store) = ground (arith, e1) in
      let tails : c'.shared.tails ≡ c.shared.tails = ground (arith, e1) in
      (
        record {
          sorted = rw stored (IsChunk-grow c b h s).sorted;
          top = inr (
            length c.shared.store,
            b,
            tip,
            rw stored (
              get_elem?-last c.shared.store b,
              (b0, rw (take-append_length c.shared.store (b ∷ []) _ refl) accepted),
            ),
          );
        },
        tails,
      )

  -- A round does not touch tails.
  abbrev Grows : Chunk → Chunk → Type 0
  Grows c c' = IsChunk c' × (c'.shared.tails ≡ c.shared.tails)

  abbrev keeps : ℕ → Chunk → Result (Chunk × ℕ)
  keeps n c = ok (c, n)

  -- The loop behind a round.
  abbrev after_round : ℕ → Bool → BalanceMap → List ℕ → ℕ → Chunk × ℕ → Result Chunk
  after_round bound follows init_bal at0 left (more, n) = elim (n == 0) [
    | true ↦ ok more
    | false ↦ read_rounds ssl bound false follows init_bal more (drop n at0) (left - n)
  ]

  check_block-Grows :
      (first : Bool) (c c' : Chunk) (blk : Block) (n m : ℕ)
      → IsChunk c
      → check_block ssl first c blk n ≡ ok (c', m)
      → Grows c c'
  unfolding check_block
  check_block-Grows first c c' blk n m h e =
      let ((checked, v), e1, valid) = bind-ok _ (validate ssl c.shared.store blk) _ e in
      elim (Bool-cases v) [
        | inr rejected ↦ let same : c ≡ c' = ground (arith, e1, rejected) in rw (← same) (h, refl)
        | inl accepts ↦
            let accepted : validate ssl c.shared.store blk ≡ ok (checked, true) =
              valid ∙ ap (λ t. ok (checked, t)) accepts in
            let started = start_balances-IsSorted c.shared.store blk h.sorted in
            let sorted = validate-IsSorted ssl c.shared.store blk checked started accepted in
            let kept : keep first c checked ≡ ok c' =
              let e2 : keep first c checked >>= keeps n ≡ ok (c', m) =
                ground (arith, e1, accepts) in
              let (kept, e3, there) = bind-ok (keeps n) (keep first c checked) _ e2 in
              let same : kept ≡ c' = ground (arith, e3) in there ∙ ap ok same in
            keep-IsChunk first c c' blk checked h sorted accepted kept
      ]

  place_block-Grows :
      (attached : Bool) (init_bal : BalanceMap) (c : Chunk) (blk : Block)
      → IsChunk c
      → IsSorted init_bal
      → Grows c (place_block ssl attached init_bal c blk).0
  unfolding place_block attach
  place_block-Grows false init_bal c blk h s = (h, refl)
  place_block-Grows true init_bal c blk h s = (
    IsChunk-grow c (record default_block { blk_hash = blk.prev_hash; balances = init_bal }) h s,
    refl,
  )

  read_round-Grows :
      (first follows : Bool) (init_bal : BalanceMap) (c c' : Chunk) (at0 : List ℕ) (left m : ℕ)
      → IsChunk c
      → IsSorted init_bal
      → read_round ssl first follows init_bal c at0 left ≡ ok (c', m)
      → Grows c c'
  unfolding read_round
  read_round-Grows first follows init_bal c c' at0 left m h s e =
      let ((blk, n), e1, _) = bind-ok _ (read c.shared.store c.bmap default_block at0 left) _ e in
      let (placed, tails) = place_block-Grows (first && follows) init_bal c blk h s in
      let (c1, blk1) = place_block ssl (first && follows) init_bal c blk in
      elim (Bool-cases (n == 0)) [
        | inl stuck ↦ let same : c1 ≡ c' = ground (arith, e1, stuck) in rw (← same) (placed, tails)
        | inr taken ↦
            let checked : check_block ssl first c1 blk1 n ≡ ok (c', m) =
              ground (arith, e1, taken) in
            let (more, unchanged) = check_block-Grows first c1 c' blk1 n m placed checked in
            (more, unchanged ∙ tails)
      ]

  read_rounds-Grows :
      (bound : ℕ) (first follows : Bool) (init_bal : BalanceMap) (c c' : Chunk) (at0 : List ℕ)
      (left : ℕ)
      → IsChunk c
      → IsSorted init_bal
      → read_rounds ssl bound first follows init_bal c at0 left ≡ ok c'
      → Grows c c'
  unfolding read_rounds
  read_rounds-Grows zero first follows init_bal c c' at0 left h s e =
      let same : c ≡ c' = ground (arith, e) in rw (← same) (h, refl)
  read_rounds-Grows (suc bound) first follows init_bal c c' at0 left h s e =
      elim (Bool-cases (left == 0)) [
        | inl empty ↦ let same : c ≡ c' = ground (arith, e, empty) in rw (← same) (h, refl)
        | inr bytes ↦
            let round = read_round ssl first follows init_bal c at0 left in
            let e0 : round >>= after_round bound follows init_bal at0 left ≡ ok c' =
              ground (arith, e, bytes) in
            let ((more, n), e2, e1) =
              bind-ok (after_round bound follows init_bal at0 left) round _ e0 in
            let (grown, tails) = read_round-Grows first follows init_bal c more at0 left n h s e1 in
            elim (Bool-cases (n == 0)) [
              | inl stuck ↦
                  let same : more ≡ c' = ground (arith, e2, stuck) in rw (← same) (grown, tails)
              | inr taken ↦
                  let (last, unchanged) =
                    read_rounds-Grows bound false follows init_bal more c' (drop n at0) (left - n)
                      grown s (ground (arith, e2, taken)) in
                  (last, unchanged ∙ tails)
            ]
      ]

  -- What readChunk reports: a tip that validate has accepted on the blocks before it in the store,
  -- whose length it returns, whose balances are those of `final_bal`, and which it enters into tails
  -- under its hash.
  abbrev pub Reports : Shared → BalanceMap → Shared → ℕ → Type 0
  Reports before final_bal after n =
      (p : ℕ) × (b : Block) × IsAccepted after.store p b
      × ((addr : HashResult) → balance addr b.balances ≡ balance addr final_bal)
      × (b.length ≡ n)
      × (after.tails ≡ insert_block b.blk_hash p before.tails)

  finish_chunk-Reports :
      (before after : Shared) (c : Chunk) (final_bal : BalanceMap) (n : ℕ)
      → IsChunk c
      → c.shared.tails ≡ before.tails
      → IsSorted final_bal
      → 0 < n
      → finish_chunk ssl c final_bal ≡ ok (after, n)
      → Reports before final_bal after n
  unfolding finish_chunk
  finish_chunk-Reports before after c final_bal n h tails s pos e = elim h.top [
    | inl empty ↦ absurd (ground (arith, e, empty))
    | inr (p, b, tip, (there, accepted)) ↦
        elim (Bool-cases (balance_maps_equal b.balances final_bal)) [
          | inl equal ↦
              let same : (record c.shared { tails = insert_block b.blk_hash p c.shared.tails })
                  ≡ after =
                ground (arith, e, tip, there, equal) in
              let len : b.length ≡ n = ground (arith, e, tip, there, equal) in
              let sorted = All-get_elem? HasSortedBalances c.shared.store p b h.sorted there in
              (
                p,
                b,
                subst (λ (x : Shared). IsAccepted x.store p b) same (there, accepted),
                (balance_maps_equal_iff b.balances final_bal sorted s).0 equal,
                len,
                ap (λ (x : Shared). x.tails) (sym same) ∙ ap (insert_block b.blk_hash p) tails,
              )
          | inr other ↦ absurd (ground (arith, e, tip, there, other))
        ]
  ]

  initial_balances-IsSorted :
      (bytes : List ℕ) (off : ℕ) (m : BalanceMap)
      → initial_balances ssl bytes off ≡ ok m
      → IsSorted m
  unfolding initial_balances
  initial_balances-IsSorted bytes off m e = elim (Bool-cases (off == 0)) [
    | inl first ↦ let same : [] ≡ m = ground (arith, e, first) in rw (← same) tt
    | inr follows ↦ read_balance_map-IsSorted (drop off bytes) m (ground (arith, e, follows))
  ]

  -- Where the blocks that are alive have their balances in order, and readChunk returns a length
  -- other than 0, there is a tip, which is what validate left when it accepted a block on the blocks
  -- that stand before it in the store; the tip has that length, and its balances are those of the
  -- balance map at map_start; and tails has the tip under its hash, and what it had.
  pub read_chunk-Reports :
      (before after : Shared) (bytes : List ℕ) (prev_map_off chunk_start map_start n : ℕ)
      → All HasSortedBalances before.store
      → read_chunk ssl before bytes prev_map_off chunk_start map_start ≡ ok (after, n)
      → 0 < n
      → (final_bal : BalanceMap) × (read_balance_map (drop map_start bytes) ≡ ok final_bal)
        × Reports before final_bal after n
  unfolding read_chunk
  read_chunk-Reports before after bytes prev_map_off chunk_start map_start n h e pos =
      let (init_bal, e1, e0) = bind-ok _ (initial_balances ssl bytes prev_map_off) _ e in
      let (final_bal, e2, there) = bind-ok _ (read_balance_map (drop map_start bytes)) _ e1 in
      let left = (map_start + 2 ^ 64 - chunk_start) % 2 ^ 64 in
      let c : Chunk = record { shared = before; bmap = []; tip = none } in
      let (done, e4, e3) =
        bind-ok _
          (read_rounds ssl left true (not (prev_map_off == 0)) init_bal c (drop chunk_start bytes)
            left)
          _ e2 in
      let (last, tails) =
        read_rounds-Grows left true (not (prev_map_off == 0)) init_bal c done
          (drop chunk_start bytes) left (record { sorted = h; top = inl refl })
          (initial_balances-IsSorted bytes prev_map_off init_bal e0) e3 in
      (
        final_bal,
        there,
        finish_chunk-Reports before after done final_bal n last tails
            (read_balance_map-IsSorted (drop map_start bytes) final_bal there) pos e4,
      )

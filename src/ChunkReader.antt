-- ===== src/ChunkReader.antt =====
-- readindexed.cpp (day 4): readChunk, and what main makes of the chunks. The threads that read the
-- chunks share heads and tails, which they change under a mutex, and nothing else; the chunks are
-- read here one after the other. data + off is the memory behind the first off bytes.
pub mod Order
pub mod Tips
pub mod Links
pub mod Lengths
pub mod Rounds
use bootcamp.Base.{
  ℕ, zero, suc, ◌+◌, ◌-◌, ◌%◌, ◌^◌, Bool, true, false, not, ◌&&◌, Option, none, some, List, [], ◌∷◌,
  ◌++◌, ltb, ◌==◌, if◌then◌else◌, length, get_elem?, set, drop, Result, ok, err, out_of_bounds,
  ◌>>=◌,
}
use bootcamp.Crypto.{HashResult, OpenSsl}
use bootcamp.Transaction.{BalanceMap}
use bootcamp.Block.{Block, Store, default_block, set_prev_block, next_length, is_coinbase, validate}
use bootcamp.BlockIo.{BlockMap, find_block, insert_block, read}
use bootcamp.BalanceIo.{read_balance_map}
use bootcamp.IndexedFile.{balance_maps_equal, Header}

-- The blocks that are alive, heads and tails.
pub record Shared : Type 0 where
  pub store : Store
  pub heads : List ℕ
  pub tails : BlockMap

-- The variables of readChunk's loop.
pub record Chunk : Type 0 where
  pub shared : Shared
  pub bmap : BlockMap
  pub tip : Option ℕ

-- A block that stands for the last one of the chunk before, and blk behind it.
unfoldable pub attach : Store → BalanceMap → Block → Store × Block
unfolding default_block
attach store init_bal blk =
    let prev_blk = record default_block { blk_hash = blk.prev_hash; balances = init_bal } in
    let grown = store ++ (prev_blk ∷ []) in (grown, set_prev_block grown (some (length store)) blk)

-- What happens to a block that validate accepts; `first` is i == 0.
unfoldable pub keep : Bool → Chunk → Block → Result Chunk
keep first c blk = do
  let p = length c.shared.store
  let kept = record c.shared { store = c.shared.store ++ (blk ∷ []) }
  coinbase ← if first then is_coinbase blk else ok true
  ok (record {
    shared = if coinbase then kept else record kept { heads = kept.heads ++ (p ∷ []) };
    bmap = insert_block blk.blk_hash p c.bmap;
    tip = some p;
  })

-- recompute_length of a block, with a bound on the length of the chain; none where it is longer.
unfoldable pub set_length : Store → ℕ → ℕ → Store
set_length store p n = elim (get_elem? store p) [
  | none ↦ store
  | some b ↦ set store p (record b { length = n })
]

-- length = prev_block->length + 1;
unfoldable pub set_length_after : Store → ℕ → ℕ → Option Store
set_length_after store p q = elim (get_elem? store q) [
  | none ↦ none
  | some prev ↦ some (set_length store p (next_length prev.length))
]

-- block_t::recompute_length
unfoldable pub recompute_length : ℕ → Store → ℕ → Option Store
recompute_length zero store p = none
recompute_length (suc bound) store p = elim (get_elem? store p) [
  | none ↦ none
  | some b ↦ elim b.prev_block [
    | none ↦ some (set_length store p 1)
    | some q ↦ elim (recompute_length bound store q) [
      | none ↦ none
      | some s ↦ set_length_after s p q
    ]
  ]
]

module _ (ssl : OpenSsl) where
  -- What a round does with a block that it has read, and bytesParsed.
  unfoldable pub check_block : Bool → Chunk → Block → ℕ → Result (Chunk × ℕ)
  check_block first c blk n = do
    (checked, v) ← validate ssl c.shared.store blk
    elim v [ true ↦ do kept ← keep first c checked; ok (kept, n) | false ↦ ok (c, n) ]

  -- The first block of a chunk that follows another one goes behind a block with the balances that
  -- the chunk starts from.
  unfoldable pub place_block : Bool → BalanceMap → Chunk → Block → Chunk × Block
  place_block attached init_bal c blk =
      let (store, placed) = attach c.shared.store init_bal blk in
      if attached
      then (record c { shared = record c.shared { store = store } }, placed)
      else (c, blk)

  -- A round of the loop: the chunk after it, and bytesParsed.
  unfoldable pub read_round : Bool → Bool → BalanceMap → Chunk → List ℕ → ℕ → Result (Chunk × ℕ)
  unfolding default_block
  read_round first follows init_bal c at0 left = do
    (blk, n) ← read c.shared.store c.bmap default_block at0 left
    let (c1, blk1) = place_block (first && follows) init_bal c blk
    elim (n == 0) [ true ↦ ok (c1, 0) | false ↦ check_block first c1 blk1 n ]

  -- The loop, with a bound on its rounds: each that goes on takes at least one byte.
  unfoldable pub read_rounds : ℕ → Bool → Bool → BalanceMap → Chunk → List ℕ → ℕ → Result Chunk
  read_rounds zero first follows init_bal c at0 left = ok c
  read_rounds (suc bound) first follows init_bal c at0 left = elim (left == 0) [
    | true ↦ ok c
    | false ↦ do
      (more, n) ← read_round first follows init_bal c at0 left
      elim (n == 0) [
        | true ↦ ok more
        | false ↦ read_rounds bound false follows init_bal more (drop n at0) (left - n)
      ]
  ]

  -- if (prevMapOff != 0) read_balance_map(data + prevMapOff, init_bal);
  unfoldable pub initial_balances : List ℕ → ℕ → Result BalanceMap
  initial_balances bytes prev_map_off =
      if prev_map_off == 0 then ok [] else read_balance_map (drop prev_map_off bytes)

  -- The end of readChunk: the comparison with the map of the file, and the result.
  unfoldable pub finish_chunk : Chunk → BalanceMap → Result (Shared × ℕ)
  finish_chunk c final_bal = elim c.tip [
    | none ↦ ok (c.shared, 0)
    | some p ↦ elim (get_elem? c.shared.store p) [
      | none ↦ err out_of_bounds
      | some tip ↦ ok (
          if balance_maps_equal tip.balances final_bal
          then (record c.shared { tails = insert_block tip.blk_hash p c.shared.tails }, tip.length)
          else (c.shared, 0))
    ]
  ]

  -- readChunk
  unfoldable pub read_chunk : Shared → List ℕ → ℕ → ℕ → ℕ → Result (Shared × ℕ)
  read_chunk shared bytes prev_map_off chunk_start map_start = do
    init_bal ← initial_balances bytes prev_map_off
    final_bal ← read_balance_map (drop map_start bytes)
    let left = (map_start + 2 ^ 64 - chunk_start) % 2 ^ 64
    let c : Chunk = record { shared = shared; bmap = []; tip = none }
    done ← read_rounds left true (not (prev_map_off == 0)) init_bal c (drop chunk_start bytes) left
    finish_chunk done final_bal

-- The loop of main over heads: the store, and valid.
unfoldable pub link_heads : BlockMap → List ℕ → Store → Store × Bool
link_heads tails [] store = (store, true)
link_heads tails (p ∷ heads) store = elim (get_elem? store p) [
  | none ↦ (store, false)
  | some b ↦ elim (find_block b.prev_hash tails) [
    | none ↦ (store, false)
    | some q ↦ link_heads tails heads (set store p (set_prev_block store (some q) b))
  ]
]

-- The loop of main over tails: the store, length and tip.
unfoldable pub longest : ℕ → BlockMap → Store → ℕ → Option ℕ → Option (Store × ℕ × Option ℕ)
longest bound [] store len tip = some (store, len, tip)
longest bound ((_, p) ∷ tails) store len tip = elim (recompute_length bound store p) [
  | none ↦ none
  | some s ↦ elim (get_elem? s p) [
    | none ↦ none
    | some b ↦ elim (ltb len b.length) [
      | true ↦ longest bound tails s b.length (some p)
      | false ↦ longest bound tails s len tip
    ]
  ]
]

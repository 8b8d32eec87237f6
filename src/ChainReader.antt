-- ===== src/ChainReader.antt =====
-- readchain.cpp: the loop over the blocks of a file, behind the part that slurps it.
pub mod Links
pub mod Lookup
pub mod Rounds
pub mod Invariant
pub mod Safety
pub mod RoundTrip
use bootcamp.Base.{
  ℕ, zero, suc, ◌-◌, true, false, Option, none, some, List, [], ◌∷◌, ◌++◌, ◌==◌, length, drop,
  Result, ok, ◌>>=◌,
}
use bootcamp.Crypto.{OpenSsl}
use bootcamp.Block.{Block, Store, default_block, validate}
use bootcamp.BlockIo.{BlockMap, insert_block, read}

-- The blocks that pointers keep alive, bmap, and tip.
pub record Chain : Type 0 where
  pub store : Store
  pub bmap : BlockMap
  pub tip : Option ℕ

abbrev pub empty_chain : Chain
empty_chain = record { store = []; bmap = []; tip = none }

-- bmap[blk->blk_hash] = tip = blk;
unfoldable pub keep_block : Chain → Block → Chain
keep_block c blk =
    let p = length c.store in
    record {
      store = c.store ++ (blk ∷ []);
      bmap = insert_block blk.blk_hash p c.bmap;
      tip = some p;
    }

module _ (ssl : OpenSsl) where
  -- One round: the chain after it, and bytesParsed. A block that is not valid is dropped.
  unfoldable pub read_next : Chain → List ℕ → ℕ → Result (Chain × ℕ)
  unfolding default_block
  read_next c at0 left = do
    (blk, n) ← read c.store c.bmap default_block at0 left
    elim (n == 0) [
      | true ↦ ok (c, 0)
      | false ↦ do
        (checked, v) ← validate ssl c.store blk
        elim v [ true ↦ ok (keep_block c checked, n) | false ↦ ok (c, n) ]
    ]

  -- The loop, with a bound on the rounds: each takes at least one byte.
  unfoldable pub read_blocks : ℕ → Chain → List ℕ → ℕ → Result Chain
  read_blocks zero c at0 left = ok c
  read_blocks (suc rounds) c at0 left = elim (left == 0) [
    | true ↦ ok c
    | false ↦ do
      (more, n) ← read_next c at0 left
      elim (n == 0) [ true ↦ ok more | false ↦ read_blocks rounds more (drop n at0) (left - n) ]
  ]

  -- What main makes of the bytes of a file.
  unfoldable pub read_chain : List ℕ → Result Chain
  read_chain bytes = read_blocks (length bytes) empty_chain bytes (length bytes)

-- ===== src/Rewriter/Walk.antt =====
-- rewrite_chain up to its vector of blocks: it goes from the tip back to the first block, notes in
-- next_map which block follows which, and goes forth by that map. The loops take a bound on their
-- rounds, and end with none where the chain is longer.
use bootcamp.Base.{
  ℕ, zero, suc, true, false, Option, none, some, List, [], ◌∷◌, ltb, ◌==◌, if◌then◌else◌, length,
  get_elem?, Result, err, assertion, assert, ◌>>◌,
}
use bootcamp.Block.{Block, Store}
use bootcamp.Rewriter.{rewrite_blocks}

-- std::map<block_t*, block_t*>, as an association list.
abbrev pub NextMap : Type 0
NextMap = List (ℕ × Option ℕ)

-- next_map[p] = n;
unfoldable pub insert_next : ℕ → Option ℕ → NextMap → NextMap
insert_next p n [] = (p, n) ∷ []
insert_next p n ((q, old) ∷ m) = if q == p then (q, n) ∷ m else (q, old) ∷ insert_next p n m

-- next_map[p], a null pointer where there is none.
unfoldable pub next_of : ℕ → NextMap → Option ℕ
next_of p [] = none
next_of p ((q, n) ∷ m) = if q == p then n else next_of p m

-- The loop that tracks back, at `ptr`, with `nxt` behind it: next_map, and the last nxt.
unfoldable pub track_back : ℕ → Store → Option ℕ → ℕ → NextMap → Option (NextMap × ℕ)
track_back bound store none nxt m = some (m, nxt)
track_back zero store (some p) nxt m = none
track_back (suc bound) store (some p) nxt m = elim (get_elem? store p) [
  | none ↦ none
  | some b ↦ track_back bound store b.prev_block p (insert_next p (some nxt) m)
]

-- The loop that fills blocks, from `ptr` on.
unfoldable pub collect : ℕ → Store → NextMap → Option ℕ → Option (List Block)
collect bound store m none = some []
collect zero store m (some p) = none
collect (suc bound) store m (some p) = elim (get_elem? store p) [
  | none ↦ none
  | some b ↦ elim (collect bound store m (next_of p m)) [
    | none ↦ none
    | some blocks ↦ some (b ∷ blocks)
  ]
]

-- The asserts on the two sizes, and the rest of rewrite_chain.
unfoldable pub rewrite_counted : Block → NextMap → List Block → ℕ → Result (List ℕ)
rewrite_counted tip m blocks chunks = do
  assert (length m == tip.length)
  assert (length blocks == tip.length)
  rewrite_blocks blocks chunks

-- rewrite_chain: the bytes of the file.
unfoldable pub rewrite_chain : ℕ → Store → ℕ → ℕ → Option (Result (List ℕ))
rewrite_chain bound store p chunks = elim (ltb 1 chunks) [
  | false ↦ some (err assertion)
  | true ↦ elim (get_elem? store p) [
    | none ↦ none
    | some tip ↦ elim (track_back bound store tip.prev_block p (insert_next p none [])) [
      | none ↦ none
      | some (m, head) ↦ elim (collect bound store m (some head)) [
        | none ↦ none
        | some blocks ↦ some (rewrite_counted tip m blocks chunks)
      ]
    ]
  ]
]

-- ===== src/ChunkReader/Lengths.antt =====
-- block_t::recompute_length gives every block of a chain its place in it.
use bootcamp.Base.{
  get_elem?-set_self, ℕ, zero, suc, ◌^◌, ◌<◌, ◌≤◌, ◌≡◌, ◌∙◌, refl, sym, ap, none, some, List, [],
  ◌∷◌, map, get_elem?, set, arith,
}
use bootcamp.Block.{Block, Store, next_length}
use bootcamp.ChunkReader.{set_length, set_length_after, recompute_length}

-- The block at `p` is the `n`th of its chain.
pub data Depth (store : Store) : ℕ → ℕ → Type 0 where
  first : (p : ℕ) (b : Block) → get_elem? store p ≡ some b → b.prev_block ≡ none → Depth store p 1
  next :
      (p q n : ℕ) (b : Block)
      → get_elem? store p ≡ some b
      → b.prev_block ≡ some q
      → Depth store q n
      → Depth store p (suc n)

-- The store, but for the lengths of its blocks.
abbrev pub without_length : Block → Block
without_length b = record b { length = 0 }

-- Nothing but lengths has changed.
abbrev pub SameButLengths : Store → Store → Type 0
SameButLengths s t = map without_length s ≡ map without_length t

get_elem?-map {ℓ κ} :
    {A : Type ℓ} {B : Type κ} (f : A → B) (xs : List A) (i : ℕ) (x : A)
    → get_elem? xs i ≡ some x
    → get_elem? (map f xs) i ≡ some (f x)
get_elem?-map f [] i x e = cc e
get_elem?-map f (y ∷ xs) zero x e = ground (arith, e)
get_elem?-map f (y ∷ xs) (suc i) x e = get_elem?-map f xs i x e

get_elem?-map-some {ℓ κ} :
    {A : Type ℓ} {B : Type κ} (f : A → B) (xs : List A) (i : ℕ) (y : B)
    → get_elem? (map f xs) i ≡ some y
    → (x : A) × (get_elem? xs i ≡ some x) × (f x ≡ y)
get_elem?-map-some f [] i y e = cc e
get_elem?-map-some f (x ∷ xs) zero y e = (x, refl, cc e)
get_elem?-map-some f (x ∷ xs) (suc i) y e = get_elem?-map-some f xs i y e

-- To store what looks the same under `f` changes nothing under `f`.
map-set_same {ℓ κ} :
    {A : Type ℓ} {B : Type κ} (f : A → B) (xs : List A) (i : ℕ) (x y : A)
    → get_elem? xs i ≡ some x
    → f y ≡ f x
    → map f (set xs i y) ≡ map f xs
map-set_same f [] i x y e same = refl
map-set_same f (z ∷ xs) zero x y e same = ground (arith, e, same)
map-set_same f (z ∷ xs) (suc i) x y e same = ap (◌∷◌ (f z)) (map-set_same f xs i x y e same)

-- Such a store has the same blocks in the same places.
counterpart :
    (s t : Store) (p : ℕ) (b : Block)
    → SameButLengths s t
    → get_elem? s p ≡ some b
    → (c : Block) × (get_elem? t p ≡ some c) × (without_length c ≡ without_length b)
counterpart s t p b same e =
    get_elem?-map-some without_length t p (without_length b)
      (ap (λ l. get_elem? l p) (sym same) ∙ get_elem?-map without_length s p b e)

set_length_lem :
    (s : Store) (p n : ℕ) (b : Block)
    → get_elem? s p ≡ some b
    → SameButLengths (set_length s p n) s
      × (get_elem? (set_length s p n) p ≡ some (record b { length = n }))
unfolding set_length
set_length_lem s p n b e =
    let at_p : set_length s p n ≡ set s p (record b { length = n }) = ground (arith, e) in
    (
      ap (map without_length) at_p
          ∙ map-set_same without_length s p b (record b { length = n }) e refl,
      ap (λ l. get_elem? l p) at_p ∙ get_elem?-set_self s p b (record b { length = n }) e,
    )

-- What recompute_length leaves: the same blocks, and the right length in the block it was called
-- on.
abbrev pub Recomputed : Store → ℕ → ℕ → Store → Type 0
Recomputed store p n s =
    SameButLengths s store × ((b : Block) × (get_elem? s p ≡ some b) × (b.length ≡ n))

recompute_first :
    (store : Store) (p bound : ℕ) (b : Block)
    → get_elem? store p ≡ some b
    → b.prev_block ≡ none
    → (s : Store) × (recompute_length (suc bound) store p ≡ some s) × Recomputed store p 1 s
unfolding recompute_length
recompute_first store p bound b e root =
    let (same, there) = set_length_lem store p 1 b e in
    (set_length store p 1, ground (arith, e, root), (same, (record b { length = 1 }, there, refl)))

recompute_next :
    (store s : Store) (p q n bound : ℕ) (b : Block)
    → get_elem? store p ≡ some b
    → b.prev_block ≡ some q
    → suc n < 2 ^ 32
    → recompute_length bound store q ≡ some s
    → Recomputed store q n s
    → (t : Store) × (recompute_length (suc bound) store p ≡ some t) × Recomputed store p (suc n) t
unfolding recompute_length set_length_after
recompute_next store s p q n bound b e link small before (same, (prev, at_q, n_prev)) =
    let (c, at_p, _) = counterpart store s p b (sym same) e in
    let (kept, there) = set_length_lem s p (next_length prev.length) c at_p in
    (
      set_length s p (next_length prev.length),
      ground (arith, e, link, before, at_q),
      (
        kept ∙ same,
        (record c { length = next_length prev.length }, there, omega (arith, n_prev, small)),
      ),
    )

-- On the `n`th block of a chain of less than 2 ^ 32 blocks, recompute_length ends after as many
-- calls, sets the block's length to `n`, and changes nothing but lengths.
pub recompute_length-Depth :
    (store : Store) (p n bound : ℕ)
    → Depth store p n
    → n < 2 ^ 32
    → n ≤ bound
    → (s : Store) × (recompute_length bound store p ≡ some s) × Recomputed store p n s
recompute_length-Depth store p n zero (first _ b e root) small enough = absurd (omega arith)
recompute_length-Depth store p n (suc bound) (first _ b e root) small enough =
    recompute_first store p bound b e root
recompute_length-Depth store p n zero (next _ q m b e link d) small enough = absurd (omega arith)
recompute_length-Depth store p n (suc bound) (next _ q m b e link d) small enough =
    let (s, before, done) = recompute_length-Depth store q m bound d (omega arith) (omega arith) in
    recompute_next store s p q m bound b e link small before done

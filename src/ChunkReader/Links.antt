-- ===== src/ChunkReader/Links.antt =====
-- main links each head to the tail that its prev_hash names.
use bootcamp.Base.{
  zero, suc, ℕ, ◌≡◌, ◌∙◌, refl, ap, true, some, Option-cases, inl, inr, List, [], ◌∷◌, All,
  get_elem?, set, arith, Bool-cases, ◌==◌, if◌then◌else◌,
}
use bootcamp.Block.{Block, Store, set_prev_block, reset_balances}
use bootcamp.BlockIo.{BlockMap, find_block}
use bootcamp.ChunkReader.{link_heads}

-- The block at `p` points to a tail whose hash, in the map of the tails, is its prev_hash.
abbrev pub IsLinked : BlockMap → Store → ℕ → Type 0
IsLinked tails store p =
    (b : Block) × (q : ℕ) × (get_elem? store p ≡ some b)
    × (find_block b.prev_hash tails ≡ some q)
    × (b.prev_block ≡ some q)

pub get_elem?-set {ℓ} :
    {A : Type ℓ} (xs : List A) (i j : ℕ) (x y : A)
    → get_elem? xs j ≡ some x
    → get_elem? (set xs i y) j ≡ some (if i == j then y else x)
get_elem?-set [] i j x y e = cc e
get_elem?-set (z ∷ xs) zero zero x y e = refl
get_elem?-set (z ∷ xs) zero (suc j) x y e = ground (arith, e)
get_elem?-set (z ∷ xs) (suc i) zero x y e = ground (arith, e)
get_elem?-set (z ∷ xs) (suc i) (suc j) x y e = ground (arith, get_elem?-set xs i j x y e)

pub set_prev_block_links :
    (store : Store) (q : ℕ) (b : Block)
    → ((set_prev_block store (some q) b).prev_block ≡ some q)
      × ((set_prev_block store (some q) b).prev_hash ≡ b.prev_hash)
unfolding set_prev_block reset_balances
set_prev_block_links store q b = elim (Option-cases (get_elem? store q)) [
  | inl missing ↦ (ground (arith, missing), ground (arith, missing))
  | inr (prev, e) ↦ (ground (arith, e), ground (arith, e))
]

-- To link one more head keeps the others linked.
IsLinked-set :
    (tails : BlockMap) (store : Store) (p q r : ℕ) (b : Block)
    → get_elem? store p ≡ some b
    → find_block b.prev_hash tails ≡ some q
    → IsLinked tails store r
    → IsLinked tails (set store p (set_prev_block store (some q) b)) r
IsLinked-set tails store p q r b e found (c, t, at_r, found_r, link) =
    let linked = set_prev_block store (some q) b in
    let (pointer, hash) = set_prev_block_links store q b in
    let there = get_elem?-set store p r c linked at_r in
    elim (Bool-cases (p == r)) [
      | inl same ↦ (
        linked,
        q,
        ground (arith, there, same),
        ap (λ h. find_block h tails) hash ∙ found,
        pointer,
      )
      | inr other ↦ (c, t, ground (arith, there, other), found_r, link)
    ]

IsLinked-new :
    (tails : BlockMap) (store : Store) (p q : ℕ) (b : Block)
    → get_elem? store p ≡ some b
    → find_block b.prev_hash tails ≡ some q
    → IsLinked tails (set store p (set_prev_block store (some q) b)) p
IsLinked-new tails store p q b e found =
    let linked = set_prev_block store (some q) b in
    let (pointer, hash) = set_prev_block_links store q b in
    let there = get_elem?-set store p p b linked e in
    (linked, q, ground (arith, there), ap (λ h. find_block h tails) hash ∙ found, pointer)

-- A head that the loop passes has its predecessor among the tails.
link_heads_passes :
    (tails : BlockMap) (p : ℕ) (heads : List ℕ) (store store' : Store)
    → link_heads tails (p ∷ heads) store ≡ (store', true)
    → (b : Block) × (q : ℕ) × (get_elem? store p ≡ some b)
      × (find_block b.prev_hash tails ≡ some q)
      × (link_heads tails heads (set store p (set_prev_block store (some q) b)) ≡ (store', true))
unfolding link_heads
link_heads_passes tails p heads store store' e = elim (Option-cases (get_elem? store p)) [
  | inl missing ↦ absurd (ground (arith, e, missing))
  | inr (b, there) ↦ elim (Option-cases (find_block b.prev_hash tails)) [
    | inl unknown ↦ absurd (ground (arith, e, there, unknown))
    | inr (q, found) ↦ (b, q, there, found, ground (arith, e, there, found))
  ]
]

link_heads_keeps :
    (tails : BlockMap) (heads : List ℕ) (store store' : Store) (r : ℕ)
    → link_heads tails heads store ≡ (store', true)
    → IsLinked tails store r
    → IsLinked tails store' r
unfolding link_heads
link_heads_keeps tails [] store store' r e h =
    let same : store ≡ store' = ap (λ x. x.0) e in rw (← same) h
link_heads_keeps tails (p ∷ heads) store store' r e h =
    let (b, q, there, found, others) = link_heads_passes tails p heads store store' e in
    link_heads_keeps tails heads _ store' r others (IsLinked-set tails store p q r b there found h)

-- Where main leaves valid set, every head is linked to the tail whose hash its prev_hash is.
pub link_heads-IsLinked :
    (tails : BlockMap) (heads : List ℕ) (store store' : Store)
    → link_heads tails heads store ≡ (store', true)
    → All (IsLinked tails store') heads
link_heads-IsLinked tails [] store store' e = tt
link_heads-IsLinked tails (p ∷ heads) store store' e =
    let (b, q, there, found, others) = link_heads_passes tails p heads store store' e in
    (
      link_heads_keeps tails heads _ store' p others (IsLinked-new tails store p q b there found),
      link_heads-IsLinked tails heads _ store' others,
    )

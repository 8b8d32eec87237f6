-- ===== src/Rewriter/Trails.antt =====
-- A chain in the store, block by block; no block is behind itself.
use bootcamp.Base.{
  ℕ, suc, ◌<◌, ◌≤◌, ◌≡◌, ◌≢◌, refl, ap, subst, none, some, List, [], ◌∷◌, ◌++◌, All, length,
  get_elem?, arith, length-append,
}
use bootcamp.Block.{Block, Store}

-- The chain of the block at a pointer: the pointers from the block before it back to the first, and
-- the blocks from the first on.
pub data Trail (store : Store) : ℕ → List ℕ → List Block → Type 0 where
  coinbase :
      (p : ℕ) (b : Block)
      → get_elem? store p ≡ some b
      → b.prev_block ≡ none
      → Trail store p [] (b ∷ [])
  behind :
      (p q : ℕ) (ps : List ℕ) (b : Block) (blocks : List Block)
      → get_elem? store p ≡ some b
      → b.prev_block ≡ some q
      → Trail store q ps blocks
      → Trail store p (q ∷ ps) (blocks ++ (b ∷ []))

pub length-Trail :
    (store : Store) (p : ℕ) (ps : List ℕ) (blocks : List Block)
    → Trail store p ps blocks
    → length blocks ≡ suc (length ps)
length-Trail store _ _ _ (coinbase p b there fst) = refl
length-Trail store _ _ _ (behind p q ps b blocks there link t) =
    omega (arith, length-append blocks (b ∷ []), length-Trail store q ps blocks t)

pub Trail-found :
    (store : Store) (p : ℕ) (ps : List ℕ) (blocks : List Block)
    → Trail store p ps blocks
    → (b : Block) × (get_elem? store p ≡ some b)
Trail-found store _ _ _ (coinbase p b there fst) = (b, there)
Trail-found store _ _ _ (behind p q ps b blocks there link t) = (b, there)

pub same_prev :
    (store : Store) (p : ℕ) (b c : Block)
    → get_elem? store p ≡ some b
    → get_elem? store p ≡ some c
    → b.prev_block ≡ c.prev_block
same_prev store p b c there there2 =
    let same : b ≡ c = cc (there, there2) in ap (λ (x : Block). x.prev_block) same

-- A pointer has one chain.
Trail-length_of_same :
    (store : Store) (p : ℕ) (ps qs : List ℕ) (xs ys : List Block)
    → Trail store p ps xs
    → Trail store p qs ys
    → length ps ≡ length qs
Trail-length_of_same store _ _ _ _ _ (coinbase p b there fst) (coinbase _ c there2 fst2) = refl
Trail-length_of_same store _ _ _ _ _ (coinbase p b there fst) (behind _ q ps c ys there2 link2 u) =
    absurd (cc (same_prev store p b c there there2, fst, link2))
Trail-length_of_same store _ _ _ _ _ (behind p q ps b xs there link t) (coinbase _ c there2 fst2) =
    absurd (cc (same_prev store p b c there there2, link, fst2))
Trail-length_of_same store _ _ _ _ _ (behind p q ps b xs there link t)
      (behind _ r qs c ys there2 link2 u) =
    let same : q ≡ r = cc (same_prev store p b c there there2, link, link2) in
    ap suc (Trail-length_of_same store r ps qs xs ys (subst (λ k. Trail store k ps xs) same t) u)

-- The pointers of a chain lead to shorter chains.
abbrev Shorter : Store → ℕ → ℕ → Type 0
Shorter store n q = (rs : List ℕ) × (zs : List Block) × Trail store q rs zs × (length rs < n)

Shorter-all :
    (store : Store) (n p : ℕ) (ps : List ℕ) (blocks : List Block)
    → Trail store p ps blocks
    → length ps ≤ n
    → All (Shorter store n) ps
Shorter-all store n _ _ _ (coinbase p b there fst) h = tt
Shorter-all store n _ _ _ (behind p q ps b blocks there link t) h =
    ((ps, blocks, t, h), Shorter-all store n q ps blocks t (omega (arith, h)))

abbrev pub Fresh : ℕ → List ℕ → Type 0
Fresh p ps = All (λ q. q ≢ p) ps

All-weaken {ℓ κ} :
    {A : Type ℓ} (P Q : A → Type κ) (xs : List A) → ((x : A) → P x → Q x) → All P xs → All Q xs
All-weaken P Q [] f h = tt
All-weaken P Q (x ∷ xs) f (h, hs) = (f x h, All-weaken P Q xs f hs)

-- No block is behind itself.
pub Trail-Fresh :
    (store : Store) (p : ℕ) (ps : List ℕ) (blocks : List Block)
    → Trail store p ps blocks
    → Fresh p ps
Trail-Fresh store p ps blocks t =
    All-weaken (Shorter store (length ps)) (λ q. q ≢ p) ps
      (λ q (rs, zs, u, less) e.
        let same =
          Trail-length_of_same store p ps rs blocks zs t (subst (λ k. Trail store k rs zs) e u) in
        omega (arith, same, less))
      (Shorter-all store (length ps) p ps blocks t (omega arith))

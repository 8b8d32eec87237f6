-- ===== src/ChainReader/Lookup.antt =====
-- The list of blocks and the map from hashes, when a block is added.
use bootcamp.Base.{
  ℕ, zero, suc, ◌<◌, ◌≡◌, ◌∙◌, refl, sym, ap, Bool-cases, inl, inr, ◌⊎◌, some, List, [], ◌∷◌, ◌++◌,
  length, get_elem?, arith,
}
use bootcamp.Crypto.{HashResult, hash_eq}
use bootcamp.Crypto.Order.{hash_eq_iff}
use bootcamp.BlockIo.{BlockMap, find_block, insert_block}

pub get_elem?-append_left {ℓ} :
    {A : Type ℓ} (xs ys : List A) (i : ℕ) (x : A)
    → get_elem? xs i ≡ some x
    → get_elem? (xs ++ ys) i ≡ some x
get_elem?-append_left [] ys i x e = cc e
get_elem?-append_left (y ∷ xs) ys zero x e = e
get_elem?-append_left (y ∷ xs) ys (suc i) x e = get_elem?-append_left xs ys i x e

pub get_elem?-last {ℓ} :
    {A : Type ℓ} (xs : List A) (x : A) → get_elem? (xs ++ (x ∷ [])) (length xs) ≡ some x
get_elem?-last [] x = refl
get_elem?-last (y ∷ xs) x = get_elem?-last xs x

-- An element of a list that was extended by one.
pub get_elem?-snoc {ℓ} :
    {A : Type ℓ} (xs : List A) (x y : A) (i : ℕ)
    → get_elem? (xs ++ (x ∷ [])) i ≡ some y
    → (get_elem? xs i ≡ some y) ⊎ ((i ≡ length xs) × (y ≡ x))
get_elem?-snoc [] x y zero e = inr (refl, cc e)
get_elem?-snoc [] x y (suc i) e = cc e
get_elem?-snoc (z ∷ xs) x y zero e = inl e
get_elem?-snoc (z ∷ xs) x y (suc i) e = elim (get_elem?-snoc xs x y i e) [
  | inl old ↦ inl old
  | inr (last, same) ↦ inr (ap suc last, same)
]

pub get_elem?-lt {ℓ} :
    {A : Type ℓ} (xs : List A) (i : ℕ) (x : A) → get_elem? xs i ≡ some x → i < length xs
get_elem?-lt [] i x e = cc e
get_elem?-lt (y ∷ xs) zero x e = omega arith
get_elem?-lt (y ∷ xs) (suc i) x e = omega (arith, get_elem?-lt xs i x e)

-- A lookup after bmap[k] = q.
pub find_block-insert_block :
    (h k : HashResult) (p q : ℕ) (m : BlockMap)
    → find_block h (insert_block k q m) ≡ some p
    → ((h ≡ k) × (p ≡ q)) ⊎ (find_block h m ≡ some p)
unfolding find_block insert_block
find_block-insert_block h k p q [] e = elim (Bool-cases (hash_eq k h)) [
  | inl same ↦ inl (sym ((hash_eq_iff k h).0 same), ground arith)
  | inr other ↦ absurd (ground arith)
]
find_block-insert_block h k p q ((j, r) ∷ m) e = elim (Bool-cases (hash_eq j k)) [
  | inl old ↦ elim (Bool-cases (hash_eq j h)) [
    | inl same ↦
        inl (sym ((hash_eq_iff j h).0 same) ∙ (hash_eq_iff j k).0 old, ground (arith, old, same))
    | inr other ↦ inr (ground (arith, old, other))
  ]
  | inr new ↦ elim (Bool-cases (hash_eq j h)) [
    | inl same ↦ inr (ground (arith, new, same))
    | inr other ↦ ground (arith, new, other, find_block-insert_block h k p q m)
  ]
]

-- What bmap[h] = p; puts under h.
pub find_block-insert_block_same :
    (h : HashResult) (p : ℕ) (m : BlockMap) → find_block h (insert_block h p m) ≡ some p
unfolding find_block insert_block
find_block-insert_block_same h p [] = ground (arith, (hash_eq_iff h h).1 refl)
find_block-insert_block_same h p ((k, q) ∷ m) = elim (Bool-cases (hash_eq k h)) [
  | inl old ↦ ground (arith, old)
  | inr new ↦ ground (arith, new, find_block-insert_block_same h p m)
]

-- ===== src/BlockHash/Workers.antt =====
-- A table of threads of which one moves, and the number of blocks of a file.
use bootcamp.Base.{
  ℕ, zero, suc, ◌*◌, ◌/◌, ◌%◌, ◌<◌, ◌≤◌, ◌≡◌, ◌≢◌, ◌⊎◌, inl, inr, refl, ap, Bool-cases, ◌==◌, some,
  List, [], ◌∷◌, length, get_elem?, set, replicate, arith,
}
use bootcamp.BlockHash.{file_block_size, Worker, ready, hash_count}

-- A thread after another one has moved.
pub after_set :
    (ws : List Worker) (i j : ℕ) (w v : Worker)
    → get_elem? (set ws i w) j ≡ some v
    → ((i ≡ j) × (v ≡ w)) ⊎ ((i ≢ j) × (get_elem? ws j ≡ some v))
after_set [] i j w v e = cc e
after_set (u ∷ ws) zero zero w v e = inl (refl, cc e)
after_set (u ∷ ws) zero (suc j) w v e = inr ((λ x. omega (arith, x)), e)
after_set (u ∷ ws) (suc i) zero w v e = inr ((λ x. omega (arith, x)), e)
after_set (u ∷ ws) (suc i) (suc j) w v e = elim (after_set ws i j w v e) [
  | inl (same, new) ↦ inl (ap suc same, new)
  | inr (other, old) ↦ inr ((λ x. other (omega (arith, x))), old)
]

pub replicated : (n i : ℕ) (w : Worker) → get_elem? (replicate n ready) i ≡ some w → w ≡ ready
replicated zero i w e = cc e
replicated (suc n) zero w e = cc e
replicated (suc n) (suc i) w e = replicated n i w e

pub get_elem?-length {ℓ} :
    {A : Type ℓ} (xs : List A) (i : ℕ) (x : A) → get_elem? xs i ≡ some x → i < length xs
get_elem?-length [] i x e = cc e
get_elem?-length (y ∷ xs) zero x e = omega arith
get_elem?-length (y ∷ xs) (suc i) x e = omega (arith, get_elem?-length xs i x e)

pub hash_count-below : (size k : ℕ) → k < hash_count size → file_block_size * k < size
unfolding hash_count
hash_count-below size k h = elim (Bool-cases (size % file_block_size == 0)) [
  | inl whole ↦
      let few : k < size / file_block_size = ground (arith, whole, h) in omega (arith, few)
  | inr part ↦
      let few : k ≤ size / file_block_size = ground (arith, part, h) in
      let some_left : 0 < size % file_block_size = ground (arith, part) in
      omega (arith, few, some_left)
]

pub below-hash_count : (size k : ℕ) → file_block_size * k < size → k < hash_count size
unfolding hash_count
below-hash_count size k h = elim (Bool-cases (size % file_block_size == 0)) [
  | inl whole ↦
      let none_left : size % file_block_size ≡ 0 = ground (arith, whole) in
      let few : k < size / file_block_size = omega (arith, none_left, h) in
      ground (arith, whole, few)
  | inr part ↦ let few : k ≤ size / file_block_size = omega (arith, h) in ground (arith, part, few)
]

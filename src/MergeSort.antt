-- ===== src/MergeSort.antt =====
-- bday5/challenge-problems/mergesort.c: merge, mergeSort and sort2D, on an array that is a list. The
-- type of the elements and the comparison <= are arguments.
pub mod Merging
pub mod Sorting
pub mod Tiles
use bootcamp.Base.{
  ℕ, zero, suc, ◌+◌, ◌-◌, ◌*◌, ◌/◌, ◌%◌, Bool, true, false, List, [], ◌∷◌, ltb, ◌==◌, if◌then◌else◌,
  length, take, drop, set,
}

-- A loop that copies what is left of L or R.
unfoldable pub copy_into {ℓ} : {A : Type ℓ} → List A → ℕ → List A → List A
copy_into [] k arr = arr
copy_into (x ∷ xs) k arr = copy_into xs (suc k) (set arr k x)

-- The end of a tile: the last index of the array, or of the tile.
unfoldable pub tile_end : ℕ → ℕ → ℕ → ℕ
tile_end size tile i = if ltb (size - i * tile) tile then size - 1 else (i + 1) * tile - 1

-- nTiles
unfoldable pub n_tiles : ℕ → ℕ → ℕ
n_tiles size tile = if size % tile == 0 then size / tile else size / tile + 1

module _ {ℓ} {A : Type ℓ} (leq : A → A → Bool) where
  -- The loops of merge, with what is left of L from i on and of R from j on.
  unfoldable pub merge_into : List A → List A → ℕ → List A → List A
  merge_into [] ys k arr = copy_into ys k arr
  merge_into (x ∷ xs) [] k arr = copy_into (x ∷ xs) k arr
  merge_into (x ∷ xs) (y ∷ ys) k arr = elim (leq x y) [
    | true ↦ merge_into xs (y ∷ ys) (suc k) (set arr k x)
    | false ↦ merge_into (x ∷ xs) ys (suc k) (set arr k y)
  ]

  -- merge, where malloc has memory.
  unfoldable pub merge : List A → ℕ → ℕ → ℕ → List A
  merge arr l m r =
      merge_into (take (m + 1 - l) (drop l arr)) (take (r - m) (drop (m + 1) arr)) l arr

  -- mergeSort, with a bound on its depth: the number of elements is enough.
  unfoldable pub merge_sort : ℕ → List A → ℕ → ℕ → List A
  merge_sort zero arr l r = arr
  merge_sort (suc depth) arr l r =
      let m = l + (r - l) / 2 in
      let lower = merge_sort depth arr l m in
      let both = merge_sort depth lower (m + 1) r in if ltb l r then merge both l m r else arr

  -- The first loop of sort2D, from tile `i` on, with the rounds that are left.
  unfoldable pub sort_tiles : ℕ → ℕ → ℕ → ℕ → List A → List A
  sort_tiles size tile i zero arr = arr
  sort_tiles size tile i (suc rounds) arr =
      sort_tiles size tile (suc i) rounds
        (merge_sort (length arr) arr (i * tile) (tile_end size tile i))

  -- The second loop of sort2D.
  unfoldable pub merge_tiles : ℕ → ℕ → ℕ → ℕ → List A → List A
  merge_tiles size tile i zero arr = arr
  merge_tiles size tile i (suc rounds) arr =
      merge_tiles size tile (suc i) rounds
        (merge arr 0 ((i + 1) * tile - 1) (tile_end size tile (suc i)))

  -- sort2D, for an array of m * n elements.
  unfoldable pub sort_2d : ℕ → ℕ → List A → List A
  sort_2d size tile arr =
      let tiles = n_tiles size tile in
      merge_tiles size tile 0 (tiles - 1) (sort_tiles size tile 0 tiles arr)

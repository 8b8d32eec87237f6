-- ===== src/Tests/Sorts.antt =====
-- The merge sort, on numbers.
use bootcamp.Base.{ℕ, ◌≡◌, refl, leb, List, [], ◌∷◌, arith}
use mathlib.Core.List.{Perm}
use bootcamp.MergeSort.{
  copy_into, merge_into, merge, merge_sort, tile_end, n_tiles, sort_tiles, merge_tiles, sort_2d,
}
use bootcamp.MergeSort.Merging.{IsOrder, IsAscending}
use bootcamp.MergeSort.Tiles.{sort_2d-IsAscending}

abbrev numbers : List ℕ
numbers = 3 ∷ 1 ∷ 2 ∷ 5 ∷ 4 ∷ []

sort_numbers : sort_2d leb 5 2 numbers ≡ (1 ∷ 2 ∷ 3 ∷ 4 ∷ 5 ∷ [])
unfolding sort_2d merge_tiles sort_tiles n_tiles tile_end merge_sort merge merge_into copy_into
sort_numbers = refl

leb-IsOrder : IsOrder leb
leb-IsOrder = record {
  total = λ x y e. ground (arith, e);
  trans = λ x y z e f. ground (arith, e, f);
}

sort_2d-IsAscending_example :
    IsAscending leb (sort_2d leb 5 2 numbers) × Perm (sort_2d leb 5 2 numbers) numbers
sort_2d-IsAscending_example = sort_2d-IsAscending leb 5 2 numbers leb-IsOrder (omega arith) refl

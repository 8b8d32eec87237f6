-- ===== src/MergeSort/Tiles.antt =====
-- sort2D sorts the array: its tiles, each by itself, and then the tiles into one.
use bootcamp.Base.{
  ltb→lt, ℕ, zero, suc, ◌+◌, ◌-◌, ◌*◌, ◌/◌, ◌%◌, ◌≤◌, ◌<◌, ◌≡◌, ◌∙◌, refl, sym, ap, subst, Bool,
  Bool-cases, inl, inr, ltb, ◌==◌, min, List, [], ◌∷◌, ◌++◌, length, length-append, take, drop,
  length-take, length-drop, append_assoc, append-nil, arith,
}
use mathlib.Core.List.{Perm}
use mathlib.Core.List.Perm
use native.Mathlib.Nat.{suc-mul, zero-mul, div-add-mod', mod-lt}
use bootcamp.MergeSort.{merge, merge_sort, tile_end, n_tiles, sort_tiles, merge_tiles, sort_2d}
use bootcamp.MergeSort.Merging.{IsOrder, IsAscending, merged, merge-append}
use bootcamp.MergeSort.Sorting.{IsSortOf, merged-IsSortOf, merge_sort-IsSortOf, take_append_drop}

next_tile : (i tile : ℕ) → (i + 1) * tile ≡ i * tile + tile
next_tile i tile =
    let one_more : i + 1 ≡ suc i = omega arith in ap (λ k. k * tile) one_more ∙ suc-mul i tile

-- The rounds that are left cut what is left into tiles, none of them empty.
Cover : ℕ → ℕ → ℕ → Type 0
Cover tile zero left = left ≡ 0
Cover tile (suc rounds) left = (0 < left) × Cover tile rounds (left - tile)

le-Cover :
    (tile rounds left : ℕ)
    → left ≤ rounds * tile
    → rounds * tile < left + tile
    → Cover tile rounds left
unfolding Cover
le-Cover tile zero left h g = omega (arith, h)
le-Cover tile (suc rounds) left h g =
    let more = suc-mul rounds tile in
    (
      omega (arith, g, more),
      le-Cover tile rounds (left - tile) (omega (arith, h, more)) (omega (arith, g, more)),
    )

Cover-pos : (tile rounds left : ℕ) → 0 < rounds → Cover tile rounds left → 0 < left
unfolding Cover
Cover-pos tile zero left h cover = absurd (omega (arith, h))
Cover-pos tile (suc rounds) left h (some_left, cover) = some_left

n_tiles-Cover : (size tile : ℕ) → 0 < tile → Cover tile (n_tiles size tile) size
unfolding n_tiles
n_tiles-Cover size tile some_tile =
    let whole = div-add-mod' size tile in
    let below = mod-lt size some_tile in
    elim (Bool-cases (size % tile == 0)) [
      | inl e ↦
          let exact : size % tile ≡ 0 = ground (arith, e) in
          rw e (
            le-Cover tile (size / tile) size (omega (arith, whole, exact))
              (omega (arith, whole, exact, some_tile)))
      | inr e ↦
          let some_rest : 0 < size % tile = ground (arith, e) in
          let one_more = next_tile (size / tile) tile in
          rw e (
            le-Cover tile (size / tile + 1) size (omega (arith, whole, one_more, below))
              (omega (arith, whole, one_more, some_rest)))
    ]

tile_end_lem :
    (size tile i left : ℕ)
    → i * tile + left ≡ size
    → 0 < left
    → 0 < tile
    → tile_end size tile i + 1 ≡ i * tile + min tile left
unfolding tile_end
tile_end_lem size tile i left whole some_left some_tile =
    let next = next_tile i tile in
    let rest : size - i * tile ≡ left = omega (arith, whole) in
    elim (Bool-cases (ltb left tile)) [
      | inl e ↦ rw (rest, e) (omega (arith, whole, some_left, ltb→lt left tile e))
      | inr e ↦
          let long : tile ≤ left = ground (arith, e) in
          rw (rest, e) (omega (arith, whole, next, some_tile, long))
    ]

abbrev joined {ℓ} : {A : Type ℓ} → List (List A) → List A
joined [] = []
joined (t ∷ ts) = t ++ joined ts

module _ {ℓ} {A : Type ℓ} (leq : A → A → Bool) (size tile : ℕ) where
  -- The tiles from number `i` on, each of them sorted; all but the last are full.
  abbrev Tiles : ℕ → List (List A) → Type 0
  Tiles i [] = Unit
  Tiles i (t ∷ ts) =
      IsAscending leq t
      × (tile_end size tile i + 1 ≡ i * tile + length t)
      × (0 < length ts → length t ≡ tile)
      × Tiles (suc i) ts

  -- A tile, and those behind it.
  tile_round :
      (rounds i : ℕ) (pre rest seg' : List A) (ts : List (List A))
      → merge_sort leq
          (length (pre ++ rest))
          (pre ++ (take tile rest ++ drop tile rest))
          (i * tile)
          (tile_end size tile i)
        ≡ pre ++ (seg' ++ drop tile rest)
      → sort_tiles leq size tile (suc i) rounds ((pre ++ seg') ++ drop tile rest)
        ≡ (pre ++ seg') ++ joined ts
      → sort_tiles leq size tile i (suc rounds) (pre ++ rest) ≡ pre ++ (seg' ++ joined ts)
  unfolding sort_tiles
  tile_round rounds i pre rest seg' ts sorted others =
      let bound = length (pre ++ rest) in
      ap (sort_tiles leq size tile (suc i) rounds) (
        ap (λ zs. merge_sort leq bound (pre ++ zs) (i * tile) (tile_end size tile i))
          (sym (take_append_drop tile rest))
        ∙ sorted
        ∙ sym (append_assoc pre seg' (drop tile rest)))
      ∙ others
      ∙ append_assoc pre seg' (joined ts)

  sort_tiles-Tiles :
      (rounds i : ℕ) (pre rest : List A)
      → IsOrder leq
      → 0 < tile
      → Cover tile rounds (length rest)
      → (0 < rounds → length pre ≡ i * tile)
      → length pre + length rest ≡ size
      → (ts : List (List A)) × (sort_tiles leq size tile i rounds (pre ++ rest) ≡ pre ++ joined ts)
        × Tiles i ts
        × (length ts ≡ rounds)
        × Perm (joined ts) rest
  unfolding sort_tiles Cover
  sort_tiles-Tiles zero i pre [] o some_tile cover start whole = ([], refl, tt, refl, Perm.rfl)
  sort_tiles-Tiles zero i pre (x ∷ rest) o some_tile cover start whole =
      absurd (omega (arith, cover))
  sort_tiles-Tiles (suc rounds) i pre rest o some_tile (some_rest, cover) start whole =
      let at_i = start (omega arith) in
      let seg = take tile rest in
      let post = drop tile rest in
      let cut = length-take tile rest in
      let left = length-drop tile rest in
      let fin =
        tile_end_lem size tile i (length rest) (omega (arith, at_i, whole)) some_rest some_tile in
      let bound = length (pre ++ rest) in
      let (seg', sorted, p) =
        merge_sort-IsSortOf leq bound (i * tile) (tile_end size tile i) pre seg post o at_i
          (omega (arith, cut, fin)) (omega (arith, cut, length-append pre rest)) in
      let (ts, others, tiles, count, same) =
        sort_tiles-Tiles rounds (suc i) (pre ++ seg') post o some_tile
          (subst (Cover tile rounds) (sym left) cover)
          (λ some_rounds. omega (
            arith,
            length-append pre seg',
            p.size,
            cut,
            at_i,
            suc-mul i tile,
            Cover-pos tile rounds (length rest - tile) some_rounds cover,
          ))
          (omega (arith, length-append pre seg', p.size, cut, left, whole)) in
      (
        seg' ∷ ts,
        tile_round rounds i pre rest seg' ts sorted others,
        (
          p.ascending,
          omega (arith, fin, p.size, cut),
          (λ some_tiles.
              let behind =
                Cover-pos tile rounds (length rest - tile) (omega (arith, some_tiles, count))
                  cover in
              omega (arith, p.size, cut, behind)),
          tiles,
        ),
        ap suc count,
        subst (Perm (seg' ++ joined ts)) (take_append_drop tile rest) (Perm.append p.same same),
      )

  merge_tiles-IsSortOf :
      (i : ℕ) (acc : List A) (ts : List (List A))
      → IsOrder leq
      → 0 < tile
      → IsAscending leq acc
      → (0 < length ts → length acc ≡ (i + 1) * tile)
      → Tiles (suc i) ts
      → IsSortOf leq (merge_tiles leq size tile i (length ts) (acc ++ joined ts)) (acc ++ joined ts)
  unfolding merge_tiles
  merge_tiles-IsSortOf i acc [] o some_tile ascending start tiles =
      subst (λ zs. IsSortOf leq zs zs) (sym (append-nil acc))
        (record { ascending = ascending; same = Perm.rfl; size = refl })
  merge_tiles-IsSortOf i acc (t ∷ ts) o some_tile ascending start (sorted, fin, full, tiles) =
      let at_t = start (omega arith) in
      let next = next_tile i tile in
      let same_index : suc i * tile ≡ (i + 1) * tile = suc-mul i tile ∙ sym next in
      let whole : IsSortOf leq (merged leq acc t) (acc ++ t) =
        merged-IsSortOf leq acc acc t t o
          (record { ascending = ascending; same = Perm.rfl; size = refl })
          (record { ascending = sorted; same = Perm.rfl; size = refl }) in
      let step : merge leq (acc ++ (t ++ joined ts)) 0 ((i + 1) * tile - 1)
            (tile_end size tile (suc i))
          ≡ merged leq acc t ++ joined ts =
        ap (λ arr. merge leq arr 0 ((i + 1) * tile - 1) (tile_end size tile (suc i)))
          (sym (append_assoc acc t (joined ts)))
        ∙ merge-append leq [] acc t (joined ts) 0 ((i + 1) * tile - 1) (tile_end size tile (suc i))
            refl (omega (arith, at_t, next, some_tile))
            (omega (arith, fin, at_t, next, same_index, some_tile)) in
      let others =
        merge_tiles-IsSortOf (suc i) (merged leq acc t) ts o some_tile whole.ascending
          (λ some_tiles. omega (
            arith,
            whole.size,
            length-append acc t,
            at_t,
            full some_tiles,
            next_tile (suc i) tile,
            same_index,
          ))
          tiles in
      let target = acc ++ (t ++ joined ts) in
      let behind = append_assoc acc t (joined ts) in
      let rearranged : IsSortOf leq
          (merge_tiles leq size tile (suc i) (length ts) (merged leq acc t ++ joined ts)) target =
        record {
          ascending = others.ascending;
          same = Perm.trans others.same (
              subst (Perm (merged leq acc t ++ joined ts)) behind
                (Perm.append_right (joined ts) whole.same));
          size = omega (
            arith,
            others.size,
            length-append (merged leq acc t) (joined ts),
            whole.size,
            length-append (acc ++ t) (joined ts),
            ap length behind,
          );
        } in
      subst (λ arr. IsSortOf leq (merge_tiles leq size tile (suc i) (length ts) arr) target)
        (sym step) rearranged

  merge_first-IsSortOf :
      (rounds : ℕ) (ts : List (List A))
      → IsOrder leq
      → 0 < tile
      → Tiles 0 ts
      → length ts ≡ rounds
      → IsSortOf leq (merge_tiles leq size tile 0 (rounds - 1) (joined ts)) (joined ts)
  unfolding merge_tiles
  merge_first-IsSortOf zero [] o some_tile tiles count = record {
    ascending = tt;
    same = Perm.rfl;
    size = refl;
  }
  merge_first-IsSortOf zero (t ∷ ts) o some_tile tiles count = absurd (omega (arith, count))
  merge_first-IsSortOf (suc rounds) [] o some_tile tiles count = absurd (omega (arith, count))
  merge_first-IsSortOf (suc rounds) (t ∷ ts) o some_tile (sorted, fin, full, tiles) count =
      let others : length ts ≡ suc rounds - 1 = omega (arith, count) in
      let first = next_tile 0 tile in
      subst (λ k. IsSortOf leq (merge_tiles leq size tile 0 k (t ++ joined ts)) (t ++ joined ts))
        others
        (merge_tiles-IsSortOf 0 t ts o some_tile sorted
          (λ some_tiles. omega (arith, full some_tiles, first, zero-mul tile)) tiles)

  -- For a comparison that is total and transitive, and tiles of at least one element, sort2D leaves
  -- the elements of the array in ascending order, each as often as before, whether or not the tiles
  -- fill the array.
  pub sort_2d-IsAscending :
      (arr : List A)
      → IsOrder leq
      → 0 < tile
      → length arr ≡ size
      → IsAscending leq (sort_2d leq size tile arr) × Perm (sort_2d leq size tile arr) arr
  unfolding sort_2d
  sort_2d-IsAscending arr o some_tile whole =
      let rounds = n_tiles size tile in
      let cover = subst (Cover tile rounds) (sym whole) (n_tiles-Cover size tile some_tile) in
      let (ts, cuts, tiles, count, same) =
        sort_tiles-Tiles rounds 0 [] arr o some_tile cover (λ some_rounds. sym (zero-mul tile))
          (omega (arith, whole)) in
      let merges = merge_first-IsSortOf rounds ts o some_tile tiles count in
      subst
        (λ zs.
          IsAscending leq (merge_tiles leq size tile 0 (rounds - 1) zs)
          × Perm (merge_tiles leq size tile 0 (rounds - 1) zs) arr)
        (sym cuts) (merges.ascending, Perm.trans merges.same same)

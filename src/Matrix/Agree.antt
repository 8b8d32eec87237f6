-- ===== src/Matrix/Agree.antt =====
-- mat_multiply_opt against mat_multiply.
use bootcamp.Base.{
  ℕ, zero, suc, ◌+◌, ◌*◌, ◌/◌, ◌%◌, ◌≤◌, ◌<◌, ◌≡◌, ◌∙◌, refl, sym, ap₂, Bool-cases, inl, inr, ltb,
  ltb→lt, arith,
}
use native.Mathlib.Nat.{zero-mul, div-add-mod', mod-lt, div-lt_iff_lt-mul}
use bootcamp.Matrix.{mat_multiply, mat_multiply_opt}
use bootcamp.Matrix.Plain.{mat_multiply-dot, mat_multiply-outside}
use bootcamp.Matrix.Tiled.{IsAt, in_tiles, opt-dot, opt-outside}

module _ {ℓ} {V : Type ℓ} (nought : V) (plus times : V → V → V) (a b : ℕ → V) where
  -- Where an element of the matrix stands in the tiles.
  place_of :
      (size tile n x : ℕ)
      → 0 < tile
      → size ≡ n * tile
      → x < size * size
      → IsAt nought plus times a b size x tile n
          (x / size / tile)
          (x / size % tile)
          (x % size / tile)
          (x % size % tile)
  place_of size tile n x some_tile whole inside =
      let some_size : 0 < size = size_pos size x inside in
      let row : x / size < size = (div-lt_iff_lt-mul some_size).1 inside in
      let column : x % size < size = mod-lt x some_size in
      (
        (div-lt_iff_lt-mul some_tile).1 (omega (arith, row, whole)),
        mod-lt (x / size) some_tile,
        (div-lt_iff_lt-mul some_tile).1 (omega (arith, column, whole)),
        mod-lt (x % size) some_tile,
        sym (
            ap₂ (λ i j. i * size + j) (div-add-mod' (x / size) tile) (div-add-mod' (x % size) tile)
            ∙ div-add-mod' x size),
      )
    where
      size_pos : (size x : ℕ) → x < size * size → 0 < size
      size_pos zero x inside = absurd (omega (arith, inside, zero-mul 0))
      size_pos (suc size) x inside = omega arith

  -- Where the size of a tile divides that of the matrices, the tiled multiplication leaves the same
  -- in memory as the plain one, down to the last bit of each element, whatever + and * do: it adds
  -- the same products in the same order.
  pub mat_multiply_opt-mat_multiply :
      (size tile : ℕ) (c0 : ℕ → V) (x : ℕ)
      → 0 < tile
      → size % tile ≡ 0
      → mat_multiply_opt nought plus times a b size tile c0 x
        ≡ mat_multiply nought plus times a b size c0 x
  mat_multiply_opt-mat_multiply size tile c0 x some_tile exact =
      let n = size / tile in
      let whole : size ≡ n * tile = omega (arith, div-add-mod' size tile, exact) in
      elim (Bool-cases (ltb x (size * size))) [
        | inl e ↦
            let inside = ltb→lt x (size * size) e in
            let place = place_of size tile n x some_tile whole inside in
            let (row, up, column, left, at_x) = place in
            opt-dot nought plus times a b size x tile n (x / size / tile) (x / size % tile)
              (x % size / tile) (x % size % tile) c0 refl whole place
            ∙ sym (
                mat_multiply-dot nought plus times a b size x _ _ c0 (
                  in_tiles nought plus times a b size x tile n _ _ whole row up,
                  in_tiles nought plus times a b size x tile n _ _ whole column left,
                  at_x,
                ))
        | inr e ↦
            let far : size * size ≤ x = ground (arith, e) in
            opt-outside nought plus times a b size x tile n c0 refl whole far
            ∙ sym (mat_multiply-outside nought plus times a b size x c0 far)
      ]

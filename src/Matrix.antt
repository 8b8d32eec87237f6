-- ===== src/Matrix.antt =====
-- bday5/challenge-problems/matrix.c: the multiplication of square matrices, plain and in tiles. A
-- matrix is the function from indices to its elements; the elements, their 0, + and * are arguments,
-- of which nothing is assumed, since those of double have few laws.
pub mod Loops
pub mod Plain
pub mod Tiled
pub mod Agree
use bootcamp.Base.{ℕ, zero, suc, ◌+◌, ◌*◌, ◌/◌, ◌==◌, if◌then◌else◌}

-- for (i = 0; i < n; i++) body
unfoldable pub for_loop {ℓ} : {S : Type ℓ} → ℕ → (ℕ → S → S) → S → S
for_loop zero body s = s
for_loop (suc n) body s = body n (for_loop n body s)

-- c[i] = v
unfoldable pub write_at {ℓ} : {V : Type ℓ} → ℕ → V → (ℕ → V) → ℕ → V
write_at i v c k = if k == i then v else c k

module _ {ℓ} {V : Type ℓ} (nought : V) (plus times : V → V → V) (a b : ℕ → V) where
  -- mat_multiply
  unfoldable pub mat_multiply : ℕ → (ℕ → V) → ℕ → V
  mat_multiply size c0 =
      for_loop size
        (λ i. for_loop size (λ j c.
          let ij = i * size + j in
          for_loop size
            (λ k e. write_at ij (plus (e ij) (times (a (i * size + k)) (b (k * size + j)))) e)
            (write_at ij nought c)))
        c0

  -- The loops that clear a tile.
  unfoldable pub clear_tile : ℕ → ℕ → ℕ → ℕ → (ℕ → V) → ℕ → V
  clear_tile size tile ti tj c0 =
      for_loop tile
        (λ i. for_loop tile (λ j. write_at ((ti * tile + i) * size + (tj * tile + j)) nought)) c0

  -- The loops that add the product of two tiles.
  unfoldable pub add_tiles : ℕ → ℕ → ℕ → ℕ → ℕ → (ℕ → V) → ℕ → V
  add_tiles size tile ti tj tk c0 =
      for_loop tile
        (λ i. for_loop tile (λ j. for_loop tile (λ k e.
          let ij = (ti * tile + i) * size + (tj * tile + j) in
          let ik = (ti * tile + i) * size + (tk * tile + k) in
          let kj = (tk * tile + k) * size + (tj * tile + j) in
          write_at ij (plus (e ij) (times (a ik) (b kj))) e)))
        c0

  -- mat_multiply_opt
  unfoldable pub mat_multiply_opt : ℕ → ℕ → (ℕ → V) → ℕ → V
  mat_multiply_opt size tile c0 =
      let tiles = size / tile in
      for_loop tiles
        (λ ti. for_loop tiles (λ tj c.
          for_loop tiles (λ tk. add_tiles size tile ti tj tk) (clear_tile size tile ti tj c)))
        c0

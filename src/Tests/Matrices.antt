-- ===== src/Tests/Matrices.antt =====
-- The multiplication of matrices, on numbers.
use bootcamp.Base.{ℕ, ◌+◌, ◌*◌, ◌≡◌, refl, arith}
use bootcamp.Matrix.{for_loop, write_at, mat_multiply, clear_tile, add_tiles, mat_multiply_opt}
use bootcamp.Matrix.Agree.{mat_multiply_opt-mat_multiply}

abbrev add : ℕ → ℕ → ℕ
add m n = m + n

abbrev mul : ℕ → ℕ → ℕ
mul m n = m * n

abbrev left_matrix : ℕ → ℕ
left_matrix i = i + 1

abbrev right_matrix : ℕ → ℕ
right_matrix i = 2 * i + 1

abbrev before : ℕ → ℕ
before i = 7

-- Row 1 and column 0 of the product of two matrices of size 2.
plain_element : mat_multiply 0 add mul left_matrix right_matrix 2 before 2 ≡ 3 * 1 + 4 * 5
unfolding mat_multiply for_loop write_at
plain_element = refl

-- With a tile that does not divide the size, the last element is never computed.
tiled_element : mat_multiply_opt 0 add mul left_matrix right_matrix 3 2 before 8 ≡ 7
unfolding mat_multiply_opt for_loop write_at clear_tile add_tiles
tiled_element = refl

mat_multiply_opt-mat_multiply_example :
    mat_multiply_opt 0 add mul left_matrix right_matrix 4 2 before 6
    ≡ mat_multiply 0 add mul left_matrix right_matrix 4 before 6
mat_multiply_opt-mat_multiply_example =
    mat_multiply_opt-mat_multiply 0 add mul left_matrix right_matrix 4 2 before 6 (omega arith) refl

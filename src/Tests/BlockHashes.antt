-- ===== src/Tests/BlockHashes.antt =====
-- The threads that hash the blocks of a file.
use bootcamp.Base.{
  ℕ, ◌≡◌, ◌<◌, refl, some, List, [], ◌∷◌, ◌++◌, length, get_elem?, replicate, arith,
}
use bootcamp.Wire.{decode_le}
use bootcamp.BlockHash.{
  ready, finished, hashing, hash_count, hash_words, calculate_and_store_hash, turn, turn_at, run,
  start_threads,
}
use bootcamp.BlockHash.Turns.{hash_of}
use bootcamp.BlockHash.Progress.{IsUseful, run-useful}

-- In place of the two lines with doubles.
abbrev unmixed : ℕ → ℕ
unmixed x = x

-- A file of two blocks, the second of which is not whole.
abbrev short_file : List ℕ
short_file = replicate 300 1

abbrev turns : List ℕ
turns = 0 ∷ 1 ∷ 1 ∷ 0 ∷ 0 ∷ 1 ∷ []

two_hashes : hash_count (length short_file) ≡ 2
unfolding hash_count
two_hashes = refl

turns-IsUseful : IsUseful unmixed short_file (start_threads (0 ∷ 0 ∷ []) 2) turns
unfolding IsUseful turn turn_at start_threads
turns-IsUseful = (
  (ready, refl, λ e. cc e),
  (
    (ready, refl, λ e. cc e),
    (
      (hashing 256 1, refl, λ e. cc e),
      ((hashing 0 0, refl, λ e. cc e), ((ready, refl, λ e. cc e), ((ready, refl, λ e. cc e), tt))),
    ),
  ),
)

run-useful_example :
    let s = run unmixed short_file (start_threads (0 ∷ 0 ∷ []) 2) turns in
    ((i : ℕ) → i < 2 → get_elem? s.workers i ≡ some finished)
    × (get_elem? s.hashes 1 ≡ some (hash_of unmixed short_file 1))
run-useful_example =
    run-useful unmixed short_file (0 ∷ 0 ∷ []) turns 2 1 (omega (arith, two_hashes)) (omega arith)
      turns-IsUseful (omega (arith, two_hashes)) (omega (arith, two_hashes))

-- Two blocks that differ behind their first 128 bytes have the same hash.
half_hashed :
    calculate_and_store_hash unmixed (replicate 128 1 ++ replicate 128 2) 0
    ≡ calculate_and_store_hash unmixed (replicate 128 1 ++ replicate 128 3) 0
unfolding calculate_and_store_hash hash_words decode_le
half_hashed = refl

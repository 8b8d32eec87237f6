-- ===== src/Tests/Exercises.antt =====
-- The practice exercises of day 3.
use bootcamp.Base.{
  ℕ, ◌≡◌, ◌%◌, refl, Bool, List, [], ◌∷◌, ltb, ok, err, out_of_bounds, arith, length,
}
use bootcamp.FindMax.{
  element, partition, scan, find_max_serial, find_max, join_threads, find_max_parallel,
}
use bootcamp.FindMax.Best.{IsGreater}
use bootcamp.FindMax.Greatest.{IsGreatest}
use bootcamp.FindMax.Parallel.{find_max_parallel-serial}

-- Numbers modulo 10 in place of doubles.
abbrev last_digit : ℕ → ℕ
last_digit x = x % 10

abbrev above : ℕ → ℕ → Bool
above x y = ltb y x

above-IsGreater : IsGreater above
above-IsGreater = record {
  irrefl = λ x. ground arith;
  trans = λ x y z h k. ground (arith, h, k);
  split = λ x y z h k. ground (arith, h, k);
}

abbrev numbers : List ℕ
numbers = 13 ∷ 27 ∷ 8 ∷ 41 ∷ 58 ∷ []

-- 8 and 58 have the same value; the first is found.
max_of_numbers : find_max_parallel last_digit above numbers 2 0 ≡ ok (2, 8)
unfolding find_max_parallel partition join_threads find_max scan element
max_of_numbers = refl

-- With more threads than elements a part is empty, and its thread reads behind the array.
too_many_threads : find_max_parallel last_digit above (13 ∷ []) 2 0 ≡ err out_of_bounds
unfolding find_max_parallel partition join_threads find_max scan element
too_many_threads = refl

find_max_parallel-serial_example :
    (found : ℕ × ℕ) × (find_max_parallel last_digit above numbers 2 0 ≡ ok found)
    × (find_max_serial last_digit above numbers (length numbers) ≡ ok found)
    × IsGreatest last_digit above numbers found
find_max_parallel-serial_example =
    find_max_parallel-serial last_digit above numbers 2 0 above-IsGreater (omega arith)
      (omega arith)

-- ===== src/FindMax.antt =====
-- find_max_parallel.c (day 3, practice exercises): the greatest value of a function over an array,
-- in one pass and by threads that take a part each. The values are of type double in the source;
-- here their type, the function and the test x > y are arguments. A thread changes nothing but its
-- own parameters, so the threads run one after the other where they are joined.
pub mod Best
pub mod Greatest
pub mod Parts
pub mod Parallel
use bootcamp.Base.{
  ℕ, zero, suc, ◌+◌, ◌-◌, ◌/◌, ◌%◌, Bool, true, false, none, some, List, [], ◌∷◌, ◌==◌,
  if◌then◌else◌, length, drop, get_elem?, Result, ok, err, out_of_bounds, assert, ◌>>=◌, ◌>>◌,
}

-- array[i]
unfoldable pub element : List ℕ → ℕ → Result ℕ
element array i = elim (get_elem? array i) [ none ↦ err out_of_bounds | some e ↦ ok e ]

-- struct thread_param: the memory from array on, the size, and start_index.
pub record ThreadParam : Type 0 where
  pub array : List ℕ
  pub size : ℕ
  pub start_index : ℕ

-- The loop of main that partitions the array for the threads from `ctr` on, of which there are
-- `num_threads`: their parameters, and th_pos behind the last.
unfoldable pub partition : List ℕ → ℕ → ℕ → ℕ → ℕ → List ThreadParam × ℕ
partition a num_threads zero ctr th_pos = ([], th_pos)
partition a num_threads (suc left) ctr th_pos =
    let residue = if ctr == 0 then length a % num_threads else 0 in
    let size = length a / num_threads + residue in
    let (params, behind) = partition a num_threads left (suc ctr) (th_pos + size) in
    (record { array = drop th_pos a; size = size; start_index = th_pos } ∷ params, behind)

module _ {V : Type 0} (function : ℕ → V) (gt : V → V → Bool) where
  -- The loop over an array from `ctr` on, with the rounds that are left: the index and the value.
  unfoldable pub scan : ℕ → ℕ → List ℕ → ℕ → V → Result (ℕ × V)
  scan zero ctr array index max = ok (index, max)
  scan (suc rounds) ctr array index max = do
    e ← element array ctr
    elim (gt (function e) max) [
      | true ↦ scan rounds (suc ctr) array ctr (function e)
      | false ↦ scan rounds (suc ctr) array index max
    ]

  -- find_max_serial: the index, and *maxval.
  unfoldable pub find_max_serial : List ℕ → ℕ → Result (ℕ × V)
  find_max_serial array size = do e ← element array 0; scan (size - 1) 1 array 0 (function e)

  -- find_max: max_index and max.
  unfoldable pub find_max : ThreadParam → Result (ℕ × V)
  find_max param = do e ← element param.array 0; scan (param.size - 1) 1 param.array 0 (function e)

  -- The loop of main that joins the threads from `ctr` on.
  unfoldable pub join_threads : ℕ → List ThreadParam → ℕ → V → Result (ℕ × V)
  join_threads ctr [] max_index max = ok (max_index, max)
  join_threads ctr (param ∷ params) max_index max = do
    (index, value) ← find_max param
    elim (ctr == 0) [
      | true ↦ join_threads (suc ctr) params index value
      | false ↦ elim (gt value max) [
        | true ↦ join_threads (suc ctr) params (index + param.start_index) value
        | false ↦ join_threads (suc ctr) params max_index max
      ]
    ]

  -- main from the partition to the last thread, where max is `initial` before: max_index and max.
  unfoldable pub find_max_parallel : List ℕ → ℕ → V → Result (ℕ × V)
  find_max_parallel a num_threads initial = do
    let (params, th_pos) = partition a num_threads num_threads 0 0
    assert (th_pos == length a)
    join_threads 0 params 0 initial

-- ===== src/BlockHash.antt =====
-- block_hash.c (day 3, practice exercises): threads that take the blocks of a file one by one, and
-- store the hash of each. A turn of a thread is what it does up to the next point where another can
-- tell: the part under the mutex, or the call of calculate_and_store_hash with the write of its
-- result. The two lines of that function that compute with doubles are an argument.
pub mod Workers
pub mod Turns
pub mod Progress
use bootcamp.Base.{
  ℕ, zero, suc, ◌+◌, ◌-◌, ◌*◌, ◌/◌, ◌%◌, ◌^◌, Bool, true, false, none, some, List, [], ◌∷◌, ltb,
  leb, ◌==◌, if◌then◌else◌, length, take, drop, get_elem?, set, replicate,
}
use bootcamp.Wire.{decode_le}

abbrev pub file_block_size : ℕ
file_block_size = 256

-- What a thread does next, with cptr and chash as offsets into the file and into hashes.
pub data Worker : Type 0 where
  ready finished : Worker
  hashing : ℕ → ℕ → Worker

-- dataptr and optr as offsets, the hashes, and the threads.
pub record System : Type 0 where
  pub dataptr : ℕ
  pub optr : ℕ
  pub hashes : List ℕ
  pub workers : List Worker

-- The number of blocks of `size` bytes.
unfoldable pub hash_count : ℕ → ℕ
hash_count size = size / file_block_size + (if size % file_block_size == 0 then 0 else 1)

module _ (mix : ℕ → ℕ) where
  -- The loop of calculate_and_store_hash with the rounds that are left, where the bytes from ptr to
  -- endptr are `at0`.
  unfoldable pub hash_words : ℕ → List ℕ → ℕ → ℕ
  hash_words zero at0 hashval = hashval
  hash_words (suc count) at0 hashval = elim (ltb (length at0) 8) [
    | true ↦ hashval
    | false ↦
        hash_words count (drop 4 at0) ((mix hashval % 2 ^ 32 + decode_le (take 4 at0)) % 2 ^ 32)
  ]

  -- calculate_and_store_hash
  unfoldable pub calculate_and_store_hash : List ℕ → ℕ → ℕ
  calculate_and_store_hash bytes cptr = hash_words (file_block_size / 8) (drop cptr bytes) 0

  -- The turn of thread `i`, which is at `w`.
  unfoldable pub turn_at : List ℕ → System → ℕ → Worker → System
  turn_at bytes s i ready =
      if leb (length bytes) s.dataptr
      then record s { workers = set s.workers i finished }
      else record {
        dataptr = s.dataptr + file_block_size;
        optr = s.optr + 1;
        hashes = s.hashes;
        workers = set s.workers i (hashing s.dataptr s.optr);
      }
  turn_at bytes s i finished = s
  turn_at bytes s i (hashing cptr chash) = record s {
    hashes = set s.hashes chash (calculate_and_store_hash bytes cptr);
    workers = set s.workers i ready;
  }

  -- hashit, up to the next point where another thread can tell.
  unfoldable pub turn : List ℕ → System → ℕ → System
  turn bytes s i = elim (get_elem? s.workers i) [ none ↦ s | some w ↦ turn_at bytes s i w ]

  -- The threads take turns in the order of a schedule.
  unfoldable pub run : List ℕ → System → List ℕ → System
  run bytes s [] = s
  run bytes s (i ∷ schedule) = run bytes (turn bytes s i) schedule

-- main before the threads run, with the memory that malloc returns for hashes.
unfoldable pub start_threads : List ℕ → ℕ → System
start_threads memory num_threads = record {
  dataptr = 0;
  optr = 0;
  hashes = memory;
  workers = replicate num_threads ready;
}

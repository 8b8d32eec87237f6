-- ===== src/Wire.antt =====
-- Fixed-width integers and byte arrays in memory: the casts `*((int*) data)` and the std::copy
-- calls of the buffer readers, and the out.write calls of the writers, on a little-endian machine.
-- Memory is the list of the bytes from a pointer on; a read past its end is a fault.
pub mod Laws
use bootcamp.Base.{
  ℕ, zero, suc, ◌+◌, ◌*◌, ◌/◌, ◌%◌, ◌^◌, ◌<◌, Bool, List, [], ◌∷◌, Result, ok, err, out_of_bounds,
  leb, length, take, drop, if◌then◌else◌, ◌>>=◌,
}

abbrev pub IsByte : ℕ → Type 0
IsByte b = b < 256

-- The memory of a `w`-byte unsigned integer.
unfoldable pub encode_le : ℕ → ℕ → List ℕ
encode_le zero v = []
encode_le (suc w) v = (v % 256) ∷ encode_le w (v / 256)

unfoldable pub decode_le : List ℕ → ℕ
decode_le [] = 0
decode_le (b ∷ bs) = b + 256 * decode_le bs

-- std::copy(data, data + n, ..); data += n;
unfoldable pub read_bytes : ℕ → List ℕ → Result (List ℕ × List ℕ)
read_bytes n data_at =
    if leb n (length data_at) then ok (take n data_at, drop n data_at) else err out_of_bounds

-- x = *((T*) data); data += sizeof(x);
unfoldable pub read_word : ℕ → List ℕ → Result (ℕ × List ℕ)
unfolding read_bytes
read_word w data_at = do (bytes, rest) ← read_bytes w data_at; ok (decode_le bytes, rest)

-- A 32-bit int is kept as its bit pattern: this is `x < 0`.
abbrev pub is_negative : ℕ → Bool
is_negative x = leb (2 ^ 31) x

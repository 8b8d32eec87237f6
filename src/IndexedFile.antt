-- ===== src/IndexedFile.antt =====
-- readindexed.cpp (day 4): the comparison of balance maps, and the header of a chunked file, with
-- the lines of rewritechain.cpp that write it.
pub mod Maps
pub mod Offsets
use bootcamp.Base.{
  ℕ, zero, suc, ◌+◌, ◌*◌, ◌-◌, Bool, true, false, not, ◌&&◌, none, some, List, [], ◌∷◌, ◌++◌, ltb,
  ◌==◌, if◌then◌else◌, length, take, drop, Result, ok, assert, ◌>>=◌, ◌>>◌,
}
use bootcamp.Wire.{encode_le, decode_le, read_bytes, read_word}
use bootcamp.SortedMap.{find}
use bootcamp.Crypto.{HashResult}
use bootcamp.Crypto.Order.{hash_order}
use bootcamp.Transaction.{BalanceMap, resize}

-- included_in
unfoldable pub included_in : BalanceMap → BalanceMap → Bool
included_in [] m2 = true
included_in ((addr, amount) ∷ m1) m2 =
    let others = included_in m1 m2 in
    if amount == 0
    then elim (find addr m2) [
      | none ↦ others
      | some other ↦ if not (other == 0) then false else others
    ]
    else elim (find addr m2) [
      | none ↦ false
      | some other ↦ if not (other == amount) then false else others
    ]

-- balance_maps_equal
unfoldable pub balance_maps_equal : BalanceMap → BalanceMap → Bool
balance_maps_equal m1 m2 = included_in m1 m2 && included_in m2 m1

-- chunks, chunkOff, mapOff and mapSz
pub record Header : Type 0 where
  pub chunks : ℕ
  pub chunk_off : List ℕ
  pub map_off : List ℕ
  pub map_sz : List ℕ

-- The memory of an array of uint64_t, and back.
unfoldable pub encode_words : List ℕ → List ℕ
encode_words [] = []
encode_words (x ∷ xs) = encode_le 8 x ++ encode_words xs

unfoldable pub decode_words : ℕ → List ℕ → List ℕ
decode_words zero bytes = []
decode_words (suc n) bytes = decode_le (take 8 bytes) ∷ decode_words n (drop 8 bytes)

-- std::copy(data, data + offset_sz, v.data()); data += offset_sz;
unfoldable pub read_words : ℕ → List ℕ → Result (List ℕ × List ℕ)
read_words n at0 = do (bytes, rest) ← read_bytes (8 * n) at0; ok (decode_words n bytes, rest)

-- extractHeader, behind the size checks.
unfoldable pub copy_offsets : ℕ → List ℕ → List ℕ → Result (Header × ℕ)
copy_offsets chunks start at1 = do
  (chunk_off, at2) ← read_words chunks at1
  (map_off, at3) ← read_words chunks at2
  (map_sz, at4) ← read_words chunks at3
  let total_sz = 3 * (8 * chunks) + 4
  assert (total_sz == (length start - length at4))
  ok (
    record { chunks = chunks; chunk_off = chunk_off; map_off = map_off; map_sz = map_sz },
    total_sz,
  )

-- extractHeader: the references after the call, and the returned size.
unfoldable pub extract_header : Header → List ℕ → ℕ → Result (Header × ℕ)
extract_header h start data_sz = if ltb data_sz 4 then ok (h, 0) else do
  (chunks, at1) ← read_word 4 start
  let resized : Header = record {
    chunks = chunks;
    chunk_off = resize chunks h.chunk_off;
    map_off = resize chunks h.map_off;
    map_sz = resize chunks h.map_sz;
  }
  let copied = copy_offsets chunks start at1
  if ltb (data_sz - 4) (8 * chunks * 3) then ok (resized, 0) else copied

-- The header as rewrite_chain writes it.
unfoldable pub write_header : Header → List ℕ → List ℕ
write_header h out =
    out
    ++ (encode_le 4 h.chunks
        ++ (encode_words h.chunk_off ++ (encode_words h.map_off ++ encode_words h.map_sz)))

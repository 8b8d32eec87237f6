-- ===== src/Tests/Files.antt =====
-- The files around the chain: balance maps and the header of a chunked file.
use bootcamp.Base.{ℕ, ◌≡◌, ◌↔◌, refl, true, List, [], ◌∷◌, ◌++◌, length, ok, arith, Returns}
use bootcamp.Wire.{encode_le}
use bootcamp.Wire.Laws.{length-encode_le}
use bootcamp.SortedMap.{IsSorted}
use bootcamp.Crypto.{HashResult, hash_lt}
use bootcamp.Crypto.Order.{hash_order}
use bootcamp.Transaction.{BalanceMap}
use bootcamp.BalanceIo.{balance_map_size, write_balance_map, read_balance_map}
use bootcamp.BalanceIo.Codec.{read_balance_map-write_balance_map}
use bootcamp.IndexedFile.{Header, balance_maps_equal, extract_header, write_header}
use bootcamp.IndexedFile.Maps.{balance, balance_maps_equal_iff}
use bootcamp.IndexedFile.Offsets.{
  IsHeader, HeaderWithin, offsets_size, extract_header-write_header, extract_header_stays_within,
}
use bootcamp.Tests.Fixtures.{alice, bob, carol}

abbrev balances : BalanceMap
balances = (bob, 30) ∷ (carol, 70) ∷ []

abbrev with_zero : BalanceMap
with_zero = (alice, 0) ∷ (bob, 30) ∷ (carol, 70) ∷ []

balances-IsSorted : IsSorted balances
unfolding hash_lt
balances-IsSorted = ((refl, tt), (tt, tt))

with_zero-IsSorted : IsSorted with_zero
unfolding hash_lt
with_zero-IsSorted = ((refl, (refl, tt)), ((refl, tt), (tt, tt)))

read_balance_map-write_balance_map_example :
    (bytes : List ℕ) × (write_balance_map balances (1 ∷ []) ≡ (1 ∷ []) ++ bytes)
    × (length bytes ≡ balance_map_size balances)
    × (read_balance_map (bytes ++ (7 ∷ [])) ≡ ok balances)
read_balance_map-write_balance_map_example =
    read_balance_map-write_balance_map balances (1 ∷ []) (7 ∷ [])
      ((refl, omega arith), ((refl, omega arith), tt)) balances-IsSorted (omega arith)

balance_maps_equal_iff_example :
    (balance_maps_equal balances with_zero ≡ true)
    ↔ ((addr : HashResult) → balance addr balances ≡ balance addr with_zero)
balance_maps_equal_iff_example =
    balance_maps_equal_iff balances with_zero balances-IsSorted with_zero-IsSorted

abbrev two_chunks : Header
two_chunks = record {
  chunks = 2;
  chunk_off = 52 ∷ 396 ∷ [];
  map_off = 292 ∷ 636 ∷ [];
  map_sz = 104 ∷ 44 ∷ [];
}

abbrev no_header : Header
no_header = record { chunks = 0; chunk_off = []; map_off = []; map_sz = [] }

two_chunks-IsHeader : IsHeader two_chunks
two_chunks-IsHeader = record {
  few = omega arith;
  chunk_offs = refl;
  map_offs = refl;
  map_szs = refl;
  chunk_words = (omega arith, (omega arith, tt));
  map_words = (omega arith, (omega arith, tt));
  size_words = (omega arith, (omega arith, tt));
}

extract_header-write_header_example :
    (bytes : List ℕ) × (write_header two_chunks [] ≡ [] ++ bytes)
    × (length bytes ≡ offsets_size 2)
    × (extract_header no_header (bytes ++ (9 ∷ [])) 53 ≡ ok (two_chunks, offsets_size 2))
extract_header-write_header_example =
    extract_header-write_header two_chunks no_header [] (9 ∷ []) 53 two_chunks-IsHeader
      (omega arith)

extract_header_stays_within_example :
    Returns (HeaderWithin 40) (extract_header no_header (encode_le 40 5) 40)
extract_header_stays_within_example =
    extract_header_stays_within no_header (encode_le 40 5) 40 (omega (arith, length-encode_le 40 5))

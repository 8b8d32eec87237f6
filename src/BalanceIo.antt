-- ===== src/BalanceIo.antt =====
-- blockchain.h and blockchain.cpp: balance_map_size, write_balance_map, and read_balance_map of a
-- buffer.
pub mod Codec
use bootcamp.Base.{ℕ, zero, suc, ◌+◌, ◌*◌, ◌%◌, ◌^◌, List, [], ◌∷◌, ◌++◌, length, Result, ok, ◌>>=◌}
use bootcamp.Wire.{encode_le, read_bytes, read_word}
use bootcamp.SortedMap.{insert}
use bootcamp.Crypto.{hash_size}
use bootcamp.Crypto.Order.{hash_order}
use bootcamp.Transaction.{BalanceMap}

-- balance_map_size
unfoldable pub balance_map_size : BalanceMap → ℕ
balance_map_size m = 4 + length m * (hash_size + 8)

-- The loop of write_balance_map, in the order of the keys.
unfoldable pub write_entries : BalanceMap → List ℕ → List ℕ
write_entries [] out = out
write_entries ((addr, amount) ∷ m) out = write_entries m (out ++ (addr ++ encode_le 8 amount))

-- write_balance_map
unfoldable pub write_balance_map : BalanceMap → List ℕ → List ℕ
write_balance_map bals out = write_entries bals (out ++ encode_le 4 (length bals % 2 ^ 32))

-- The loop of read_balance_map, with the rounds that are left.
unfoldable pub read_entries : ℕ → BalanceMap → List ℕ → Result BalanceMap
read_entries zero bals at0 = ok bals
read_entries (suc rounds) bals at0 = do
  (addr, at1) ← read_bytes hash_size at0
  (amt, at2) ← read_word 8 at1
  read_entries rounds (insert addr amt bals) at2

-- read_balance_map(data, bals): the map that bals holds after the call.
unfoldable pub read_balance_map : List ℕ → Result BalanceMap
read_balance_map at0 = do (rounds, at1) ← read_word 4 at0; read_entries rounds [] at1

-- ===== src/BalanceIo/Codec.antt =====
-- The round trip of a balance map, and its size.
use bootcamp.Base.{
  ap, ℕ, ◌+◌, ◌*◌, ◌%◌, ◌^◌, ◌<◌, ◌≡◌, ◌∙◌, refl, true, List, [], ◌∷◌, ◌++◌, All, length,
  length-append, append_assoc, append-nil, ok, arith, KeyOrder,
}
use bootcamp.Wire.{encode_le}
use bootcamp.Wire.Laws.{length-encode_le, read_bytes-append, read_word-append}
use bootcamp.SortedMap.{Entries, insert, AllAbove, IsSorted}
use bootcamp.Crypto.{HashResult, hash_size}
use bootcamp.Crypto.Order.{hash_order}
use bootcamp.Transaction.{BalanceMap}
use bootcamp.BalanceIo.{
  balance_map_size, write_entries, write_balance_map, read_entries, read_balance_map,
}

module _ {ℓ} {K V : Type ℓ} ⦃o : KeyOrder K⦄ where
  AllAbove-append :
      (j k : K) (v : V) (acc m : Entries K V) → AllAbove j (acc ++ ((k, v) ∷ m)) → o.lt j k ≡ true
  AllAbove-append j k v [] m h = h.0
  AllAbove-append j k v ((i, w) ∷ acc) m h = AllAbove-append j k v acc m h.1

  -- A key above all others is entered at the end.
  insert-last :
      (k : K) (v : V) (acc m : Entries K V)
      → IsSorted (acc ++ ((k, v) ∷ m))
      → insert k v acc ≡ acc ++ ((k, v) ∷ [])
  unfolding insert
  insert-last k v [] m h = refl
  insert-last k v ((j, w) ∷ acc) m h = ground (
    arith,
    insert-last k v acc m h.1,
    AllAbove-append j k v acc m h.0,
    o.lt_trans j k j,
    o.lt_irrefl j,
  )

-- An entry with an address of 32 bytes and an amount that a uint64_t holds.
abbrev pub IsEntry : HashResult × ℕ → Type 0
IsEntry (addr, amount) = (length addr ≡ hash_size) × (amount < 2 ^ 64)

entries_bytes : BalanceMap → List ℕ
entries_bytes [] = []
entries_bytes ((addr, amount) ∷ m) = addr ++ (encode_le 8 amount ++ entries_bytes m)

write_entries-entries_bytes :
    (m : BalanceMap) (out : List ℕ) → write_entries m out ≡ out ++ entries_bytes m
unfolding write_entries entries_bytes
write_entries-entries_bytes [] out = rw append-nil
write_entries-entries_bytes ((addr, amount) ∷ m) out =
    write_entries-entries_bytes m (out ++ (addr ++ encode_le 8 amount)) ∙ simp append_assoc

length-entries_bytes :
    (m : BalanceMap) → All IsEntry m → length (entries_bytes m) ≡ length m * (hash_size + 8)
unfolding entries_bytes
length-entries_bytes [] h = refl
length-entries_bytes ((addr, amount) ∷ m) ((s, _), h) = omega (
  arith,
  length-append addr (encode_le 8 amount ++ entries_bytes m),
  length-append (encode_le 8 amount) (entries_bytes m),
  length-encode_le 8 amount,
  length-entries_bytes m h,
)

read_entries-entries_bytes :
    (m acc : BalanceMap) (rest : List ℕ)
    → All IsEntry m
    → IsSorted (acc ++ m)
    → read_entries (length m) acc (entries_bytes m ++ rest) ≡ ok (acc ++ m)
unfolding entries_bytes read_entries
read_entries-entries_bytes [] acc rest h sorted = rw append-nil
read_entries-entries_bytes ((addr, amount) ∷ m) acc rest ((s, fits), h) sorted =
    let at2 = entries_bytes m ++ rest in
    let at1 = encode_le 8 amount ++ at2 in
    rw
      (
        append_assoc addr,
        append_assoc (encode_le 8 amount),
        read_bytes-append hash_size addr at1 s,
        read_word-append 8 amount at2 fits,
        insert-last addr amount acc m sorted,
      )
      (read_entries-entries_bytes m (acc ++ ((addr, amount) ∷ [])) rest h
          (rw (append_assoc acc) sorted)
        ∙ ap ok (append_assoc acc ((addr, amount) ∷ []) m))

-- A map that fits the format of the file.
pub record IsStorableMap (m : BalanceMap) : Type 0 where
  pub entries : All IsEntry m
  pub sorted : IsSorted m
  pub few : length m < 2 ^ 32

pub balance_map_bytes : BalanceMap → List ℕ
balance_map_bytes m = encode_le 4 (length m) ++ entries_bytes m

pub write-balance_map_bytes :
    (m : BalanceMap) (out : List ℕ)
    → IsStorableMap m
    → write_balance_map m out ≡ out ++ balance_map_bytes m
unfolding write_balance_map balance_map_bytes
write-balance_map_bytes m out h =
    let exact : length m % 2 ^ 32 ≡ length m = omega (arith, h.few) in
    let size_bytes = encode_le 4 (length m) in
    rw exact (
      write_entries-entries_bytes m (out ++ size_bytes)
      ∙ append_assoc out size_bytes (entries_bytes m))

pub length-balance_map_bytes :
    (m : BalanceMap) → IsStorableMap m → length (balance_map_bytes m) ≡ balance_map_size m
unfolding balance_map_bytes balance_map_size
length-balance_map_bytes m h = omega (
  arith,
  length-append (encode_le 4 (length m)) (entries_bytes m),
  length-encode_le 4 (length m),
  length-entries_bytes m h.entries,
)

pub read-balance_map_bytes :
    (m : BalanceMap) (rest : List ℕ)
    → IsStorableMap m
    → read_balance_map (balance_map_bytes m ++ rest) ≡ ok m
unfolding balance_map_bytes read_balance_map
read-balance_map_bytes m rest h = rw (
  append_assoc (encode_le 4 (length m)),
  read_word-append 4 (length m) (entries_bytes m ++ rest) h.few,
  read_entries-entries_bytes m [] rest h.entries h.sorted,
)

-- A balance map of fewer than 2 ^ 32 entries, of addresses of 32 bytes in order and amounts that a
-- uint64_t holds, is written, after what the stream held, as balance_map_size bytes; and
-- read_balance_map reads the same map back, whatever follows in the buffer.
pub read_balance_map-write_balance_map :
    (m : BalanceMap) (out rest : List ℕ)
    → All IsEntry m
    → IsSorted m
    → length m < 2 ^ 32
    → (bytes : List ℕ) × (write_balance_map m out ≡ out ++ bytes)
      × (length bytes ≡ balance_map_size m)
      × (read_balance_map (bytes ++ rest) ≡ ok m)
read_balance_map-write_balance_map m out rest h sorted few =
    let w : IsStorableMap m = record { entries = h; sorted = sorted; few = few } in
    (
      balance_map_bytes m,
      write-balance_map_bytes m out w,
      length-balance_map_bytes m w,
      read-balance_map_bytes m rest w,
    )

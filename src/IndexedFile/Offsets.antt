-- ===== src/IndexedFile/Offsets.antt =====
-- The header of a chunked file: the round trip between rewritechain.cpp and readindexed.cpp, and
-- extractHeader on whatever bytes.
use bootcamp.Base.{
  true, ltb, ◌==◌, Returns-bind, ◌^◌, drop, ℕ, zero, suc, ◌+◌, ◌*◌, ◌-◌, ◌<◌, ◌≤◌, ◌≡◌, refl, ap,
  sym, List, [], ◌∷◌, ◌++◌, All, length, length-append, take-append_length, drop-append_length,
  append_assoc, ok, arith, Returns, Returns-if, inl, inr, ◌⊎◌,
}
use bootcamp.Wire.{encode_le}
use bootcamp.Wire.Laws.{
  length-encode_le, decode_le-encode_le, read_bytes-append, read_word-append, read_bytes-Returns,
  read_word-Returns,
}
use bootcamp.IndexedFile.{
  Header, encode_words, decode_words, read_words, copy_offsets, extract_header, write_header,
}

abbrev pub IsWord : ℕ → Type 0
IsWord x = x < 2 ^ 64

length-encode_words : (xs : List ℕ) → length (encode_words xs) ≡ 8 * length xs
unfolding encode_words
length-encode_words [] = refl
length-encode_words (x ∷ xs) = omega (
  arith,
  length-append (encode_le 8 x) (encode_words xs),
  length-encode_le 8 x,
  length-encode_words xs,
)

decode_words-encode_words :
    (xs : List ℕ) → All IsWord xs → decode_words (length xs) (encode_words xs) ≡ xs
unfolding encode_words decode_words
decode_words-encode_words [] h = refl
decode_words-encode_words (x ∷ xs) (w, h) = rw (
  take-append_length (encode_le 8 x) (encode_words xs) 8 (sym (length-encode_le 8 x)),
  drop-append_length (encode_le 8 x) (encode_words xs) 8 (sym (length-encode_le 8 x)),
  decode_le-encode_le 8 x w,
  decode_words-encode_words xs h,
)

read_words-encode_words :
    (n : ℕ) (xs rest : List ℕ)
    → length xs ≡ n
    → All IsWord xs
    → read_words n (encode_words xs ++ rest) ≡ ok (xs, rest)
unfolding read_words
read_words-encode_words n xs rest e h = rw (
  read_bytes-append (8 * n) (encode_words xs) rest (omega (arith, length-encode_words xs)),
  sym e,
  decode_words-encode_words xs h,
)

-- The offsets of `chunks` chunks, as vectors of uint64_t.
pub record IsHeader (h : Header) : Type 0 where
  pub few : h.chunks < 2 ^ 32
  pub chunk_offs : length h.chunk_off ≡ h.chunks
  pub map_offs : length h.map_off ≡ h.chunks
  pub map_szs : length h.map_sz ≡ h.chunks
  pub chunk_words : All IsWord h.chunk_off
  pub map_words : All IsWord h.map_off
  pub size_words : All IsWord h.map_sz

abbrev pub offsets_size : ℕ → ℕ
offsets_size chunks = 4 + 3 * (8 * chunks)

header_bytes : Header → List ℕ
header_bytes h =
    encode_le 4 h.chunks
    ++ (encode_words h.chunk_off ++ (encode_words h.map_off ++ encode_words h.map_sz))

length-header_bytes : (h : Header) → IsHeader h → length (header_bytes h) ≡ offsets_size h.chunks
unfolding header_bytes
length-header_bytes h w = omega (
  arith,
  length-append {0},
  length-encode_le 4 h.chunks,
  length-encode_words h.chunk_off,
  length-encode_words h.map_off,
  length-encode_words h.map_sz,
  w.chunk_offs,
  w.map_offs,
  w.map_szs,
)

header_bytes-append :
    (h : Header) (rest : List ℕ)
    → header_bytes h ++ rest
      ≡ encode_le 4 h.chunks
        ++ (encode_words h.chunk_off ++ (encode_words h.map_off ++ (encode_words h.map_sz ++ rest)))
unfolding header_bytes
header_bytes-append h rest = simp append_assoc

extract_header-header_bytes :
    (h before : Header) (rest : List ℕ) (data_sz : ℕ)
    → IsHeader h
    → offsets_size h.chunks ≤ data_sz
    → extract_header before (header_bytes h ++ rest) data_sz ≡ ok (h, offsets_size h.chunks)
unfolding extract_header copy_offsets
extract_header-header_bytes h before rest data_sz w fits =
    let at3 = encode_words h.map_sz ++ rest in
    let at2 = encode_words h.map_off ++ at3 in
    let at1 = encode_words h.chunk_off ++ at2 in
    ground (
      arith,
      header_bytes-append h rest,
      read_word-append 4 h.chunks at1 w.few,
      read_words-encode_words h.chunks h.chunk_off at2 w.chunk_offs w.chunk_words,
      read_words-encode_words h.chunks h.map_off at3 w.map_offs w.map_words,
      read_words-encode_words h.chunks h.map_sz rest w.map_szs w.size_words,
      length-append (header_bytes h) rest,
      length-header_bytes h w,
    )

-- A header of fewer than 2 ^ 32 chunks, with as many of each kind of uint64_t, is written, after
-- what the stream held, as 4 bytes and 24 for each chunk; and extractHeader, with whatever its
-- references held, reads the same header out of a buffer in which the file goes on, and returns
-- that size.
pub extract_header-write_header :
    (h before : Header) (out rest : List ℕ) (data_sz : ℕ)
    → IsHeader h
    → offsets_size h.chunks ≤ data_sz
    → (bytes : List ℕ) × (write_header h out ≡ out ++ bytes)
      × (length bytes ≡ offsets_size h.chunks)
      × (extract_header before (bytes ++ rest) data_sz ≡ ok (h, offsets_size h.chunks))
extract_header-write_header h before out rest data_sz w fits = (
  header_bytes h,
  unfold write_header header_bytes in refl,
  length-header_bytes h w,
  extract_header-header_bytes h before rest data_sz w fits,
)

length-decode_words : (n : ℕ) (bytes : List ℕ) → length (decode_words n bytes) ≡ n
unfolding decode_words
length-decode_words zero bytes = refl
length-decode_words (suc n) bytes = ap suc (length-decode_words n (drop 8 bytes))

-- As many offsets of each kind as there are chunks.
abbrev pub HasOffsets : Header → Type 0
HasOffsets h =
    (length h.chunk_off ≡ h.chunks) × (length h.map_off ≡ h.chunks) × (length h.map_sz ≡ h.chunks)

-- How extractHeader may end on `limit` bytes: it gave up, or it read a whole header.
abbrev pub HeaderWithin : ℕ → Header × ℕ → Type 0
HeaderWithin limit (h, n) = (n ≡ 0) ⊎ ((n ≡ offsets_size h.chunks) × (n ≤ limit) × HasOffsets h)

read_words-Returns :
    (n : ℕ) (at0 : List ℕ)
    → 8 * n ≤ length at0
    → Returns (λ (xs, at1). (length xs ≡ n) × (length at1 + 8 * n ≡ length at0)) (read_words n at0)
unfolding read_words
read_words-Returns n at0 h =
    read_bytes-Returns (8 * n) at0 _ _ h (λ xs rest e left. (length-decode_words n xs, left))

copy_offsets-Returns :
    (chunks limit : ℕ) (start at1 : List ℕ)
    → length at1 + 4 ≡ length start
    → 3 * (8 * chunks) ≤ length at1
    → offsets_size chunks ≤ limit
    → Returns (HeaderWithin limit) (copy_offsets chunks start at1)
unfolding copy_offsets
copy_offsets-Returns chunks limit start at1 e h fits =
    Returns-bind _ _ (read_words chunks at1) _ (read_words-Returns chunks at1 (omega arith))
      (λ (xs, at2) (nx, l2).
        Returns-bind _ _ (read_words chunks at2) _ (read_words-Returns chunks at2 (omega arith))
          (λ (ys, at3) (ny, l3).
            Returns-bind _ _ (read_words chunks at3) _ (read_words-Returns chunks at3 (omega arith))
              (λ (zs, at4) (nz, l4).
                let same : (3 * (8 * chunks) + 4 == length start - length at4) ≡ true =
                  ground (arith, l2, l3, l4, e) in
                rw same (inr (omega arith, omega (arith, fits), (nx, ny, nz))))))

-- Whatever the bytes are, and however many chunks they claim, extractHeader on no more than the
-- buffer's size reads inside the buffer and trips no assert: it returns 0, or the size of a header
-- that lies within the limit and has as many offsets of each kind as chunks.
pub extract_header_stays_within :
    (before : Header) (start : List ℕ) (data_sz : ℕ)
    → data_sz ≤ length start
    → Returns (HeaderWithin data_sz) (extract_header before start data_sz)
unfolding extract_header
extract_header_stays_within before start data_sz h =
    Returns-if (HeaderWithin data_sz) (ltb data_sz 4) _ _ (λ _. inl refl)
      (λ enough.
        read_word-Returns 4 start _ (HeaderWithin data_sz) (ground (arith, enough)) (λ chunks at1 e.
          Returns-if (HeaderWithin data_sz) (ltb (data_sz - 4) (8 * chunks * 3)) _ _ (λ _. inl refl)
            (λ all.
              copy_offsets-Returns chunks data_sz start at1 e (ground (arith, all, enough))
                (ground (arith, all, enough)))))

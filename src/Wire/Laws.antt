-- ===== src/Wire/Laws.antt =====
-- Integers and byte strings survive the way through memory.
use bootcamp.Base.{
  ◌∙◌, subst, bind-ok, sym, ◌+◌, Result, Returns, ◌>>=◌, Bool-cases, inl, inr, leb, take, drop,
  length-take, length-drop, ◌≤◌, ℕ, zero, suc, ◌/◌, ◌^◌, ◌<◌, ◌≡◌, refl, ap, List, [], ◌∷◌, ◌++◌,
  arith, ok, length, All, length-append, take-append_length, drop-append_length,
}
use bootcamp.Wire.{IsByte, encode_le, decode_le, read_bytes, read_word}
use native.Mathlib.Nat.{pow-suc}

pub length-encode_le : (w v : ℕ) → length (encode_le w v) ≡ w
unfolding encode_le
length-encode_le zero v = refl
length-encode_le (suc w) v = ap suc (length-encode_le w (v / 256))

pub encode_le-IsByte : (w v : ℕ) → All IsByte (encode_le w v)
unfolding encode_le
encode_le-IsByte zero v = tt
encode_le-IsByte (suc w) v = (omega arith, encode_le-IsByte w (v / 256))

div-lt-pow : (w v : ℕ) → v < 256 ^ suc w → v / 256 < 256 ^ w
div-lt-pow w v h = omega (arith, pow-suc 256 w)

pub decode_le-encode_le : (w v : ℕ) → v < 256 ^ w → decode_le (encode_le w v) ≡ v
unfolding encode_le decode_le
decode_le-encode_le zero v h = omega arith
decode_le-encode_le (suc w) v h = omega (arith, decode_le-encode_le w (v / 256) (div-lt-pow w v h))

pub decode_le-lt : (bs : List ℕ) → All IsByte bs → decode_le bs < 256 ^ length bs
unfolding decode_le
decode_le-lt [] h = omega arith
decode_le-lt (b ∷ bs) h = omega (arith, decode_le-lt bs h.1, h.0, pow-suc 256 (length bs))

pub read_bytes-append :
    (n : ℕ) (xs rest : List ℕ) → length xs ≡ n → read_bytes n (xs ++ rest) ≡ ok (xs, rest)
unfolding read_bytes
read_bytes-append n xs rest h =
    ground
      (arith, length-append xs rest, take-append_length xs rest n, drop-append_length xs rest n)

pub read_word-append :
    (w v : ℕ) (rest : List ℕ) → v < 256 ^ w → read_word w (encode_le w v ++ rest) ≡ ok (v, rest)
unfolding read_word
read_word-append w v rest h =
    ground (
      arith,
      read_bytes-append w (encode_le w v) rest,
      length-encode_le w v,
      decode_le-encode_le w v,
    )

-- A read that stays inside the memory goes on with as many bytes as it asked for.
pub read_bytes-Returns {ℓ} :
    {B : Type ℓ} (n : ℕ) (d : List ℕ) (f : List ℕ × List ℕ → Result B) (P : B → Type 0)
    → n ≤ length d
    → ((xs rest : List ℕ) → length xs ≡ n → length rest + n ≡ length d → Returns P (f (xs, rest)))
    → Returns P (read_bytes n d >>= f)
unfolding read_bytes
read_bytes-Returns n d f P fits next = elim (Bool-cases (leb n (length d))) [
  | inl e ↦
      rw e (
        next (take n d) (drop n d) (omega (arith, length-take n d))
          (omega (arith, length-drop n d)))
  | inr e ↦ absurd (ground arith)
]

pub read_word-Returns {ℓ} :
    {B : Type ℓ} (w : ℕ) (d : List ℕ) (f : ℕ × List ℕ → Result B) (P : B → Type 0)
    → w ≤ length d
    → ((x : ℕ) (rest : List ℕ) → length rest + w ≡ length d → Returns P (f (x, rest)))
    → Returns P (read_word w d >>= f)
unfolding read_word read_bytes
read_word-Returns w d f P fits next = elim (Bool-cases (leb w (length d))) [
  | inl e ↦ rw e (next (decode_le (take w d)) (drop w d) (omega (arith, length-drop w d)))
  | inr e ↦ absurd (ground arith)
]

-- What a read has left behind it.
pub read_bytes-taken :
    (n : ℕ) (d xs rest : List ℕ)
    → read_bytes n d ≡ ok (xs, rest)
    → (length xs ≡ n) × (length rest + n ≡ length d)
unfolding read_bytes
read_bytes-taken n d xs rest e = elim (Bool-cases (leb n (length d))) [
  | inl e1 ↦
      let fits : n ≤ length d = ground (arith, e1) in
      let same : (take n d ≡ xs) × (drop n d ≡ rest) = ground (arith, e, e1) in
      (
        sym (ap length same.0) ∙ length-take n d ∙ omega (arith, fits),
        omega (arith, ap length same.1, length-drop n d, fits),
      )
  | inr short ↦ absurd (ground (arith, e, short))
]

pub read_word-taken :
    (w v : ℕ) (d rest : List ℕ) → read_word w d ≡ ok (v, rest) → length rest + w ≡ length d
unfolding read_word
read_word-taken w v d rest e =
    let ((bytes, behind), e2, e1) = bind-ok _ (read_bytes w d) _ e in
    let same : behind ≡ rest = ground (arith, e2) in
    subst (λ r. length r + w ≡ length d) same (read_bytes-taken w d bytes behind e1).1

-- ===== src/Crypto/Print.antt =====
-- operator<<(std::ostream&, const hash_result_t&): two lower-case hexadecimal digits a byte.
use bootcamp.Base.{
  ℕ, ◌+◌, ◌-◌, ◌/◌, ◌%◌, ◌<◌, ◌≡◌, refl, List, [], ◌∷◌, arith, ltb, if◌then◌else◌, All,
}
use bootcamp.Wire.{IsByte}
use bootcamp.Crypto.{HashResult}

unfoldable pub hex_digit : ℕ → ℕ
hex_digit d = if ltb d 10 then b'0' + d else b'a' + (d - 10)

unfoldable pub print_hash : HashResult → List ℕ
unfolding hex_digit
print_hash [] = []
print_hash (b ∷ bs) = hex_digit (b / 16) ∷ hex_digit (b % 16) ∷ print_hash bs

hex_digit-injective : (a b : ℕ) → a < 16 → b < 16 → hex_digit a ≡ hex_digit b → a ≡ b
unfolding hex_digit
hex_digit-injective a b ha hb e = ground arith

byte_of_digits :
    (a b : ℕ)
    → IsByte a
    → IsByte b
    → hex_digit (a / 16) ≡ hex_digit (b / 16)
    → hex_digit (a % 16) ≡ hex_digit (b % 16)
    → a ≡ b
byte_of_digits a b ha hb e f = omega (
  arith,
  hex_digit-injective (a / 16) (b / 16) (omega arith) (omega arith) e,
  hex_digit-injective (a % 16) (b % 16) (omega arith) (omega arith) f,
)

-- Two hashes that print alike are the same hash.
pub print_hash-injective :
    (a b : HashResult) → All IsByte a → All IsByte b → print_hash a ≡ print_hash b → a ≡ b
unfolding print_hash
print_hash-injective [] [] ha hb e = refl
print_hash-injective [] (y ∷ ys) ha hb e = cc
print_hash-injective (x ∷ xs) [] ha hb e = cc
print_hash-injective (x ∷ xs) (y ∷ ys) ha hb e =
    cc (byte_of_digits x y ha.0 hb.0 (cc) (cc), print_hash-injective xs ys ha.1 hb.1 (cc))

-- ===== src/Crypto/Order.antt =====
-- operator== decides equality, and operator< is a strict total order: what std::map and the
-- hash maps ask of their key.
use bootcamp.Base.{
  ◌≡◌, ◌∙◌, sym, refl, true, false, [], ◌∷◌, arith, KeyOrder, ◌↔◌, inl, inr, Bool-cases,
}
use bootcamp.SortedMap.{same_key}
use bootcamp.Crypto.{HashResult, hash_eq, hash_lt}

hash_eq_refl : (a : HashResult) → hash_eq a a ≡ true
unfolding hash_eq
hash_eq_refl [] = refl
hash_eq_refl (x ∷ xs) = ground (arith, hash_eq_refl xs)

hash_eq→eq : (a b : HashResult) → hash_eq a b ≡ true → a ≡ b
unfolding hash_eq
hash_eq→eq [] [] h = refl
hash_eq→eq (x ∷ xs) (y ∷ ys) h = ground (arith, hash_eq→eq xs ys)
hash_eq→eq [] (y ∷ ys) h = cc
hash_eq→eq (x ∷ xs) [] h = cc

-- The comparison loop of operator== answers true exactly on equal hashes.
pub hash_eq_iff : (a b : HashResult) → (hash_eq a b ≡ true) ↔ (a ≡ b)
hash_eq_iff a b = (hash_eq→eq a b, λ e. subst_right a b e (hash_eq_refl a))
  where
    subst_right : (a b : HashResult) → a ≡ b → hash_eq a a ≡ true → hash_eq a b ≡ true
    subst_right a b e h = rw (← e) h

pub hash_lt_irrefl : (a : HashResult) → hash_lt a a ≡ false
unfolding hash_lt
hash_lt_irrefl [] = refl
hash_lt_irrefl (x ∷ xs) = ground (arith, hash_lt_irrefl xs)

pub hash_lt_trans :
    (a b c : HashResult) → hash_lt a b ≡ true → hash_lt b c ≡ true → hash_lt a c ≡ true
unfolding hash_lt
hash_lt_trans [] [] c h k = cc
hash_lt_trans [] (y ∷ ys) [] h k = cc
hash_lt_trans [] (y ∷ ys) (z ∷ zs) h k = refl
hash_lt_trans (x ∷ xs) [] c h k = cc
hash_lt_trans (x ∷ xs) (y ∷ ys) [] h k = cc
hash_lt_trans (x ∷ xs) (y ∷ ys) (z ∷ zs) h k = ground (arith, hash_lt_trans xs ys zs)

pub hash_lt_connected : (a b : HashResult) → hash_lt a b ≡ false → hash_lt b a ≡ false → a ≡ b
unfolding hash_lt
hash_lt_connected [] [] h k = refl
hash_lt_connected [] (y ∷ ys) h k = cc
hash_lt_connected (x ∷ xs) [] h k = cc
hash_lt_connected (x ∷ xs) (y ∷ ys) h k = ground (arith, hash_lt_connected xs ys)

instance abbrev pub hash_order : KeyOrder HashResult
hash_order = record {
  lt = hash_lt;
  lt_irrefl = hash_lt_irrefl;
  lt_trans = hash_lt_trans;
  lt_connected = hash_lt_connected;
}

-- What std::map takes for one key is what operator== takes for one hash.
pub same_key-hash_eq : (a b : HashResult) → same_key a b ≡ hash_eq a b
same_key-hash_eq a b = elim (Bool-cases (hash_eq a b)) [
  | inl e ↦ rw ((hash_eq_iff a b).0 e, hash_lt_irrefl b, hash_eq_refl b)
  | inr e ↦ elim (Bool-cases (same_key a b)) [ inl s ↦ cc (distinct s) | inr d ↦ d ∙ sym e ]
]
  where
    distinct : same_key a b ≡ true → hash_eq a b ≡ true
    distinct s = (hash_eq_iff a b).1 (hash_lt_connected a b (ground arith) (ground arith))

-- ===== src/SortedMap/Total.antt =====
-- The sum of the values of a map, under each update.
use bootcamp.Base.{false, ℕ, ◌+◌, ◌≤◌, ◌≡◌, [], ◌∷◌, arith, KeyOrder}
use bootcamp.SortedMap.{Entries, find, insert, erase, value_or_zero, same_key}

abbrev pub total : {K : Type 0} → Entries K ℕ → ℕ
total [] = 0
total ((_, v) ∷ m) = v + total m

module _ {K : Type 0} ⦃o : KeyOrder K⦄ where
  pub total-insert :
      (k : K) (v : ℕ) (m : Entries K ℕ)
      → total (insert k v m) + value_or_zero (find k m) ≡ total m + v
  unfolding find insert
  total-insert k v [] = omega arith
  total-insert k v ((j, w) ∷ m) = ground (arith, total-insert k v m)

  pub total-erase :
      (k : K) (m : Entries K ℕ) → total (erase k m) + value_or_zero (find k m) ≡ total m
  unfolding find erase
  total-erase k [] = omega arith
  total-erase k ((j, w) ∷ m) = ground (arith, total-erase k m)

  pub find-le-total : (k : K) (m : Entries K ℕ) → value_or_zero (find k m) ≤ total m
  unfolding find
  find-le-total k [] = omega arith
  find-le-total k ((j, w) ∷ m) = ground (arith, find-le-total k m)

  -- Two keys that differ hold parts of the sum that do not overlap.
  pub find-add-find-le-total :
      (j k : K) (m : Entries K ℕ)
      → same_key j k ≡ false
      → value_or_zero (find j m) + value_or_zero (find k m) ≤ total m
  unfolding find
  find-add-find-le-total j k [] h = omega arith
  find-add-find-le-total j k ((i, w) ∷ m) h = ground (
    arith,
    find-add-find-le-total j k m h,
    find-le-total j m,
    find-le-total k m,
    o.lt_trans j i k,
    o.lt_trans k i j,
    o.lt_connected j i,
    o.lt_connected k i,
    o.lt_irrefl i,
  )

-- ===== src/SortedMap/Laws.antt =====
-- What a lookup finds after each update, and that updates keep the entries in strict order.
use bootcamp.Base.{◌≡◌, refl, true, none, some, [], ◌∷◌, arith, if◌then◌else◌, KeyOrder}
use bootcamp.SortedMap.{Entries, find, insert, erase, AllAbove, IsSorted, same_key}

module _ {ℓ} {K V : Type ℓ} ⦃o : KeyOrder K⦄ where
  pub find-insert :
      (j k : K) (v : V) (m : Entries K V)
      → find j (insert k v m) ≡ (if same_key j k then some v else find j m)
  unfolding find insert
  find-insert j k v [] = ground arith
  find-insert j k v ((i, w) ∷ m) = ground (
    arith,
    find-insert j k v m,
    o.lt_trans j k i,
    o.lt_trans k j i,
    o.lt_trans i k j,
    o.lt_trans i j k,
    o.lt_trans k i j,
    o.lt_trans j i k,
    o.lt_connected j k,
    o.lt_connected i k,
  )

  pub AllAbove-trans : (a b : K) (m : Entries K V) → o.lt a b ≡ true → AllAbove b m → AllAbove a m
  AllAbove-trans a b [] h s = tt
  AllAbove-trans a b ((j, w) ∷ m) h s = (o.lt_trans a b j h s.0, AllAbove-trans a b m h s.1)

  find-AllAbove : (k : K) (m : Entries K V) → AllAbove k m → find k m ≡ none
  unfolding find
  find-AllAbove k [] s = refl
  find-AllAbove k ((j, w) ∷ m) s = ground arith

  AllAbove-insert :
      (a k : K) (v : V) (m : Entries K V)
      → o.lt a k ≡ true
      → AllAbove a m
      → AllAbove a (insert k v m)
  unfolding insert
  AllAbove-insert a k v [] h s = (h, tt)
  AllAbove-insert a k v ((j, w) ∷ m) h s = ground (arith, AllAbove-insert a k v m h s.1)

  pub insert-IsSorted : (k : K) (v : V) (m : Entries K V) → IsSorted m → IsSorted (insert k v m)
  unfolding insert
  insert-IsSorted k v [] s = (tt, tt)
  insert-IsSorted k v ((j, w) ∷ m) s =
      ground (arith, insert-IsSorted k v m s.1, AllAbove-insert j k v m, AllAbove-trans k j m)

  AllAbove-erase : (a k : K) (m : Entries K V) → AllAbove a m → AllAbove a (erase k m)
  unfolding erase
  AllAbove-erase a k [] s = tt
  AllAbove-erase a k ((j, w) ∷ m) s = ground (arith, AllAbove-erase a k m s.1)

  pub erase-IsSorted : (k : K) (m : Entries K V) → IsSorted m → IsSorted (erase k m)
  unfolding erase
  erase-IsSorted k [] s = tt
  erase-IsSorted k ((j, w) ∷ m) s = ground (arith, erase-IsSorted k m s.1, AllAbove-erase j k m s.0)

  pub find-erase :
      (j k : K) (m : Entries K V)
      → IsSorted m
      → find j (erase k m) ≡ (if same_key j k then none else find j m)
  unfolding find erase
  find-erase j k [] s = ground arith
  find-erase j k ((i, w) ∷ m) s = ground (
    arith,
    find-erase j k m s.1,
    o.lt_trans j k i,
    o.lt_trans k j i,
    o.lt_connected j k,
    o.lt_connected i k,
    find-AllAbove j m,
    AllAbove-trans j i m,
  )

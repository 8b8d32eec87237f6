-- ===== src/SortedMap.antt =====
-- std::map<K, V>, as the sources use it: find, operator[] with an assignment, erase, and
-- iteration in the order of the keys. The map is its list of entries, smallest key first, and two
-- keys are the same where neither is less than the other.
pub mod Laws
pub mod Total
use bootcamp.Base.{
  ℕ, ◌+◌, ◌≡◌, Bool, true, not, ◌&&◌, Option, none, some, List, [], ◌∷◌, if◌then◌else◌, KeyOrder,
}

abbrev pub Entries {ℓ} : Type ℓ → Type ℓ → Type ℓ
Entries K V = List (K × V)

module _ {ℓ} {K V : Type ℓ} ⦃o : KeyOrder K⦄ where
  unfoldable pub find : K → Entries K V → Option V
  find k [] = none
  find k ((j, v) ∷ m) = if o.lt k j then none else if o.lt j k then find k m else some v

  -- m[k] = v;
  unfoldable pub insert : K → V → Entries K V → Entries K V
  insert k v [] = (k, v) ∷ []
  insert k v ((j, w) ∷ m) =
      if o.lt k j
      then (k, v) ∷ (j, w) ∷ m
      else if o.lt j k
      then (j, w) ∷ insert k v m
      else (j, v) ∷ m

  unfoldable pub erase : K → Entries K V → Entries K V
  erase k [] = []
  erase k ((j, w) ∷ m) = if o.lt k j then (j, w) ∷ m else if o.lt j k then (j, w) ∷ erase k m else m

  -- Every key of the map is greater than `k`.
  abbrev pub AllAbove : K → Entries K V → Type 0
  AllAbove k [] = Unit
  AllAbove k ((j, _) ∷ m) = (o.lt k j ≡ true) × AllAbove k m

  abbrev pub IsSorted : Entries K V → Type 0
  IsSorted [] = Unit
  IsSorted ((k, _) ∷ m) = AllAbove k m × IsSorted m

module _ {ℓ} {K : Type ℓ} ⦃o : KeyOrder K⦄ where
  -- Two keys that std::map takes for one.
  abbrev pub same_key : K → K → Bool
  same_key a b = not (o.lt a b) && not (o.lt b a)

-- What operator[] reads, where a missing key is entered with the value 0.
abbrev pub value_or_zero : Option ℕ → ℕ
value_or_zero none = 0
value_or_zero (some v) = v

-- ===== src/IndexedFile/Maps.antt =====
-- balance_maps_equal compares what the maps say, where a missing address and a zero balance are
-- the same.
use bootcamp.Base.{
  ℕ, ◌≡◌, ◌↔◌, refl, true, false, some, [], ◌∷◌, arith, KeyOrder, All, Option-cases, inl, inr,
}
use bootcamp.SortedMap.{Entries, find, value_or_zero, AllAbove, IsSorted}
use bootcamp.Crypto.{HashResult, hash_lt}
use bootcamp.Crypto.Order.{hash_order}
use bootcamp.Transaction.{BalanceMap}
use bootcamp.IndexedFile.{included_in, balance_maps_equal}

-- What an address holds.
abbrev pub balance : HashResult → BalanceMap → ℕ
balance addr m = value_or_zero (find addr m)

abbrev Agrees : BalanceMap → HashResult × ℕ → Type 0
Agrees m (addr, amount) = balance addr m ≡ amount

included_in-Agrees : (m1 m2 : BalanceMap) → included_in m1 m2 ≡ true → All (Agrees m2) m1
unfolding included_in
included_in-Agrees [] m2 h = tt
included_in-Agrees ((addr, amount) ∷ m1) m2 h = elim (Option-cases (find addr m2)) [
  | inl missing ↦ (ground arith, included_in-Agrees m1 m2 (ground arith))
  | inr (held, e) ↦ (ground (arith, e), included_in-Agrees m1 m2 (ground (arith, e)))
]

Agrees-included_in : (m1 m2 : BalanceMap) → All (Agrees m2) m1 → included_in m1 m2 ≡ true
unfolding included_in
Agrees-included_in [] m2 h = refl
Agrees-included_in ((addr, amount) ∷ m1) m2 (a, h) = elim (Option-cases (find addr m2)) [
  | inl missing ↦ ground (arith, Agrees-included_in m1 m2 h)
  | inr (held, e) ↦ ground (arith, e, Agrees-included_in m1 m2 h)
]

Agrees-balance :
    (m1 m2 : BalanceMap) (addr : HashResult) (amount : ℕ)
    → All (Agrees m2) m1
    → find addr m1 ≡ some amount
    → balance addr m2 ≡ amount
unfolding find
Agrees-balance [] m2 addr amount h e = absurd (ground arith)
Agrees-balance ((a, x) ∷ m1) m2 addr amount (p, h) e =
    let same : hash_lt addr a ≡ false → hash_lt a addr ≡ false → addr ≡ a =
      hash_order.lt_connected addr a in
    ground (arith, Agrees-balance m1 m2 addr amount h, same)

module _ {ℓ} {K V : Type ℓ} ⦃o : KeyOrder K⦄ where
  find-AllAbove-some :
      (j k : K) (v : V) (m : Entries K V) → AllAbove j m → find k m ≡ some v → o.lt j k ≡ true
  unfolding find
  find-AllAbove-some j k v [] s e = absurd (ground arith)
  find-AllAbove-some j k v ((i, w) ∷ m) s e =
      ground (arith, find-AllAbove-some j k v m s.1, o.lt_connected k i)

  -- What holds of every lookup holds of every entry.
  All-find {κ} :
      (P : K × V → Type κ) (m : Entries K V)
      → IsSorted m
      → ((k : K) (v : V) → find k m ≡ some v → P (k, v))
      → All P m
  unfolding find
  All-find P [] s h = tt
  All-find P ((j, w) ∷ m) s h = (
    h j w (ground (arith, o.lt_irrefl j)),
    All-find P m s.1 (λ k v e.
        let above : o.lt j k ≡ true = find-AllAbove-some j k v m s.0 e in
        h k v (ground (arith, above, e, o.lt_trans j k j, o.lt_irrefl j))),
  )

-- Two balance maps, with their entries in order, are equal to balance_maps_equal exactly where
-- every address holds the same in both, a missing one holding nothing.
pub balance_maps_equal_iff :
    (m1 m2 : BalanceMap)
    → IsSorted m1
    → IsSorted m2
    → (balance_maps_equal m1 m2 ≡ true) ↔ ((addr : HashResult) → balance addr m1 ≡ balance addr m2)
unfolding balance_maps_equal
balance_maps_equal_iff m1 m2 s1 s2 = (
  (λ h addr.
      let in2 = included_in-Agrees m1 m2 (ground (arith, h)) in
      let in1 = included_in-Agrees m2 m1 (ground (arith, h)) in
      elim (Option-cases (find addr m1)) [
        | inr (held, e) ↦ ground (arith, e, Agrees-balance m1 m2 addr held in2 e)
        | inl missing ↦ elim (Option-cases (find addr m2)) [
          | inr (held, e) ↦ ground (arith, e, Agrees-balance m2 m1 addr held in1 e)
          | inl also ↦ ground (arith, missing, also)
        ]
      ]),
  (λ h.
      let in2 =
        Agrees-included_in m1 m2
          (All-find (Agrees m2) m1 s1 (λ addr held e. ground (arith, h addr, e))) in
      let in1 =
        Agrees-included_in m2 m1
          (All-find (Agrees m1) m2 s2 (λ addr held e. ground (arith, h addr, e))) in
      ground (arith, in1, in2)),
)

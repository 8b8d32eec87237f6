-- ===== src/Generator/Utxos.antt =====
-- The map of the generator: lookups after an assignment and an erasure, and keys that differ.
use bootcamp.Base.{
  get_elem?, ap₂, ℕ, zero, suc, ◌≤◌, ◌<◌, ◌≡◌, ◌∙◌, refl, sym, ap, subst, true, false, Bool-cases,
  inl, inr, ◌⊎◌, none, some, List, [], ◌∷◌, length, arith, if◌then◌else◌,
}
use mathlib.Core.List.{Memᴰ}
use mathlib.Core.List.Memᴰ
use bootcamp.Crypto.{HashResult, hash_eq, OpenSsl}
use bootcamp.Crypto.Order.{hash_eq_iff}
use bootcamp.Generator.{Utxo, UtxoMap, find_utxo, set_utxo, erase_utxo, is_listed}

-- Whether two addresses are one, with the answer of operator==.
pub hash-cases : (j k : HashResult) → ((j ≡ k) × (hash_eq j k ≡ true)) ⊎ (hash_eq j k ≡ false)
hash-cases j k = elim (Bool-cases (hash_eq j k)) [
  | inl same ↦ inl ((hash_eq_iff j k).0 same, same)
  | inr other ↦ inr other
]

pub hash_differs : (j k : HashResult) → (j ≡ k → ⊥) → hash_eq j k ≡ false
hash_differs j k other = elim (hash-cases j k) [ inl (same, _) ↦ absurd (other same) | inr e ↦ e ]

module _ (ssl : OpenSsl) where
  abbrev pub HasEntry : HashResult → Utxo ssl → UtxoMap ssl → Type 0
  HasEntry k u m = Memᴰ (k, u) m

  pub find_utxo-HasEntry :
      (k : HashResult) (u : Utxo ssl) (m : UtxoMap ssl)
      → find_utxo ssl k m ≡ some u
      → HasEntry k u m
  unfolding find_utxo
  find_utxo-HasEntry k u [] e = cc e
  find_utxo-HasEntry k u ((j, v) ∷ m) e = elim (hash-cases j k) [
    | inl (same, t) ↦
        let value : v ≡ u = ground (arith, e, t) in
        Memᴰ.head (ap₂ (λ x y. (x, y)) (sym same) (sym value))
    | inr other ↦ Memᴰ.tail (find_utxo-HasEntry k u m (ground (arith, e, other)))
  ]

  pub HasEntry-find_utxo :
      (k : HashResult) (u : Utxo ssl) (m : UtxoMap ssl)
      → HasEntry k u m
      → (v : Utxo ssl) × (find_utxo ssl k m ≡ some v)
  unfolding find_utxo
  HasEntry-find_utxo k u [] t = elim t [ ]
  HasEntry-find_utxo k u ((j, w) ∷ m) t = elim (hash-cases j k) [
    | inl (same, e) ↦ (w, ground (arith, e))
    | inr other ↦ elim (Memᴰ.cases_cons t) [
      | inl first ↦ absurd (cc (other, (hash_eq_iff j k).1 (sym (ap (λ x. x.0) first))))
      | inr others ↦ let (v, e) = HasEntry-find_utxo k u m others in (v, ground (arith, other, e))
    ]
  ]

  pub get_elem?-HasEntry :
      (i : ℕ) (m : UtxoMap ssl)
      → i < length m
      → (k : HashResult) × (u : Utxo ssl) × (get_elem? m i ≡ some (k, u)) × HasEntry k u m
  get_elem?-HasEntry i [] h = absurd (omega (arith, h))
  get_elem?-HasEntry zero ((k, u) ∷ m) h = (k, u, refl, Memᴰ.head refl)
  get_elem?-HasEntry (suc i) (x ∷ m) h =
      let (k, u, e, t) = get_elem?-HasEntry i m (omega (arith, h)) in (k, u, e, Memᴰ.tail t)

  pub HasEntry-set_utxo :
      (k j : HashResult) (u v : Utxo ssl) (m : UtxoMap ssl)
      → HasEntry j v (set_utxo ssl k u m)
      → ((j ≡ k) × (v ≡ u)) ⊎ HasEntry j v m
  unfolding set_utxo
  HasEntry-set_utxo k j u v [] (Memᴰ.head e) = inl (ap (λ x. x.0) e, ap (λ x. x.1) e)
  HasEntry-set_utxo k j u v [] (Memᴰ.tail t) = elim t [ ]
  HasEntry-set_utxo k j u v ((i, w) ∷ m) t = elim (hash-cases i k) [
    | inl (same, e) ↦
        let t1 : HasEntry j v ((i, u) ∷ m) = rw e at t in
        elim (Memᴰ.cases_cons t1) [
          | inl first ↦ inl (ap (λ x. x.0) first ∙ same, ap (λ x. x.1) first)
          | inr others ↦ inr (Memᴰ.tail others)
        ]
    | inr other ↦
        let t1 : HasEntry j v ((i, w) ∷ set_utxo ssl k u m) = rw other at t in
        elim (Memᴰ.cases_cons t1) [
          | inl first ↦ inr (Memᴰ.head first)
          | inr others ↦ elim (HasEntry-set_utxo k j u v m others) [
            | inl new ↦ inl new
            | inr old ↦ inr (Memᴰ.tail old)
          ]
        ]
  ]

  pub HasEntry-erase_utxo :
      (k j : HashResult) (v : Utxo ssl) (m : UtxoMap ssl)
      → HasEntry j v (erase_utxo ssl k m)
      → HasEntry j v m × (hash_eq j k ≡ false)
  unfolding erase_utxo
  HasEntry-erase_utxo k j v [] t = elim t [ ]
  HasEntry-erase_utxo k j v ((i, w) ∷ m) t = elim (hash-cases i k) [
    | inl (same, e) ↦
        let t1 : HasEntry j v (erase_utxo ssl k m) = rw e at t in
        let (old, other) = HasEntry-erase_utxo k j v m t1 in (Memᴰ.tail old, other)
    | inr e ↦
        let t1 : HasEntry j v ((i, w) ∷ erase_utxo ssl k m) = rw e at t in
        elim (Memᴰ.cases_cons t1) [
          | inl first ↦
              (Memᴰ.head first, subst (λ x. hash_eq x k ≡ false) (sym (ap (λ x. x.0) first)) e)
          | inr others ↦
              let (old, other) = HasEntry-erase_utxo k j v m others in (Memᴰ.tail old, other)
        ]
  ]

  pub find_utxo-set_utxo :
      (k j : HashResult) (u : Utxo ssl) (m : UtxoMap ssl)
      → find_utxo ssl j (set_utxo ssl k u m) ≡ (if hash_eq k j then some u else find_utxo ssl j m)
  unfolding find_utxo set_utxo
  find_utxo-set_utxo k j u [] = refl
  find_utxo-set_utxo k j u ((i, w) ∷ m) = elim (hash-cases i k) [
    | inl (same, e) ↦
        let keys : hash_eq i j ≡ hash_eq k j = ap (λ x. hash_eq x j) same in ground (arith, e, keys)
    | inr other ↦ elim (hash-cases i j) [
      | inl (same, e) ↦
          let keys : hash_eq k j ≡ false =
            hash_differs k j (λ s. absurd (cc (other, (hash_eq_iff i k).1 (same ∙ sym s)))) in
          ground (arith, e, other, keys)
      | inr e ↦ ground (arith, e, other, find_utxo-set_utxo k j u m)
    ]
  ]

  pub find_utxo-erase_utxo :
      (k j : HashResult) (m : UtxoMap ssl)
      → hash_eq k j ≡ false
      → find_utxo ssl j (erase_utxo ssl k m) ≡ find_utxo ssl j m
  unfolding find_utxo erase_utxo
  find_utxo-erase_utxo k j [] h = refl
  find_utxo-erase_utxo k j ((i, w) ∷ m) h = elim (hash-cases i k) [
    | inl (same, e) ↦
        let keys : hash_eq i j ≡ false = ap (λ x. hash_eq x j) same ∙ h in
        ground (arith, e, keys, find_utxo-erase_utxo k j m h)
    | inr e ↦ ground (arith, e, find_utxo-erase_utxo k j m h)
  ]

  -- No address has two entries.
  abbrev pub Distinct : UtxoMap ssl → Type 0
  Distinct [] = Unit
  Distinct ((k, u) ∷ m) = (find_utxo ssl k m ≡ none) × Distinct m

  erase_utxo-missing :
      (k : HashResult) (m : UtxoMap ssl) → find_utxo ssl k m ≡ none → erase_utxo ssl k m ≡ m
  unfolding find_utxo erase_utxo
  erase_utxo-missing k [] h = refl
  erase_utxo-missing k ((i, w) ∷ m) h = elim (hash-cases i k) [
    | inl (same, e) ↦ absurd (ground (arith, h, e))
    | inr e ↦ ground (arith, e, h, erase_utxo-missing k m)
  ]

  find_utxo-erase_utxo-none :
      (k j : HashResult) (m : UtxoMap ssl)
      → find_utxo ssl j m ≡ none
      → find_utxo ssl j (erase_utxo ssl k m) ≡ none
  find_utxo-erase_utxo-none k j m h = elim (hash-cases k j) [
    | inl (same, e) ↦
        subst (λ x. find_utxo ssl j (erase_utxo ssl x m) ≡ none) (sym same)
          (ap (find_utxo ssl j) (erase_utxo-missing j m h) ∙ h)
    | inr e ↦ find_utxo-erase_utxo k j m e ∙ h
  ]

  pub erase_utxo-Distinct :
      (k : HashResult) (m : UtxoMap ssl) → Distinct m → Distinct (erase_utxo ssl k m)
  unfolding erase_utxo
  erase_utxo-Distinct k [] d = tt
  erase_utxo-Distinct k ((i, w) ∷ m) (fresh, d) = elim (Bool-cases (hash_eq i k)) [
    | inl e ↦ rw e (erase_utxo-Distinct k m d)
    | inr e ↦ rw e (find_utxo-erase_utxo-none k i m fresh, erase_utxo-Distinct k m d)
  ]

  pub set_utxo-Distinct :
      (k : HashResult) (u : Utxo ssl) (m : UtxoMap ssl) → Distinct m → Distinct (set_utxo ssl k u m)
  unfolding set_utxo find_utxo
  set_utxo-Distinct k u [] d = (refl, tt)
  set_utxo-Distinct k u ((i, w) ∷ m) (fresh, d) = elim (hash-cases i k) [
    | inl (same, e) ↦ rw e (fresh, d)
    | inr e ↦
        let keys : hash_eq k i ≡ false =
          hash_differs k i (λ s. absurd (cc (e, (hash_eq_iff i k).1 (sym s)))) in
        let still : find_utxo ssl i (set_utxo ssl k u m) ≡ none =
          ground (arith, find_utxo-set_utxo k i u m, keys, fresh) in
        rw e (still, set_utxo-Distinct k u m d)
  ]

  -- A new address makes the map longer.
  pub length-set_utxo :
      (k : HashResult) (u : Utxo ssl) (m : UtxoMap ssl)
      → find_utxo ssl k m ≡ none
      → length (set_utxo ssl k u m) ≡ suc (length m)
  unfolding set_utxo find_utxo
  length-set_utxo k u [] h = refl
  length-set_utxo k u ((i, w) ∷ m) h = elim (Bool-cases (hash_eq i k)) [
    | inl e ↦ absurd (ground (arith, h, e))
    | inr e ↦ ground (arith, e, h, length-set_utxo k u m)
  ]

  pub length-erase_utxo :
      (k : HashResult) (m : UtxoMap ssl) → Distinct m → length m ≤ suc (length (erase_utxo ssl k m))
  unfolding erase_utxo
  length-erase_utxo k [] d = omega arith
  length-erase_utxo k ((i, w) ∷ m) (fresh, d) = elim (hash-cases i k) [
    | inl (same, e) ↦
        let gone = erase_utxo-missing k m (subst (λ x. find_utxo ssl x m ≡ none) same fresh) in
        rw (e, gone) (omega arith)
    | inr e ↦ rw e (omega (arith, length-erase_utxo k m d))
  ]

  -- A map with more entries than addresses are listed has an entry under none of them.
  pub unlisted :
      (addrs : List HashResult) (m : UtxoMap ssl)
      → Distinct m
      → length addrs < length m
      → (k : HashResult) × (u : Utxo ssl) × HasEntry k u m × (is_listed k addrs ≡ false)
  unlisted [] [] d more = absurd (omega (arith, more))
  unlisted [] ((k, u) ∷ m) d more = (k, u, Memᴰ.head refl, refl)
  unlisted (a ∷ addrs) m d more =
      let (k, u, there, free) =
        unlisted addrs (erase_utxo ssl a m) (erase_utxo-Distinct a m d)
          (omega (arith, more, length-erase_utxo a m d)) in
      let (old, other) = HasEntry-erase_utxo a k u m there in
      (k, u, old, ground (arith, other, free))

  pub length-le-set_utxo :
      (k : HashResult) (u : Utxo ssl) (m : UtxoMap ssl) → length m ≤ length (set_utxo ssl k u m)
  unfolding set_utxo
  length-le-set_utxo k u [] = omega arith
  length-le-set_utxo k u ((i, w) ∷ m) = elim (Bool-cases (hash_eq i k)) [
    | inl e ↦ rw e (omega arith)
    | inr e ↦ rw e (omega (arith, length-le-set_utxo k u m))
  ]

-- ===== src/FindMax/Greatest.antt =====
-- The first place of the greatest value of an array, and that `best` finds it.
use bootcamp.Base.{
  ℕ, suc, ◌<◌, ◌≡◌, refl, sym, subst, Bool, true, false, Bool-cases, inl, inr, some, List, [], ◌∷◌,
  ◌++◌, length, length-append, append_assoc, append-nil, get_elem?, arith,
}
use bootcamp.ChainReader.Lookup.{
  get_elem?-append_left, get_elem?-last, get_elem?-snoc, get_elem?-lt,
}
use bootcamp.FindMax.Best.{IsGreater, better, best}

module _ {V : Type 0} (function : ℕ → V) (gt : V → V → Bool) where
  -- The place is inside the array, the value is that of its element, no element has a greater one,
  -- and each element before it has a smaller one.
  pub record IsGreatest (a : List ℕ) (found : ℕ × V) : Type 0 where
    pub place : (x : ℕ) × (get_elem? a found.0 ≡ some x) × (found.1 ≡ function x)
    pub none_greater : (j y : ℕ) → get_elem? a j ≡ some y → gt (function y) found.1 ≡ false
    pub earlier : (j y : ℕ) → get_elem? a j ≡ some y → j < found.0 → gt found.1 (function y) ≡ true

  one-IsGreatest : (x : ℕ) → IsGreater gt → IsGreatest (x ∷ []) (0, function x)
  one-IsGreatest x h = record {
    place = (x, refl, refl);
    none_greater = λ j y e. elim (get_elem?-snoc [] x y j e) [
      | inl old ↦ cc old
      | inr (at_end, new) ↦ rw new (h.irrefl (function x))
    ];
    earlier = λ j y e below. absurd (omega (arith, below));
  }

  -- An element with a greater value than all before it.
  greater-IsGreatest :
      (a : List ℕ) (x : ℕ) (found : ℕ × V)
      → IsGreater gt
      → IsGreatest a found
      → gt (function x) found.1 ≡ true
      → IsGreatest (a ++ (x ∷ [])) (length a, function x)
  greater-IsGreatest a x found h g above = record {
    place = (x, get_elem?-last a x, refl);
    none_greater = λ j y e. elim (get_elem?-snoc a x y j e) [
      | inl old ↦ elim (Bool-cases (gt (function y) (function x))) [
        | inr other ↦ other
        | inl more ↦
            let over = h.trans (function y) (function x) found.1 more above in
            absurd (cc (g.none_greater j y old, over))
      ]
      | inr (at_end, new) ↦ rw new (h.irrefl (function x))
    ];
    earlier = λ j y e below. elim (get_elem?-snoc a x y j e) [
      | inl old ↦ elim (Bool-cases (gt (function x) (function y))) [
        | inl more ↦ more
        | inr other ↦
            let under = h.split (function x) (function y) found.1 other (g.none_greater j y old) in
            absurd (cc (above, under))
      ]
      | inr (at_end, new) ↦ absurd (omega (arith, below, at_end))
    ];
  }

  -- An element with no greater value than one before it.
  other-IsGreatest :
      (a : List ℕ) (x : ℕ) (found : ℕ × V)
      → IsGreatest a found
      → gt (function x) found.1 ≡ false
      → IsGreatest (a ++ (x ∷ [])) found
  other-IsGreatest a x found g other =
      let (z, there, value) = g.place in
      record {
        place = (z, get_elem?-append_left a (x ∷ []) found.0 z there, value);
        none_greater = λ j y e. elim (get_elem?-snoc a x y j e) [
          | inl old ↦ g.none_greater j y old
          | inr (at_end, new) ↦ rw new other
        ];
        earlier = λ j y e below. elim (get_elem?-snoc a x y j e) [
          | inl old ↦ g.earlier j y old below
          | inr (at_end, new) ↦
              absurd (omega (arith, below, at_end, get_elem?-lt a found.0 z there))
        ];
      }

  better-IsGreatest :
      (a : List ℕ) (x : ℕ) (found : ℕ × V)
      → IsGreater gt
      → IsGreatest a found
      → IsGreatest (a ++ (x ∷ [])) (better function gt found (length a, function x))
  better-IsGreatest a x found h g = elim (Bool-cases (gt (function x) found.1)) [
    | inl above ↦ rw above (greater-IsGreatest a x found h g above)
    | inr other ↦ rw other (other-IsGreatest a x found g other)
  ]

  best-IsGreatest :
      (xs a : List ℕ) (i : ℕ) (found : ℕ × V)
      → IsGreater gt
      → i ≡ length a
      → IsGreatest a found
      → IsGreatest (a ++ xs) (best function gt i xs found)
  unfolding best
  best-IsGreatest [] a i found h e g = subst (λ b. IsGreatest b found) (sym (append-nil a)) g
  best-IsGreatest (x ∷ xs) a i found h e g =
      let next = better function gt found (i, function x) in
      let g2 : IsGreatest (a ++ (x ∷ [])) next = rw e (better-IsGreatest a x found h g) in
      subst (λ b. IsGreatest b (best function gt (suc i) xs next)) (append_assoc a (x ∷ []) xs)
        (best-IsGreatest xs (a ++ (x ∷ [])) (suc i) next h
          (omega (arith, e, length-append a (x ∷ []))) g2)

  -- One pass over an array that is not empty finds its greatest value, at its first place.
  pub pass-IsGreatest :
      (x : ℕ) (xs : List ℕ)
      → IsGreater gt
      → IsGreatest (x ∷ xs) (best function gt 1 xs (0, function x))
  pass-IsGreatest x xs h = best-IsGreatest xs (x ∷ []) 1 (0, function x) h refl (one-IsGreatest x h)

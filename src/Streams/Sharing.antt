-- ===== src/Streams/Sharing.antt =====
-- The streams that share a mapping: *count is how many there are, and the file stays mapped as long
-- as there is one.
use bootcamp.Base.{
  ℕ, zero, suc, ◌+◌, ◌^◌, ◌≤◌, ◌<◌, ◌≡◌, ◌∙◌, refl, sym, ap, subst, true, false, ◌&&◌, Bool-cases,
  inl, inr, ◌⊎◌, some, List, [], ◌∷◌, ◌++◌, All, ltb, ◌==◌, if◌then◌else◌, length, set, get_elem?,
  get_elem?-set_self, get_elem?-set_other, arith,
}
use bootcamp.ChainReader.Lookup.{get_elem?-lt}
use bootcamp.Streams.{Mapping, Stream, Program, remove_at}

abbrev pub uses : Stream → ℕ → ℕ
uses s j = if s.valid && (s.mapping == j) then 1 else 0

-- How many valid streams have the mapping.
abbrev pub users : ℕ → List Stream → ℕ
users j [] = 0
users j (s ∷ streams) = uses s j + users j streams

-- A valid stream has a mapping of its size, and stands inside the file.
abbrev pub IsUsing : List Mapping → Stream → Type 0
IsUsing mappings s =
    s.valid ≡ true
    → (m : Mapping) × (get_elem? mappings s.mapping ≡ some m)
      × (s.filesize ≡ length m.bytes)
      × (s.fpos ≤ s.filesize)
      × (s.filesize < 2 ^ 62)

-- Each valid stream has its mapping. *count is the number of valid streams with a mapping, and the
-- mapping is there exactly where there is one.
pub record IsShared (p : Program) : Type 0 where
  pub using : All (IsUsing p.mappings) p.streams
  pub counts :
      (j : ℕ) (m : Mapping)
      → get_elem? p.mappings j ≡ some m
      → (m.count ≡ users j p.streams) × (m.mapped ≡ ltb 0 m.count)

pub users-append : (j : ℕ) (xs ys : List Stream) → users j (xs ++ ys) ≡ users j xs + users j ys
users-append j [] ys = omega arith
users-append j (x ∷ xs) ys = omega (arith, users-append j xs ys)

pub users-remove_at :
    (j i : ℕ) (streams : List Stream) (s : Stream)
    → get_elem? streams i ≡ some s
    → users j streams ≡ uses s j + users j (remove_at i streams)
unfolding remove_at
users-remove_at j i [] s e = cc e
users-remove_at j zero (x ∷ streams) s e =
    let same : x ≡ s = cc e in ap (λ y. uses y j + users j streams) same
users-remove_at j (suc i) (x ∷ streams) s e = omega (arith, users-remove_at j i streams s e)

pub users-set :
    (j i : ℕ) (streams : List Stream) (s t : Stream)
    → get_elem? streams i ≡ some s
    → uses t j ≡ uses s j
    → users j (set streams i t) ≡ users j streams
users-set j i [] s t e h = refl
users-set j zero (x ∷ streams) s t e h =
    let same : x ≡ s = cc e in ap (λ n. n + users j streams) (h ∙ ap (λ y. uses y j) (sym same))
users-set j (suc i) (x ∷ streams) s t e h = ap (λ n. uses x j + n) (users-set j i streams s t e h)

-- A mapping that no stream can have has no users.
pub users-none :
    (j : ℕ) (mappings : List Mapping) (streams : List Stream)
    → All (IsUsing mappings) streams
    → length mappings ≤ j
    → users j streams ≡ 0
users-none j mappings [] h above = refl
users-none j mappings (s ∷ streams) (u, us) above =
    elim (Bool-cases (s.valid && (s.mapping == j))) [
      | inl both ↦
          let (m, there, _, _, _) = u (ground (arith, both)) in
          absurd (ground (arith, both, get_elem?-lt mappings s.mapping m there, above))
      | inr other ↦ rw other (omega (arith, users-none j mappings streams us above))
    ]

pub All-set {ℓ} :
    {A : Type ℓ} (P : A → Type 0) (xs : List A) (i : ℕ) (y : A)
    → All P xs
    → P y
    → All P (set xs i y)
All-set P [] i y h p = tt
All-set P (x ∷ xs) zero y (q, h) p = (p, h)
All-set P (x ∷ xs) (suc i) y (q, h) p = (q, All-set P xs i y h p)

pub All-remove_at :
    (P : Stream → Type 0) (i : ℕ) (xs : List Stream) → All P xs → All P (remove_at i xs)
unfolding remove_at
All-remove_at P i [] h = tt
All-remove_at P zero (x ∷ xs) (p, h) = h
All-remove_at P (suc i) (x ∷ xs) (p, h) = (p, All-remove_at P i xs h)

-- The bytes of the mappings stay as they are.
abbrev pub Keeps : List Mapping → List Mapping → Type 0
Keeps before after =
    (j : ℕ) (m : Mapping)
    → get_elem? before j ≡ some m
    → (n : Mapping) × (get_elem? after j ≡ some n) × (n.bytes ≡ m.bytes)

pub IsUsing-Keeps :
    (before after : List Mapping) (streams : List Stream)
    → Keeps before after
    → All (IsUsing before) streams
    → All (IsUsing after) streams
IsUsing-Keeps before after [] k h = tt
IsUsing-Keeps before after (s ∷ streams) k (u, us) = (
  λ valid.
      let (m, there, size, inside, small) = u valid in
      let (n, still, bytes) = k s.mapping m there in
      (n, still, size ∙ ap length (sym bytes), inside, small),
  IsUsing-Keeps before after streams k us,
)

pub set-Keeps :
    (mappings : List Mapping) (i : ℕ) (m n : Mapping)
    → get_elem? mappings i ≡ some m
    → n.bytes ≡ m.bytes
    → Keeps mappings (set mappings i n)
set-Keeps mappings i m n there same j x e = elim (Bool-cases (i == j)) [
  | inl at_i ↦
      let index : i ≡ j = ground (arith, at_i) in
      let this : x ≡ m = cc (e, there, index) in
      (
        n,
        subst (λ k. get_elem? (set mappings i n) k ≡ some n) index
            (get_elem?-set_self mappings i m n there),
        same ∙ ap (λ y. y.bytes) (sym this),
      )
  | inr other ↦
      let differ : i ≡ j → ⊥ = λ index. ground (arith, other, index) in
      (x, get_elem?-set_other mappings i j n differ ∙ e, refl)
]

-- What a mapping that was set is, and what the others are.
pub set_cases :
    (mappings : List Mapping) (i : ℕ) (m n : Mapping) (j : ℕ) (x : Mapping)
    → get_elem? mappings i ≡ some m
    → get_elem? (set mappings i n) j ≡ some x
    → ((i ≡ j) × (x ≡ n)) ⊎ (((i == j) ≡ false) × (get_elem? mappings j ≡ some x))
set_cases mappings i m n j x there e = elim (Bool-cases (i == j)) [
  | inl at_i ↦
      let index : i ≡ j = ground (arith, at_i) in
      let new : get_elem? (set mappings i n) j ≡ some n =
        subst (λ k. get_elem? (set mappings i n) k ≡ some n) index
          (get_elem?-set_self mappings i m n there) in
      inl (index, cc (e, new))
  | inr other ↦
      let differ : i ≡ j → ⊥ = λ index. ground (arith, other, index) in
      inr (other, sym (get_elem?-set_other mappings i j n differ) ∙ e)
]

-- ===== src/Rewriter/Boundaries.antt =====
-- Where rewrite_chain ends its chunks.
use bootcamp.Base.{
  ◌⊎◌, subst, ap, ℕ, zero, suc, ◌+◌, ◌-◌, ◌*◌, ◌/◌, ◌%◌, ◌^◌, ◌≤◌, ◌<◌, ◌≡◌, ◌∙◌, refl, ◌==◌, true,
  false, Bool-cases, inl, inr, List, [], ◌∷◌, length, arith,
}
use native.Mathlib.Nat.{mul-suc, mul-le-mul, div-mul-le_self, le-div_iff_mul-le}
use bootcamp.Block.{Block}
use bootcamp.Rewriter.{chunk_end, chunk_ends, is_end}

-- The blocks from index `i` on, of which the last ones of chunks are marked: `c` chunks in all, and
-- no block behind the last of them.
pub data Marked (ends : List ℕ) : ℕ → List Block → ℕ → Type 0 where
  over : (i : ℕ) → Marked ends i [] 0
  inside :
      (i c : ℕ) (b b2 : Block) (blocks : List Block)
      → is_end i ends ≡ false
      → Marked ends (suc i) (b2 ∷ blocks) c
      → Marked ends i (b ∷ b2 ∷ blocks) c
  last :
      (i c : ℕ) (b : Block) (blocks : List Block)
      → is_end i ends ≡ true
      → Marked ends (suc i) blocks c
      → Marked ends i (b ∷ blocks) (suc c)

-- Ends in order, from `i` on, of which the last is n - 1.
data Ascends (n : ℕ) : ℕ → List ℕ → Type 0 where
  stop : (i : ℕ) → i ≡ n → Ascends n i []
  next : (i e : ℕ) (ends : List ℕ) → i ≤ e → Ascends n (suc e) ends → Ascends n i (e ∷ ends)

Ascends-≤ : (n i : ℕ) (ends : List ℕ) → Ascends n i ends → i ≤ n
Ascends-≤ n _ _ (stop i e) = omega (arith, e)
Ascends-≤ n _ _ (next i e ends h more) = omega (arith, Ascends-≤ n (suc e) ends more)

Ascends-is_end : (n i j : ℕ) (ends : List ℕ) → Ascends n i ends → j < i → is_end j ends ≡ false
unfolding is_end
Ascends-is_end n _ j _ (stop i e) h = refl
Ascends-is_end n _ j _ (next i e ends low more) h =
    ground (arith, Ascends-is_end n (suc e) j ends more (omega (arith, low)), low)

-- From block `i` on, a block is the last of its chunk in `all` where it is in `ends`.
abbrev SameFrom : ℕ → List ℕ → List ℕ → Type 0
SameFrom i all ends = (j : ℕ) → i ≤ j → is_end j all ≡ is_end j ends

SameFrom-suc : (i : ℕ) (all ends : List ℕ) → SameFrom i all (i ∷ ends) → SameFrom (suc i) all ends
unfolding is_end
SameFrom-suc i all ends same j h =
    let here = same j (omega (arith, h)) in
    let other : (j == i) ≡ false = ground (arith, h) in ground (arith, here, other)

Marked-inside :
    (i c : ℕ) (all : List ℕ) (b : Block) (blocks : List Block)
    → is_end i all ≡ false
    → 0 < length blocks
    → Marked all (suc i) blocks c
    → Marked all i (b ∷ blocks) c
Marked-inside i c all b [] e some_left h = absurd (omega arith)
Marked-inside i c all b (b2 ∷ blocks) e some_left h = inside i c b b2 blocks e h

Ascends-Marked :
    (n i : ℕ) (all ends : List ℕ) (blocks : List Block)
    → Ascends n i ends
    → SameFrom i all ends
    → i + length blocks ≡ n
    → Marked all i blocks (length ends)
unfolding is_end
Ascends-Marked n _ all _ [] (stop i e) same h = over i
Ascends-Marked n _ all _ [] (next i e ends low more) same h =
    absurd (omega (arith, Ascends-≤ n (suc e) ends more))
Ascends-Marked n _ all _ (b ∷ blocks) (stop i e) same h = absurd (omega (arith, e))
Ascends-Marked n _ all _ (b ∷ blocks) (next i e ends low more) same h =
    let here = same i (omega arith) in
    elim (Bool-cases (i == e)) [
      | inl reached ↦
          let at : e ≡ i = ground (arith, reached) in
          last i (length ends) b blocks (ground (arith, here, reached)) (
            Ascends-Marked n (suc i) all ends blocks (subst (λ k. Ascends n (suc k) ends) at more)
              (SameFrom-suc i all ends (subst (λ k. SameFrom i all (k ∷ ends)) at same))
              (omega arith))
      | inr before ↦
          let low' : suc i ≤ e = ground (arith, before, low) in
          let unmarked = Ascends-is_end n (suc e) i ends more (omega arith) in
          Marked-inside i (suc (length ends)) all b blocks (ground (arith, here, before, unmarked))
            (omega (arith, Ascends-≤ n (suc e) ends more))
            (Ascends-Marked n (suc i) all (e ∷ ends) blocks (next (suc i) e ends low' more)
              (λ j k. same j (omega arith)) (omega arith))
    ]

chunk-≤ : (n chunks sz i : ℕ) → sz * chunks ≤ n → i < chunks → sz * suc i ≤ n
chunk-≤ n chunks sz i fits low =
    let h : sz * suc i ≤ sz * chunks = mul-le-mul (omega arith) (omega (arith, low)) in
    omega (arith, h, fits)

-- The end of a chunk: the last block, or a multiple of the size of the chunks.
chunk_end_lem :
    (n chunks sz i : ℕ)
    → n / chunks ≡ sz
    → 0 < sz
    → sz * chunks ≤ n
    → chunks ≤ n
    → n < 2 ^ 32
    → i < chunks
    → ((suc i ≡ chunks) × (suc (chunk_end n chunks i % 2 ^ 32) ≡ n))
      ⊎ ((suc i < chunks) × (suc (chunk_end n chunks i % 2 ^ 32) ≡ sz * suc i))
unfolding chunk_end
chunk_end_lem n chunks sz i quotient pos fits enough small low =
    let within : sz * suc i ≤ n = chunk-≤ n chunks sz i fits low in
    let positive : 0 < sz * suc i = omega (arith, mul-suc sz i) in
    elim (Bool-cases (i == chunks - 1)) [
      | inl final ↦
          let value : chunk_end n chunks i ≡ (n + 2 ^ 64 - 1) % 2 ^ 64 = ground (arith, final) in
          inl (ground (arith, final, low), omega (arith, value, within, positive))
      | inr early ↦
          let exact : (i + 1) % 2 ^ 32 ≡ suc i = omega (arith, enough) in
          let value : chunk_end n chunks i
              ≡ ((n / chunks * ((i + 1) % 2 ^ 32)) % 2 ^ 64 + 2 ^ 64 - 1) % 2 ^ 64 =
            ground (arith, early) in
          let value' : chunk_end n chunks i ≡ ((sz * suc i) % 2 ^ 64 + 2 ^ 64 - 1) % 2 ^ 64 =
            value
            ∙ ap (λ k. ((k * ((i + 1) % 2 ^ 32)) % 2 ^ 64 + 2 ^ 64 - 1) % 2 ^ 64) quotient
            ∙ ap (λ k. ((sz * k) % 2 ^ 64 + 2 ^ 64 - 1) % 2 ^ 64) exact in
          inr (ground (arith, early, low), omega (arith, value', within, positive))
    ]

chunk_ends-Ascends :
    (n chunks sz rounds i low : ℕ)
    → n / chunks ≡ sz
    → 0 < sz
    → sz * chunks ≤ n
    → chunks ≤ n
    → n < 2 ^ 32
    → i + rounds ≡ chunks
    → 0 < rounds
    → low ≡ sz * i
    → Ascends n low (chunk_ends n chunks rounds i)
unfolding chunk_ends
chunk_ends-Ascends n chunks sz zero i low quotient pos fits enough small all left here =
    absurd (omega arith)
chunk_ends-Ascends n chunks sz (suc rounds) i low quotient pos fits enough small all left here =
    elim (chunk_end_lem n chunks sz i quotient pos fits enough small (omega arith)) [
      | inl (final, e) ↦
          let within = chunk-≤ n chunks sz i fits (omega arith) in
          let none_left : 0 ≡ rounds = omega (arith, final) in
          next low _ _ (omega (arith, mul-suc sz i)) (
            subst
              (λ r. Ascends n (suc (chunk_end n chunks i % 2 ^ 32)) (chunk_ends n chunks r (suc i)))
              none_left (stop _ e))
      | inr (early, e) ↦ next low _ _ (omega (arith, mul-suc sz i)) (
          chunk_ends-Ascends n chunks sz rounds (suc i) _ quotient pos fits enough small
            (omega arith) (omega arith) e)
    ]

length-chunk_ends : (n chunks rounds i : ℕ) → length (chunk_ends n chunks rounds i) ≡ rounds
unfolding chunk_ends
length-chunk_ends n chunks zero i = refl
length-chunk_ends n chunks (suc rounds) i = ap suc (length-chunk_ends n chunks rounds (suc i))

-- For 1 to length blocks chunks, every block is in a chunk, and there are as many as asked for.
pub chunk_ends-Marked :
    (blocks : List Block) (chunks : ℕ)
    → 0 < chunks
    → chunks ≤ length blocks
    → length blocks < 2 ^ 32
    → Marked (chunk_ends (length blocks) chunks chunks 0) 0 blocks chunks
chunk_ends-Marked blocks chunks pos enough small =
    let n = length blocks in
    let sz = n / chunks in
    let fits : sz * chunks ≤ n = div-mul-le_self n chunks in
    let quotient_pos : 0 < sz = (le-div_iff_mul-le pos).1 (omega arith) in
    let ends = chunk_ends n chunks chunks 0 in
    subst (Marked ends 0 blocks) (length-chunk_ends n chunks chunks 0) (
      Ascends-Marked n 0 ends ends blocks
        (chunk_ends-Ascends n chunks sz chunks 0 0 refl quotient_pos fits enough small (omega arith)
          pos (omega arith))
        (λ j h. refl) (omega arith))

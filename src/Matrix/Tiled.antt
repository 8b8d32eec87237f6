-- ===== src/Matrix/Tiled.antt =====
-- The tiled multiplication computes the same sums, in the same order.
use bootcamp.Base.{ℕ, ◌+◌, ◌*◌, ◌/◌, ◌≤◌, ◌<◌, ◌≡◌, ◌∙◌, sym, ap, arith}
use bootcamp.Matrix.{for_loop, clear_tile, add_tiles, mat_multiply_opt}
use bootcamp.Matrix.Loops.{
  for_loop-at, for_loop-idle, for_loop-single, for_loop-ext, for_loop-tiles, index-lt,
  index-injective,
}
use bootcamp.Matrix.Plain.{hit, hit_same, hit_other, term, at_x, dot, write_at-hit, write_at-nought}

module _ {ℓ} {V : Type ℓ} (nought : V) (plus times : V → V → V) (a b : ℕ → V)
    (size x tile : ℕ) where
  -- The index of an element of a tile.
  abbrev pub at_tile : ℕ → ℕ → ℕ → ℕ → ℕ
  at_tile ti tj i j = (ti * tile + i) * size + (tj * tile + j)

  abbrev cleared : ℕ → ℕ → V → V
  cleared ti tj =
      for_loop tile (λ i.
        for_loop tile (λ j. hit nought plus times a b size x (at_tile ti tj i j) (λ u. nought)))

  abbrev adding : ℕ → ℕ → ℕ → ℕ → ℕ → V → V
  adding ti tj tk i j = for_loop tile (λ k.
      hit nought plus times a b size x (at_tile ti tj i j)
        (term nought plus times a b size x (ti * tile + i) (tj * tile + j) (tk * tile + k)))

  abbrev tiled : ℕ → ℕ → ℕ → V → V
  tiled n ti tj v =
      for_loop n (λ tk. for_loop tile (λ i. for_loop tile (adding ti tj tk i))) (cleared ti tj v)

  clear_tile-cleared :
      (ti tj : ℕ) (c : ℕ → V)
      → clear_tile nought plus times a b size tile ti tj c x ≡ cleared ti tj (c x)
  unfolding clear_tile
  clear_tile-cleared ti tj c =
      for_loop-at (λ e. e x) tile _ _ c
        (λ i t.
          for_loop-at (λ e. e x) tile _ _ t
            (λ j e. write_at-nought nought plus times a b size x (at_tile ti tj i j) e))

  add_tiles-adding :
      (ti tj tk : ℕ) (c : ℕ → V)
      → add_tiles nought plus times a b size tile ti tj tk c x
        ≡ for_loop tile (λ i. for_loop tile (adding ti tj tk i)) (c x)
  unfolding add_tiles
  add_tiles-adding ti tj tk c =
      for_loop-at (λ e. e x) tile _ _ c
        (λ i t.
          for_loop-at (λ e. e x) tile _ _ t
            (λ j e.
              for_loop-at (λ f. f x) tile _ _ e
                (λ k f. write_at-hit nought plus times a b size x (at_tile ti tj i j) _ f)))

  mat_multiply_opt-tiled :
      (n : ℕ) (c0 : ℕ → V)
      → size / tile ≡ n
      → mat_multiply_opt nought plus times a b size tile c0 x
        ≡ for_loop n (λ ti. for_loop n (tiled n ti)) (c0 x)
  unfolding mat_multiply_opt
  mat_multiply_opt-tiled n c0 count = rw count (
      for_loop-at (λ e. e x) n _ _ c0
        (λ ti t.
          for_loop-at (λ e. e x) n _ _ t
            (λ tj c.
              for_loop-at (λ e. e x) n _ _ (clear_tile nought plus times a b size tile ti tj c)
                (λ tk e. add_tiles-adding ti tj tk e)
              ∙ ap (for_loop n (λ tk. for_loop tile (λ i. for_loop tile (adding ti tj tk i))))
                  (clear_tile-cleared ti tj c))))

  -- The place of x: row i1 of tile row tr, and column j1 of tile column tq.
  abbrev pub IsAt : ℕ → ℕ → ℕ → ℕ → ℕ → Type 0
  IsAt n tr i1 tq j1 = (tr < n) × (i1 < tile) × (tq < n) × (j1 < tile) × (x ≡ at_tile tr tq i1 j1)

  pub in_tiles : (n t k : ℕ) → size ≡ n * tile → t < n → k < tile → t * tile + k < size
  in_tiles n t k whole less inside = omega (arith, whole, index-lt tile t k n 0 inside less)

  -- The element at x is in no other place.
  place_unique :
      (n tr i1 tq j1 ti i tj j : ℕ)
      → size ≡ n * tile
      → IsAt n tr i1 tq j1
      → i < tile
      → tj < n
      → j < tile
      → x ≡ at_tile ti tj i j
      → ((ti ≡ tr) × (i ≡ i1)) × ((tj ≡ tq) × (j ≡ j1))
  place_unique n tr i1 tq j1 ti i tj j whole (row, up, column, left, e) inside col inside2 same =
      let (rows, cols) =
        index-injective size (ti * tile + i) (tj * tile + j) (tr * tile + i1) (tq * tile + j1)
          (in_tiles n tj j whole col inside2) (in_tiles n tq j1 whole column left) (sym same ∙ e) in
      (
        index-injective tile ti i tr i1 inside up rows,
        index-injective tile tj j tq j1 inside2 left cols,
      )

  -- Loops over a tile whose rounds do nothing where x is not their element.
  abbrev Hits : ℕ → ℕ → (ℕ → ℕ → V → V) → Type ℓ
  Hits ti tj act = (i j : ℕ) (u : V) → (x ≡ at_tile ti tj i j → ⊥) → act i j u ≡ u

  cleared-Hits :
      (ti tj : ℕ)
      → Hits ti tj (λ i j. hit nought plus times a b size x (at_tile ti tj i j) (λ u. nought))
  cleared-Hits ti tj i j u other =
      hit_other nought plus times a b size x (at_tile ti tj i j) (λ u. nought) u other

  adding-Hits : (ti tj tk : ℕ) → Hits ti tj (adding ti tj tk)
  adding-Hits ti tj tk i j u other = for_loop-idle tile _ u (λ k v less.
      hit_other nought plus times a b size x (at_tile ti tj i j)
        (term nought plus times a b size x (ti * tile + i) (tj * tile + j) (tk * tile + k)) v other)

  tile_idle :
      (ti tj : ℕ) (act : ℕ → ℕ → V → V) (v : V)
      → Hits ti tj act
      → ((i j : ℕ) → i < tile → j < tile → x ≡ at_tile ti tj i j → ⊥)
      → for_loop tile (λ i. for_loop tile (act i)) v ≡ v
  tile_idle ti tj act v h other =
      for_loop-idle tile _ v
        (λ i u less. for_loop-idle tile (act i) u (λ j w less2. h i j w (other i j less less2)))

  tile_single :
      (n tr i1 tq j1 : ℕ) (act : ℕ → ℕ → V → V) (v : V)
      → size ≡ n * tile
      → IsAt n tr i1 tq j1
      → Hits tr tq act
      → for_loop tile (λ i. for_loop tile (act i)) v ≡ act i1 j1 v
  tile_single n tr i1 tq j1 act v whole at_x h =
      let (row, up, column, left, e) = at_x in
      for_loop-single tile i1 _ v up (λ i u less other. for_loop-idle tile (act i) u (λ j w less2.
        h i j w
          (λ s. other (place_unique n tr i1 tq j1 tr i tq j whole at_x less column less2 s).0.1)))
      ∙ for_loop-single tile j1 (act i1) v left (λ j u less other.
        h i1 j u
          (λ s. other (place_unique n tr i1 tq j1 tr i1 tq j whole at_x up column less s).1.1))

  tiled_idle :
      (n ti tj : ℕ) (v : V)
      → ((i j : ℕ) → i < tile → j < tile → x ≡ at_tile ti tj i j → ⊥)
      → tiled n ti tj v ≡ v
  tiled_idle n ti tj v other =
      for_loop-idle n _ _
        (λ tk u less. tile_idle ti tj (adding ti tj tk) u (adding-Hits ti tj tk) other)
      ∙ tile_idle ti tj _ v (cleared-Hits ti tj) other

  tiled-dot :
      (n tr i1 tq j1 : ℕ) (v : V)
      → size ≡ n * tile
      → IsAt n tr i1 tq j1
      → tiled n tr tq v ≡ dot nought plus times a b size x (tr * tile + i1) (tq * tile + j1)
  tiled-dot n tr i1 tq j1 v whole at_x =
      let (row, up, column, left, e) = at_x in
      let r = tr * tile + i1 in
      let q = tq * tile + j1 in
      for_loop-ext n _
        (λ tk. for_loop tile (λ k. term nought plus times a b size x r q (tk * tile + k))) _
        (λ tk u.
          tile_single n tr i1 tq j1 (adding tr tq tk) u whole at_x (adding-Hits tr tq tk)
          ∙ for_loop-ext tile _ _ u (λ k w.
            hit_same nought plus times a b size x (at_tile tr tq i1 j1)
              (term nought plus times a b size x r q (tk * tile + k)) w e))
      ∙ ap
          (for_loop n
            (λ tk. for_loop tile (λ k. term nought plus times a b size x r q (tk * tile + k))))
          (tile_single n tr i1 tq j1 _ v whole at_x (cleared-Hits tr tq)
            ∙ hit_same nought plus times a b size x (at_tile tr tq i1 j1) (λ u. nought) v e)
      ∙ for_loop-tiles n tile (term nought plus times a b size x r q) nought
      ∙ ap (λ k. for_loop k (term nought plus times a b size x r q) nought) (sym whole)

  pub opt-dot :
      (n tr i1 tq j1 : ℕ) (c0 : ℕ → V)
      → size / tile ≡ n
      → size ≡ n * tile
      → IsAt n tr i1 tq j1
      → mat_multiply_opt nought plus times a b size tile c0 x
        ≡ dot nought plus times a b size x (tr * tile + i1) (tq * tile + j1)
  opt-dot n tr i1 tq j1 c0 count whole at_x =
      let (row, up, column, left, e) = at_x in
      mat_multiply_opt-tiled n c0 count
      ∙ for_loop-single n tr _ (c0 x) row (λ ti u less other.
        for_loop-idle n (tiled n ti) u (λ tj w less2. tiled_idle n ti tj w (λ i j in_i in_j s.
          other (place_unique n tr i1 tq j1 ti i tj j whole at_x in_i less2 in_j s).0.0)))
      ∙ for_loop-single n tq (tiled n tr) (c0 x) column (λ tj u less other.
        tiled_idle n tr tj u (λ i j in_i in_j s.
          other (place_unique n tr i1 tq j1 tr i tj j whole at_x in_i less in_j s).1.0))
      ∙ tiled-dot n tr i1 tq j1 (c0 x) whole at_x

  pub opt-outside :
      (n : ℕ) (c0 : ℕ → V)
      → size / tile ≡ n
      → size ≡ n * tile
      → size * size ≤ x
      → mat_multiply_opt nought plus times a b size tile c0 x ≡ c0 x
  opt-outside n c0 count whole far =
      mat_multiply_opt-tiled n c0 count
      ∙ for_loop-idle n _ (c0 x) (λ ti u less. for_loop-idle n (tiled n ti) u (λ tj w less2.
        tiled_idle n ti tj w (λ i j in_i in_j s. omega (
          arith,
          s,
          far,
          index-lt size (ti * tile + i) (tj * tile + j) size 0 (in_tiles n tj j whole less2 in_j)
              (in_tiles n ti i whole less in_i),
        ))))

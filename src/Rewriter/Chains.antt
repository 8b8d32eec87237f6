-- ===== src/Rewriter/Chains.antt =====
-- What rewrite_chain collects is the chain of its tip, from its first block on.
use bootcamp.Base.{
  ℕ, zero, suc, ◌+◌, ◌≤◌, ◌≡◌, ◌≢◌, ◌∙◌, refl, sym, ap, subst, Option, none, some, List, [], ◌∷◌,
  ◌++◌, All, All-append, length, get_elem?, append_assoc, append-nil, arith,
}
use bootcamp.Block.{Block, Store}
use bootcamp.Rewriter.Walk.{NextMap, insert_next, next_of, track_back, collect}
use bootcamp.Rewriter.Trails.{
  Trail, coinbase, behind, length-Trail, same_prev, Trail-found, Fresh, Trail-Fresh,
}

-- What next_map has for a pointer and those behind it, if `n` comes after the first.
entries : Option ℕ → ℕ → List ℕ → NextMap
entries n p [] = (p, n) ∷ []
entries n p (q ∷ ps) = (p, n) ∷ entries (some p) q ps

last_of : ℕ → List ℕ → ℕ
last_of p [] = p
last_of p (q ∷ ps) = last_of q ps

length-entries : (n : Option ℕ) (p : ℕ) (ps : List ℕ) → length (entries n p ps) ≡ suc (length ps)
unfolding entries
length-entries n p [] = refl
length-entries n p (q ∷ ps) = ap suc (length-entries (some p) q ps)

abbrev Absent : NextMap → ℕ → Type 0
Absent m p = All (λ e. e.0 ≢ p) m

insert_next-Absent :
    (p : ℕ) (n : Option ℕ) (m : NextMap) → Absent m p → insert_next p n m ≡ m ++ ((p, n) ∷ [])
unfolding insert_next
insert_next-Absent p n [] h = refl
insert_next-Absent p n ((q, old) ∷ m) (other, h) = ground (arith, other, insert_next-Absent p n m h)

Absent-last :
    (p : ℕ) (n : Option ℕ) (m : NextMap) (ps : List ℕ)
    → Fresh p ps
    → All (Absent m) ps
    → All (Absent (m ++ ((p, n) ∷ []))) ps
Absent-last p n m [] fresh h = tt
Absent-last p n m (q ∷ ps) (other, fresh) (here, h) = (
  All-append (λ e. e.0 ≢ q) m ((p, n) ∷ []) here ((λ e. other (sym e)), tt),
  Absent-last p n m ps fresh h,
)

Absent-nothing : (ps : List ℕ) → All (Absent []) ps
Absent-nothing [] = tt
Absent-nothing (p ∷ ps) = (tt, Absent-nothing ps)

track_back-suc :
    (store : Store) (bound nxt p : ℕ) (b : Block) (m : NextMap)
    → get_elem? store p ≡ some b
    → track_back (suc bound) store (some p) nxt m
      ≡ track_back bound store b.prev_block p (insert_next p (some nxt) m)
unfolding track_back
track_back-suc store bound nxt p b m there = ground (arith, there)

-- The way back from a block whose pointer is the last that next_map has.
track_back-entries :
    (store : Store) (bound : ℕ) (p : ℕ) (ps : List ℕ) (blocks : List Block) (b : Block)
    (n : Option ℕ) (m : NextMap)
    → Trail store p ps blocks
    → get_elem? store p ≡ some b
    → length ps ≤ bound
    → All (Absent m) (p ∷ ps)
    → track_back bound store b.prev_block p (insert_next p n m)
      ≡ some (m ++ entries n p ps, last_of p ps)
unfolding track_back entries last_of
track_back-entries store bound _ _ _ b n m (coinbase p c there fst) at h absent =
    rw (insert_next-Absent p n m absent.0, same_prev store p b c at there ∙ fst) refl
track_back-entries store zero _ _ _ b n m (behind p q ps c blocks there link t) at h absent =
    absurd (omega arith)
track_back-entries store (suc bound) _ _ _ b n m (behind p q ps c blocks there link t) at h
      (here, absent) =
    let m2 = m ++ ((p, n) ∷ []) in
    let (d, at_q) = Trail-found store q ps blocks t in
    let fresh = Trail-Fresh store p (q ∷ ps) _ (behind p q ps c blocks there link t) in
    let absent2 = Absent-last p n m (q ∷ ps) fresh absent in
    let back =
      track_back-entries store bound q ps blocks d (some p) m2 t at_q (omega (arith, h)) absent2 in
    rw (insert_next-Absent p n m here, same_prev store p b c at there ∙ link)
      (track_back-suc store bound p q d m2 at_q
        ∙ back
        ∙ ap (λ e. some (e, last_of q ps)) (append_assoc m ((p, n) ∷ []) (entries (some p) q ps)))

-- next_map sends each pointer of a chain to the one before it in the list, and the first to `n`.
Sends : NextMap → Option ℕ → ℕ → List ℕ → Type 0
Sends m n p [] = (next_of p m ≡ n)
Sends m n p (q ∷ ps) = (next_of p m ≡ n) × Sends m (some p) q ps

Sends-later :
    (m : NextMap) (n k : Option ℕ) (p q : ℕ) (ps : List ℕ)
    → Fresh p (q ∷ ps)
    → Sends m n q ps
    → Sends ((p, k) ∷ m) n q ps
unfolding Sends next_of
Sends-later m n k p q [] (other, fresh) h = ground (arith, other, h)
Sends-later m n k p q (r ∷ ps) (other, fresh) (here, h) =
    (ground (arith, other, here), Sends-later m (some q) k p r ps fresh h)

Sends-entries :
    (store : Store) (n : Option ℕ) (p : ℕ) (ps : List ℕ) (blocks : List Block)
    → Trail store p ps blocks
    → Sends (entries n p ps) n p ps
unfolding Sends entries next_of
Sends-entries store n _ _ _ (coinbase p b there fst) = ground arith
Sends-entries store n _ _ _ (behind p q ps b blocks there link t) =
    let whole = behind p q ps b blocks there link t in
    (
      ground arith,
      Sends-later (entries (some p) q ps) (some p) n p q ps
          (Trail-Fresh store p (q ∷ ps) (blocks ++ (b ∷ [])) whole)
          (Sends-entries store (some p) q ps blocks t),
    )

collect-suc :
    (bound : ℕ) (store : Store) (m : NextMap) (n : Option ℕ) (p : ℕ) (b : Block) (rest : List Block)
    → get_elem? store p ≡ some b
    → next_of p m ≡ n
    → collect bound store m n ≡ some rest
    → collect (suc bound) store m (some p) ≡ some (b ∷ rest)
unfolding collect
collect-suc bound store m n p b rest there here on = ground (arith, there, here, on)

-- The way forth, and on from the pointer behind the block.
collect-Trail :
    (store : Store) (m : NextMap) (n : Option ℕ) (p : ℕ) (ps : List ℕ) (blocks rest : List Block)
    (bound : ℕ)
    → Trail store p ps blocks
    → Sends m n p ps
    → collect bound store m n ≡ some rest
    → collect (suc (length ps) + bound) store m (some (last_of p ps)) ≡ some (blocks ++ rest)
unfolding Sends last_of collect
collect-Trail store m n _ _ _ rest bound (coinbase p b there fst) sends on =
    let count : suc bound ≡ suc 0 + bound = omega arith in
    subst (λ k. collect k store m (some p) ≡ some (b ∷ rest)) count
      (collect-suc bound store m n p b rest there sends on)
collect-Trail store m n _ _ _ rest bound (behind p q ps b blocks there link t) (here, sends) on =
    let forth =
      collect-Trail store m (some p) q ps blocks (b ∷ rest) (suc bound) t sends
        (collect-suc bound store m n p b rest there here on) in
    let count : suc (length ps) + suc bound ≡ suc (suc (length ps)) + bound = omega arith in
    subst (λ k. collect k store m (some (last_of q ps)) ≡ some ((blocks ++ (b ∷ [])) ++ rest)) count
      (forth ∙ ap some (sym (append_assoc blocks (b ∷ []) rest)))

-- Both ways, from a block on: next_map, and the blocks of its chain.
pub walk-Trail :
    (store : Store) (p : ℕ) (ps : List ℕ) (blocks : List Block) (b : Block)
    → Trail store p ps blocks
    → get_elem? store p ≡ some b
    → (m : NextMap) × (head : ℕ) × (track_back
          (length blocks)
          store
          b.prev_block
          p
          (insert_next p none [])
        ≡ some (m, head))
      × (length m ≡ length blocks)
      × (collect (length blocks) store m (some head) ≡ some blocks)
unfolding collect
walk-Trail store p ps blocks b t at =
    let count = length-Trail store p ps blocks t in
    let m = entries none p ps in
    let back =
      track_back-entries store (length blocks) p ps blocks b none [] t at (omega (arith, count))
        (Absent-nothing (p ∷ ps)) in
    let forth =
      collect-Trail store m none p ps blocks [] 0 t (Sends-entries store none p ps blocks t) refl in
    let bound : suc (length ps) + 0 ≡ length blocks = omega (arith, count) in
    (
      m,
      last_of p ps,
      back,
      length-entries none p ps ∙ sym count,
      subst (λ k. collect k store m (some (last_of p ps)) ≡ some blocks) bound
          (forth ∙ ap some (append-nil blocks)),
    )

-- ===== src/ChunkReader/Order.antt =====
-- Every balance map that the readers hold has its entries in order.
use bootcamp.Base.{
  ℕ, zero, suc, ◌≡◌, some, Option-cases, inl, inr, List, [], ◌∷◌, All, get_elem?, ok, bind-ok,
  arith,
}
use bootcamp.SortedMap.{IsSorted, insert}
use bootcamp.SortedMap.Laws.{insert-IsSorted}
use bootcamp.Wire.{read_bytes, read_word}
use bootcamp.Crypto.{hash_size}
use bootcamp.Crypto.Order.{hash_order}
use bootcamp.Transaction.{BalanceMap}
use bootcamp.Block.{Block, Store, reset_balances}
use bootcamp.Block.Validate.{start_balances}
use bootcamp.BalanceIo.{read_entries, read_balance_map}

abbrev pub HasSortedBalances : Block → Type 0
HasSortedBalances b = IsSorted b.balances

pub All-get_elem? {ℓ κ} :
    {A : Type ℓ} (P : A → Type κ) (xs : List A) (i : ℕ) (x : A)
    → All P xs
    → get_elem? xs i ≡ some x
    → P x
All-get_elem? P [] i x h e = cc e
All-get_elem? P (y ∷ xs) zero x (p, h) e = let same : y ≡ x = cc e in rw (← same) p
All-get_elem? P (y ∷ xs) (suc i) x (p, h) e = All-get_elem? P xs i x h e

read_entries-IsSorted :
    (rounds : ℕ) (bals m : BalanceMap) (at0 : List ℕ)
    → IsSorted bals
    → read_entries rounds bals at0 ≡ ok m
    → IsSorted m
unfolding read_entries
read_entries-IsSorted zero bals m at0 s e = let same : bals ≡ m = ground (arith, e) in rw (← same) s
read_entries-IsSorted (suc rounds) bals m at0 s e =
    let ((addr, at1), e1, _) = bind-ok _ (read_bytes hash_size at0) _ e in
    let ((amt, at2), e2, _) = bind-ok _ (read_word 8 at1) _ e1 in
    read_entries-IsSorted rounds (insert addr amt bals) m at2 (insert-IsSorted addr amt bals s) e2

pub read_balance_map-IsSorted :
    (at0 : List ℕ) (m : BalanceMap) → read_balance_map at0 ≡ ok m → IsSorted m
unfolding read_balance_map
read_balance_map-IsSorted at0 m e =
    let ((rounds, at1), e1, _) = bind-ok _ (read_word 4 at0) _ e in
    read_entries-IsSorted rounds [] m at1 tt e1

pub start_balances-IsSorted :
    (store : Store) (b : Block) → All HasSortedBalances store → IsSorted (start_balances store b)
unfolding reset_balances
start_balances-IsSorted store b h = elim (Option-cases b.prev_block) [
  | inl root ↦ let none_yet : start_balances store b ≡ [] = ground (arith, root) in rw none_yet tt
  | inr (p, link) ↦ elim (Option-cases (get_elem? store p)) [
    | inl missing ↦
        let none_yet : start_balances store b ≡ [] = ground (arith, link, missing) in rw none_yet tt
    | inr (prev, e) ↦
        let those : start_balances store b ≡ prev.balances = ground (arith, link, e) in
        rw those (All-get_elem? HasSortedBalances store p prev h e)
  ]
]

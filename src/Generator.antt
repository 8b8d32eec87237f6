-- ===== src/Generator.antt =====
-- genchain.cpp (day 4): the program that makes up a chain of blocks and writes it. A
-- shared_ptr<utxo_t> stands in the map under its own address only, so the object is the entry.
pub mod Utxos
pub mod Funds
pub mod Ensuring
pub mod Payments
pub mod Choices
pub mod Spending
pub mod Sealing
pub mod Blocks
pub mod Chains
use bootcamp.Base.{
  ℕ, zero, suc, ◌+◌, ◌-◌, ◌%◌, ◌^◌, Bool, true, false, not, ◌&&◌, Option, none, some, List, [], ◌∷◌,
  ◌++◌, ltb, ◌==◌, if◌then◌else◌, length, get_elem?, Result, ok, err, assertion, out_of_bounds,
  assert, ◌>>=◌, ◌>>◌,
}
use bootcamp.Crypto.{HashResult, hash_eq, OpenSsl}
use bootcamp.Transaction.{Txn, signed_txn, uint64_mod, validate as validate_txn}
use bootcamp.Block.{
  Block, Store, block_reward, default_block, block_on, set_hash, is_coinbase, validate,
  add_transaction,
}
use bootcamp.BlockIo.{write}

abbrev pub is_listed : HashResult → List HashResult → Bool
is_listed k [] = false
is_listed k (a ∷ addrs) = if hash_eq k a then true else is_listed k addrs

module _ (ssl : OpenSsl) where
  -- utxo_t
  pub record Utxo : Type 0 where
    pub priv_key : ssl.PrivateKey
    pub pub_key : List ℕ
    pub addr : HashResult
    pub amount : ℕ

  -- utxo_map_t: an unordered_map, as the list of its entries.
  abbrev pub UtxoMap : Type 0
  UtxoMap = List (HashResult × Utxo)

  -- What the program is given: the key pairs that generate_rsa_keys returns call by call, with the
  -- DER form of the public keys; the numbers that rand returns; and the order in which an iteration
  -- visits the entries of a map.
  pub record Sources : Type 0 where
    pub keys : ℕ → ssl.PrivateKey × List ℕ
    pub rand : ℕ → ℕ
    pub visit : UtxoMap → UtxoMap

  -- utxos, and how many keys and random numbers have been used.
  pub record World : Type 0 where
    pub utxos : UtxoMap
    pub made : ℕ
    pub drawn : ℕ

  -- utxo_t::utxo_t()
  unfoldable pub new_utxo : Sources → ℕ → Utxo
  new_utxo src n = record {
    priv_key = (src.keys n).0;
    pub_key = (src.keys n).1;
    addr = ssl.sha256 (src.keys n).1;
    amount = 0;
  }

  unfoldable pub find_utxo : HashResult → UtxoMap → Option Utxo
  find_utxo k [] = none
  find_utxo k ((j, u) ∷ m) = if hash_eq j k then some u else find_utxo k m

  -- utxos[k] = u;
  unfoldable pub set_utxo : HashResult → Utxo → UtxoMap → UtxoMap
  set_utxo k u [] = (k, u) ∷ []
  set_utxo k u ((j, v) ∷ m) = if hash_eq j k then (j, u) ∷ m else (j, v) ∷ set_utxo k u m

  unfoldable pub erase_utxo : HashResult → UtxoMap → UtxoMap
  erase_utxo k [] = []
  erase_utxo k ((j, v) ∷ m) = if hash_eq j k then erase_utxo k m else (j, v) ∷ erase_utxo k m

  -- utxos.find(k) == utxos.end()
  abbrev pub is_missing : Option Utxo → Bool
  is_missing none = true
  is_missing (some u) = false

  -- The loop of ensure_min_utxos, with a bound on its rounds: min_utxos are enough.
  unfoldable pub ensure_min_utxos : Sources → ℕ → ℕ → World → Result World
  ensure_min_utxos src zero min_utxos w = ok w
  ensure_min_utxos src (suc rounds) min_utxos w = elim (ltb (length w.utxos) min_utxos) [
    | false ↦ ok w
    | true ↦ do
      let u = new_utxo src w.made
      assert (is_missing (find_utxo u.addr w.utxos))
      ensure_min_utxos src rounds min_utxos
          (record w { utxos = set_utxo u.addr u w.utxos; made = w.made + 1 })
  ]

  -- find_spendable, on the entries in the order of the visit.
  unfoldable pub find_spendable : HashResult → UtxoMap → Option Utxo
  find_spendable reward_addr [] = none
  find_spendable reward_addr ((k, u) ∷ m) =
      if ltb 0 u.amount && not (hash_eq k reward_addr) then some u else find_spendable reward_addr m

  -- The loops that look for recv and change: the first entry under none of the addresses.
  unfoldable pub find_other : List HashResult → UtxoMap → Option Utxo
  find_other addrs [] = none
  find_other addrs ((k, u) ∷ m) = if not (is_listed k addrs) then some u else find_other addrs m

  -- create_txn
  unfoldable pub create_txn : Utxo → Utxo → Utxo → ℕ → Txn
  create_txn snd rcv chng amt =
      signed_txn ssl snd.priv_key snd.pub_key snd.addr rcv.addr chng.addr amt

  -- The amount, drawn again while it is 0, with a bound on the draws; and the numbers used.
  unfoldable pub draw_amount : Sources → ℕ → ℕ → ℕ → ℕ × ℕ
  draw_amount src zero held drawn = (0, drawn)
  draw_amount src (suc draws) held drawn =
      let amount = (src.rand drawn % held + 1) % uint64_mod in
      elim (amount == 0) [
        | true ↦ draw_amount src draws held (drawn + 1)
        | false ↦ (amount, drawn + 1)
      ]

  -- The amounts of the three, and the entry of the spender.
  unfoldable pub transfer : Utxo → Utxo → Utxo → ℕ → UtxoMap → UtxoMap
  transfer spend recv change amount m =
      let received = record recv { amount = (recv.amount + amount) % uint64_mod } in
      let changed = record change { amount = (spend.amount + uint64_mod - amount) % uint64_mod } in
      erase_utxo spend.addr (set_utxo change.addr changed (set_utxo recv.addr received m))

  -- A round of the loop over the transactions, behind the choice of the three and the amount.
  unfoldable pub pay : Sources → ℕ → Utxo → Utxo → Utxo → ℕ → Block → World → Result (Block × World)
  pay src num_txns spend recv change amount block w = do
    (txn, _) ← validate_txn ssl (create_txn spend recv change amount)
    (more, _, _) ← add_transaction ssl block txn true
    enough ←
        ensure_min_utxos src num_txns num_txns
          (record w { utxos = transfer spend recv change amount w.utxos })
    ok (more, enough)

  -- A round of the loop over the transactions, behind the choice of the spender.
  unfoldable pub spend_one : Sources → ℕ → Utxo → Block → World → Result (Block × World)
  spend_one src num_txns spend block w = elim (find_other (spend.addr ∷ []) (src.visit w.utxos)) [
    | none ↦ err assertion
    | some recv ↦ elim (find_other (spend.addr ∷ recv.addr ∷ []) (src.visit w.utxos)) [
      | none ↦ err assertion
      | some change ↦
          let (amount, drawn) = draw_amount src 2 spend.amount w.drawn in
          pay src num_txns spend recv change amount block (record w { drawn = drawn })
    ]
  ]

  -- The loop over the transactions, with the rounds that are left.
  unfoldable pub spend_all : Sources → ℕ → ℕ → HashResult → Block → World → Result (Block × World)
  spend_all src num_txns zero reward_addr block w = ok (block, w)
  spend_all src num_txns (suc rounds) reward_addr block w =
      elim (find_spendable reward_addr (src.visit w.utxos)) [
        | none ↦ ok (block, w)
        | some spend ↦ do
          (more, next) ← spend_one src num_txns spend block w
          spend_all src num_txns rounds reward_addr more next
      ]

  -- set_hash and the asserts behind it.
  unfoldable pub seal_block : Store → Block → Result Block
  seal_block store block = do
    let hashed = set_hash ssl block
    coinbase ← is_coinbase hashed
    assert (not coinbase)
    (checked, v) ← validate ssl store hashed
    assert v
    ok checked

  -- create_coinbase
  unfoldable pub create_coinbase : HashResult → Result Block
  unfolding default_block
  create_coinbase addr = do
    (checked, v) ← validate ssl [] (set_hash ssl (record default_block { reward_addr = addr }))
    assert v
    ok checked

  -- A block behind the one at `p`, which is prev_block.
  unfoldable pub create_behind :
      Sources → ℕ → ℕ → Store → HashResult → World → Result (Block × World)
  create_behind src num_txns p store reward_addr w = do
    block ← block_on store p
    (paid, next) ←
        spend_all src num_txns num_txns reward_addr (record block { reward_addr = reward_addr }) w
    checked ← seal_block store paid
    ok (checked, next)

  -- The next block: the first one, or one behind the last in the store.
  unfoldable pub create_block : Sources → ℕ → Store → HashResult → World → Result (Block × World)
  create_block src num_txns [] reward_addr w = do block ← create_coinbase reward_addr; ok (block, w)
  create_block src num_txns (b ∷ store) reward_addr w =
      create_behind src num_txns (length store) (b ∷ store) reward_addr w

  -- The blocks so far, the objects of the program, and what has been written.
  pub record Progress : Type 0 where
    pub store : Store
    pub world : World
    pub out : List ℕ

  -- utxos[reward_addr]->amount += BLOCK_REWARD, where a missing key is a null pointer.
  unfoldable pub pay_reward : HashResult → World → Result World
  pay_reward reward_addr w = elim (find_utxo reward_addr w.utxos) [
    | none ↦ err out_of_bounds
    | some u ↦
        let richer = record u { amount = (u.amount + block_reward) % uint64_mod } in
        ok (record w { utxos = set_utxo reward_addr richer w.utxos })
  ]

  -- reward_pos->first; where there is no entry, the program divides by 0.
  unfoldable pub pick_reward : Sources → World → Result (HashResult × World)
  pick_reward src w = elim (get_elem? (src.visit w.utxos) (src.rand w.drawn % length w.utxos)) [
    | none ↦ err out_of_bounds
    | some (addr, _) ↦ ok (addr, record w { drawn = w.drawn + 1 })
  ]

  -- A round of the loop over the blocks.
  unfoldable pub add_block : Sources → ℕ → Progress → Result Progress
  add_block src num_txns p = do
    enough ← ensure_min_utxos src num_txns num_txns p.world
    (reward_addr, picked) ← pick_reward src enough
    (block, spent) ← create_block src num_txns p.store reward_addr picked
    out ← write block p.out
    world ← pay_reward reward_addr spent
    ok (record { store = p.store ++ (block ∷ []); world = world; out = out })

  -- The loop over the blocks, with the rounds that are left.
  unfoldable pub add_blocks : Sources → ℕ → ℕ → Progress → Result Progress
  add_blocks src num_txns zero p = ok p
  add_blocks src num_txns (suc rounds) p = do
    next ← add_block src num_txns p
    add_blocks src num_txns rounds next

  abbrev pub empty_progress : Progress
  empty_progress = record {
    store = [];
    world = record { utxos = []; made = 0; drawn = 0 };
    out = [];
  }

  -- create_chain_and_write: what has been written.
  unfoldable pub create_chain_and_write : Sources → ℕ → ℕ → Result (List ℕ)
  create_chain_and_write src len num_txns = do
    p ← add_blocks src num_txns len empty_progress
    ok p.out

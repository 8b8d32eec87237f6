-- ===== src/Tests/Transactions.antt =====
-- Transactions.
use bootcamp.Wire.Laws.{length-encode_le}
use bootcamp.Base.{
  ℕ, ◌+◌, ◌-◌, ◌≡◌, ◌↔◌, refl, true, false, none, List, [], ◌∷◌, ◌++◌, ok, err, exception, arith,
  length, Returns,
}
use bootcamp.SortedMap.{find, IsSorted, insert, erase}
use bootcamp.SortedMap.Total.{total}
use bootcamp.Wire.{encode_le, decode_le}
use bootcamp.Crypto.{HashResult, accepted, hash_eq, hash_lt}
use bootcamp.Crypto.Order.{hash_eq_iff, hash_order}
use bootcamp.Transaction.{
  Txn, BalanceMap, validate, preimage, balance_available, update_balances, signed_txn, default_txn,
  txn_size, write, read,
}
use bootcamp.Transaction.Balances.{balance, credit, update_balances_lem}
use bootcamp.Transaction.Supply.{destroyed, update_balances-total}
use bootcamp.Transaction.Authentic.{IsSealed, Answers}
use bootcamp.Transaction.Refusal.{Ends, validate_err_iff}
use bootcamp.Transaction.Preimage.{HasFieldSizes, txn_preimage-injective}
use bootcamp.Transaction.Signing.{IsKeyPair, validate_iff, validate-signed_txn}
use bootcamp.Transaction.Codec.{IsWritable, read-write}
use bootcamp.Transaction.Safety.{ReadWithin, read_stays_within}
use bootcamp.Tests.Fixtures.{
  toy_ssl, digest, check, alice_key, bob, carol, payment, change_to_self, opening,
}

validate-payment : validate toy_ssl payment ≡ ok (record payment { valid = true }, true)
unfolding validate signed_txn preimage hash_eq encode_le decode_le
validate-payment = refl

settle_payment : update_balances payment opening ≡ ok ((bob, 30) ∷ (carol, 70) ∷ [])
unfolding update_balances signed_txn find insert erase hash_lt
settle_payment = refl

-- The change of a transaction that asks for it at its own source address is gone.
settle_change_to_self : update_balances change_to_self opening ≡ ok ((bob, 30) ∷ [])
unfolding update_balances signed_txn find insert erase hash_lt
settle_change_to_self = refl

opening-IsSorted : IsSorted opening
opening-IsSorted = (tt, tt)

payment_available : balance_available payment opening ≡ true
unfolding balance_available signed_txn find hash_lt
payment_available = refl

update_balances_lem_example :
    (m' : BalanceMap) × (update_balances payment opening ≡ ok m')
    × (find payment.source_addr m' ≡ none)
    × ((j : HashResult)
        → hash_eq j payment.source_addr ≡ false
        → balance j m'
          ≡ credit
              (hash_eq j payment.change_addr)
              (balance payment.source_addr opening - payment.amount)
              (credit (hash_eq j payment.dest_addr) payment.amount (balance j opening)))
    × IsSorted m'
update_balances_lem_example = update_balances_lem payment opening opening-IsSorted payment_available

update_balances-total_example :
    (m' : BalanceMap) × (update_balances payment opening ≡ ok m')
    × (total m' + destroyed payment opening ≡ total opening)
update_balances-total_example =
    update_balances-total payment opening (omega arith) payment_available

payment-IsSealed : IsSealed toy_ssl payment
unfolding signed_txn preimage encode_le decode_le
payment-IsSealed = record { spends = omega arith; owned = refl; hashed = refl }

payment-Answers : Answers toy_ssl payment alice_key accepted
unfolding signed_txn preimage encode_le decode_le hash_eq
payment-Answers = record { decodes = refl; encodes = omega arith; verdict = refl }

validate_iff_example : (validate toy_ssl payment ≡ ok (record payment { valid = true }, true)) ↔ (
    IsSealed toy_ssl payment
    × ((key : List ℕ) × Answers toy_ssl payment key accepted)
    × (record payment { valid = true } ≡ record payment { valid = true }))
validate_iff_example = validate_iff toy_ssl payment (record payment { valid = true })

alice-IsKeyPair : IsKeyPair toy_ssl alice_key alice_key alice_key
unfolding hash_eq
alice-IsKeyPair = record { decodes = refl; encodes = omega arith; accepts = λ m. signs m }
  where
    same : (m : List ℕ) → hash_eq m m ≡ true
    same m = (hash_eq_iff m m).1 refl

    signs : (m : List ℕ) → check alice_key m (alice_key ++ m) ≡ accepted
    signs m = rw (same m)

-- A transaction from the address of the empty key, which does not decode.
abbrev keyless : Txn
keyless = signed_txn toy_ssl [] [] (digest []) bob carol 30

validate_err_iff_example :
    (validate toy_ssl keyless ≡ err exception)
    ↔ (IsSealed toy_ssl keyless × Ends toy_ssl keyless exception)
validate_err_iff_example = validate_err_iff toy_ssl keyless exception

abbrev signed_payment : Txn
signed_payment = signed_txn toy_ssl alice_key alice_key (digest alice_key) bob carol 30

validate-signed_txn_example :
    validate toy_ssl signed_payment ≡ ok (record signed_payment { valid = true }, true)
validate-signed_txn_example =
    validate-signed_txn toy_ssl alice_key alice_key alice_key bob carol 30 alice-IsKeyPair
      (omega arith)

pub payment-HasFieldSizes : HasFieldSizes payment
unfolding signed_txn preimage encode_le decode_le
payment-HasFieldSizes = record {
  source_size = refl;
  dest_size = refl;
  change_size = refl;
  hash_size_of = refl;
  amount_range = omega arith;
}

txn_preimage-injective_example :
    (payment.public_key ≡ payment.public_key)
    × (payment.source_addr ≡ payment.source_addr)
    × (payment.dest_addr ≡ payment.dest_addr)
    × (payment.change_addr ≡ payment.change_addr)
    × (payment.amount ≡ payment.amount)
txn_preimage-injective_example =
    txn_preimage-injective payment payment payment-HasFieldSizes payment-HasFieldSizes refl

pub payment-IsWritable : IsWritable payment
unfolding signed_txn preimage encode_le decode_le
payment-IsWritable = record {
  has_key = omega arith;
  key_bound = omega arith;
  has_sign = omega arith;
  sign_bound = omega arith;
}

payment_size : txn_size payment ≡ 178
unfolding txn_size signed_txn preimage encode_le decode_le
payment_size = refl

read-write_example :
    (bytes : List ℕ) × (write payment (7 ∷ []) ≡ ok ((7 ∷ []) ++ bytes))
    × (length bytes ≡ txn_size payment)
    × (read (default_txn 5 true) (bytes ++ (9 ∷ [])) 200
        ≡ ok (record payment { valid = false }, txn_size payment))
read-write_example =
    read-write payment (default_txn 5 true) (7 ∷ []) (9 ∷ []) 200 payment-HasFieldSizes
      payment-IsWritable (omega (arith, payment_size))

read_stays_within_example : Returns (ReadWithin 17) (read (default_txn 5 true) (encode_le 18 1) 17)
read_stays_within_example =
    read_stays_within (default_txn 5 true) (encode_le 18 1) 17
      (omega (arith, length-encode_le 18 1))

-- ===== src/Tests/Days.antt =====
-- The day 1 functions.
use bootcamp.Base.{◌≡◌, ◌↔◌, true, ok, arith}
use bootcamp.Block.{validate}
use bootcamp.Transaction.{signed_txn}
use bootcamp.Day1.{validate_block}
use bootcamp.Day1.Agree.{validate_block_agree}
use bootcamp.Tests.Fixtures.{toy_ssl, store, second}
use bootcamp.Tests.Blocks.{second_after}

validate_block_agree_example :
    (validate_block toy_ssl store second ≡ ok (second_after, true))
    ↔ (validate toy_ssl store second ≡ ok (second_after, true))
unfolding signed_txn
validate_block_agree_example =
    validate_block_agree toy_ssl store second second_after (omega arith, tt)

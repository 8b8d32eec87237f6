-- ===== src/Lib.antt =====
-- The programs of the boot camp. Most belong to a blockchain, of day 1 to day 4: transactions,
-- blocks, the files that hold them, and the programs that write and read those files; the others
-- are exercises on threads, sorting and matrices. The blockchain exists in three versions, in day1/,
-- day3/challenge-problems/src/ and day4/challenge-problems/src/. Days 3 and 4 share transactions,
-- blocks and keys; a file name without a directory is one of
-- day4/challenge-problems/src/. Day 1 is modelled where it differs.
--
-- How the parts interact. A reader takes the bytes of a file, and has block_t::read take one block
-- after the other out of them; that calls txn_t::read for each transaction, and finds the block
-- before in a map from hashes to blocks. block_t::validate starts from the balances of the block
-- before, has txn_t::validate check each transaction with the RSA keys, moves the money by
-- txn_t::update_balances, adds the reward and compares the hash.
--
-- Files and sources.
--   Base: Booleans, lists and numbers that the parts share; Result, how a call ends: it returns, an
--   assert fails, an exception leaves main, memory outside of a buffer or memory of a user that is
--   not there is read, or a function that has to return a value comes to its end without one.
--   SortedMap: std::map as its list of entries, over any KeyOrder.
--   Wire: integers in memory and on streams, as the casts and copies of the readers see them.
--   Crypto: crypto.h and crypto.cpp, hash_result_t and the keys. OpenSSL is the parameter OpenSsl:
--   SHA-256, the DER codec of keys, signing and verification. Every theorem holds of any such
--   functions, and a theorem that needs more of them says so in a hypothesis. Crypto/Order has the
--   order of the hashes, Crypto/Print their hexadecimal form.
--   Transaction: transaction.h and transaction.cpp. Its children: Balances and Supply about
--   update_balances, Authentic, Refusal, Preimage and Signing about validate and the signing constructor,
--   Codec and Safety about write and read.
--   Block: block_t of blockchain.h and blockchain.cpp. Blocks live in a store, a list, and
--   std::shared_ptr<block_t> is an index into it. Children: Validate and Supply.
--   BlockIo: block_t::size, write and read of a buffer, and the map of blocks. Children: Codec,
--   Safety, and Parsed about the fields of a block that was read.
--   StreamIo: txn_t::read and block_t::read of a std::istream. Children: Codec and Blocks.
--   BalanceIo: the balance maps in files. Child: Codec.
--   ChainReader: readchain.cpp. Children: Links about the pointers that a read sets, Lookup about
--   the store and the map, Invariant, Rounds, Safety, and RoundTrip about chains that are written
--   again.
--   Generator: genchain.cpp, without main. Children: Utxos about the map of unspent outputs, Funds
--   and Ensuring about its entries and their key pairs, Payments about a block under construction,
--   Choices and Spending about the loop over the transactions, Sealing and Blocks about what the
--   reader accepts, Chains.
--   IndexedFile: readindexed.cpp of day 4, its header and its comparison of balance maps, and the
--   lines of rewritechain.cpp that write the header. Children: Offsets and Maps.
--   ChunkReader: readindexed.cpp of day 4, readChunk and the loops of main over heads and tails, and
--   block_t::recompute_length. Children: Order, Tips and Rounds about readChunk, Links and Lengths
--   about the loops behind it. The threads that read chunks change nothing in common but heads and
--   tails, under a mutex; here the chunks are read one after the other.
--   Rewriter: rewrite_chain of rewritechain.cpp, from its vector of blocks on, and Rewriter/Walk from
--   the tip to that vector. Children: Boundaries about the ends of the chunks, Layout and Writing
--   about the offsets, Trails and Chains about the walk, RoundTrip.
--   Threads: the thread manager of os.h and os.cpp, and the use that readindexed.cpp makes of it.
--   Child: Workers.
--   Sthreads: the kernel module of day4/challenge-problems/src/module/sthreads.c. Children: Paging
--   about its search for the key, Lifetime about what the kernel calls over time, Setup, which has
--   init_module and cleanup_module, and Loading about them.
--   Chdev: chdev_t of os.h and os.cpp, the client of the kernel module, and the lines of
--   thmgr_t::launch and main that use it. Child: Admission.
--   BlockHash: day3/practice-exercises/block_hash.c, its threads in any order of their turns.
--   Children: Workers, Turns, Progress.
--   Streams: osinstream_t of os.h and os.cpp. Children: Sharing about the counter of a mapping, Bounds
--   about what a read returns, Lifetime about sequences of calls.
--   MergeSort: bday5/challenge-problems/mergesort.c. Children: Merging, Sorting and Tiles about merge,
--   mergeSort and sort2D.
--   Matrix: bday5/challenge-problems/matrix.c. Children: Loops, Plain and Tiled about the two
--   functions, Agree.
--   FindMax: day3/practice-exercises/find_max_parallel.c. Children: Best, Greatest, Parts, Parallel.
--   Day1: the functions of day1/transaction.cpp and day1/blockchain.cpp that differ, with Agree
--   about where they return what the later ones do.
--   Tests: runs on concrete data, and each theorem at a concrete input.
--
-- Numbers. A uint64_t is a number, and sums of balances are taken modulo 2 ^ 64, as in the source.
-- An int that is read from a file is kept as its 32-bit pattern. Memory is little-endian. A buffer
-- is the list of the bytes from a pointer on. A stream that is written holds the bytes written so
-- far, and does not fail.
--
-- Loops. The loops over lists are structural. The loop over the transactions of a block makes as
-- many rounds as the count in the file says. The loops over the blocks of a file or a chunk take a
-- bound on their rounds, which is the number of bytes, since each round that goes on takes at least
-- one. The loop of ensure_min_utxos takes min_utxos as its bound, since each round
-- adds an entry, and that over the random amount takes 2, since the first draw is never 0.
-- recompute_length and the walk of rewrite_chain take a bound on the length of the chain, and
-- give none where it is too small; the number of blocks of the chain is enough. The loop of
-- fork_callback makes its 4096 rounds. mergeSort takes a bound on its depth, which is the length of
-- the array.
--
-- What is not modelled. read_balance_map of a std::istream, PEM files, key generation and the
-- printing of whole transactions; readChunk of day 3; the destructor of thmgr_t; streams of
-- osinstream_t that several threads use or destroy at the same time; the programs of day2/progs/ and
-- the other programs of bday5/, which are inputs of passes, demonstrations and timings; the compiler
-- passes of day 2, which are calls of LLVM; a handler of the kernel module that is interrupted by
-- another, and memory of the kernel that a user passes as its own; memory that runs out.
pub mod Base
pub mod SortedMap
pub mod Wire
pub mod Crypto
pub mod Transaction
pub mod Block
pub mod BlockIo
pub mod ChainReader
pub mod ChunkReader
pub mod Chdev
pub mod BlockHash
pub mod FindMax
pub mod Rewriter
pub mod Generator
pub mod Streams
pub mod MergeSort
pub mod Matrix
pub mod Sthreads
pub mod Threads
mod Tests
pub mod BalanceIo
pub mod IndexedFile
pub mod StreamIo
pub mod Day1

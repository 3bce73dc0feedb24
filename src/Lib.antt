-- ===== src/Lib.antt =====
-- Verification of the core of askcoin: the ledger of accounts and topics, the proof of work, the
-- extension of the chain by a mined block, the pool of transactions, the choice of the
-- next block's transactions, and the timers.
-- Paths are from the repository's root.
--
-- The program. A node keeps a chain of blocks. Each block holds transactions, which register
-- accounts, send coins, open topics that hold a reward, reply to topics and reward replies. A topic
-- lives 4320 blocks; then its coins return to the reserve fund. A block pays its miner one coin of
-- each transaction's fee and, while the reserve fund lasts, 5000 coins. Among chains the one with
-- the most accumulated work counts.
--
-- The files.
--   Base: shared helpers. Base.Tests has Boolean tests and their lemmas, Base.Lists lists, Base.Powers
--     powers of two, Base.Text strings with `Blockchain::is_base64_char`, Base.Dict the maps and sets,
--     and Base.Outcome results: `exit` stands for ASKCOIN_EXIT, which ends the process (and for the
--     `false` of proc_topic_expired and proc_tx_map, on which every caller exits), `ok` for going on.
--   External: a record of the library functions that the code calls (rapidjson, leveldb, base64, the
--     hashes, the signature check, the table of the proof of work). Nothing is assumed about them.
--   Accum: src/accum_pow.cpp, `Accum_Pow` with add_pow, sub_pow, operator> and operator==. Accum.Value
--     is the number that the limbs stand for; Accum.Laws has the theorems, on the lemmas of
--     Accum.Carry, Accum.Borrow and Accum.Compare.
--   Pow: src/blockchain.cpp, hash_pow, the rounds of verify_hash, the next target in mine_tx and the
--     test of it in mined_new_block.
--   Account, Topic: src/account.cpp, src/history.hpp, src/topic.cpp and src/reply.cpp.
--   Ledger: the members of `Blockchain` for accounts, topics and transactions, their lookups, the set
--     ordered by wealth, and check_balance (src/blockchain.cpp, src/blockchain.hpp). Ledger.Balance has
--     the sums of coins, Ledger.Rich the set ordered by wealth, Ledger.Links the pointers, and
--     Ledger.Good what every step keeps.
--   Ledger.Expiry: proc_topic_expired and proc_tx_map. Ledger.Expiry.Coins has what the expiry keeps, and
--     Ledger.Expiry.Freed what goes and where its coins go, and Ledger.Expiry.Ends is on the checks of the
--     owner, which do not fail. Ledger.Ages is on the order of the topics by
--     block, which the expiry relies on.
--   Ledger.Tx and its children: the branches of the loop over the transactions in mined_new_block.
--   Ledger.Block: the rest of a block's effect on the ledger, up to `m_miner_pubkeys.insert`.
--   Chain: src/block.cpp, src/version.hpp and mined_new_block as a whole. Chain.Hash is verify_hash;
--     Chain.Head says what the new head is, and Chain.Growth what any number of blocks make of a chain.
--   Pending: src/tx/tx.hpp, the transactions that wait for a block.
--   Mine: mine_tx. Mine is a round of the dry run (the branches for the five types, failed_cb), Mine.Undo a
--     round of the loop that takes it back, and Mine.Loop the loop over the queue, with Mine.Loop.Ends
--     and Mine.Loop.Kept on its end and on its lists. Mine.Writes and Mine.Topics are on writes to
--     accounts, topics and replies that are taken back, Mine.Restore and its children on the ledger
--     after a round and its undoing, a child for each type, Mine.Whole on a whole run and its undoing, and
--     Mine.Total on ASKCOIN_EXIT. Mine.Reopen is the end of mine_tx, where the topics and transactions that
--     expired at its start are put back: Mine.Reopen.Like, Sweep, Topics, Back and Rounds are on the
--     topics, Txs and Chain on the transactions, and Mine.Reopen.Whole on both around a dry run. Mine.Sound and its
--     children are on what the loop of the dry run keeps of the ledger, and Mine.Choice is mine_tx as a
--     whole.
--   Pool: do_uv_tx and the handler of TX_BROADCAST in src/net/p2p/node.cpp. Pool has the tests that a
--     transaction passes, Pool.Review the three passes, Pool.Submit the handler. Pool.Passes says what
--     a transaction has shown that goes to m_uv_2_txs; Pool.Reserve is on the counters of what it will
--     spend, Pool.Afford on who pays, Pool.Clean on what is left in the lists, and Pool.Tidy with
--     Pool.Tidy.Passing on the sets of ids, names and keys. A Scope_CB (of the library fly) is read as:
--     its first callback runs at the end of the scope, unless set_cur_cb(1) was called.
--   Timers: src/timer.cpp, `Timer_Controller`. Timers.Order is on its multiset, Timers.Steps on add_timer,
--     del_timer and reset_timer, Timers.Due on whom run calls, and Timers.Again on the set after it. The
--     callbacks are a parameter.
--   Sample: a small model of JSON documents, and accepting library functions, for the tests. The
--     modules named Tests run the definitions and apply the theorems at concrete inputs.
--
-- State. A shared_ptr to an account is the account's id, looked up in `accounts`; a shared_ptr to a
-- topic or a reply is its key, and one to a block its number or hash. So two pointers to one object
-- see each other's writes, as when the sender of coins is also the receiver or the referrer. Reads
-- and writes keep the order of the code. uint32 and uint64 arithmetic is on natural numbers with the
-- wrap-around written out; uint64 subtraction of v is (x + 2 ^ 64 - v) % 2 ^ 64.
--
-- Rounds. The carry and the borrow of Accum_Pow visit each of nine limbs at most once, so nine rounds
-- suffice. The loop of mine_tx over its queue runs on fuel: three passes, each no longer than the queue,
-- and three rounds more suffice. The trimming of a history takes one round for each of its entries at
-- most. All other loops go through a list.
--
-- Deviations. On malformed input where the code calls GetString, Size or operator[] without a test of
-- the type, the library's behaviour is undefined and the model exits, or passes over the entry in the
-- list of children. A pointer that leads to no object also exits where it is followed; in the pool it
-- counts as a lookup that fails. The undoing of a reply reads the last member of its topic; if there is
-- none, which is undefined in the code, the model takes nothing off. Objects are told apart by their
-- number or key: where del_rich compares pointers in the set ordered by wealth, the model compares ids.
-- An account that mine_tx undoes can stay in that set (see its order by wealth, of which the theorems on
-- mine_tx say nothing); an account that is registered later with the same id is another object in the code,
-- and in the model the same entry.
--
-- Not modelled: input and output (the batch written to the database, notifications, broadcasts, logs),
-- threads, the tests on the form of a message in src/net/p2p/node.cpp, the tests at the start of mine_tx
-- and its end, which hands the block to the mining thread, rollback, the switch between chains, the start
-- from a database and the import of a merge point, the rest of src/net, and the copies of
-- Bitcoin's library (src/crypto, src/key.cpp, src/pubkey.cpp, src/hash.cpp and others).
pub mod Base
pub mod External
pub mod Accum
pub mod Pow
pub mod Account
pub mod Topic
pub mod Sample
pub mod Ledger
pub mod Chain
pub mod Pending
pub mod Mine
pub mod Timers
pub mod Pool

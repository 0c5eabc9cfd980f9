-- ===== src/Lib.antt =====
-- PTTP, a peer-to-peer payment network: byte vectors, Bloom filters, a cache and a database, a queue
-- of tasks, hash trees, transactions, the chain's mempool, the peers' messages and tasks, sockets, and
-- the tools that encrypt messages and words.
--
-- Parts, and the files that model them (paths are from the repository's root):
--   Bytes      inc/type.h: `Bytes` as a list of numbers, `x_or`, and the conversions to and from
--              `std::bitset` (`from_bits` is the constructor, `to_bits` is `bitset()`). Copies and views are the identity.
--   Bloom      inc/bloom_filter.h, `Bloom`, with `ShortHash::to_uint` of inc/curve.h: `new`, `hash`,
--              `has`, `put` (the code's `set`), `has_set`, `reset`, `bytes` and `from_bytes` (the
--              constructor that reads bytes); `put_all` is the loop of bin/p2p.cc that fills a filter.
--              Bloom/Membership is about the answers, Bloom/Encoding about the bytes.
--   Cuckoo     inc/bloom_filter.h, `Cuckoo`: `new`, `store`, `get`. It takes its two places from two
--              Bloom filters.
--   Db         inc/db.h: `DB` (`put`, `del`, `get`) and `CachedDB` (`cached_put`, `cached_del`,
--              `cached_get`), which puts a Cuckoo cache before the database. A `Bytes *` is an option.
--              Db/Sessions has any sequence of calls on a `CachedDB` that was opened.
--   Gtd        inc/gtd.h, `GTD`: `less` and `greater` are the comparisons of tasks, `poll` is one round of
--              the loop of `operator()()`, `take` the whole loop, `add` and `add_later` the two `add`s.
--   Merkle     inc/curve.h: `hash_twin` and `hash_vec`, whose two loops pass a list through `level`.
--   Process    src/process.cc: `create` and `create_transaction` are the two overloads of
--              `create_transaction`; `process` and `process_transaction` those of `process_transaction`.
--   Ledger     bin/p2p.cc, `pttp::Transaction`: `parse` is its constructor, which checks a transaction
--              once more as it keeps it; `credit_bytes` and `bytes` write it, and Ledger/Storing reads that back. Ledger/Header is
--              `pttp::BlockHeader`: `read_header` is `from_bytes`, `header_bytes` is `bytes`.
--   Boxes      src/curve.cc: `EncryptedMessage` (`encrypt`, `received`, `decrypt`), `SealedMessage`
--              (`sealed`, `sealed_from`, `unseal`) and `SignedMessage` (`signed`, `signed_from`, `verify`);
--              bin/fullenc.cc and bin/fulldec.cc, which use the second; Boxes/Demo is bin/snd.cc, which uses all.
--   Keys       src/curve.cc and inc/curve.h: `Curve`, the key types, seeds, nonces and salts, and `Signature`
--              (`signature`, `signature_verify`); `resize_safe` is `SafeBytes::resize`.
--   Bech32     inc/convert.h: `bytes_to_bech32`, whose loop is `regroup` and whose digits are `enc5`.
--   Cipher     bin/enc.cc, bin/dec.cc, bin/hexenc.cc, bin/hexdec.cc: `mask` is the key stream that all
--              four put on a message; `from_hex` and `show` are `Bytes::from_hex` and `operator<<` of
--              src/type.cc.
--   Words      bin/wordenc.cc and bin/worddec.cc: words as 11-bit numbers in a bit set, masked as in
--              Cipher.
--   Reconsiler bin/p2p.cc, `SetReconsiler`: `filter` passes a set through the peer's Bloom filters, and
--              `check` compares `hash_vec` of what is left, sorted, with the hash that is sought.
--              Reconsiler/Table is `BlockChainReconsiler`.
--   Maps       `std::set` and `std::map` of byte vectors, as lists in the order of their keys.
--   Chain      bin/p2p.cc, `pttp::BlockChain`: `add` and `get_latest`, whose loop over the mempool is `select`
--              and whose loops over a transaction's credits are `is_spendable` and `apply_credits`.
--              Chain/Spec is the ledger that they are to implement, on balances as a function of the
--              account; Chain/Reachable has the states that a chain reaches. Chain/Conserving is about the
--              sum of the balances, Chain/Arrival about the order in which transactions come. Chain/Marking
--              is `mark_blocks`, whose inner loop is `walk`; Chain/Heights is about the heights. No thread
--              of the program calls these operations yet.
--   Peers      bin/p2p.cc: the global variables are the record `Node`, the messages of cap/messages.capnp
--              the type `Content`. Peers/Serving is `serve` for one message, Peers/Rounds its loop with
--              the socket; Peers/Managing is `manage` (`expand` is its case EXPAND_CONNECTION,
--              `sync_hashset` its case SYNC_HASHSET) and `manage_connection`, which sends what `ask` makes
--              and gives the reply to `take_reply`. Peers/Mining is a round of `mine`, and
--              `add_block_if_ok` of the chain. Peers/Steps has the steps of all threads. The other files
--              are about the connections, the flooding of texts (Peers/Flooding, Peers/Relaying), the
--              exchange of addresses, of filters and of sets.
--   Client     bin/node.cc: a client's session with a node.
--   Sockets    src/socket.cc, `Socket`: messages of several parts over ZeroMQ; Sockets/Context is `Context`.
--   Prelude    the names and lemmas that the others share. Samples holds the concrete functions at which
--              the Examples modules run the theorems.
--
-- State and faults. A struct is a record and a method takes it and returns the new one. A run of which
-- the code's behaviour is undefined, such as an index out of range, and a failed assertion are `none`.
-- A `uint8_t` is a number that keeps its wrap-around written out; an `int` read from a 64-bit amount
-- is `to_int`.
--
-- Interfaces. What is not in the repository is a record of functions that the definitions take:
-- `ShortHasher` and `GenericHasher` (the hashes of libsodium, of which only the sizes are used),
-- `Sodium` (its password hash and hexadecimal text), `SodiumUtils` (its helpers on buffers), `Signer` (its detached signatures), `BoxApi` (its
-- boxes and signed messages), `Wire`, `BlockWire` and `MessageWire` (Cap'n Proto), `Rocks` (RocksDB),
-- `Opener` and `Zmq` (ZeroMQ). `Endings` is what two functions of bin/p2p.cc that end without a
-- `return` leave to their caller, which C++ does not say. `Libs` joins those that a node uses. bech32_encode, of the copied
-- library src/segwit_addr.cc, is an argument. Random bytes, salts and clock readings are arguments
-- too.
--
-- Loops and fuel. Most loops are recursion on the list that they walk. `collapse`, the second loop of
-- `hash_vec`, has as much fuel as there are hashes, since each pass shortens the list; `regroup` has
-- two rounds for each byte and one more, since each round reads five bits. The loop of `operator()()`
-- waits for other threads and the clock, so `take` runs over a schedule of polls and of tasks that
-- others add; the mutex makes each a single step. `recv_multi` has fuel for as many parts as the
-- message has; `walk` for as many blocks as the longest way back to the zero block has. The endless
-- loops of the threads of bin/p2p.cc are not run: one round of each is a step, and the theorems are
-- about any sequence of steps.
--
-- Not modelled: memory that is freed or wiped; the locks: one round of a thread's loop is a single step, also where
-- it reads what others write without a lock; the printing on the way. A short key or signature, from
-- which libsodium reads past the end, is not told from one of full size. The test programs
-- bin/nodetest.cc and bin/rcv.cc, and the lookup of the outside address, which is code of
-- other projects, are left out.
pub mod Prelude
pub mod Bytes
pub mod Maps
pub mod Bloom
pub mod Merkle
pub mod Gtd
pub mod Cuckoo
pub mod Db
pub mod Bech32
pub mod Cipher
pub mod Words
pub mod Process
pub mod Boxes
pub mod Keys
pub mod Ledger
pub mod Chain
pub mod Peers
pub mod Sockets
pub mod Client
pub mod Reconsiler
mod Samples

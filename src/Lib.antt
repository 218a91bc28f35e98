-- ===== src/Lib.antt =====
-- CruzDB: a key-value store over a shared log.
--
-- A transaction runs over a snapshot, a copy-on-write red-black tree. It records its reads, puts and
-- deletes in an intention, which is appended to the log. Every node reads the log in order, decides
-- whether an intention commits by comparing its keys with those of the intentions committed since
-- its snapshot, and replays the committed ones on the tree, so that nodes that decide alike reach
-- the same state.
--
-- Files, and the code that they model (paths from the root of the repository):
--   Prelude, Prelude/*: shared names, Boolean tests on numbers, lists, signed integers, and `Holds`,
--     which says that a fallible step gives a result with a property.
--   Slice, Slice/Lex: keys and values as byte lists. `compare` of zlog's Slice is a parameter with
--     the laws of a total order; the bytewise order meets them. `prefix_string` is that of
--     src/db/persistent_tree.h.
--   Dict: a dictionary as a list of entries in ascending key order, the abstract view of a tree.
--   Node: src/db/node.h. A pointer holds its address and the node itself.
--   Tree/Path, Tree/Insert, Tree/Delete, Tree/State: src/db/persistent_tree.{h,cc}.
--     `Tree.State.get`, `put`, `delete` and `copy_path` are `Get`, `Put`, `Delete` and `Copy`. The
--     deque `path` of the program is a list of frames, each a node without the child that the path
--     goes through.
--   Tree/Entries, Tree/Lookup: trees as dictionaries. Tree/Balanced, Tree/Insert*, Tree/Delete*: the
--     red-black invariant through each step of the two loops. Tree/Correct, Tree/Reads, Tree/Copies:
--     the methods.
--   Validate: `Validate` of src/db/db_impl.cc.
--   Txn/Intention: src/db/intention.h and src/db/cruzdb.proto. Txn/Transaction:
--     src/db/transaction_impl.{h,cc}. Txn/Conflict: the decision of `ProcessConcurrentIntention`.
--     Txn/CommittedIndex, Txn/Zone: `CommittedIntentionIndex`. Txn/Replay: `ReplayIntention`.
--     Txn/Log: replay of any intention. Txn/History: whole transactions. Txn/Missed: a read and a
--     put of one key. All of them are of src/db/db_impl.{h,cc} where no other file is named.
--   Iterator/Raw: `RawIteratorImpl` of src/db/iterator_impl.{h,cc}. Iterator/Stack: the entries that
--     its stack stands for. Iterator/Moves, Iterator/Turns: its operations, against the list of
--     entries. Iterator/Scan: the loop of a client that reads a whole snapshot. Iterator/Prefix:
--     `PrefixRawIteratorImpl` and `FilteredPrefixIteratorImpl` of src/db/iterator_impl.h.
--   Image/Proto: the messages of src/db/cruzdb.proto. Image/Write: infection and serialization in
--     src/db/persistent_tree.cc. Image/Read: how src/db/node_cache.cc makes a node of a message.
--     Image/Stored: a tree in the log, by the addresses of its nodes. Image/Infect, Image/Pointers,
--     Image/RoundTrip, Image/Fetch: what is written, and that it reads back. Tree/Owned: the root of
--     a tree after a put is new.
--   Entry/Matcher: `PrimaryAfterImageMatcher` of src/db/entry_service.{h,cc}. Entry/Ledger: the
--     table that it stands for. Entry/Index, Entry/Changes, Entry/Matching: the watermark, and the
--     matcher against the table.
--   Entry/Service, Entry/Batch: the cache of `EntryService`, with its reads and appends.
--     Entry/Scanner: `IOEntry` and the iterators over the log. Entry/Cache, Entry/Steps,
--     Entry/Batches, Entry/Reachable: the cache in any order of steps. Entry/Complete,
--     Entry/Batched: what a batch of reads returns. Entry/Scanning: how far the log scanner gets.
--   Db/Finder, Db/Rendezvous: `TransactionFinder` of src/db/db_impl.{h,cc}. Db/Restore:
--     `FindRestorePoint`. Db/Knows, Db/Lowered, Db/Turns, Db/Restored: what its search knows, turn
--     by turn, and what it finds. Db/Waiting: `WaitOnIntention` and `NotifyIntention`. Db/Finished:
--     `FinishedTransactions`.
--   Txn/Keys: the keys of committed intentions. Db/Concurrent: `ProcessConcurrentIntention`, with
--     the scan of those keys. Db/ZoneScan, Db/ConflictZone: the scan, and the conflict zones with it
--     and without. Db/Processor: a turn of `TransactionProcessorEntry`. Db/Sealed, Db/NextRoot,
--     Db/Processed: the tree that it makes, and the turn against the entries of the database.
--     Db/Replicas: turns over a log. Db/Requests: `Get`, `BeginTransaction`,
--     `Commit` with `CompleteTransaction`. Txn/Made, Db/Committed: a transaction from its first call to the
--     decision. Db/Collector, Db/Gathered, Db/Walk: `gc` and
--     `reachable_node_stats`, and the addresses that `gc` keeps.
--   Cache/Shard, Cache/Store, Cache/Fetch: `NodeCache` of src/db/node_cache.{h,cc}: a shard, the
--     eight shards with the vacuum thread, and `CacheAfterImage` and `fetch`. Cache/Nodes,
--     Cache/Recent, Cache/Linked: the map of a shard, its list of recent use, and the links between
--     them. Cache/Evict, Cache/Consistent, Cache/Kept, Cache/Vacuum, Cache/Run: the invariant
--     through every operation. Cache/Through: `fetch` against the log. Cache/Primary:
--     `findAfterImagePosition`.
--   Prelude/Map: maps from numbers as association lists.
--   Tests, Tests/*: runs on concrete trees, transactions, logs and threads.
--
-- State and errors. Methods take the state and return the new one. A failed assertion, or the use of
-- a null node, is `none`. A result that is there means that no assertion failed and that the fuel
-- was enough. A lookup that finds nothing (-ENOENT) is `none` of the lookup's own result.
--
-- Loops. The loop of `Put` runs on as much fuel as the path is long, and one; each round with a red
-- uncle takes two frames off the path, and the other rounds end the loop. The loop of
-- `balance_delete` has two more than the length of the path: a round takes a frame off the path,
-- except that a red brother puts one back, and then the loop ends in the same or the next round.
-- Each loop has at most that many rounds. Log positions and root identifiers are unbounded numbers,
-- which the program compares. The offsets of nodes are cut to 16 bits, and the positions of the log
-- iterators wrap around at 64, as does the counter of bytes in the node cache. The scan of the
-- committed intentions' keys has a round for each entry of the tree, and one; the eviction of a
-- shard has one for each node, and one; the walk of a collection has two for each node, and one. The
-- fuel for reading a tree back from the log is its height.
--
-- Threads. What one thread does under a lock is one function on the shared state. A thread that
-- waits on a condition is a sequence of rounds, and a reader of the log gets the list of the results
-- that zlog returns to it, so that a loop which retries ends where the list has a result.
-- Interleavings are sequences of calls (Entry/Ledger) or step relations (Entry/Reachable,
-- Db/Replicas, Cache/Run). `fetch` of the node cache gives its locks up in between; what other
-- threads do then is an argument of it. Threads, waiters and nodes are numbers where only their
-- identity counts.
--
-- Not modelled: the fetch of nodes in the middle of an operation on a tree (a pointer of a tree
-- always has its node), the start and end of the threads, and the zlog library, whose log is
-- external. The mapping of intentions to after images in the node cache is an argument. The LRU
-- cache under it, statistics and platform code are copies of other projects' libraries. Protobuf's
-- encoding, std::hash and Boost's lexical_cast are external.
pub mod Prelude
pub mod Slice
pub mod Node
pub mod Tree
pub mod Dict
pub mod Validate
pub mod Txn
pub mod Iterator
pub mod Image
pub mod Db
pub mod Cache
pub mod Entry
mod Tests

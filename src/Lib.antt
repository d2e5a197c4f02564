-- ===== src/Lib.antt =====
-- opendal-indexeddb: an OpenDAL service that keeps objects in the browser's IndexedDB.
--
-- The program. `IndexeddbBuilder::build` (src/backend/builder.rs) makes a backend from a configuration.
-- The backend's handlers (src/backend/access.rs) put a path under the root and call a method of
-- `IndexeddbCore` (src/backend/core.rs), directly or by a lister, writer or deleter
-- (src/backend/io.rs). Each method runs one IndexedDB transaction by `run_transaction`, on a connection
-- that the realm caches (src/backend/connection.rs), over two object stores: `{k, v}` records of the
-- bytes, and sidecar records of the metadata (src/backend/meta.rs).
--
-- The files.
--   Base            shared names; Tests (Boolean tests), Lists, Text (a String is its UTF-8 bytes),
--                   Order (lexicographic orders) with Sorted (their laws, ascending lists), Select
--                   (filters), Results (`opendal::Error`), Exec (stateful actions).
--   Meta            src/backend/meta.rs. Records: the record types and their conversions; Check:
--                   the conditions of a request, with Check/Decides; Payload: the values in the
--                   stores and the bytes read from one, with Payload/Range.
--   Idb             what the crate takes from elsewhere: object stores (`StoreApi`, with the laws
--                   `IsStore` of the IndexedDB specification that the code relies on) and pure
--                   functions (`External`).
--   Connection      src/backend/connection.rs and `open_client`: Utf8 (`String::from_utf8`), Prefix
--                   (`recursive_delete_target`, `prefix_upper_bound`, with Prefix/Bounds), Cache
--                   (the thread-local cache and its cleanup task, with Cache/Cleanup), Locks (the
--                   upgrade locks), Open
--                   (`Browser`, the state `World`, `open_client` of src/backend/core.rs).
--   Core            src/backend/core.rs: Entry (helpers of the transactions), Read (`read`,
--                   `stat`), Write (`set`), Remove (`delete_many`), Move (`copy`, `rename`), Scan
--                   (`scan_page`; Scan/Keys and Scan/Round, Lists, Pages and Resume on the keys of
--                   its pages, Scan/Entries on what a page tells of a key), Transaction
--                   (`run_transaction`, with Atomic; Working, Attempts and Runs, in a browser that
--                   works; Keeper, invariants of the cache through a whole call; Interleavings, what the
--                   tasks of a realm do to the cache in turn; Tasks, the tasks with the upgrade
--                   locks), Ops (the methods). The closure that a method
--                   passes to `run_transaction` is `<method>_txn`, a function from the two stores
--                   to a result with the new stores.
--   Files           the abstract service: a map from paths to objects (Model), its writes (Writes),
--                   and when two object stores stand for one (Represents).
--   Service         the methods against the abstract service, on any browser; Service/Completes, in
--                   a browser that works (`IsWorking` of Core/Transaction/Working); Service/Calls
--                   sequences of calls of `set`, `copy`, `rename`, `delete_many`, `read` and
--                   `stat`, with Service/Sequences (in a browser that works), Service/Faults (in
--                   any whose faults are errors, with Service/Obedience), Service/Races (writes of
--                   one path) and Service/Scopes (calls below a root); Service/Pages the pages of a
--                   listing, and Service/Listing a lister's calls of `next`.
--   Io              src/backend/io.rs; Io/Limits and Io/Writes hold its theorems.
--   Access          src/backend/access.rs, with Access/Info (the description of the service);
--                   Access/Answers (`stat`, `read`), Access/Roundtrip (a read behind a write, a
--                   copy or a rename) and Access/Listing (`list`) hold its theorems.
--   Builder         src/backend/builder.rs with src/config.rs; Builder/Names holds its theorems.
--   Examples        concrete stores, tests, and the theorems at concrete inputs.
--
-- How the code is read. A String is the list of its UTF-8 bytes, and the order of IndexedDB's keys, by
-- UTF-16 code units, is the lexicographic order of these bytes by `js_weight`. A JavaScript value is one
-- of the shapes that src/backend/meta.rs tells apart. Sizes and times that the source holds as f64 are
-- natural numbers, exact below 2^53; usize arithmetic is written with its 32-bit wrap where it can
-- wrap. Errors are values; a failing transaction leaves both stores as they were. The clock is read when
-- a method starts, where the source reads it within the transaction, and twice at each look at the
-- cache, where the source reads it as far as it needs to. A fault ends a transaction, and depends on the
-- connection it runs on. The mode of a transaction has no effect of its own: the bodies of the methods
-- that ask for a read-only one are made by `reading`, and write nothing.
--
-- Bounds and fuel. `open_client` upgrades at most 8 times and `run_transaction` runs at most twice,
-- as in the source. The loop of `scan_page` takes its number of rounds from the caller: one more
-- than the store has keys is enough, since each round leaves a key behind. The loop of
-- `IndexeddbLister::next` takes two: one to fetch a page and one to answer from it. The listing
-- theorems are on texts without characters beyond U+FFFF (`IsBmp`), where IndexedDB's order of keys
-- is Rust's order of strings.
--
-- The upgrade lock. Core/Transaction runs a call as one action, and Core/Transaction/Tasks runs many
-- tasks at once: what a task does between two awaits is a move there, with the lock of
-- src/backend/connection.rs, and Tasks/Alone cuts the calls of Core/Transaction into these moves.
--
-- Not modelled: an exceeded storage quota, on which the indexed-db crate panics before an error is made
-- (Known limitations in README.md), so that no call returns; a task that is dropped while it waits for
-- the upgrade lock; what becomes of an upgrade of the database behind its timeout; OpenDAL's wrappers
-- (HierarchyLister, BatchDeleter, OneShotCopier), which are not part of the repository; re-exports
-- (src/lib.rs, src/backend/mod.rs); the tests and benchmarks.
pub mod Base
pub mod Meta
pub mod Idb
pub mod Connection
pub mod Core
pub mod Files
pub mod Service
pub mod Io
pub mod Access
pub mod Builder
pub mod Examples

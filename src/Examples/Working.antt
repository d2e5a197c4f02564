-- ===== src/Examples/Working.antt =====
-- The calls of the service in a concrete browser that works.
use opendal_indexeddb.Base.{◌==◌, Bool, false, some, subst, ◌+◌, if◌then◌else◌}
use opendal_indexeddb.Base.{
  Bytes, List, [], ◌∷◌, ◌++◌, none, true, ℕ, Result, refl, ◌≡◌, lit, arith,
}
use opendal_indexeddb.Connection.Cache.{CachedConnection, Database}
use opendal_indexeddb.Connection.Utf8.{is_utf8}
use opendal_indexeddb.Connection.Open.{Fault, database_is_closed, idb, is_stale_connection_error}
use opendal_indexeddb.Connection.Open.{Browser, World, opened, stores_exist_in, missing_stores}
use opendal_indexeddb.Core.Entry.{entry_metadata}
use opendal_indexeddb.Core.Move.{rename_txn}
use opendal_indexeddb.Core.Ops
use opendal_indexeddb.Core.Transaction.{read_write, run_transaction}
use opendal_indexeddb.Core.Transaction.Working.{IsWorking}
use opendal_indexeddb.Core.Transaction.Attempts.{outcome_of}
use opendal_indexeddb.Core.Transaction.Runs.{run_transaction_runs}
use opendal_indexeddb.Examples.Objects.{
  ext, etag_by, here, there, one, one_file, one-Represents, append_args, below_docs,
}
use opendal_indexeddb.Examples.Service.{main_core, database, chrome, world, fresh}
use opendal_indexeddb.Examples.Shelf.{Shelf, shelf, shelf-IsStore}
use opendal_indexeddb.Files.Model.{done, write, remove}
use opendal_indexeddb.Files.Represents.{Refines}
use opendal_indexeddb.Io.{QueueBuf, new_writer, writer_close}
use opendal_indexeddb.Io.Writes.{IsQueue, write_all, writer_close-Completes}
use opendal_indexeddb.Service.{copy_distinct}
use opendal_indexeddb.Service.Completes.{
  with_stores, set-Completes, copy-Completes, delete_many-Completes,
}

pub chrome-IsWorking : IsWorking chrome main_core
unfolding stores_exist_in
chrome-IsWorking = record {
  can_open = record {
    has_factory = λ t. refl;
    upgrades = λ t lacks. (database, refl, refl);
    steady = λ t. omega arith;
  };
  Live = λ db t. Unit;
  live = λ db t l. refl;
  stale = λ db t fault e. cc;
  live_now = λ db t l. tt;
  live_latest = λ db t e. tt;
  live_upgrade = λ db version t e. tt;
}

-- A browser that has closed the connection with the number 0, has no database, and makes one with the
-- object stores that it is asked for.
abbrev flaky : Browser
flaky = record {
  Env = ℕ;
  now = λ t. (t, t + 1);
  factory = λ t. (none, t);
  open_latest_version = λ name t. (none, t);
  upgrade = λ name version missing t.
      (opened (record { handle = 1; version = version; object_store_names = missing [] }), t);
  fault = λ db t. (if db.handle == 0 then some database_is_closed else none, t);
  to_string = λ e. "fault";
}

is_stale_fault :
    (closed : Bool) (fault : Fault)
    → (if closed then some database_is_closed else none) ≡ some fault
    → is_stale_connection_error (idb fault) ≡ true
unfolding is_stale_connection_error
is_stale_fault true fault e =
    let same : database_is_closed ≡ fault = cc in
    subst (λ f. is_stale_connection_error (idb f) ≡ true) same refl
is_stale_fault false fault e = cc

opened-same : (d db : Database) → opened d ≡ opened db → d ≡ db
opened-same d db e = cc

flaky-IsWorking : IsWorking flaky main_core
unfolding stores_exist_in missing_stores
flaky-IsWorking = record {
  can_open = record {
    has_factory = λ t. refl;
    upgrades = λ t lacks. (_, refl, refl);
    steady = λ t. omega arith;
  };
  Live = λ db t. (db.handle == 0) ≡ false;
  live = λ db t l. rw l refl;
  stale = λ db t fault found. is_stale_fault (db.handle == 0) fault found;
  live_now = λ db t l. l;
  live_latest = λ db t found. cc;
  live_upgrade =
      λ db version t found. subst (λ d. (d.handle == 0) ≡ false) (opened-same _ db found) refl;
}

abbrev stale_entry : CachedConnection
stale_entry = record {
  db = record database { handle = 0 };
  object_store_names = database.object_store_names;
  last_used_ms = 3;
  generation = 0;
}

-- The connection that is cached is the one that the browser has closed.
abbrev later_use : World ℕ Shelf
later_use = record world { realm = record fresh { cache = λ name. some stale_entry } }

abbrev ran : Result (Unit {0}) × World ℕ Shelf
ran = run_transaction flaky Shelf main_core read_write (rename_txn shelf ext here there) later_use

run_transaction_runs_example :
    outcome_of one (rename_txn shelf ext here there one) ≡ (ran.0, ran.1.stores)
run_transaction_runs_example =
    run_transaction_runs flaky Shelf main_core flaky-IsWorking read_write
      (rename_txn shelf ext here there) later_use

set-Completes_example :
    Refines etag_by shelf
      (λ i. i)
      (with_stores (Ops.set chrome shelf ext main_core here (lit " world") append_args world))
      (write etag_by here (lit " world") append_args 9 one_file)
set-Completes_example =
    set-Completes chrome shelf shelf-IsStore ext main_core chrome-IsWorking here (lit " world")
      append_args world one_file one-Represents

copy-Completes_example :
    Refines etag_by shelf
      (λ i. entry_metadata ext there i)
      (with_stores (Ops.copy chrome shelf ext main_core here there true none world))
      (copy_distinct etag_by here there true none 9 one_file)
copy-Completes_example =
    copy-Completes chrome shelf shelf-IsStore ext main_core chrome-IsWorking here there true none
      world one_file one-Represents

delete_many-Completes_example :
    Refines etag_by shelf
      (λ i. i)
      (with_stores (Ops.delete_many chrome shelf ext main_core below_docs world))
      (done tt (remove below_docs one_file))
unfolding is_utf8
delete_many-Completes_example =
    delete_many-Completes chrome shelf shelf-IsStore ext main_core chrome-IsWorking below_docs world
      one_file (refl, (refl, tt)) one-Represents

-- A queue that joins what is pushed.
abbrev pub flat : QueueBuf
flat = record {
  Queue = Bytes;
  empty = [];
  push = λ buffer bs. buffer ++ bs;
  collect = λ buffer. buffer;
}

pub flat-IsQueue : IsQueue flat
flat-IsQueue = record { collect-empty = refl; collect-push = λ buffer bs. refl }

abbrev pub two_chunks : List Bytes
two_chunks = lit " wo" ∷ lit "rld" ∷ []

writer_close-Completes_example :
    Refines etag_by shelf
      (λ i. entry_metadata ext here i)
      (with_stores (
        writer_close flat chrome shelf ext
          (write_all flat two_chunks (new_writer flat main_core here append_args))
          world))
      (write etag_by here (lit " world") append_args 9 one_file)
writer_close-Completes_example =
    writer_close-Completes chrome shelf shelf-IsStore ext flat main_core here append_args two_chunks
      world one_file chrome-IsWorking flat-IsQueue one-Represents

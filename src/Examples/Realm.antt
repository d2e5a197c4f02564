-- ===== src/Examples/Realm.antt =====
-- The connection cache of a concrete realm: some actions of its tasks, and a transaction.
use opendal_indexeddb.Base.{true, none, some, ℕ, ◌+◌, Result, refl, List, [], ◌∷◌, lit}
use opendal_indexeddb.Connection.Cache.{Database}
use opendal_indexeddb.Connection.Open.{Browser, World, opened}
use opendal_indexeddb.Core.Move.{rename_txn}
use opendal_indexeddb.Core.Transaction.{read_write, run_transaction}
use opendal_indexeddb.Core.Transaction.Interleavings.{
  Action, look, evict, insert, wake, AreOwn, run,
}
use opendal_indexeddb.Core.Transaction.Interleavings.Covers.{
  Logs, AllAccounted, run_transaction-Accounted,
}
use opendal_indexeddb.Core.Transaction.Interleavings.Invariant.{IsSound}
use opendal_indexeddb.Core.Transaction.Interleavings.Sound.{run-IsSound}
use opendal_indexeddb.Examples.Objects.{ext, here, there, one}
use opendal_indexeddb.Examples.Service.{main_core, database, fresh}
use opendal_indexeddb.Examples.Shelf.{Shelf, shelf}

abbrev turns : List Action
turns =
    insert (lit "db") database database.object_store_names 3
    ∷ look main_core true 300 300
    ∷ wake (lit "db") 1 700
    ∷ wake (lit "db") 1 900
    ∷ evict (lit "db")
    ∷ []

pub fresh-IsSound : IsSound fresh
fresh-IsSound = record {
  is_open = λ n c h. cc;
  one_name = λ n m c d h k same. cc;
  is_watched = λ n c h. cc;
}

turns-AreOwn : AreOwn turns fresh
turns-AreOwn = (record { not_closed = refl; not_cached = λ n c h. cc }, (tt, (tt, (tt, (tt, tt)))))

run-IsSound_example : IsSound (run turns fresh)
run-IsSound_example = run-IsSound turns fresh fresh-IsSound turns-AreOwn

-- A browser that notes the connections that it opens. Its database lacks an object store at first.
abbrev noting : Browser
noting = record {
  Env = ℕ × List Database;
  now = λ e. (e.0, (e.0 + 1, e.1));
  factory = λ e. (none, e);
  open_latest_version = λ name e.
      let found : Database = record { handle = 7; version = 1; object_store_names = [] } in
      (some found, (e.0, found ∷ e.1));
  upgrade = λ name version missing e. (opened database, (e.0, database ∷ e.1));
  fault = λ db e. (none, e);
  to_string = λ e. "fault";
}

abbrev notes : Logs noting main_core
notes = record {
  log = λ e. e.1;
  clock = λ e. refl;
  factory = λ e. refl;
  fault = λ db e. refl;
  latest = λ e. refl;
  upgrade = λ version e. refl;
}

abbrev first_visit : World (ℕ × List Database) Shelf
first_visit = record { env = (9, []); realm = fresh; stores = one }

abbrev visited : Result (Unit {0}) × World (ℕ × List Database) Shelf
visited =
    run_transaction noting Shelf main_core read_write (rename_txn shelf ext here there) first_visit

run_transaction-Accounted_example :
    AllAccounted noting Shelf main_core notes visited.1.env visited.1.realm
run_transaction-Accounted_example =
    run_transaction-Accounted noting Shelf main_core notes read_write
      (rename_txn shelf ext here there) first_visit tt

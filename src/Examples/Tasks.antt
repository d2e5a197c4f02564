-- ===== src/Examples/Tasks.antt =====
-- Two tasks of a realm that want the same database, and a browser that numbers its connections.
use opendal_indexeddb.Base.{ℕ, ◌≡◌, ◌≢◌, ◌+◌, ◌⊎◌, refl, ap, none, some, arith, lit}
use opendal_indexeddb.Connection.Cache.{cache_connection}
use opendal_indexeddb.Connection.Locks.{owner_of, upgrade_lock}
use opendal_indexeddb.Connection.Open.{Browser, opened}
use opendal_indexeddb.Core.Move.{rename_txn}
use opendal_indexeddb.Core.Transaction.{look_up, read_write, run_transaction}
use opendal_indexeddb.Core.Transaction.Interleavings.Fresh.{
  Numbers, IsFresh, run_transaction-IsFresh,
}
use opendal_indexeddb.Core.Transaction.Tasks.{
  outside, waiting, opening, look_missing, missing_under_lock, System, Step, pick, Reach, start,
  later,
}
use opendal_indexeddb.Core.Transaction.Tasks.Exclusive.{one_opens, opening-replaces_nothing}
use opendal_indexeddb.Core.Transaction.Tasks.Held.{IsOpening}
use opendal_indexeddb.Core.Transaction.Tasks.Progress.{behind_lock, waiting_proceeds}
use opendal_indexeddb.Examples.Objects.{ext, here, there}
use opendal_indexeddb.Examples.Realm.{fresh-IsSound}
use opendal_indexeddb.Examples.Service.{main_core, database, world, fresh}
use opendal_indexeddb.Examples.Shelf.{Shelf, shelf}

-- The first task has the lock, the second one waits for it.
contended : (s : System) × Reach fresh s
unfolding look_up upgrade_lock
contended = (
  _,
  later
      (later (later start (pick 0 (look_missing main_core 3 4 refl)))
        (pick 1 (look_missing main_core 5 6 refl)))
      (pick 0 (missing_under_lock main_core 7 8 refl refl)),
)

one_opens_example : contended.0.stage 1 ≢ opening main_core
unfolding contended
one_opens_example = one_opens contended.1 0 1 (λ e. cc) refl refl

opening-replaces_nothing_example :
    (contended.0.shared.realm.cache (lit "db") ≡ none)
    × ((cache_connection
          (lit "db")
          database
          database.object_store_names
          9
          contended.0.shared.realm).closed
        ≡ contended.0.shared.realm.closed)
unfolding contended
opening-replaces_nothing_example = opening-replaces_nothing contended.1 0 refl database 9

waiting_proceeds_example :
    (u : System) × (u.stage 1 ≡ behind_lock main_core 10 11 contended.0.shared.realm)
    × (((owner_of contended.0.shared.locks (lit "db") ≡ none) × Step contended.0 u)
        ⊎ ((j : ℕ) × (v : System) × (owner_of contended.0.shared.locks (lit "db") ≡ some j)
            × IsOpening (lit "db") (contended.0.stage j)
            × Step contended.0 v
            × (v.stage j ≡ outside)
            × (v.stage 1 ≡ waiting main_core)
            × (owner_of v.shared.locks (lit "db") ≡ none)
            × Step v u))
unfolding contended
waiting_proceeds_example = waiting_proceeds contended.1 1 main_core 10 11 refl

-- A browser whose connections are numbered by the time at which they are opened.
abbrev numbering : Browser
numbering = record {
  Env = ℕ;
  now = λ t. (t, t + 1);
  factory = λ t. (none, t);
  open_latest_version = λ name t. (some (record database { handle = t }), t + 1);
  upgrade = λ name version missing t. (opened (record database { handle = t }), t + 1);
  fault = λ db t. (none, t);
  to_string = λ e. "fault";
}

numbered : Numbers numbering main_core
numbered = record {
  next = λ t. t;
  clock = λ t. omega arith;
  factory = λ t. omega arith;
  fault = λ db t. omega arith;
  latest = λ t. omega arith;
  latest_new = λ t db e.
      let same : record database { handle = t } ≡ db = cc in
      let number : t ≡ db.handle = ap (λ d. d.handle) same in (omega arith, omega arith);
  upgrade = λ version t. omega arith;
  upgrade_new = λ version t db e.
      let same : record database { handle = t } ≡ db = cc in
      let number : t ≡ db.handle = ap (λ d. d.handle) same in (omega arith, omega arith);
}

run_transaction-IsFresh_example :
    IsFresh
      (numbered.next
        (run_transaction numbering Shelf main_core read_write
          (rename_txn shelf ext here there)
          world).1.env)
      (run_transaction numbering Shelf main_core read_write
        (rename_txn shelf ext here there)
        world).1.realm
run_transaction-IsFresh_example =
    run_transaction-IsFresh numbering Shelf main_core numbered read_write
      (rename_txn shelf ext here there) world
      (record {
        sound = fresh-IsSound;
        below = record { cached = λ name c e. cc; closed = λ db above. refl };
      })

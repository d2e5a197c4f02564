-- ===== src/Core/Transaction/Tasks.antt =====
-- Tasks of a realm that share its connection cache and its upgrade locks: `ensure_cached_client` and
-- `cached_transaction` of src/backend/core.rs, cut where a task awaits.
pub mod Absent
pub mod Alone
pub mod Exclusive
pub mod Held
pub mod Progress
use opendal_indexeddb.Base.{Str, true, false, none, some, ℕ, List, ◌≡◌, ◌==◌, if◌then◌else◌}
use opendal_indexeddb.Connection.Cache.{
  Database, Realm, close, evict_cached_connection, cache_connection, cleanup_check,
}
use opendal_indexeddb.Connection.Locks.{Locks, set_lock, upgrade_lock, owner_of}
use opendal_indexeddb.Connection.Open.{IndexeddbCore}
use opendal_indexeddb.Core.Transaction.{look_up}

-- Where a task stands: outside `ensure_cached_client`, waiting there for the upgrade lock, or holding
-- it, in `open_client`.
pub data Stage : Type 0 where
  outside : Stage
  waiting opening : IndexeddbCore → Stage

pub record Shared : Type 0 where
  pub realm : Realm
  pub locks : Locks

-- What task `t` does between two awaits.
pub data TaskMove (t : ℕ) (m : Shared) : Stage → Shared → Stage → Type 0 where
  -- `if self.cached_client_has_stores() { return Ok(()); }`
  look_found :
      (core : IndexeddbCore) (now later : ℕ)
      → (look_up core true now later m.realm).0 ≡ true
      → TaskMove t m outside (record m { realm = (look_up core true now later m.realm).1 }) outside
  -- `upgrade_lock(&self.db_name)`
  look_missing :
      (core : IndexeddbCore) (now later : ℕ)
      → (look_up core true now later m.realm).0 ≡ false
      → TaskMove t m outside
          (record m {
            realm = (look_up core true now later m.realm).1;
            locks = upgrade_lock core.db_name m.locks;
          })
          (waiting core)
  -- Under the lock, which the early return gives back.
  found_under_lock :
      (core : IndexeddbCore) (now later : ℕ)
      → owner_of m.locks core.db_name ≡ none
      → (look_up core true now later m.realm).0 ≡ true
      → TaskMove t m
          (waiting core)
          (record m {
            realm = (look_up core true now later m.realm).1;
            locks = set_lock core.db_name none m.locks;
          })
          outside
  missing_under_lock :
      (core : IndexeddbCore) (now later : ℕ)
      → owner_of m.locks core.db_name ≡ none
      → (look_up core true now later m.realm).0 ≡ false
      → TaskMove t m
          (waiting core)
          (record m {
            realm = evict_cached_connection core.db_name (look_up core true now later m.realm).1;
            locks = set_lock core.db_name (some t) m.locks;
          })
          (opening core)
  -- In `open_client`, in any order.
  evict_again :
      (core : IndexeddbCore)
      → TaskMove t m
          (opening core)
          (record m { realm = evict_cached_connection core.db_name m.realm })
          (opening core)
  close_own :
      (core : IndexeddbCore) (db : Database)
      → TaskMove t m (opening core) (record m { realm = close db m.realm }) (opening core)
  -- `self.open_client().await?`, or the task is dropped there.
  open_failed :
      (core : IndexeddbCore)
      → TaskMove t m
          (opening core)
          (record m { locks = set_lock core.db_name none m.locks })
          outside
  -- `cache_connection(&self.db_name, db, object_store_names)`
  open_done :
      (core : IndexeddbCore) (db : Database) (now : ℕ)
      → TaskMove t m
          (opening core)
          (record m {
            realm = cache_connection core.db_name db db.object_store_names now m.realm;
            locks = set_lock core.db_name none m.locks;
          })
          outside
  -- `cached_transaction`
  transact :
      (core : IndexeddbCore) (now later : ℕ)
      → TaskMove t m outside (record m { realm = (look_up core false now later m.realm).1 }) outside
  -- Behind a transaction that was not to be had, or whose connection was stale.
  evict_stale :
      (name : Str)
      → TaskMove t m outside (record m { realm = evict_cached_connection name m.realm }) outside
  -- A cleanup task.
  wake :
      (name : Str) (generation now : ℕ)
      → TaskMove t m outside
          (record m { realm = (cleanup_check name generation now m.realm).0 })
          outside

pub record System : Type 0 where
  pub shared : Shared
  pub stage : ℕ → Stage

abbrev pub set_stage : ℕ → Stage → (ℕ → Stage) → ℕ → Stage
set_stage t p stage j = if t == j then p else stage j

pub data Step (s : System) : System → Type 0 where
  pick :
      (t : ℕ) {m : Shared} {p : Stage}
      → TaskMove t s.shared (s.stage t) m p
      → Step s (record { shared = m; stage = set_stage t p s.stage })

-- A realm whose tasks are all to begin, with no lock yet.
abbrev pub begin : Realm → System
begin realm = record {
  shared = record { realm = realm; locks = λ name. none };
  stage = λ t. outside;
}

pub data Reach (realm : Realm) : System → Type 0 where
  start : Reach realm (begin realm)
  later : {s t : System} → Reach realm s → Step s t → Reach realm t

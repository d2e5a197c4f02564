-- ===== src/Connection/Open.antt =====
-- Opening the database and running a transaction: `open_client`, `ensure_cached_client` and
-- `run_transaction` of src/backend/core.rs, with the errors of the `indexed-db` crate.
use opendal_indexeddb.Base.{
  ◌⊎◌, inl, inr, Str, Bool, true, false, Option, none, some, ℕ, zero, suc, ◌+◌, List, [], ◌∷◌, ◌++◌,
  ◌&&◌, ◌||◌, String, str_eq, error, Error, unexpected, with_context, ok, err, if◌then◌else◌,
}
use opendal_indexeddb.Base.Exec.{Exec, pure, raise, ◌>>=◌, ◌>>◌}
use opendal_indexeddb.Connection.Cache.{Database, Realm, close, evict_cached_connection}
use opendal_indexeddb.Idb.{Stores}

-- The errors of IndexedDB itself.
pub data Fault : Type 0 where
  database_is_closed does_not_exist object_store_was_removed version_too_old : Fault
  other : String → Fault

-- `indexed_db::Error`: one of those, or an error that a transaction's body returned.
pub data IdbError : Type 0 where
  user : Error → IdbError
  idb : Fault → IdbError

pub record IndexeddbCore : Type 0 where
  pub db_name : Str
  pub object_store_name : Str
  pub meta_store_name : Str

-- `select(open, timeout)`
pub data OpenResult : Type 0 where
  opened : Database → OpenResult
  failed : Fault → OpenResult
  timed_out : OpenResult

-- The browser: its clock, its database factory, and the faults that end a transaction.
pub record Browser : Type 1 where
  pub Env : Type 0
  -- `Date::now()`
  pub now : Env → ℕ × Env
  -- `Factory::get()`, and the error where there is no IndexedDB
  pub factory : Env → Option Fault × Env
  -- `factory.open_latest_version(name).await.ok()`
  pub open_latest_version : Str → Env → Option Database × Env
  -- `factory.open(name, version, callback)`; the callback says which object stores to create, of
  -- those that there are
  pub upgrade : Str → ℕ → (List Str → List Str) → Env → OpenResult × Env
  -- an error of IndexedDB itself, which ends the transaction at hand on that connection
  pub fault : Database → Env → Option Fault × Env
  -- `err.to_string()`
  pub to_string : Fault → String

pub record World (E S : Type 0) : Type 0 where
  pub env : E
  pub realm : Realm
  pub stores : Stores S

unfoldable pub is_stale_connection_error : IdbError → Bool
is_stale_connection_error (idb database_is_closed) = true
is_stale_connection_error (idb does_not_exist) = true
is_stale_connection_error (idb object_store_was_removed) = true
is_stale_connection_error _ = false

abbrev pub contains_name : List Str → Str → Bool
contains_name [] name = false
contains_name (n ∷ names) name = str_eq n name || contains_name names name

unfoldable pub stores_exist_in : IndexeddbCore → List Str → Bool
stores_exist_in core names =
    contains_name names core.object_store_name && contains_name names core.meta_store_name

-- The object stores that the upgrade creates.
unfoldable pub missing_stores : IndexeddbCore → List Str → List Str
missing_stores core names =
    (if contains_name names core.object_store_name then [] else core.object_store_name ∷ [])
    ++ (if contains_name names core.meta_store_name then [] else core.meta_store_name ∷ [])

-- What an attempt to upgrade that is no error came to.
pub data Attempt : Type 0 where
  got : Database → Attempt
  again : Attempt

module _ (b : Browser) (S : Type 0) where
  open b use {Env, to_string}

  abbrev pub W : Type 0
  W = World Env S

  unfoldable pub parse_txn_error : IdbError → Error
  parse_txn_error (user e) = e
  parse_txn_error (idb e) = error unexpected (to_string e)

  unfoldable pub date_now : Exec W ℕ
  date_now w = let (t, env) = b.now w.env in (ok t, record w { env = env })

  unfoldable pub in_realm : (Realm → Realm) → Exec W (Unit {0})
  in_realm f w = (ok tt, record w { realm = f w.realm })

  -- `Factory::get().map_err(..)?`
  unfoldable pub get_factory : Exec W (Unit {0})
  get_factory w =
      let (fault, env) = b.factory w.env in
      let w' : W = record w { env = env } in
      elim fault [ none ↦ (ok tt, w') | some e ↦ (err (error unexpected (to_string e)), w') ]

  unfoldable pub latest_version : Str → Exec W (Option Database)
  latest_version name w =
      let (db, env) = b.open_latest_version name w.env in (ok db, record w { env = env })

  unfoldable pub open_version : IndexeddbCore → ℕ → Exec W OpenResult
  open_version core version w =
      let (r, env) = b.upgrade core.db_name version (missing_stores core) w.env in
      (ok r, record w { env = env })

  unfoldable pub open_if_stores_exist : IndexeddbCore → Exec W (Option Database)
  unfolding latest_version stores_exist_in in_realm
  open_if_stores_exist core = do
    found ← latest_version core.db_name
    elim found [
      | none ↦ pure none
      | some db ↦
          if stores_exist_in core db.object_store_names
          then pure (some db)
          else (in_realm (close db) >> pure none)
    ]

  -- The version to ask for: the database as it stands, or the next version of it.
  unfoldable pub next_version : IndexeddbCore → Exec W (Database ⊎ ℕ)
  unfolding latest_version stores_exist_in in_realm
  next_version core = do
    found ← latest_version core.db_name
    elim found [
      | none ↦ pure (inr 1)
      | some db ↦
          if stores_exist_in core db.object_store_names
          then pure (inl db)
          else (in_realm (close db) >> pure (inr (db.version + 1)))
    ]

  -- The match on the result of `open`.
  unfoldable pub after_open : IndexeddbCore → OpenResult → Exec W Attempt
  unfolding stores_exist_in in_realm
  after_open core (opened db) =
      if stores_exist_in core db.object_store_names
      then pure (got db)
      else (in_realm (close db) >> pure again)
  after_open core (failed version_too_old) = pure again
  after_open core (failed e) =
      raise (with_context "db_name" core.db_name (error unexpected (to_string e)))
  after_open core timed_out = raise (
      with_context "db_name" core.db_name (
        error unexpected
          "indexeddb version upgrade timed out: another connection is blocking the upgrade"))

  unfoldable pub upgrade_attempt : IndexeddbCore → Exec W Attempt
  unfolding next_version open_version after_open
  upgrade_attempt core = do
    version ← next_version core
    elim version [
      | inl db ↦ pure (got db)
      | inr new_version ↦ open_version core new_version >>= after_open core
    ]

  -- `for _ in 0..8`
  unfoldable pub upgrade_rounds : ℕ → IndexeddbCore → Exec W Database
  upgrade_rounds zero core = raise (
      with_context "db_name" core.db_name (
        error unexpected "failed to open indexeddb database: too many concurrent version upgrades"))
  upgrade_rounds (suc rounds) core = do
    attempt ← upgrade_attempt core
    elim attempt [ got db ↦ pure db | again ↦ upgrade_rounds rounds core ]

  unfoldable pub open_client : IndexeddbCore → Exec W Database
  unfolding get_factory in_realm
  open_client core = do
    get_factory
    found ← open_if_stores_exist core
    elim found [
      | some db ↦ pure db
      | none ↦ do in_realm (evict_cached_connection core.db_name); upgrade_rounds 8 core
    ]

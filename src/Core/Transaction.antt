-- ===== src/Core/Transaction.antt =====
-- `ensure_cached_client`, `cached_transaction` and `run_transaction` of src/backend/core.rs. A
-- transaction sees both stores; one that fails leaves them as they were. A call is one action here:
-- nothing else of the realm runs between its steps, and Tasks has the upgrade lock.
pub mod Atomic
pub mod Working
pub mod Runs
pub mod Attempts
pub mod Interleavings
pub mod Tasks
pub mod Keeper
use opendal_indexeddb.Base.{
  ◌⊎◌, inl, inr, ◌&&◌, Str, Bool, true, false, Option, none, some, ℕ, zero, suc, Error, error,
  unexpected, with_context, Result, ok, err, if◌then◌else◌,
}
use opendal_indexeddb.Base.Exec.{Exec, pure, raise, ◌>>=◌, ◌>>◌}
use opendal_indexeddb.Connection.Cache.{
  Database, CachedConnection, Realm, set_entry, close, cache_connection, cached_connection_expired,
  evict_cached_connection,
}
use opendal_indexeddb.Connection.Open.{
  Browser, IndexeddbCore, World, IdbError, user, idb, is_stale_connection_error, parse_txn_error,
  stores_exist_in, date_now, in_realm, open_client,
}
use opendal_indexeddb.Core.Entry.{Txn}
use opendal_indexeddb.Idb.{Stores}

-- How the crate gets at a transaction: for reading, or for both.
pub data Mode : Type 0 where
  read_only read_write : Mode

-- `indexed_db::TransactionBuilder`: the connection and the mode of a transaction over both stores.
pub record TransactionBuilder : Type 0 where
  pub db : Database
  pub mode : Mode

-- The transaction on a connection that the cache has.
abbrev pub transaction_on : Bool → Option CachedConnection → Mode → Option TransactionBuilder
transaction_on true (some cached) mode = some (record { db = cached.db; mode = mode })
transaction_on true none mode = none
transaction_on false cached mode = none

-- What one attempt of the loop that is no error came to.
pub data Round (A : Type 0) : Type 0 where
  returned : A → Round A
  refresh : Round A

unfoldable pub drop_expired : Str → CachedConnection → Realm → Realm
drop_expired name cached realm = close cached.db (set_entry name none realm)

unfoldable pub touch : Str → CachedConnection → ℕ → Realm → Realm
touch name cached now realm = set_entry name (some (record cached { last_used_ms = now })) realm

-- What the cache says of the connection, and the cache afterwards. `touch_first` tells the two uses
-- apart: `cached_client_has_stores` marks the connection as used before it looks at its stores,
-- `cached_transaction` behind it.
unfoldable pub look_up : IndexeddbCore → Bool → ℕ → ℕ → Realm → Bool × Realm
unfolding drop_expired touch cached_connection_expired
look_up core touch_first now later realm = elim (realm.cache core.db_name) [
  | none ↦ (false, realm)
  | some cached ↦
      if cached_connection_expired now cached
      then (false, drop_expired core.db_name cached realm)
      else if stores_exist_in core cached.object_store_names
      then (true, touch core.db_name cached later realm)
      else (false, if touch_first then touch core.db_name cached later realm else realm)
]

module _ (b : Browser) (S : Type 0) where
  open b use {Env}

  abbrev W : Type 0
  W = World Env S

  -- The clock is looked at twice, also where the cache needs only one look, or none.
  unfoldable pub cached_client_has_stores : IndexeddbCore → Exec W Bool
  unfolding date_now look_up
  cached_client_has_stores core = do
    now ← date_now b S
    later ← date_now b S
    λ w.
        let (found, realm) = look_up core true now later w.realm in
        (ok found, record w { realm = realm })

  -- The transaction on the cached connection, in the mode that was asked for, where there is one.
  unfoldable pub cached_transaction : IndexeddbCore → Mode → Exec W (Option TransactionBuilder)
  unfolding date_now look_up
  cached_transaction core mode = do
    now ← date_now b S
    later ← date_now b S
    λ w.
        let (found, realm) = look_up core false now later w.realm in
        (ok (transaction_on found (w.realm.cache core.db_name) mode), record w { realm = realm })

  -- The part of `ensure_cached_client` that opens the database and caches the connection.
  unfoldable pub reopen : IndexeddbCore → Exec W (Unit {0})
  reopen core = do
    in_realm b S (evict_cached_connection core.db_name)
    db ← open_client b S core
    now ← date_now b S
    in_realm b S (cache_connection core.db_name db db.object_store_names now)

  unfoldable pub ensure_cached_client : IndexeddbCore → Exec W (Unit {0})
  ensure_cached_client core = do
    ready ← cached_client_has_stores core
    elim ready [
      | true ↦ pure tt
      | false ↦ do
        ready_now ← cached_client_has_stores core
        elim ready_now [ true ↦ pure tt | false ↦ reopen core ]
    ]

  -- `transaction.run(make())`: a fault of IndexedDB aborts it, an error of the body does too.
  unfoldable pub run_body : {A : Type 0} → TransactionBuilder → Txn S A → W → (A ⊎ IdbError) × W
  run_body transaction body w =
      let (fault, env) = b.fault transaction.db w.env in
      let w' : W = record w { env = env } in
      elim fault [
        | some e ↦ (inr (idb e), w')
        | none ↦ elim (body w.stores) [
          | ok (a, stores) ↦ (inl a, record w' { stores = stores })
          | err e ↦ (inr (user e), w')
        ]
      ]

  -- The match on the result; only the first attempt retries, and only on a stale connection.
  unfoldable pub after_run :
      {A : Type 0} → IndexeddbCore → Bool → (A ⊎ IdbError) × W → Result (Round A) × W
  unfolding in_realm parse_txn_error
  after_run core first (inl a, w) = (ok (returned a), w)
  after_run core first (inr e, w) =
      if first && is_stale_connection_error e
      then (in_realm b S (evict_cached_connection core.db_name) >>= λ _. pure refresh) w
      else (err (parse_txn_error b S e), w)

  unfoldable pub round : {A : Type 0} → IndexeddbCore → Mode → Bool → Txn S A → Exec W (Round A)
  round core mode first body = do
    ensure_cached_client core
    transaction ← cached_transaction core mode
    elim transaction [
      | none ↦ in_realm b S (evict_cached_connection core.db_name) >> pure refresh
      | some transaction ↦ λ w. after_run core first (run_body transaction body w)
    ]

  -- Behind the second attempt.
  unfoldable pub last_round : {A : Type 0} → IndexeddbCore → Round A → Exec W A
  last_round core (returned a) = pure a
  last_round core refresh = raise (
      with_context "db_name" core.db_name
        (error unexpected "failed to run indexeddb transaction after refreshing cached connection"))

  -- Behind the first attempt.
  unfoldable pub next_round : {A : Type 0} → IndexeddbCore → Mode → Txn S A → Round A → Exec W A
  next_round core mode body (returned a) = pure a
  next_round core mode body refresh = round core mode false body >>= last_round core

  -- `for attempt in 0..2`
  unfoldable pub run_transaction : {A : Type 0} → IndexeddbCore → Mode → Txn S A → Exec W A
  run_transaction core mode body = round core mode true body >>= next_round core mode body

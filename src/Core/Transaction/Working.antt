-- ===== src/Core/Transaction/Working.antt =====
-- A browser that works, and `open_client` of src/backend/core.rs in it: the database may be there with both
-- object stores, without them, or not at all.
use opendal_indexeddb.Base.{
  true, false, Option, none, some, ℕ, suc, ◌+◌, ◌≤◌, ◌≡◌, refl, ◌∙◌, ok, err, Result, Bool-cases,
  Option-cases, inl, inr,
}
use opendal_indexeddb.Base.Exec.{Exec, continue}
use opendal_indexeddb.Connection.Cache.{Database, connection_cache_ttl_ms, evict_cached_connection}
use opendal_indexeddb.Connection.Open.{Fault, idb, is_stale_connection_error}
use opendal_indexeddb.Connection.Open.{
  Browser, IndexeddbCore, World, opened, Attempt, got, again, stores_exist_in, missing_stores,
  in_realm, latest_version, open_version, get_factory, open_if_stores_exist, next_version,
  after_open, upgrade_attempt, upgrade_rounds, open_client,
}

-- The database is not there, or not with both object stores.
abbrev pub Lacks : IndexeddbCore → Option Database → Type 0
Lacks core none = Unit
Lacks core (some db) = stores_exist_in core db.object_store_names ≡ false

-- The version that comes behind the one that was found.
abbrev pub version_behind : Option Database → ℕ
version_behind none = 1
version_behind (some db) = db.version + 1

-- A browser that opens connections: it has IndexedDB, the upgrade of a database that lacks an object
-- store, to the version behind the one that was just found, ends with a connection that sees both, and
-- less than the time to live passes from one look at the clock to the next.
pub record CanOpen (b : Browser) (core : IndexeddbCore) : Type 0 where
  pub has_factory : (e : b.Env) → (b.factory e).0 ≡ none
  pub upgrades :
      (e : b.Env)
      → Lacks core (b.open_latest_version core.db_name e).0
      → (db : Database) × ((b.upgrade core.db_name
            (version_behind (b.open_latest_version core.db_name e).0)
            (missing_stores core)
            (b.open_latest_version core.db_name e).1).0
          ≡ opened db)
        × (stores_exist_in core db.object_store_names ≡ true)
  pub steady : (e : b.Env) → (b.now (b.now e).1).0 ≤ (b.now e).0 + connection_cache_ttl_ms

-- A browser that works: it opens connections, and one that it just opened is live, and stays so while
-- the clock is looked at. The only faults that end a transaction say that its connection is stale, and
-- a live connection has none. Nothing is said of a connection that was opened before.
pub record IsWorking (b : Browser) (core : IndexeddbCore) : Type 1 where
  pub can_open : CanOpen b core
  -- a transaction on the connection meets no fault
  pub Live : Database → b.Env → Type 0
  pub live : (db : Database) (e : b.Env) → Live db e → (b.fault db e).0 ≡ none
  pub stale :
      (db : Database) (e : b.Env) (fault : Fault)
      → (b.fault db e).0 ≡ some fault
      → is_stale_connection_error (idb fault) ≡ true
  pub live_now : (db : Database) (e : b.Env) → Live db e → Live db (b.now e).1
  pub live_latest :
      (db : Database) (e : b.Env)
      → (b.open_latest_version core.db_name e).0 ≡ some db
      → Live db (b.open_latest_version core.db_name e).1
  pub live_upgrade :
      (db : Database) (version : ℕ) (e : b.Env)
      → (b.upgrade core.db_name version (missing_stores core) e).0 ≡ opened db
      → Live db (b.upgrade core.db_name version (missing_stores core) e).1

module _ (b : Browser) (S : Type 0) (core : IndexeddbCore) where
  abbrev W : Type 0
  W = World b.Env S

  abbrev HasBoth : Database → Type 0
  HasBoth db = stores_exist_in core db.object_store_names ≡ true

  -- A connection that sees both object stores, with the contents of the stores as they were.
  abbrev pub Opened : W → Result Database × W → Type 0
  Opened w (ok db, w') = HasBoth db × (w'.stores ≡ w.stores)
  Opened w (err e, w') = ⊥

  abbrev Got : W → Result Attempt × W → Type 0
  Got w (ok (got db), w') = HasBoth db × (w'.stores ≡ w.stores)
  Got w (ok again, w') = ⊥
  Got w (err e, w') = ⊥

  abbrev FoundFor : W → Result (Option Database) × W → Type 0
  FoundFor w (ok (some db), w') = HasBoth db × (w'.stores ≡ w.stores)
  FoundFor w (ok none, w') = w'.stores ≡ w.stores
  FoundFor w (err e, w') = ⊥

  open_if_stores_exist-FoundFor : (w : W) → FoundFor w (open_if_stores_exist b S core w)
  unfolding open_if_stores_exist latest_version in_realm
  open_if_stores_exist-FoundFor w =
      elim (Option-cases (b.open_latest_version core.db_name w.env).0) [
        | inl e ↦ rw (open_if_stores_exist, e) refl
        | inr (db, e) ↦ elim (Bool-cases (stores_exist_in core db.object_store_names)) [
          | inl there ↦ rw (open_if_stores_exist, e, there) (there, refl)
          | inr missing ↦ rw (open_if_stores_exist, e, missing) refl
        ]
      ]

  module _ (h : CanOpen b core) where
    upgrade_attempt-Got : (w : W) → Got w (upgrade_attempt b S core w)
    unfolding upgrade_attempt next_version latest_version in_realm open_version after_open
    upgrade_attempt-Got w = elim (Option-cases (b.open_latest_version core.db_name w.env).0) [
      | inl e ↦
          let (db, up, there) = h.upgrades w.env (rw e tt) in
          rw (upgrade_attempt, e, (rw e at up), there) (there, refl)
      | inr (found, e) ↦ elim (Bool-cases (stores_exist_in core found.object_store_names)) [
        | inl there ↦ rw (upgrade_attempt, e, there) (there, refl)
        | inr missing ↦
            let (db, up, there) = h.upgrades w.env (rw e missing) in
            rw (upgrade_attempt, e, missing, (rw e at up), there) (there, refl)
      ]
    ]

    got-Opened :
        (w w' : W) (r : Result Attempt × W) (rounds : Exec W Database)
        → w'.stores ≡ w.stores
        → Got w' r
        → Opened w (continue r (elim [ got db ↦ (λ w''. (ok db, w'')) | again ↦ rounds ]))
    got-Opened w w' (ok (got db), w'') rounds e (there, kept) = (there, kept ∙ e)
    got-Opened w w' (ok again, w'') rounds e g = absurd g
    got-Opened w w' (err error, w'') rounds e g = absurd g

    upgrade_rounds-Opened :
        (n : ℕ) (w w' : W) → w'.stores ≡ w.stores → Opened w (upgrade_rounds b S (suc n) core w')
    unfolding upgrade_rounds
    upgrade_rounds-Opened n w w' e =
        got-Opened w w' (upgrade_attempt b S core w') _ e (upgrade_attempt-Got w')

    found-Opened :
        (w w' : W) (r : Result (Option Database) × W)
        → w'.stores ≡ w.stores
        → FoundFor w' r
        → Opened w (
            continue r (elim [
              | some db ↦ (λ w''. (ok db, w''))
              | none ↦ (λ w''.
                  upgrade_rounds b S 8 core
                    (record w'' { realm = evict_cached_connection core.db_name w''.realm }))
            ]))
    found-Opened w w' (ok (some db), w'') e (there, kept) = (there, kept ∙ e)
    found-Opened w w' (ok none, w'') e kept =
        upgrade_rounds-Opened 7 w
          (record w'' { realm = evict_cached_connection core.db_name w''.realm }) (kept ∙ e)
    found-Opened w w' (err error, w'') e f = absurd f

    pub open_client-Opened : (w : W) → Opened w (open_client b S core w)
    unfolding open_client get_factory in_realm
    open_client-Opened w =
        let w' : W = record w { env = (b.factory w.env).1 } in
        rw (open_client, get_factory, h.has_factory w.env)
          (found-Opened w w' (open_if_stores_exist b S core w') refl
            (open_if_stores_exist-FoundFor w'))

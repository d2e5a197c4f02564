-- ===== src/Core/Transaction/Interleavings/Covers.antt =====
-- The calls of src/backend/core.rs lose no connection that an open returns to them.
use opendal_indexeddb.Base.{
  Bool, true, false, Option, none, some, ℕ, ◌≡◌, refl, sym, ap, ◌∙◌, subst, ◌⊎◌, inl, inr, List,
  ◌∷◌,
}
use opendal_indexeddb.Base.{All, All-map}
use opendal_indexeddb.Connection.Cache.{
  Database, Realm, cache_connection, close, evict_cached_connection,
}
use opendal_indexeddb.Connection.Open.{
  Browser, IndexeddbCore, World, OpenResult, opened, failed, timed_out, missing_stores,
}
use opendal_indexeddb.Core.Entry.{Txn}
use opendal_indexeddb.Core.Transaction.{Mode, look_up, run_transaction}
use opendal_indexeddb.Core.Transaction.Attempts.{cache_connection-at_key}
use opendal_indexeddb.Core.Transaction.Interleavings.{look, evict, insert, act}
use opendal_indexeddb.Core.Transaction.Interleavings.Accounted.{
  Accounted, act-Accounted, close-Accounted, closes-Accounted,
}
use opendal_indexeddb.Core.Transaction.Keeper.{Keeper, Opener}
use opendal_indexeddb.Core.Transaction.Keeper.Ensures.{ensure_cached_client-Yields}
use opendal_indexeddb.Core.Transaction.Keeper.Rounds.{run_transaction-Kept}

-- The connections opened so far, behind `open_latest_version` and behind `open`.
abbrev pub behind_latest : Option Database → List Database → List Database
behind_latest none dbs = dbs
behind_latest (some db) dbs = db ∷ dbs

abbrev pub behind_open : OpenResult → List Database → List Database
behind_open (opened db) dbs = db ∷ dbs
behind_open (failed fault) dbs = dbs
behind_open timed_out dbs = dbs

-- A log of all connections that the opens of a browser return.
pub record Logs (b : Browser) (core : IndexeddbCore) : Type 0 where
  pub log : b.Env → List Database
  pub clock : (e : b.Env) → log (b.now e).1 ≡ log e
  pub factory : (e : b.Env) → log (b.factory e).1 ≡ log e
  pub fault : (db : Database) (e : b.Env) → log (b.fault db e).1 ≡ log e
  pub latest :
      (e : b.Env)
      → log (b.open_latest_version core.db_name e).1
        ≡ behind_latest (b.open_latest_version core.db_name e).0 (log e)
  pub upgrade :
      (version : ℕ) (e : b.Env)
      → log (b.upgrade core.db_name version (missing_stores core) e).1
        ≡ behind_open (b.upgrade core.db_name version (missing_stores core) e).0 (log e)

behind_open-none :
    (r : OpenResult) (dbs : List Database)
    → ((db : Database) → r ≡ opened db → ⊥)
    → behind_open r dbs ≡ dbs
behind_open-none (opened db) dbs none_opened = absurd (none_opened db refl)
behind_open-none (failed fault) dbs none_opened = refl
behind_open-none timed_out dbs none_opened = refl

-- A connection is accounted for, or it is the one at hand.
abbrev AccountedBut : Database → Realm → Database → Type 0
AccountedBut own x db = Accounted x db ⊎ (own ≡ db)

-- The connection that is cached is accounted for.
inserted-Accounted :
    (core : IndexeddbCore) (now : ℕ) (own : Database) (x : Realm) (db : Database)
    → AccountedBut own x db
    → Accounted (cache_connection core.db_name own own.object_store_names now x) db
unfolding act
inserted-Accounted core now own x db (inl h) =
    act-Accounted db (insert core.db_name own own.object_store_names now) x h
inserted-Accounted core now own x db (inr e) =
    inl (core.db_name, _, cache_connection-at_key core.db_name own own.object_store_names now x, e)

closed-Accounted :
    (own : Database) (x : Realm) (db : Database)
    → AccountedBut own x db
    → Accounted (close own x) db
closed-Accounted own x db (inl h) = close-Accounted db own x h
closed-Accounted own x db (inr e) = closes-Accounted db own x e

module _ (b : Browser) (S : Type 0) (core : IndexeddbCore) (logs : Logs b core) where
  open logs use {log}

  abbrev pub AllAccounted : b.Env → Realm → Type 0
  AllAccounted e x = All (Accounted x) (log e)

  evicts-Accounted :
      (db : Database) (x : Realm)
      → Accounted x db
      → Accounted (evict_cached_connection core.db_name x) db
  unfolding act
  evicts-Accounted db x h = act-Accounted db (evict core.db_name) x h

  looks-Accounted :
      (touch_first : Bool) (now later : ℕ) (x : Realm) (db : Database)
      → Accounted x db
      → Accounted (look_up core touch_first now later x).1 db
  unfolding act
  looks-Accounted touch_first now later x db h =
      act-Accounted db (look core touch_first now later) x h

  abbrev keeps_accounted : Keeper b core
  keeps_accounted = record {
    Holds = AllAccounted;
    read_clock = λ e x h. subst (All (Accounted x)) (sym (logs.clock e)) h;
    evict = λ e x h. All-map _ _ (log e) (λ db a. evicts-Accounted db x a) h;
  }

  -- The log behind an open, where there was a connection.
  with_own :
      (own : Database) (x : Realm) (dbs after : List Database)
      → after ≡ own ∷ dbs
      → All (Accounted x) dbs
      → All (AccountedBut own x) after
  with_own own x dbs after e h =
      subst (All (AccountedBut own x)) (sym e) (inr refl, All-map _ _ dbs (λ db a. inl a) h)

  abbrev opens_accounted : Opener keeps_accounted
  opens_accounted = record {
    Owns = λ own e x. All (AccountedBut own x) (log e);
    keep_own = λ own e x h. subst (All (AccountedBut own x)) (sym (logs.clock e)) h;
    factory = λ e x h. subst (All (Accounted x)) (sym (logs.factory e)) h;
    open_latest = λ e x h nothing.
        subst (All (Accounted x))
          (sym (logs.latest e ∙ ap (λ found. behind_latest found (log e)) nothing)) h;
    own_latest = λ own e x h found.
        with_own own x (log e) _ (logs.latest e ∙ ap (λ found. behind_latest found (log e)) found)
          h;
    upgrade = λ version e x h nothing.
        subst (All (Accounted x))
          (sym (logs.upgrade version e ∙ behind_open-none _ (log e) nothing)) h;
    own_upgraded = λ own version e x h found.
        with_own own x (log e) _ (logs.upgrade version e ∙ ap (λ r. behind_open r (log e)) found) h;
    close_own = λ own e x h. All-map _ _ (log e) (closed-Accounted own x) h;
  }

  -- A transaction loses no connection: whatever a browser does whose state tells which connections its
  -- opens have returned, and whatever the answer, if all that opens returned before are cached or
  -- closed, then all that they have returned behind the transaction are, those that the transaction
  -- opened among them.
  pub run_transaction-Accounted :
      {A : Type 0} (mode : Mode) (body : Txn S A) (w : World b.Env S)
      → AllAccounted w.env w.realm
      → (let r = run_transaction b S core mode body w in AllAccounted r.1.env r.1.realm)
  run_transaction-Accounted mode body =
      run_transaction-Kept keeps_accounted S
        (λ db e x h. subst (All (Accounted x)) (sym (logs.fault db e)) h)
        (λ now later e x h. All-map _ _ (log e) (looks-Accounted false now later x) h)
        (ensure_cached_client-Yields keeps_accounted opens_accounted S
          (λ now later e x h. All-map _ _ (log e) (looks-Accounted true now later x) h)
          (λ own now e x h. All-map _ _ (log e) (inserted-Accounted core now own x) h))
        mode body

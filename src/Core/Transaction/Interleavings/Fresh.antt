-- ===== src/Core/Transaction/Interleavings/Fresh.antt =====
-- The connection cache is sound behind the calls of src/backend/core.rs, in a browser that returns a new
-- connection whenever it opens one.
use opendal_indexeddb.Base.{Bool, true, false, some, ℕ, ◌≡◌, ◌≤◌, ◌<◌, arith}
use opendal_indexeddb.Connection.Cache.{Database, Realm, cache_connection}
use opendal_indexeddb.Connection.Open.{Browser, IndexeddbCore, World, opened, missing_stores}
use opendal_indexeddb.Core.Entry.{Txn}
use opendal_indexeddb.Core.Transaction.{Mode, look_up, run_transaction}
use opendal_indexeddb.Core.Transaction.Interleavings.{IsNew}
use opendal_indexeddb.Core.Transaction.Interleavings.Invariant.{IsSound, close-IsSound}
use opendal_indexeddb.Core.Transaction.Interleavings.Below.{
  IsBelow, IsBelow-later, IsBelow-IsNew, close-IsBelow, evict-IsBelow, insert-IsBelow, look-IsBelow,
}
use opendal_indexeddb.Core.Transaction.Interleavings.Sound.{
  look-IsSound, evict-IsSound, insert-IsSound,
}
use opendal_indexeddb.Core.Transaction.Keeper.{Keeper, Opener}
use opendal_indexeddb.Core.Transaction.Keeper.Ensures.{ensure_cached_client-Yields}
use opendal_indexeddb.Core.Transaction.Keeper.Rounds.{run_transaction-Kept}

-- A browser that numbers the connections that it opens: each has a number that none had before.
pub record Numbers (b : Browser) (core : IndexeddbCore) : Type 0 where
  pub next : b.Env → ℕ
  pub clock : (e : b.Env) → next e ≤ next (b.now e).1
  pub factory : (e : b.Env) → next e ≤ next (b.factory e).1
  pub fault : (db : Database) (e : b.Env) → next e ≤ next (b.fault db e).1
  pub latest : (e : b.Env) → next e ≤ next (b.open_latest_version core.db_name e).1
  pub latest_new :
      (e : b.Env) (db : Database)
      → (b.open_latest_version core.db_name e).0 ≡ some db
      → (next e ≤ db.handle) × (db.handle < next (b.open_latest_version core.db_name e).1)
  pub upgrade :
      (version : ℕ) (e : b.Env)
      → next e ≤ next (b.upgrade core.db_name version (missing_stores core) e).1
  pub upgrade_new :
      (version : ℕ) (e : b.Env) (db : Database)
      → (b.upgrade core.db_name version (missing_stores core) e).0 ≡ opened db
      → (next e ≤ db.handle)
        × (db.handle < next (b.upgrade core.db_name version (missing_stores core) e).1)

-- A sound connection cache, all of whose connections have a number below.
pub record IsFresh (n : ℕ) (x : Realm) : Type 0 where
  pub sound : IsSound x
  pub below : IsBelow n x

IsFresh-later : (n m : ℕ) (x : Realm) → n ≤ m → IsFresh n x → IsFresh m x
IsFresh-later n m x le h = record { sound = h.sound; below = IsBelow-later n m x le h.below }

record IsOwned (n : ℕ) (x : Realm) (db : Database) : Type 0 where
  is_new : IsNew x db
  lower : db.handle < n

IsOwned-later : (n m : ℕ) (x : Realm) (db : Database) → n ≤ m → IsOwned n x db → IsOwned m x db
IsOwned-later n m x db le own =
    let lower = own.lower in record { is_new = own.is_new; lower = omega arith }

module _ (b : Browser) (S : Type 0) (core : IndexeddbCore) (numbers : Numbers b core) where
  open numbers use {next}

  new-IsOwned :
      (n m : ℕ) (x : Realm) (db : Database)
      → IsFresh n x
      → (n ≤ db.handle) × (db.handle < m)
      → IsOwned m x db
  new-IsOwned n m x db h (above, lower) = record {
    is_new = IsBelow-IsNew n x db above h.below;
    lower = lower;
  }

  abbrev keeps_fresh : Keeper b core
  keeps_fresh = record {
    Holds = λ e x. IsFresh (next e) x;
    read_clock = λ e x h. IsFresh-later _ _ x (numbers.clock e) h;
    evict = λ e x h. record {
      sound = evict-IsSound core.db_name x h.sound;
      below = evict-IsBelow (next e) x h.below core.db_name;
    };
  }

  abbrev opens_fresh : Opener keeps_fresh
  opens_fresh = record {
    Owns = λ db e x. IsFresh (next e) x × IsOwned (next e) x db;
    keep_own = λ db e x own. (
      IsFresh-later _ _ x (numbers.clock e) own.0,
      IsOwned-later _ _ x db (numbers.clock e) own.1,
    );
    factory = λ e x h. IsFresh-later _ _ x (numbers.factory e) h;
    open_latest = λ e x h nothing. IsFresh-later _ _ x (numbers.latest e) h;
    own_latest = λ db e x h found. (
      IsFresh-later _ _ x (numbers.latest e) h,
      new-IsOwned _ _ x db h (numbers.latest_new e db found),
    );
    upgrade = λ version e x h nothing. IsFresh-later _ _ x (numbers.upgrade version e) h;
    own_upgraded = λ db version e x h found. (
      IsFresh-later _ _ x (numbers.upgrade version e) h,
      new-IsOwned _ _ x db h (numbers.upgrade_new version e db found),
    );
    close_own = λ db e x own. record {
      sound = close-IsSound x own.0.sound db own.1.is_new.not_cached;
      below = close-IsBelow (next e) x own.0.below db own.1.lower;
    };
  }

  looks-IsFresh :
      (touch_first : Bool) (now later : ℕ) (n : ℕ) (x : Realm)
      → IsFresh n x
      → IsFresh n (look_up core touch_first now later x).1
  looks-IsFresh touch_first now later n x h = record {
    sound = look-IsSound core touch_first now later x h.sound;
    below = look-IsBelow n x h.below core touch_first now later;
  }

  inserts-IsFresh :
      (db : Database) (now : ℕ) (n : ℕ) (x : Realm)
      → IsFresh n x × IsOwned n x db
      → IsFresh n (cache_connection core.db_name db db.object_store_names now x)
  inserts-IsFresh db now n x (h, own) = record {
    sound = insert-IsSound core.db_name db db.object_store_names now x h.sound own.is_new;
    below = insert-IsBelow n x h.below core.db_name db db.object_store_names now own.lower;
  }

  -- In a browser that returns a new connection whenever it opens one, a transaction leaves a sound
  -- connection cache, whatever else the browser does and whatever the answer: no cached connection is
  -- closed, none is cached under two names, and each has its cleanup task; all connections that are
  -- cached or were closed are older than the next one to be opened, as before.
  pub run_transaction-IsFresh :
      {A : Type 0} (mode : Mode) (body : Txn S A) (w : World b.Env S)
      → IsFresh (next w.env) w.realm
      → IsFresh
          (next (run_transaction b S core mode body w).1.env)
          (run_transaction b S core mode body w).1.realm
  run_transaction-IsFresh mode body =
      run_transaction-Kept keeps_fresh S (λ db e x h. IsFresh-later _ _ x (numbers.fault db e) h)
        (λ now later e. looks-IsFresh false now later (next e))
        (ensure_cached_client-Yields keeps_fresh opens_fresh S
          (λ now later e. looks-IsFresh true now later (next e))
          (λ db now e. inserts-IsFresh db now (next e)))
        mode body

-- ===== src/Core/Transaction/Keeper.antt =====
-- Invariants of the connection cache: what the calls of src/backend/core.rs keep, whichever way they go.
pub mod Opens
pub mod Ensures
pub mod Rounds
use opendal_indexeddb.Base.{
  ◌≡◌, Str, Bool, true, false, Option, none, some, ℕ, ◌⊎◌, inl, inr, List, Result, ok, err,
}
use opendal_indexeddb.Base.Exec.{Exec, continue}
use opendal_indexeddb.Connection.Cache.{Database, Realm, close, evict_cached_connection}
use opendal_indexeddb.Connection.Open.{
  Browser, IndexeddbCore, World, OpenResult, opened, missing_stores, Attempt, got, again,
}
use opendal_indexeddb.Core.Transaction.{Round, returned, refresh}

-- A predicate on the browser and the realm that what a task does with a cached connection keeps.
pub record Keeper (b : Browser) (core : IndexeddbCore) : Type 1 where
  pub Holds : b.Env → Realm → Type 0
  pub read_clock : (e : b.Env) (x : Realm) → Holds e x → Holds (b.now e).1 x
  pub evict : (e : b.Env) (x : Realm) → Holds e x → Holds e (evict_cached_connection core.db_name x)

-- What it takes to open a connection too. `Owns` is what holds while a task has opened a connection that
-- it has neither closed nor cached yet.
pub record Opener {b : Browser} {core : IndexeddbCore} (k : Keeper b core) : Type 1 where
  pub Owns : Database → b.Env → Realm → Type 0
  pub keep_own : (db : Database) (e : b.Env) (x : Realm) → Owns db e x → Owns db (b.now e).1 x
  pub factory : (e : b.Env) (x : Realm) → k.Holds e x → k.Holds (b.factory e).1 x
  pub open_latest :
      (e : b.Env) (x : Realm)
      → k.Holds e x
      → (b.open_latest_version core.db_name e).0 ≡ none
      → k.Holds (b.open_latest_version core.db_name e).1 x
  pub own_latest :
      (db : Database) (e : b.Env) (x : Realm)
      → k.Holds e x
      → (b.open_latest_version core.db_name e).0 ≡ some db
      → Owns db (b.open_latest_version core.db_name e).1 x
  pub upgrade :
      (version : ℕ) (e : b.Env) (x : Realm)
      → k.Holds e x
      → ((db : Database)
          → (b.upgrade core.db_name version (missing_stores core) e).0 ≡ opened db
          → ⊥)
      → k.Holds (b.upgrade core.db_name version (missing_stores core) e).1 x
  pub own_upgraded :
      (db : Database) (version : ℕ) (e : b.Env) (x : Realm)
      → k.Holds e x
      → (b.upgrade core.db_name version (missing_stores core) e).0 ≡ opened db
      → Owns db (b.upgrade core.db_name version (missing_stores core) e).1 x
  pub close_own : (db : Database) (e : b.Env) (x : Realm) → Owns db e x → k.Holds e (close db x)

module _ {b : Browser} {core : IndexeddbCore} (k : Keeper b core) (S : Type 0) where
  abbrev W : Type 0
  W = World b.Env S

  abbrev pub Kept : W → Type 0
  Kept w = k.Holds w.env w.realm

  -- What a call leaves, with what it says of its answer where that is no error.
  abbrev pub Yields : {A : Type 0} → (A → W → Type 0) → Result A × W → Type 0
  Yields Q (ok a, w) = Q a w
  Yields Q (err e, w) = Kept w

  -- It is kept, whatever the answer.
  abbrev pub Anything : {A : Type 0} → A → W → Type 0
  Anything a w = Kept w

  pub Yields-continue :
      {A B : Type 0} (Q : A → W → Type 0) (R : B → W → Type 0) (r : Result A × W) (f : A → Exec W B)
      → Yields Q r
      → ((a : A) (w : W) → Q a w → Yields R (f a w))
      → Yields R (continue r f)
  Yields-continue Q R (ok a, w) f q rest = rest a w q
  Yields-continue Q R (err e, w) f h rest = h

  -- What one keeps whatever a call answers.
  pub Yields-Kept : {A : Type 0} (r : Result A × W) → Yields Anything r → Kept r.1
  Yields-Kept (ok a, w) h = h
  Yields-Kept (err e, w) h = h

  -- Behind a match, case by case: what is said of the answer goes into the cases.
  module _ {B : Type 0} (R : B → W → Type 0) where
    abbrev pub Behind : {A : Type 0} → (A → W → Type 0) → (A → Exec W B) → A → Type 0
    Behind Q f a = (w : W) → Q a w → Yields R (f a w)

    pub by_bool :
        (f : Bool → Exec W B)
        → Behind Anything f true
        → Behind Anything f false
        → (found : Bool) → Behind Anything f found
    by_bool f fresh stale true = fresh
    by_bool f fresh stale false = stale

    pub by_option :
        {A : Type 0} (f : Option A → Exec W B)
        → Behind Anything f none
        → ((a : A) → Behind Anything f (some a))
        → (o : Option A) → Behind Anything f o
    by_option f nothing something none = nothing
    by_option f nothing something (some a) = something a

    pub by_round :
        {A : Type 0} (f : Round A → Exec W B)
        → ((a : A) → Behind Anything f (returned a))
        → Behind Anything f refresh
        → (r : Round A) → Behind Anything f r
    by_round f done more (returned a) = done a
    by_round f done more refresh = more

  module _ (o : Opener k) where
    abbrev pub Owned : Database → W → Type 0
    Owned db w = o.Owns db w.env w.realm

    abbrev pub OwnedFound : Option Database → W → Type 0
    OwnedFound none w = Kept w
    OwnedFound (some db) w = Owned db w

    abbrev pub OwnedResult : OpenResult → W → Type 0
    OwnedResult (opened db) w = Owned db w
    OwnedResult _ w = Kept w

    abbrev pub OwnedAttempt : Attempt → W → Type 0
    OwnedAttempt (got db) w = Owned db w
    OwnedAttempt again w = Kept w

    abbrev pub OwnedVersion : Database ⊎ ℕ → W → Type 0
    OwnedVersion (inl db) w = Owned db w
    OwnedVersion (inr n) w = Kept w

    module _ {B : Type 0} (R : B → W → Type 0) where
      abbrev Next : {A : Type 0} → (A → W → Type 0) → (A → Exec W B) → A → Type 0
      Next Q f a = Behind R Q f a

      pub by_found :
          (f : Option Database → Exec W B)
          → Next OwnedFound f none
          → ((db : Database) → Next OwnedFound f (some db))
          → (found : Option Database) → Next OwnedFound f found
      by_found f nothing something none = nothing
      by_found f nothing something (some db) = something db

      pub by_attempt :
          (f : Attempt → Exec W B)
          → ((db : Database) → Next OwnedAttempt f (got db))
          → Next OwnedAttempt f again
          → (r : Attempt) → Next OwnedAttempt f r
      by_attempt f done more (got db) = done db
      by_attempt f done more again = more

      pub by_version :
          (f : Database ⊎ ℕ → Exec W B)
          → ((db : Database) → Next OwnedVersion f (inl db))
          → ((n : ℕ) → Next OwnedVersion f (inr n))
          → (v : Database ⊎ ℕ) → Next OwnedVersion f v
      by_version f here new (inl db) = here db
      by_version f here new (inr n) = new n

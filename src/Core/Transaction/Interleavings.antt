-- ===== src/Core/Transaction/Interleavings.antt =====
-- The tasks of a realm, interleaved: what they do to the connection cache of src/backend/connection.rs
-- between two awaits, in any order.
pub mod Invariant
pub mod Sound
pub mod Accounted
pub mod Covers
pub mod Below
pub mod Fresh
use opendal_indexeddb.Base.{
  Str, Bool, true, false, not, ◌&&◌, ◌||◌, ◌==◌, Option, none, some, ℕ, ◌≡◌, refl, sym, ap, ◌∙◌,
  ◌⊎◌, inl, inr, List, [], ◌∷◌, str_eq, str_eq_refl, str_eq→eq, arith, if◌then◌else◌, Bool-cases,
  Option-cases, subst,
}
use opendal_indexeddb.Connection.Cache.{
  Database, CachedConnection, Realm, set_entry, close, close_entry, evict_cached_connection,
  cache_connection, cleanup_check, next_connection_generation, cached_connection_expired,
}
use opendal_indexeddb.Connection.Open.{IndexeddbCore, stores_exist_in}
use opendal_indexeddb.Core.Transaction.{look_up, touch, drop_expired}

-- What a task does at once: it looks a connection up, evicts one, closes a connection that it has just
-- opened, caches one that it has just opened, or wakes to clean one up.
pub data Action : Type 0 where
  look : IndexeddbCore → Bool → ℕ → ℕ → Action
  evict : Str → Action
  discard : Database → Action
  insert : Str → Database → List Str → ℕ → Action
  wake : Str → ℕ → ℕ → Action

unfoldable pub act : Action → Realm → Realm
act (look core touch_first now later) realm = (look_up core touch_first now later realm).1
act (evict name) realm = evict_cached_connection name realm
act (discard db) realm = close db realm
act (insert name db names now) realm = cache_connection name db names now realm
act (wake name generation now) realm = (cleanup_check name generation now realm).0

abbrev pub is_closed : List Database → Database → Bool
is_closed [] db = false
is_closed (d ∷ closed) db = (d.handle == db.handle) || is_closed closed db

abbrev pub has_task : List (Str × ℕ) → Str → ℕ → Bool
has_task [] name generation = false
has_task ((n, g) ∷ tasks) name generation =
    (str_eq n name && (g == generation)) || has_task tasks name generation

-- A connection that no one has but the task that opened it.
pub record IsNew (realm : Realm) (db : Database) : Type 0 where
  pub not_closed : is_closed realm.closed db ≡ false
  pub not_cached :
      (n : Str) (c : CachedConnection) → realm.cache n ≡ some c → (c.db.handle == db.handle) ≡ false

-- Each action works on connections that are its own to close or to cache.
abbrev pub IsOwn : Action → Realm → Type 0
IsOwn (discard db) realm = IsNew realm db
IsOwn (insert name db names now) realm = IsNew realm db
IsOwn _ realm = Unit

abbrev pub AreOwn : List Action → Realm → Type 0
AreOwn [] realm = Unit
AreOwn (a ∷ actions) realm = IsOwn a realm × AreOwn actions (act a realm)

-- A sequence of actions, of whatever tasks.
unfoldable pub run : List Action → Realm → Realm
run [] realm = realm
run (a ∷ actions) realm = run actions (act a realm)

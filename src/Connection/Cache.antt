-- ===== src/Connection/Cache.antt =====
-- The connection cache of a JavaScript realm.
pub mod Cleanup
use opendal_indexeddb.Base.{
  Str, Bool, true, false, Option, none, some, ℕ, ◌+◌, ◌-◌, ◌%◌, ◌^◌, List, [], ◌∷◌, max, min, not,
  str_eq, ltb, ◌==◌, if◌then◌else◌,
}

-- An open connection: which one it is, its version, and the object stores that it sees.
pub record Database : Type 0 where
  pub handle : ℕ
  pub version : ℕ
  pub object_store_names : List Str

pub record CachedConnection : Type 0 where
  pub db : Database
  pub object_store_names : List Str
  pub last_used_ms : ℕ
  pub generation : ℕ

-- The thread-local state: the cache by database name and the generation counter; and what became of
-- it, the connections that were closed and the cleanup tasks that were spawned.
pub record Realm : Type 0 where
  pub cache : Str → Option CachedConnection
  pub generation : ℕ
  pub closed : List Database
  pub tasks : List (Str × ℕ)

abbrev pub connection_cache_ttl_ms : ℕ
connection_cache_ttl_ms = 500

-- `cache.insert(name, ..)` and `cache.remove(name)`
abbrev pub set_entry : Str → Option CachedConnection → Realm → Realm
set_entry name entry realm = record realm {
  cache = λ j. if str_eq name j then entry else realm.cache j;
}

abbrev pub close : Database → Realm → Realm
close db realm = record realm { closed = db ∷ realm.closed }

-- `if let Some(old) = old { old.db.close(); }`
abbrev pub close_entry : Option CachedConnection → Realm → Realm
close_entry none realm = realm
close_entry (some cached) realm = close cached.db realm

-- A clock that went back gives an age below zero, which is not expired either.
unfoldable pub cached_connection_expired : ℕ → CachedConnection → Bool
cached_connection_expired now cached = ltb connection_cache_ttl_ms (now - cached.last_used_ms)

unfoldable pub next_connection_generation : Realm → ℕ
next_connection_generation realm = (realm.generation + 1) % 2 ^ 64

unfoldable pub evict_cached_connection : Str → Realm → Realm
evict_cached_connection name realm = close_entry (realm.cache name) (set_entry name none realm)

unfoldable pub cache_connection : Str → Database → List Str → ℕ → Realm → Realm
unfolding next_connection_generation
cache_connection name db object_store_names now realm =
    let generation = next_connection_generation realm in
    let entry : CachedConnection = record {
      db = db;
      object_store_names = object_store_names;
      last_used_ms = now;
      generation = generation;
    } in
    let inserted = close_entry (realm.cache name) (set_entry name (some entry) realm) in
    record inserted { generation = generation; tasks = (name, generation) ∷ inserted.tasks }

-- How long the cleanup task sleeps; nothing where its connection is not the cached one. On whole
-- milliseconds `ceil` changes nothing.
unfoldable pub cached_connection_cleanup_delay_ms : Str → ℕ → ℕ → Realm → Option ℕ
cached_connection_cleanup_delay_ms name generation now realm = elim (realm.cache name) [
  | none ↦ none
  | some cached ↦
      if not (cached.generation == generation)
      then none
      else if cached_connection_expired now cached
      then some 0
      else some (min (max (cached.last_used_ms + connection_cache_ttl_ms - now) 1) (2 ^ 32 - 1))
]

-- What the task does when it wakes, and `should_keep_waiting`.
unfoldable pub cleanup_check : Str → ℕ → ℕ → Realm → Realm × Bool
cleanup_check name generation now realm = elim (realm.cache name) [
  | none ↦ (realm, false)
  | some cached ↦
      if not (cached.generation == generation)
      then (realm, false)
      else if cached_connection_expired now cached
      then (close cached.db (set_entry name none realm), false)
      else (realm, true)
]

-- The task of `spawn_cache_cleanup`, over the times at which it looks and wakes. The Boolean says
-- whether it still runs.
unfoldable pub cache_cleanup : Str → ℕ → List (ℕ × ℕ) → Realm → Realm × Bool
cache_cleanup name generation [] realm = (realm, true)
cache_cleanup name generation ((now, woken) ∷ times) realm =
    let (checked, keep_waiting) = cleanup_check name generation woken realm in
    let rest = cache_cleanup name generation times checked in
    elim (cached_connection_cleanup_delay_ms name generation now realm) [
      | none ↦ (realm, false)
      | some sleep_ms ↦ if keep_waiting then rest else (checked, false)
    ]

-- ===== src/Connection/Cache/Cleanup.antt =====
-- The cleanup of idle connections.
use opendal_indexeddb.Base.{
  Str, Bool, false, none, some, ℕ, ◌+◌, ◌≤◌, ◌≡◌, List, [], ◌∷◌, ◌==◌, arith,
}
use opendal_indexeddb.Connection.Cache.{
  CachedConnection, Realm, set_entry, close, connection_cache_ttl_ms, cached_connection_expired,
  cached_connection_cleanup_delay_ms, cleanup_check, cache_cleanup,
}

-- The cached connection is the one of this generation.
abbrev pub is_current : Str → ℕ → Realm → Bool
is_current name generation realm = elim (realm.cache name) [
  | none ↦ false
  | some c ↦ c.generation == generation
]

-- The task of another generation, or of no connection, changes nothing and ends.
pub cache_cleanup-other :
    (name : Str) (generation : ℕ) (times : List (ℕ × ℕ)) (now woken : ℕ) (realm : Realm)
    → is_current name generation realm ≡ false
    → cache_cleanup name generation ((now, woken) ∷ times) realm ≡ (realm, false)
unfolding cache_cleanup cached_connection_cleanup_delay_ms
cache_cleanup-other name generation times now woken realm other = ground arith

-- The delay after which the task of an idle connection looks again is at least a millisecond, and at
-- most the time to live where the clock has not gone back.
pub cleanup_delay_bounds :
    (name : Str) (now : ℕ) (c : CachedConnection) (realm : Realm) {delay : ℕ}
    → realm.cache name ≡ some c
    → c.last_used_ms ≤ now
    → cached_connection_expired now c ≡ false
    → cached_connection_cleanup_delay_ms name c.generation now realm ≡ some delay
    → (1 ≤ delay) × (delay ≤ connection_cache_ttl_ms)
unfolding cached_connection_cleanup_delay_ms cached_connection_expired
cleanup_delay_bounds name now c realm cached order fresh e = ground arith

-- A connection that is not used again is closed and leaves the cache after at most two rounds of its
-- task, where each sleep lasts at least as long as asked.
pub cache_cleanup-closes :
    (name : Str) (c : CachedConnection) (realm : Realm) (now woken woken' : ℕ) {delay : ℕ}
    → realm.cache name ≡ some c
    → c.last_used_ms ≤ now
    → cached_connection_cleanup_delay_ms name c.generation now realm ≡ some delay
    → now + delay ≤ woken
    → woken + 1 ≤ woken'
    → cache_cleanup name c.generation ((now, woken) ∷ (woken, woken') ∷ []) realm
      ≡ (close c.db (set_entry name none realm), false)
unfolding cache_cleanup cached_connection_cleanup_delay_ms cleanup_check cached_connection_expired
cache_cleanup-closes name c realm now woken woken' cached order e slept slept' = ground arith

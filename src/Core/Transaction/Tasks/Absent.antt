-- ===== src/Core/Transaction/Tasks/Absent.antt =====
-- What the changes to the cache do to a name that has no connection.
use opendal_indexeddb.Base.{
  Str, Bool, false, Option, none, some, ℕ, ◌≡◌, refl, ap, List, str_eq, str_eq_refl, str_eq→eq,
  arith, Bool-cases, Option-cases, inl, inr,
}
use opendal_indexeddb.Connection.Cache.{
  Database, CachedConnection, Realm, set_entry, evict_cached_connection, cache_connection,
  cleanup_check,
}
use opendal_indexeddb.Connection.Open.{IndexeddbCore}
use opendal_indexeddb.Core.Transaction.{look_up, touch, drop_expired}

abbrev pub IsAbsent : Str → Realm → Type 0
IsAbsent n realm = realm.cache n ≡ none

module _ (n : Str) (realm : Realm) (absent : IsAbsent n realm) where
  -- A name that has a connection is another one.
  other_name :
      (name : Str) {c : CachedConnection} → realm.cache name ≡ some c → str_eq name n ≡ false
  other_name name e = elim (Bool-cases (str_eq name n)) [
    | inl same ↦ let here = ap realm.cache (str_eq→eq name n same) in absurd (cc (e, here, absent))
    | inr other ↦ other
  ]

  set-IsAbsent :
      (name : Str) (entry : Option CachedConnection)
      → str_eq name n ≡ false
      → IsAbsent n (set_entry name entry realm)
  set-IsAbsent name entry other = rw other absent

  clear-IsAbsent : (name : Str) → IsAbsent n (set_entry name none realm)
  clear-IsAbsent name = elim (Bool-cases (str_eq name n)) [
    | inl same ↦ rw same refl
    | inr other ↦ set-IsAbsent name none other
  ]

  pub evict-IsAbsent : (name : Str) → IsAbsent n (evict_cached_connection name realm)
  unfolding evict_cached_connection
  evict-IsAbsent name = elim (Option-cases (realm.cache name)) [
    | inl e ↦ rw e (clear-IsAbsent name)
    | inr (old, e) ↦ rw e (clear-IsAbsent name)
  ]

  pub insert-IsAbsent :
      (name : Str) (db : Database) (names : List Str) (now : ℕ)
      → str_eq name n ≡ false
      → IsAbsent n (cache_connection name db names now realm)
  unfolding cache_connection
  insert-IsAbsent name db names now other = elim (Option-cases (realm.cache name)) [
    | inl e ↦ rw (e, other) absent
    | inr (old, e) ↦ rw (e, other) absent
  ]

  pub look-IsAbsent :
      (core : IndexeddbCore) (touch_first : Bool) (now later : ℕ)
      → IsAbsent n (look_up core touch_first now later realm).1
  unfolding look_up drop_expired touch
  look-IsAbsent core touch_first now later = elim (Option-cases (realm.cache core.db_name)) [
    | inl e ↦ rw (look_up, e) absent
    | inr (cached, e) ↦ let other = other_name core.db_name e in ground arith
  ]

  pub wake-IsAbsent :
      (name : Str) (generation now : ℕ) → IsAbsent n (cleanup_check name generation now realm).0
  unfolding cleanup_check
  wake-IsAbsent name generation now = elim (Option-cases (realm.cache name)) [
    | inl e ↦ rw (cleanup_check, e) absent
    | inr (cached, e) ↦ let other = other_name name e in ground arith
  ]

-- An evicted name has no connection.
pub evict-gone : (name : Str) (realm : Realm) → IsAbsent name (evict_cached_connection name realm)
unfolding evict_cached_connection
evict-gone name realm = elim (Option-cases (realm.cache name)) [
  | inl e ↦ rw (e, str_eq_refl name) refl
  | inr (old, e) ↦ rw (e, str_eq_refl name) refl
]

-- A connection that is cached under such a name takes the place of none.
pub insert-closes_nothing :
    (name : Str) (db : Database) (names : List Str) (now : ℕ) (realm : Realm)
    → IsAbsent name realm
    → (cache_connection name db names now realm).closed ≡ realm.closed
unfolding cache_connection
insert-closes_nothing name db names now realm absent = rw absent refl

-- ===== src/Core/Transaction/Interleavings/Below.antt =====
-- The numbers of the connections that a realm has or had in its cache, from below the next new one.
use opendal_indexeddb.Base.{
  Str, Bool, false, Option, none, some, ℕ, ◌≡◌, ◌≤◌, ◌<◌, inl, inr, List, subst, arith, Bool-cases,
  Option-cases,
}
use opendal_indexeddb.Connection.Cache.{
  Database, CachedConnection, Realm, set_entry, close, close_entry, evict_cached_connection,
  cache_connection, next_connection_generation, cached_connection_expired,
}
use opendal_indexeddb.Connection.Open.{IndexeddbCore, stores_exist_in}
use opendal_indexeddb.Core.Transaction.{look_up, touch, drop_expired}
use opendal_indexeddb.Core.Transaction.Interleavings.{IsNew, is_closed}
use opendal_indexeddb.Core.Transaction.Interleavings.Invariant.{entry_cases}

-- Whatever the realm has of connections has a lower number.
pub record IsBelow (n : ℕ) (x : Realm) : Type 0 where
  pub cached : (name : Str) (c : CachedConnection) → x.cache name ≡ some c → c.db.handle < n
  pub closed : (db : Database) → n ≤ db.handle → is_closed x.closed db ≡ false

pub IsBelow-later : (n m : ℕ) (x : Realm) → n ≤ m → IsBelow n x → IsBelow m x
IsBelow-later n m x le h = record {
  cached = λ name c e. let lower = h.cached name c e in omega arith;
  closed = λ db above. h.closed db (omega arith);
}

pub IsBelow-IsNew : (n : ℕ) (x : Realm) (db : Database) → n ≤ db.handle → IsBelow n x → IsNew x db
IsBelow-IsNew n x db above h = record {
  not_closed = h.closed db above;
  not_cached = λ name c e. let lower = h.cached name c e in ground arith;
}

module _ (n : ℕ) (x : Realm) (h : IsBelow n x) where
  pub close-IsBelow : (db : Database) → db.handle < n → IsBelow n (close db x)
  close-IsBelow db lower = record {
    cached = h.cached;
    closed = λ d above. let still = h.closed d above in ground arith;
  }

  entry-IsBelow :
      (name : Str) (entry : Option CachedConnection)
      → ((c : CachedConnection) → entry ≡ some c → c.db.handle < n)
      → IsBelow n (set_entry name entry x)
  entry-IsBelow name entry lower = record {
    cached = λ m c e. elim (entry_cases name m entry x c e) [
      | inl (_, e') ↦ lower c e'
      | inr (_, e') ↦ h.cached m c e'
    ];
    closed = h.closed;
  }

  -- An entry is replaced, and its connection closed.
  replace-IsBelow :
      (name : Str) (entry : Option CachedConnection)
      → ((c : CachedConnection) → entry ≡ some c → c.db.handle < n)
      → IsBelow n (close_entry (x.cache name) (set_entry name entry x))
  replace-IsBelow name entry lower =
      let set = entry-IsBelow name entry lower in
      elim (Option-cases (x.cache name)) [
        | inl e ↦ rw e set
        | inr (old, e) ↦ rw e record {
          cached = set.cached;
          closed = λ d above.
              let still = h.closed d above in let old_lower = h.cached name old e in ground arith;
        }
      ]

  pub evict-IsBelow : (name : Str) → IsBelow n (evict_cached_connection name x)
  unfolding evict_cached_connection
  evict-IsBelow name = replace-IsBelow name none (λ c e. cc)

  pub insert-IsBelow :
      (name : Str) (db : Database) (names : List Str) (now : ℕ)
      → db.handle < n
      → IsBelow n (cache_connection name db names now x)
  unfolding cache_connection
  insert-IsBelow name db names now lower =
      let entry : CachedConnection = record {
        db = db;
        object_store_names = names;
        last_used_ms = now;
        generation = next_connection_generation x;
      } in
      let replaced =
        replace-IsBelow name (some entry)
          (λ c e. let same : entry ≡ c = cc in subst (λ c'. c'.db.handle < n) same lower) in
      record { cached = replaced.cached; closed = replaced.closed }

  touch-IsBelow :
      (name : Str) (c : CachedConnection) (now : ℕ)
      → x.cache name ≡ some c
      → IsBelow n (touch name c now x)
  unfolding touch
  touch-IsBelow name c now e = entry-IsBelow name (some (record c { last_used_ms = now })) (λ d e'.
      let same : record c { last_used_ms = now } ≡ d = cc in
      subst (λ c'. c'.db.handle < n) same (h.cached name c e))

  pub look-IsBelow :
      (core : IndexeddbCore) (touch_first : Bool) (now later : ℕ)
      → IsBelow n (look_up core touch_first now later x).1
  unfolding look_up drop_expired
  look-IsBelow core touch_first now later = elim (Option-cases (x.cache core.db_name)) [
    | inl e ↦ rw (look_up, e) h
    | inr (c, e) ↦
        let gone = replace-IsBelow core.db_name none (λ d e'. cc) in
        let dropped =
          subst (λ entry. IsBelow n (close_entry entry (set_entry core.db_name none x))) e gone in
        let touched = touch-IsBelow core.db_name c later e in
        elim (Bool-cases (cached_connection_expired now c)) [
          | inl old ↦ rw (look_up, e, old) dropped
          | inr fresh ↦ elim (Bool-cases (stores_exist_in core c.object_store_names)) [
            | inl there ↦ rw (look_up, e, fresh, there) touched
            | inr missing ↦ elim (Bool-cases touch_first) [
              | inl first ↦ rw (look_up, e, fresh, missing, first) touched
              | inr behind ↦ rw (look_up, e, fresh, missing, behind) h
            ]
          ]
        ]
  ]

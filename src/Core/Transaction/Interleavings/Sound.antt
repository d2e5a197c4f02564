-- ===== src/Core/Transaction/Interleavings/Sound.antt =====
-- The connection cache is sound under any interleaving of the tasks of a realm.
use opendal_indexeddb.Base.{
  Str, Bool, true, false, ◌==◌, none, some, ℕ, ◌≡◌, inl, inr, List, [], ◌∷◌, str_eq, str_eq→eq,
  arith, Bool-cases, Option-cases, subst,
}
use opendal_indexeddb.Connection.Cache.{
  Database, CachedConnection, Realm, set_entry, close, close_entry, evict_cached_connection,
  cache_connection, cleanup_check, next_connection_generation, cached_connection_expired,
}
use opendal_indexeddb.Connection.Open.{IndexeddbCore, stores_exist_in}
use opendal_indexeddb.Core.Transaction.{look_up, drop_expired}
use opendal_indexeddb.Core.Transaction.Interleavings.{
  Action, look, evict, discard, insert, wake, act, is_closed, IsNew, IsOwn, AreOwn, run,
}
use opendal_indexeddb.Core.Transaction.Interleavings.Invariant.{
  IsSound, entry_cases, close-IsSound, drop-IsSound, touch-IsSound, apart_from,
}

-- An entry is removed, and its connection is closed.
remove-IsSound :
    (realm : Realm) (name : Str) (cached : CachedConnection)
    → IsSound realm
    → realm.cache name ≡ some cached
    → IsSound (close cached.db (set_entry name none realm))
remove-IsSound realm name cached sound e =
    close-IsSound (set_entry name none realm) (drop-IsSound realm sound name) cached.db (λ n c h.
      elim (entry_cases name n none realm c h) [
        | inl (_, e') ↦ cc
        | inr (other, h') ↦ apart_from realm sound name cached n c e other h'
      ])

module _ (realm : Realm) (sound : IsSound realm) (name : Str) (entry : CachedConnection)
    (new : IsNew realm entry.db) where
  -- The realm with the new entry, its number and its task.
  abbrev added : Realm
  added = record (set_entry name (some entry) realm) {
    generation = entry.generation;
    tasks = (name, entry.generation) ∷ realm.tasks;
  }

  apart_from_new :
      (n : Str) (c d : CachedConnection)
      → entry ≡ c
      → realm.cache n ≡ some d
      → (c.db.handle == d.db.handle) ≡ false
  apart_from_new n c d e h =
      let apart = new.not_cached n d h in
      subst (λ c'. (c'.db.handle == d.db.handle) ≡ false) e (ground arith)

  added-IsSound : IsSound added
  added-IsSound = record {
    is_open = λ n c h. elim (entry_cases name n (some entry) realm c h) [
      | inl (_, e) ↦
          let same : entry ≡ c = cc in
          subst (λ c'. is_closed realm.closed c'.db ≡ false) same new.not_closed
      | inr (_, h') ↦ sound.is_open n c h'
    ];
    one_name = λ n m c d h k same. elim (entry_cases name n (some entry) realm c h) [
      | inl (e, ec) ↦ elim (entry_cases name m (some entry) realm d k) [
        | inl (e', _) ↦ subst (λ j. str_eq j m ≡ true) (str_eq→eq name n e) e'
        | inr (_, k') ↦ absurd (let q = apart_from_new m c d (cc) k' in ground arith)
      ]
      | inr (_, h') ↦ elim (entry_cases name m (some entry) realm d k) [
        | inl (_, ed) ↦ absurd (let q = apart_from_new n d c (cc) h' in ground arith)
        | inr (_, k') ↦ sound.one_name n m c d h' k' same
      ]
    ];
    is_watched = λ n c h. elim (entry_cases name n (some entry) realm c h) [
      | inl (e, ec) ↦ let same : entry.generation ≡ c.generation = cc in ground arith
      | inr (_, h') ↦ let old = sound.is_watched n c h' in ground arith
    ];
  }

  replaced-IsSound : IsSound (close_entry (realm.cache name) added)
  replaced-IsSound = elim (Option-cases (realm.cache name)) [
    | inl e ↦ rw e added-IsSound
    | inr (old, e) ↦ rw e (
        close-IsSound added added-IsSound old.db (λ n c h.
          elim (entry_cases name n (some entry) realm c h) [
            | inl (_, e') ↦ apart_from_new name c old (cc) e
            | inr (other, h') ↦ apart_from realm sound name old n c e other h'
          ]))
  ]

pub insert-IsSound :
    (name : Str) (db : Database) (names : List Str) (now : ℕ) (realm : Realm)
    → IsSound realm
    → IsNew realm db
    → IsSound (cache_connection name db names now realm)
unfolding cache_connection
insert-IsSound name db names now realm sound new =
    let entry : CachedConnection = record {
      db = db;
      object_store_names = names;
      last_used_ms = now;
      generation = next_connection_generation realm;
    } in
    let h = replaced-IsSound realm sound name entry new in
    elim (Option-cases (realm.cache name)) [
      | inl e ↦ rw e (rw e at h)
      | inr (old, e) ↦ rw e (rw e at h)
    ]

pub look-IsSound :
    (core : IndexeddbCore) (touch_first : Bool) (now later : ℕ) (realm : Realm)
    → IsSound realm
    → IsSound (look_up core touch_first now later realm).1
unfolding look_up drop_expired
look-IsSound core touch_first now later realm sound =
    elim (Option-cases (realm.cache core.db_name)) [
      | inl e ↦ rw (look_up, e) sound
      | inr (cached, e) ↦ elim (Bool-cases (cached_connection_expired now cached)) [
        | inl old ↦ rw (look_up, e, old) (remove-IsSound realm core.db_name cached sound e)
        | inr fresh ↦ elim (Bool-cases (stores_exist_in core cached.object_store_names)) [
          | inl there ↦
              rw (look_up, e, fresh, there) (touch-IsSound realm sound core.db_name cached later e)
          | inr missing ↦ elim (Bool-cases touch_first) [
            | inl first ↦
                rw (look_up, e, fresh, missing, first)
                  (touch-IsSound realm sound core.db_name cached later e)
            | inr behind ↦ rw (look_up, e, fresh, missing, behind) sound
          ]
        ]
      ]
    ]

pub evict-IsSound :
    (name : Str) (realm : Realm) → IsSound realm → IsSound (evict_cached_connection name realm)
unfolding evict_cached_connection
evict-IsSound name realm sound = elim (Option-cases (realm.cache name)) [
  | inl e ↦ rw e (drop-IsSound realm sound name)
  | inr (cached, e) ↦ rw e (remove-IsSound realm name cached sound e)
]

wake-IsSound :
    (name : Str) (generation now : ℕ) (realm : Realm)
    → IsSound realm
    → IsSound (cleanup_check name generation now realm).0
unfolding cleanup_check
wake-IsSound name generation now realm sound = elim (Option-cases (realm.cache name)) [
  | inl e ↦ rw (cleanup_check, e) sound
  | inr (cached, e) ↦ elim (Bool-cases (cached.generation == generation)) [
    | inr other ↦ rw (cleanup_check, e, other) sound
    | inl mine ↦ elim (Bool-cases (cached_connection_expired now cached)) [
      | inl old ↦ rw (cleanup_check, e, mine, old) (remove-IsSound realm name cached sound e)
      | inr fresh ↦ rw (cleanup_check, e, mine, fresh) sound
    ]
  ]
]

act-IsSound : (a : Action) (realm : Realm) → IsSound realm → IsOwn a realm → IsSound (act a realm)
unfolding act
act-IsSound (look core touch_first now later) realm sound own =
    look-IsSound core touch_first now later realm sound
act-IsSound (evict name) realm sound own = evict-IsSound name realm sound
act-IsSound (discard db) realm sound own = close-IsSound realm sound db own.not_cached
act-IsSound (insert name db names now) realm sound own =
    insert-IsSound name db names now realm sound own
act-IsSound (wake name generation now) realm sound own =
    wake-IsSound name generation now realm sound

-- Whatever the tasks of a realm do to its connection cache, in any order, where each closes and caches
-- only connections that it has opened itself: no cached connection is closed, none is cached under two
-- names, and each has its cleanup task.
pub run-IsSound :
    (actions : List Action) (realm : Realm)
    → IsSound realm
    → AreOwn actions realm
    → IsSound (run actions realm)
unfolding run
run-IsSound [] realm sound own = sound
run-IsSound (a ∷ actions) realm sound own =
    run-IsSound actions (act a realm) (act-IsSound a realm sound own.0) own.1

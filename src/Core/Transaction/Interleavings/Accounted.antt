-- ===== src/Core/Transaction/Interleavings/Accounted.antt =====
-- Under any interleaving of the tasks of a realm no connection is lost: it stays cached, or is closed.
use opendal_indexeddb.Base.{
  Str, Bool, true, ◌==◌, Option, none, some, ℕ, ◌≡◌, refl, sym, ap, ◌∙◌, ◌⊎◌, inl, inr, List, [],
  ◌∷◌, str_eq, str_eq→eq, arith, Bool-cases, Option-cases, subst,
}
use opendal_indexeddb.Connection.Cache.{
  Database, CachedConnection, Realm, set_entry, close, close_entry, evict_cached_connection,
  cache_connection, cleanup_check, cached_connection_expired,
}
use opendal_indexeddb.Connection.Open.{IndexeddbCore, stores_exist_in}
use opendal_indexeddb.Core.Transaction.{look_up, touch, drop_expired}
use opendal_indexeddb.Core.Transaction.Interleavings.{
  Action, look, evict, discard, insert, wake, act, is_closed, run,
}

-- The connection is cached under some name, or it is closed.
abbrev pub Accounted : Realm → Database → Type 0
Accounted realm db =
    ((n : Str) × (c : CachedConnection) × (realm.cache n ≡ some c) × (c.db ≡ db))
    ⊎ (is_closed realm.closed db ≡ true)

module _ (db : Database) where
  pub close-Accounted :
      (d : Database) (realm : Realm) → Accounted realm db → Accounted (close d realm) db
  close-Accounted d realm (inl held) = inl held
  close-Accounted d realm (inr closed) = inr (ground arith)

  pub closes-Accounted : (d : Database) (realm : Realm) → d ≡ db → Accounted (close d realm) db
  closes-Accounted d realm e =
      subst (λ d'. Accounted (close d' realm) db) (sym e) (inr (ground arith))

  -- An entry is replaced, and its connection closed.
  replaced-Accounted :
      (name : Str) (entry : Option CachedConnection) (realm : Realm)
      → Accounted realm db
      → Accounted (close_entry (realm.cache name) (set_entry name entry realm)) db
  replaced-Accounted name entry realm (inr closed) = elim (Option-cases (realm.cache name)) [
    | inl e ↦ rw e (inr closed)
    | inr (old, e) ↦ rw e (close-Accounted old.db (set_entry name entry realm) (inr closed))
  ]
  replaced-Accounted name entry realm (inl (n, c, h, e)) = elim (Bool-cases (str_eq name n)) [
    | inl same ↦
        let here : realm.cache name ≡ some c = ap realm.cache (str_eq→eq name n same) ∙ h in
        rw here (closes-Accounted c.db (set_entry name entry realm) e)
    | inr other ↦
        let kept : (set_entry name entry realm).cache n ≡ some c = rw other h in
        elim (Option-cases (realm.cache name)) [
          | inl none_here ↦ rw none_here (inl (n, c, kept, e))
          | inr (old, here) ↦ rw here (inl (n, c, kept, e))
        ]
  ]

  removed-Accounted :
      (name : Str) (cached : CachedConnection) (realm : Realm)
      → realm.cache name ≡ some cached
      → Accounted realm db
      → Accounted (close cached.db (set_entry name none realm)) db
  removed-Accounted name cached realm e h =
      subst (λ entry. Accounted (close_entry entry (set_entry name none realm)) db) e
        (replaced-Accounted name none realm h)

  touch-Accounted :
      (name : Str) (cached : CachedConnection) (now : ℕ) (realm : Realm)
      → realm.cache name ≡ some cached
      → Accounted realm db
      → Accounted (touch name cached now realm) db
  unfolding touch
  touch-Accounted name cached now realm e (inr closed) = inr closed
  touch-Accounted name cached now realm e (inl (n, c, h, same)) =
      elim (Bool-cases (str_eq name n)) [
        | inl here ↦
            let one : some cached ≡ some c = sym e ∙ ap realm.cache (str_eq→eq name n here) ∙ h in
            let same_connection : cached ≡ c = cc in
            inl (
              n,
              record cached { last_used_ms = now },
              rw here refl,
              ap (λ d. d.db) same_connection ∙ same,
            )
        | inr other ↦ inl (n, c, rw other h, same)
      ]

  look-Accounted :
      (core : IndexeddbCore) (touch_first : Bool) (now later : ℕ) (realm : Realm)
      → Accounted realm db
      → Accounted (look_up core touch_first now later realm).1 db
  unfolding look_up drop_expired
  look-Accounted core touch_first now later realm h =
      elim (Option-cases (realm.cache core.db_name)) [
        | inl e ↦ rw (look_up, e) h
        | inr (cached, e) ↦ elim (Bool-cases (cached_connection_expired now cached)) [
          | inl old ↦ rw (look_up, e, old) (removed-Accounted core.db_name cached realm e h)
          | inr fresh ↦ elim (Bool-cases (stores_exist_in core cached.object_store_names)) [
            | inl there ↦
                rw (look_up, e, fresh, there) (touch-Accounted core.db_name cached later realm e h)
            | inr missing ↦ elim (Bool-cases touch_first) [
              | inl first ↦
                  rw (look_up, e, fresh, missing, first)
                    (touch-Accounted core.db_name cached later realm e h)
              | inr behind ↦ rw (look_up, e, fresh, missing, behind) h
            ]
          ]
        ]
      ]

  wake-Accounted :
      (name : Str) (generation now : ℕ) (realm : Realm)
      → Accounted realm db
      → Accounted (cleanup_check name generation now realm).0 db
  unfolding cleanup_check
  wake-Accounted name generation now realm h = elim (Option-cases (realm.cache name)) [
    | inl e ↦ rw (cleanup_check, e) h
    | inr (cached, e) ↦ elim (Bool-cases (cached.generation == generation)) [
      | inr other ↦ rw (cleanup_check, e, other) h
      | inl mine ↦ elim (Bool-cases (cached_connection_expired now cached)) [
        | inl old ↦ rw (cleanup_check, e, mine, old) (removed-Accounted name cached realm e h)
        | inr fresh ↦ rw (cleanup_check, e, mine, fresh) h
      ]
    ]
  ]

  pub act-Accounted : (a : Action) (realm : Realm) → Accounted realm db → Accounted (act a realm) db
  unfolding act evict_cached_connection cache_connection
  act-Accounted (look core touch_first now later) realm h =
      look-Accounted core touch_first now later realm h
  act-Accounted (evict name) realm h = replaced-Accounted name none realm h
  act-Accounted (discard d) realm h = close-Accounted d realm h
  act-Accounted (insert name d names now) realm h = replaced-Accounted name _ realm h
  act-Accounted (wake name generation now) realm h = wake-Accounted name generation now realm h

  -- Whatever the tasks of a realm do to its connection cache, in any order: a connection that is cached
  -- or closed is so afterwards; none is dropped from the cache without being closed.
  pub run-Accounted :
      (actions : List Action) (realm : Realm)
      → Accounted realm db
      → Accounted (run actions realm) db
  unfolding run
  run-Accounted [] realm h = h
  run-Accounted (a ∷ actions) realm h =
      run-Accounted actions (act a realm) (act-Accounted a realm h)

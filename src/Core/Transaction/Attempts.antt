-- ===== src/Core/Transaction/Attempts.antt =====
-- The attempts of `run_transaction` of src/backend/core.rs in a browser that opens connections.
use opendal_indexeddb.Base.{
  ◌⊎◌, inl, inr, Str, Bool, true, false, none, some, ℕ, ◌≡◌, refl, ◌∙◌, List, Error, Result, ok,
  err, arith, Bool-cases, Option-cases, str_eq_refl,
}
use opendal_indexeddb.Base.Exec.{Exec, continue, pure, ◌>>=◌, ◌>>◌}
use opendal_indexeddb.Connection.Cache.{
  next_connection_generation, evict_cached_connection, Database, CachedConnection, Realm,
  cache_connection, cached_connection_expired,
}
use opendal_indexeddb.Connection.Open.{
  Browser, IndexeddbCore, World, user, is_stale_connection_error, parse_txn_error, stores_exist_in,
  open_client, in_realm, date_now,
}
use opendal_indexeddb.Core.Transaction.Working.{CanOpen, Opened, open_client-Opened}
use opendal_indexeddb.Core.Entry.{Txn}
use opendal_indexeddb.Core.Transaction.{
  Mode, TransactionBuilder, Round, returned, refresh, touch, drop_expired, look_up,
  cached_client_has_stores, cached_transaction, ensure_cached_client, reopen, run_body, after_run,
}
use opendal_indexeddb.Idb.{Stores}

pub Result-cases :
    {A : Type 0} (r : Result A) → ((a : A) × (r ≡ ok a)) ⊎ ((e : Error) × (r ≡ err e))
Result-cases (ok a) = inl (a, refl)
Result-cases (err e) = inr (e, refl)

-- What a body leaves to its caller, and in the stores.
abbrev pub outcome_of : {A S : Type 0} → Stores S → Result (A × Stores S) → Result A × Stores S
outcome_of s (ok (a, t)) = (ok a, t)
outcome_of s (err e) = (err e, s)

-- The connection that was just cached.
pub cache_connection-at_key :
    (name : Str) (db : Database) (names : List Str) (now : ℕ) (realm : Realm)
    → (cache_connection name db names now realm).cache name
      ≡ some (record {
        db = db;
        object_store_names = names;
        last_used_ms = now;
        generation = next_connection_generation realm;
      })
unfolding cache_connection
cache_connection-at_key name db names now realm = elim (Option-cases (realm.cache name)) [
  | inl no_old ↦ rw (no_old, str_eq_refl name) refl
  | inr (old, e) ↦ rw (e, str_eq_refl name) refl
]

module _ (b : Browser) (S : Type 0) (core : IndexeddbCore) where
  abbrev W : Type 0
  W = World b.Env S

  -- A connection is cached that the next look at the clock finds fresh.
  abbrev pub IsReady : W → Type 0
  IsReady w =
      (c : CachedConnection) × (w.realm.cache core.db_name ≡ some c)
      × (stores_exist_in core c.object_store_names ≡ true)
      × (cached_connection_expired (b.now w.env).0 c ≡ false)

  abbrev Found : W → Result Bool × W → Type 0
  Found w (ok true, w') = IsReady w' × (w'.stores ≡ w.stores)
  Found w (ok false, w') = w'.stores ≡ w.stores
  Found w (err e, w') = ⊥

  abbrev pub Ready : W → Result (Unit {0}) × W → Type 0
  Ready w (ok _, w') = IsReady w' × (w'.stores ≡ w.stores)
  Ready w (err e, w') = ⊥

  module _ (h : CanOpen b core) where
    -- A connection used at one look at the clock is fresh at the next.
    pub fresh_at_next :
        (e : b.Env) (c : CachedConnection)
        → c.last_used_ms ≡ (b.now e).0
        → cached_connection_expired (b.now (b.now e).1).0 c ≡ false
    unfolding cached_connection_expired
    fresh_at_next e c used = ground (arith, h.steady e)

    cached_client_has_stores-Found : (w : W) → Found w (cached_client_has_stores b S core w)
    unfolding cached_client_has_stores look_up touch drop_expired
    cached_client_has_stores-Found w = elim (Option-cases (w.realm.cache core.db_name)) [
      | inl none_yet ↦ rw none_yet refl
      | inr (c, cached) ↦ elim (Bool-cases (cached_connection_expired (b.now w.env).0 c)) [
        | inl expired ↦ rw (cached, expired) refl
        | inr fresh ↦ elim (Bool-cases (stores_exist_in core c.object_store_names)) [
          | inl there ↦
              rw (cached, fresh, there)
                (
                  (
                    record c { last_used_ms = (b.now (b.now w.env).1).0 },
                    rw (str_eq_refl core.db_name) refl,
                    there,
                    fresh_at_next (b.now w.env).1
                        (record c { last_used_ms = (b.now (b.now w.env).1).0 }) refl,
                  ),
                  refl,
                )
          | inr missing ↦ simp (cached, fresh, missing)
        ]
      ]
    ]

    after_look_up :
        (w : W) (r : Result Bool × W) (k : Exec W (Unit {0}))
        → Found w r
        → ((w' : W) → w'.stores ≡ w.stores → Ready w (k w'))
        → Ready w (continue r (elim [ true ↦ pure tt | false ↦ k ]))
    after_look_up w (ok true, w') k found rest = found
    after_look_up w (ok false, w') k found rest = rest w' found
    after_look_up w (err e, w') k found rest = found

    -- A connection is cached that was opened right before.
    Opened-Ready :
        (w w' : W) (r : Result Database × W)
        → w'.stores ≡ w.stores
        → Opened b S core w' r
        → Ready w (
            continue r (λ db. date_now b S >>= λ now.
            in_realm b S (cache_connection core.db_name db db.object_store_names now)))
    unfolding date_now in_realm
    Opened-Ready w w' (ok db, w'') e (there, kept) = (
      (
        _,
        cache_connection-at_key core.db_name db db.object_store_names _ _,
        there,
        fresh_at_next w''.env _ refl,
      ),
      kept ∙ e,
    )
    Opened-Ready w w' (err error, w'') e none_opened = absurd none_opened

    reopen-Ready : (w : W) → Ready w (reopen b S core w)
    unfolding reopen in_realm
    reopen-Ready w =
        let w' : W = record w { realm = evict_cached_connection core.db_name w.realm } in
        Opened-Ready w w' (open_client b S core w') refl (open_client-Opened b S core h w')

    Found-from : (w w' : W) (r : Result Bool × W) → w'.stores ≡ w.stores → Found w' r → Found w r
    Found-from w w' (ok true, v) e (ready, kept) = (ready, kept ∙ e)
    Found-from w w' (ok false, v) e kept = kept ∙ e
    Found-from w w' (err _, v) e found = absurd found

    Ready-from :
        (w w' : W) (r : Result (Unit {0}) × W) → w'.stores ≡ w.stores → Ready w' r → Ready w r
    Ready-from w w' (ok _, v) e (ready, kept) = (ready, kept ∙ e)
    Ready-from w w' (err _, v) e ready = absurd ready

    pub ensure_cached_client-Ready : (w : W) → Ready w (ensure_cached_client b S core w)
    unfolding ensure_cached_client
    ensure_cached_client-Ready w =
        after_look_up w (cached_client_has_stores b S core w) under_lock
          (cached_client_has_stores-Found w)
          (λ w' e.
            after_look_up w (cached_client_has_stores b S core w') (reopen b S core)
              (Found-from w w' _ e (cached_client_has_stores-Found w'))
              (λ w'' e'. Ready-from w w'' _ e' (reopen-Ready w'')))
      where
        under_lock : Exec W (Unit {0})
        under_lock =
            cached_client_has_stores b S core
            >>= (elim [ true ↦ pure tt | false ↦ reopen b S core ])

    module _ {A : Type 0} (mode : Mode) (body : Txn S A) where
      -- The answer of an attempt is that of the body.
      abbrev pub Settled : Stores S → Result (Round A) × W → Type 0
      Settled s (ok (returned a), w) = outcome_of s (body s) ≡ (ok a, w.stores)
      Settled s (ok refresh, w) = ⊥
      Settled s (err e, w) = outcome_of s (body s) ≡ (err e, w.stores)

      run_body-ok :
          (transaction : TransactionBuilder) (w : W) {a : A} {t : Stores S}
          → (b.fault transaction.db w.env).0 ≡ none
          → body w.stores ≡ ok (a, t)
          → run_body b S transaction body w
            ≡ (inl a, record w { env = (b.fault transaction.db w.env).1; stores = t })
      unfolding run_body
      run_body-ok transaction w calm e = simp (run_body, calm, e)

      run_body-err :
          (transaction : TransactionBuilder) (w : W) {e : Error}
          → (b.fault transaction.db w.env).0 ≡ none
          → body w.stores ≡ err e
          → run_body b S transaction body w
            ≡ (inr (user e), record w { env = (b.fault transaction.db w.env).1 })
      unfolding run_body
      run_body-err transaction w calm e = simp (run_body, calm, e)

      pub after_run-Settled :
          (first : Bool) (transaction : TransactionBuilder) (w : W)
          → (b.fault transaction.db w.env).0 ≡ none
          → Settled w.stores (after_run b S core first (run_body b S transaction body w))
      unfolding after_run is_stale_connection_error parse_txn_error
      after_run-Settled true transaction w calm = elim (Result-cases (body w.stores)) [
        | inl ((a, t), e) ↦ rw (run_body-ok transaction w calm e, e) refl
        | inr (error, e) ↦ rw (run_body-err transaction w calm e, e) refl
      ]
      after_run-Settled false transaction w calm = elim (Result-cases (body w.stores)) [
        | inl ((a, t), e) ↦ rw (run_body-ok transaction w calm e, e) refl
        | inr (error, e) ↦ rw (run_body-err transaction w calm e, e) refl
      ]

      abbrev pub with_transaction : Bool → Exec W (Round A)
      with_transaction first = cached_transaction b S core mode >>= (elim [
        | none ↦ in_realm b S (evict_cached_connection core.db_name) >> pure refresh
        | some transaction ↦ λ w. after_run b S core first (run_body b S transaction body w)
      ])

      -- The world in which the body runs, on a connection that is cached.
      abbrev pub used : CachedConnection → W → W
      used c w = record {
        env = (b.now (b.now w.env).1).1;
        realm = touch core.db_name c (b.now (b.now w.env).1).0 w.realm;
        stores = w.stores;
      }

      -- On a cached connection that is fresh.
      pub with_transaction-used :
          (first : Bool) (w : W)
          → (ready : IsReady w)
          → with_transaction first w
            ≡ after_run b S core first
                (run_body b S (record { db = ready.0.db; mode = mode }) body (used ready.0 w))
      unfolding cached_transaction look_up touch date_now
      with_transaction-used first w (c, cached, there, fresh) = rw (cached, fresh, there) refl

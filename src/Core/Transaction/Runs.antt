-- ===== src/Core/Transaction/Runs.antt =====
-- A transaction in a browser that works: one whose cached connection turns out to be stale is run again on
-- a new one.
use opendal_indexeddb.Base.{
  true, false, none, some, ◌≡◌, refl, ◌∙◌, subst, Result, ok, err, Option-cases, inl, inr,
}
use opendal_indexeddb.Base.Exec.{continue, ◌>>=◌}
use opendal_indexeddb.Connection.Cache.{Database, cache_connection, evict_cached_connection}
use opendal_indexeddb.Connection.Open.{
  Browser, IndexeddbCore, World, Fault, idb, date_now, in_realm, open_client,
}
use opendal_indexeddb.Core.Entry.{Txn}
use opendal_indexeddb.Idb.{Stores}
use opendal_indexeddb.Core.Transaction.{
  Mode, TransactionBuilder, Round, returned, refresh, look_up, cached_client_has_stores,
  ensure_cached_client, reopen, run_body, after_run, round, last_round, next_round, run_transaction,
}
use opendal_indexeddb.Core.Transaction.Keeper.{Keeper, Opener, Yields, Owned}
use opendal_indexeddb.Core.Transaction.Keeper.Opens.{open_client-Yields}
use opendal_indexeddb.Core.Transaction.Attempts.{
  outcome_of, IsReady, Ready, Settled, ensure_cached_client-Ready, after_run-Settled,
  with_transaction, with_transaction-used, used, cache_connection-at_key, fresh_at_next,
}
use opendal_indexeddb.Core.Transaction.Tasks.Absent.{evict-gone}
use opendal_indexeddb.Core.Transaction.Working.{IsWorking, Opened, open_client-Opened}

module _ (b : Browser) (S : Type 0) (core : IndexeddbCore) (h : IsWorking b core) where
  abbrev W : Type 0
  W = World b.Env S

  -- Nothing is asked of the cache and the browser; a connection that was just opened is live.
  abbrev asks_nothing : Keeper b core
  asks_nothing = record { Holds = λ e x. Unit; read_clock = λ e x _. tt; evict = λ e x _. tt }

  abbrev opens_live : Opener asks_nothing
  opens_live = record {
    Owns = λ db e x. h.Live db e;
    keep_own = λ db e x own. h.live_now db e own;
    factory = λ e x _. tt;
    open_latest = λ e x _ nothing. tt;
    own_latest = λ db e x _ found. h.live_latest db e found;
    upgrade = λ version e x _ nothing. tt;
    own_upgraded = λ db version e x _ found. h.live_upgrade db version e found;
    close_own = λ db e x own. tt;
  }

  -- The connection that is cached is fresh, and live.
  abbrev Renewed : W → Result (Unit {0}) × W → Type 0
  Renewed w (ok _, w') =
      ((ready : IsReady b S core w') × h.Live ready.0.db w'.env) × (w'.stores ≡ w.stores)
  Renewed w (err e, w') = ⊥

  -- It was opened right before.
  Opened-Renewed :
      (w w' : W) (r : Result Database × W)
      → w'.stores ≡ w.stores
      → Opened b S core w' r
      → Yields asks_nothing S (Owned asks_nothing S opens_live) r
      → Renewed w (
          continue r (λ db. date_now b S >>= λ now.
          in_realm b S (cache_connection core.db_name db db.object_store_names now)))
  unfolding date_now in_realm
  Opened-Renewed w w' (ok db, w'') e (there, kept) live = (
    (
      (
        _,
        cache_connection-at_key core.db_name db db.object_store_names _ _,
        there,
        fresh_at_next b S core h.can_open w''.env _ refl,
      ),
      h.live_now db w''.env live,
    ),
    kept ∙ e,
  )
  Opened-Renewed w w' (err error, w'') e none_opened live = absurd none_opened

  reopen-Renewed : (w : W) → Renewed w (reopen b S core w)
  unfolding reopen in_realm
  reopen-Renewed w =
      let w' : W = record w { realm = evict_cached_connection core.db_name w.realm } in
      Opened-Renewed w w' (open_client b S core w') refl (open_client-Opened b S core h.can_open w')
        (open_client-Yields asks_nothing opens_live S w' tt)

  abbrev ticked : W → W
  ticked w = record w { env = (b.now (b.now w.env).1).1 }

  -- Where no connection is cached, none is found.
  cached_client_has_stores-none :
      (w : W)
      → w.realm.cache core.db_name ≡ none
      → cached_client_has_stores b S core w ≡ (ok false, ticked w)
  unfolding cached_client_has_stores date_now look_up
  cached_client_has_stores-none w absent = rw absent refl

  ensure_cached_client-none :
      (w : W)
      → w.realm.cache core.db_name ≡ none
      → ensure_cached_client b S core w ≡ reopen b S core (ticked (ticked w))
  unfolding ensure_cached_client
  ensure_cached_client-none w absent =
      rw
        (
          ensure_cached_client,
          cached_client_has_stores-none w absent,
          cached_client_has_stores-none (ticked w) absent,
        )
        refl

  ensure_cached_client-Renewed :
      (w : W) → w.realm.cache core.db_name ≡ none → Renewed w (ensure_cached_client b S core w)
  ensure_cached_client-Renewed w absent =
      rw (ensure_cached_client-none w absent) (reopen-Renewed (ticked (ticked w)))

  module _ {A : Type 0} (mode : Mode) (body : Txn S A) where
    -- The second attempt: on a connection that was just opened, its answer is the body's.
    second-Settled :
        (w : W) (r : Result (Unit {0}) × W)
        → Renewed w r
        → Settled b S core h.can_open mode body w.stores
            (continue r (λ _. with_transaction b S core h.can_open mode body false))
    second-Settled w (ok _, w') ((ready, live), kept) =
        subst
          (λ s.
            Settled b S core h.can_open mode body s
              (with_transaction b S core h.can_open mode body false w'))
          kept
          (rw (with_transaction-used b S core h.can_open mode body false w' ready) (
            after_run-Settled b S core h.can_open mode body false
              (record { db = ready.0.db; mode = mode })
              (used b S core h.can_open mode body ready.0 w')
              (h.live ready.0.db _ (h.live_now _ _ (h.live_now _ _ live)))))
    second-Settled w (err _, w') none_ready = absurd none_ready

    -- The first attempt: an answer that is the body's, or a connection that was stale, and is evicted.
    abbrev Tried : W → Result (Round A) × W → Type 0
    Tried w (ok refresh, w') = (w'.stores ≡ w.stores) × (w'.realm.cache core.db_name ≡ none)
    Tried w r = Settled b S core h.can_open mode body w.stores r

    Settled-Tried :
        (w : W) (r : Result (Round A) × W)
        → Settled b S core h.can_open mode body w.stores r
        → Tried w r
    Settled-Tried w (ok (returned a), w') settled = settled
    Settled-Tried w (ok refresh, w') settled = absurd settled
    Settled-Tried w (err e, w') settled = settled

    Tried-from :
        (w w' : W) (r : Result (Round A) × W) → w'.stores ≡ w.stores → Tried w' r → Tried w r
    Tried-from w w' (ok (returned a), v) e tried =
        subst (λ s. Settled b S core h.can_open mode body s (ok (returned a), v)) e tried
    Tried-from w w' (ok refresh, v) e (kept, gone) = (kept ∙ e, gone)
    Tried-from w w' (err error, v) e tried =
        subst (λ s. Settled b S core h.can_open mode body s (err error, v)) e tried

    run_body-fault :
        (transaction : TransactionBuilder) (w : W) (fault : Fault)
        → (b.fault transaction.db w.env).0 ≡ some fault
        → run_body b S transaction body w
          ≡ (inr (idb fault), record w { env = (b.fault transaction.db w.env).1 })
    unfolding run_body
    run_body-fault transaction w fault e = simp (run_body, e)

    after_run-Tried :
        (transaction : TransactionBuilder) (w : W)
        → Tried w (after_run b S core true (run_body b S transaction body w))
    unfolding after_run in_realm
    after_run-Tried transaction w = elim (Option-cases (b.fault transaction.db w.env).0) [
      | inl calm ↦
          Settled-Tried w _
            (after_run-Settled b S core h.can_open mode body true transaction w calm)
      | inr (fault, e) ↦
          rw (run_body-fault transaction w fault e, h.stale transaction.db w.env fault e)
            (refl, evict-gone core.db_name w.realm)
    ]

    first-Tried :
        (w : W) (r : Result (Unit {0}) × W)
        → Ready b S core w r
        → Tried w (continue r (λ _. with_transaction b S core h.can_open mode body true))
    first-Tried w (ok _, w') (ready, kept) =
        let next = used b S core h.can_open mode body ready.0 w' in
        rw (with_transaction-used b S core h.can_open mode body true w' ready) (
          Tried-from w next _ kept (after_run-Tried (record { db = ready.0.db; mode = mode }) next))
    first-Tried w (err _, w') ready = absurd ready

    -- Behind the second attempt.
    last-answer :
        (s : Stores S) (r : Result (Round A) × W)
        → Settled b S core h.can_open mode body s r
        → (let done = continue r (last_round b S core) in
            outcome_of s (body s) ≡ (done.0, done.1.stores))
    unfolding last_round
    last-answer s (ok (returned a), w) settled = settled
    last-answer s (ok refresh, w) settled = absurd settled
    last-answer s (err e, w) settled = settled

    -- Behind the first one.
    next-answer :
        (w : W) (r : Result (Round A) × W)
        → Tried w r
        → (let done = continue r (next_round b S core mode body) in
            outcome_of w.stores (body w.stores) ≡ (done.0, done.1.stores))
    unfolding next_round round
    next-answer w (ok (returned a), w') tried = tried
    next-answer w (err e, w') tried = tried
    next-answer w (ok refresh, w') (kept, gone) =
        let second : Result (Round A) × W = round b S core mode false body w' in
        subst
          (λ s. outcome_of s (body s) ≡ (
            (continue second (last_round b S core)).0,
            (continue second (last_round b S core)).1.stores,
          ))
          kept
          (last-answer w'.stores second (
            second-Settled w' (ensure_cached_client b S core w')
              (ensure_cached_client-Renewed w' gone)))

    -- In a browser that works, whatever the cache holds, be it a connection on which every transaction
    -- fails as stale, a transaction ends with the body's own answer, a value or an error, and with the
    -- stores that the body leaves; an error leaves them as they were.
    pub run_transaction_runs :
        (w : World b.Env S)
        → (let r = run_transaction b S core mode body w in
            outcome_of w.stores (body w.stores) ≡ (r.0, r.1.stores))
    unfolding run_transaction round
    run_transaction_runs w = next-answer w _ (
        first-Tried w (ensure_cached_client b S core w)
          (ensure_cached_client-Ready b S core h.can_open w))

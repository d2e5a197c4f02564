-- ===== src/Core/Transaction/Keeper/Rounds.antt =====
-- `run_transaction` of src/backend/core.rs keeps what a keeper, `ensure_cached_client` and the looks of
-- `cached_transaction` keep.
use opendal_indexeddb.Base.{◌⊎◌, inl, inr, Bool, true, false, ℕ, Bool-cases, Option-cases, ◌&&◌}
use opendal_indexeddb.Connection.Cache.{Database, Realm}
use opendal_indexeddb.Connection.Open.{
  Browser, IndexeddbCore, World, IdbError, is_stale_connection_error, date_now, in_realm,
}
use opendal_indexeddb.Core.Entry.{Txn}
use opendal_indexeddb.Core.Transaction.{
  Mode, TransactionBuilder, look_up, cached_transaction, ensure_cached_client, run_body, after_run,
  round, last_round, next_round, run_transaction,
}
use opendal_indexeddb.Core.Transaction.Attempts.{Result-cases}
use opendal_indexeddb.Core.Transaction.Keeper.{
  Keeper, Kept, Yields, Anything, Yields-continue, Yields-Kept, by_option, by_round,
}

module _ {b : Browser} {core : IndexeddbCore} (k : Keeper b core) (S : Type 0)
    (faults : (db : Database) (e : b.Env) (x : Realm) → k.Holds e x → k.Holds (b.fault db e).1 x)
    (looks : (now later : ℕ) (e : b.Env) (x : Realm)
      → k.Holds e x
      → k.Holds e (look_up core false now later x).1)
    (ensures : (w : World b.Env S)
      → Kept k S w
      → Yields k S (Anything k S) (ensure_cached_client b S core w)) where
  abbrev W : Type 0
  W = World b.Env S

  cached_transaction-Yields :
      (mode : Mode) (w : W)
      → Kept k S w
      → Yields k S (Anything k S) (cached_transaction b S core mode w)
  unfolding cached_transaction date_now
  cached_transaction-Yields mode w h =
      let first = k.read_clock w.env w.realm h in
      let second = k.read_clock (b.now w.env).1 w.realm first in
      looks (b.now w.env).0 (b.now (b.now w.env).1).0 (b.now (b.now w.env).1).1 w.realm second

  module _ {A : Type 0} (mode : Mode) (body : Txn S A) where
    run_body-Kept :
        (transaction : TransactionBuilder) (w : W)
        → Kept k S w
        → Kept k S (run_body b S transaction body w).1
    unfolding run_body
    run_body-Kept transaction w h =
        let later = faults transaction.db w.env w.realm h in
        elim (Option-cases (b.fault transaction.db w.env).0) [
          | inr (fault, e) ↦ rw (run_body, e) later
          | inl e ↦ elim (Result-cases (body w.stores)) [
            | inl (_, e') ↦ rw (run_body, e, e') later
            | inr (_, e') ↦ rw (run_body, e, e') later
          ]
        ]

    after_run-Yields :
        (first : Bool) (r : (A ⊎ IdbError) × W)
        → Kept k S r.1
        → Yields k S (Anything k S) (after_run b S core first r)
    unfolding after_run in_realm
    after_run-Yields first (inl a, w) h = h
    after_run-Yields first (inr e, w) h = elim (Bool-cases (first && is_stale_connection_error e)) [
      | inl stale ↦ rw stale (k.evict w.env w.realm h)
      | inr final ↦ rw final h
    ]

    round-Yields :
        (first : Bool) (w : W)
        → Kept k S w
        → Yields k S (Anything k S) (round b S core mode first body w)
    unfolding round in_realm
    round-Yields first w h =
        Yields-continue k S (Anything k S) (Anything k S) (ensure_cached_client b S core w) _
          (ensures w h)
          (λ _ w1 h1.
            Yields-continue k S (Anything k S) (Anything k S) (cached_transaction b S core mode w1)
              _ (cached_transaction-Yields mode w1 h1)
              (by_option k S (Anything k S) _ (λ w2 h2. k.evict w2.env w2.realm h2)
                (λ transaction w2 h2.
                  after_run-Yields first (run_body b S transaction body w2)
                    (run_body-Kept transaction w2 h2))))

    run_transaction-Yields :
        (w : W) → Kept k S w → Yields k S (Anything k S) (run_transaction b S core mode body w)
    unfolding run_transaction next_round last_round
    run_transaction-Yields w h =
        Yields-continue k S (Anything k S) (Anything k S) (round b S core mode true body w)
          (next_round b S core mode body) (round-Yields true w h)
          (by_round k S (Anything k S) _ (λ a w' h'. h')
            (λ w' h'.
              Yields-continue k S (Anything k S) (Anything k S) (round b S core mode false body w')
                (last_round b S core) (round-Yields false w' h')
                (by_round k S (Anything k S) _ (λ a w'' h''. h'') (λ w'' h''. h''))))

    pub run_transaction-Kept :
        (w : W) → Kept k S w → Kept k S (run_transaction b S core mode body w).1
    run_transaction-Kept w h =
        Yields-Kept k S (run_transaction b S core mode body w) (run_transaction-Yields w h)

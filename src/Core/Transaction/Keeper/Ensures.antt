-- ===== src/Core/Transaction/Keeper/Ensures.antt =====
-- `ensure_cached_client` of src/backend/core.rs keeps what a keeper keeps and the looks at the cache and
-- the insertion of an own connection keep.
use opendal_indexeddb.Base.{true, ℕ}
use opendal_indexeddb.Connection.Cache.{Database, Realm, cache_connection, evict_cached_connection}
use opendal_indexeddb.Connection.Open.{
  Browser, IndexeddbCore, World, date_now, in_realm, open_client,
}
use opendal_indexeddb.Core.Transaction.{
  look_up, cached_client_has_stores, ensure_cached_client, reopen,
}
use opendal_indexeddb.Core.Transaction.Keeper.{
  Keeper, Opener, Kept, Yields, Owned, Anything, Yields-continue, by_bool,
}
use opendal_indexeddb.Core.Transaction.Keeper.Opens.{open_client-Yields}

module _ {b : Browser} {core : IndexeddbCore} (k : Keeper b core) (o : Opener k) (S : Type 0)
    (looks : (now later : ℕ) (e : b.Env) (x : Realm)
      → k.Holds e x
      → k.Holds e (look_up core true now later x).1)
    (inserts : (db : Database) (now : ℕ) (e : b.Env) (x : Realm)
      → o.Owns db e x
      → k.Holds e (cache_connection core.db_name db db.object_store_names now x)) where
  abbrev W : Type 0
  W = World b.Env S

  reopen-Yields : (w : W) → Kept k S w → Yields k S (Anything k S) (reopen b S core w)
  unfolding reopen in_realm date_now
  reopen-Yields w h =
      let w1 : W = record w { realm = evict_cached_connection core.db_name w.realm } in
      Yields-continue k S (Owned k S o) (Anything k S) (open_client b S core w1) _
        (open_client-Yields k o S w1 (k.evict w.env w.realm h))
        (λ db w2 own.
          inserts db (b.now w2.env).0 (b.now w2.env).1 w2.realm (o.keep_own db w2.env w2.realm own))

  cached_client_has_stores-Yields :
      (w : W) → Kept k S w → Yields k S (Anything k S) (cached_client_has_stores b S core w)
  unfolding cached_client_has_stores date_now
  cached_client_has_stores-Yields w h =
      let first = k.read_clock w.env w.realm h in
      let second = k.read_clock (b.now w.env).1 w.realm first in
      looks (b.now w.env).0 (b.now (b.now w.env).1).0 (b.now (b.now w.env).1).1 w.realm second

  pub ensure_cached_client-Yields :
      (w : W) → Kept k S w → Yields k S (Anything k S) (ensure_cached_client b S core w)
  unfolding ensure_cached_client
  ensure_cached_client-Yields w h =
      Yields-continue k S (Anything k S) (Anything k S) (cached_client_has_stores b S core w) _
        (cached_client_has_stores-Yields w h)
        (by_bool k S (Anything k S) _ (λ w' h'. h')
          (λ w' h'.
            Yields-continue k S (Anything k S) (Anything k S) (cached_client_has_stores b S core w')
              _ (cached_client_has_stores-Yields w' h')
              (by_bool k S (Anything k S) _ (λ w'' h''. h'') (λ w'' h''. reopen-Yields w'' h''))))

-- ===== src/Core/Ops.antt =====
-- The methods of `IndexeddbCore`: each transaction, run. A body that reads the clock is given the time
-- at which its action starts.
use opendal_indexeddb.Base.{
  Str, Bytes, Bool, true, false, Option, some, ℕ, List, [], ◌∷◌, is_empty, str_eq, Error, error,
  is_same_file, with_context, Result, ok, err, String, if◌then◌else◌,
}
use opendal_indexeddb.Base.Exec.{Exec, pure, raise, ◌>>=◌}
use opendal_indexeddb.Connection.Open.{Browser, IndexeddbCore, World, date_now}
use opendal_indexeddb.Core.Entry.{Txn, Metadata}
use opendal_indexeddb.Core.Move.{copy_txn, rename_txn}
use opendal_indexeddb.Core.Read.{read_txn, stat_txn}
use opendal_indexeddb.Core.Remove.{delete_many_txn}
use opendal_indexeddb.Core.Scan.{ScanPageRequest, ScanPage, scan_page_txn, is_vacant, no_page}
use opendal_indexeddb.Core.Transaction.{read_only, read_write, run_transaction}
use opendal_indexeddb.Core.Write.{set_txn}
use opendal_indexeddb.Idb.{StoreApi, Stores, External}
use opendal_indexeddb.Meta.Records.{EntryInfo, ReadArgs, WriteArgs}

abbrev pub with_state : {S A : Type 0} → Result A → Stores S → Result (A × Stores S)
with_state (ok a) s = ok (a, s)
with_state (err e) s = err e

-- A body that writes nothing.
abbrev pub reading : {S A : Type 0} → (Stores S → Result A) → Txn S A
reading body s = with_state (body s) s

-- The error of a copy or a rename onto itself.
abbrev pub same_file : String → Str → Str → Error
same_file message from to =
    with_context "to" to (with_context "from" from (error is_same_file message))

module _ (b : Browser) (api : StoreApi) (x : External) (core : IndexeddbCore) where
  abbrev pub W : Type 0
  W = World b.Env api.Store

  unfoldable pub read : Str → ReadArgs → Exec W (Option (EntryInfo × Bytes))
  read path args = run_transaction b api.Store core read_only (reading (read_txn api x path args))

  unfoldable pub stat : Str → Exec W (Option EntryInfo)
  stat path = run_transaction b api.Store core read_only (reading (λ s. ok (stat_txn api x path s)))

  unfoldable pub set : Str → Bytes → WriteArgs → Exec W EntryInfo
  set path value write_args = do
    now ← date_now b api.Store
    run_transaction b api.Store core read_write (set_txn api x path value write_args now)

  unfoldable pub delete_many : List (Str × Bool) → Exec W (Unit {0})
  delete_many batch =
      let run = run_transaction b api.Store core read_write (delete_many_txn api batch) in
      if is_empty batch then pure tt else run

  unfoldable pub delete : Str → Exec W (Unit {0})
  delete path = delete_many ((path, false) ∷ [])

  unfoldable pub delete_recursive : Str → Exec W (Unit {0})
  delete_recursive path = delete_many ((path, true) ∷ [])

  -- Nothing where the fuel of the scan runs out.
  unfoldable pub scan_page : ℕ → ScanPageRequest → Exec W (Option ScanPage)
  scan_page fuel req =
      let run =
        run_transaction b api.Store core read_only (reading (scan_page_txn api fuel x req)) in
      if is_vacant req then pure (some (no_page req)) else run

  unfoldable pub copy : Str → Str → Bool → Option Str → Exec W Metadata
  copy from to if_not_exists if_match =
      let run = (do
        now ← date_now b api.Store
        run_transaction b api.Store core read_write
            (copy_txn api x from to if_not_exists if_match now)) in
      if str_eq from to
      then raise (same_file "copy from and to paths are the same" from to)
      else run

  unfoldable pub rename : Str → Str → Exec W (Unit {0})
  rename from to =
      let run = run_transaction b api.Store core read_write (rename_txn api x from to) in
      if str_eq from to
      then raise (same_file "rename from and to paths are the same" from to)
      else run

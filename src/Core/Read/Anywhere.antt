-- ===== src/Core/Read/Anywhere.antt =====
-- Reads and stats on any stores: also with a sidecar whose record is gone, a record with no sidecar, or
-- values of foreign code.
use opendal_indexeddb.Base.{Str, Bytes, false, Option, none, some, ◌≡◌, refl, ok, arith}
use opendal_indexeddb.Core.Entry.{read_meta}
use opendal_indexeddb.Core.Read.{
  has_conditions, check_conditions, read_value, read_tagged, read_untagged, read_txn, stat_recorded,
  stat_txn,
}
use opendal_indexeddb.Idb.{StoreApi, IsStore, Stores, External}
use opendal_indexeddb.Meta.Check.{check_etag, check_modified}
use opendal_indexeddb.Meta.Records.{MetaRecord, EntryInfo, ReadArgs, entry_of_record}

module _ (x : External) (api : StoreApi) (laws : IsStore api) (s : Stores api.Store)
    (path : Str) where
  open api use {get}

  -- With no condition the checks pass.
  check_conditions-free :
      (info : EntryInfo) (args : ReadArgs)
      → has_conditions args ≡ false
      → check_conditions x path info args ≡ ok tt
  unfolding has_conditions check_conditions check_modified check_etag
  check_conditions-free info args free = ground arith

  orphan_tagged :
      (args : ReadArgs) (meta : MetaRecord)
      → get s.data_store path ≡ none
      → read_tagged api x path args s meta ≡ ok none
  unfolding read_tagged
  orphan_tagged args meta gone = ground (
    arith,
    laws.contains-eq s.data_store path,
    check_conditions-free (record { meta = entry_of_record meta }) args,
  )

  -- Where the data store has no record, a read and a stat answer nothing, whatever the sidecar says
  -- and whatever the conditions of the read are.
  pub read_txn-orphan :
      (args : ReadArgs)
      → get s.data_store path ≡ none
      → (read_txn api x path args s ≡ ok none) × (stat_txn api x path s ≡ none)
  unfolding stat_txn stat_recorded read_txn read_untagged
  read_txn-orphan args gone = (
    orphan_read (read_meta api s.meta_store path) refl,
    ground (arith, laws.contains-eq s.data_store path),
  )
    where
      orphan_read :
          (m : Option MetaRecord)
          → read_meta api s.meta_store path ≡ m
          → read_txn api x path args s ≡ ok none
      orphan_read none e = rw (e, read_txn, gone, read_untagged) refl
      orphan_read (some meta) e = ground (arith, orphan_tagged args meta gone)

  -- What a read answers with, a stat answers with too.
  pub stat_txn-read :
      (args : ReadArgs) {info : EntryInfo} {bytes : Bytes}
      → read_txn api x path args s ≡ ok (some (info, bytes))
      → stat_txn api x path s ≡ some info
  unfolding stat_txn stat_recorded read_txn read_tagged read_untagged read_value read_meta
  stat_txn-read args h = ground (arith, laws.contains-eq s.data_store path)

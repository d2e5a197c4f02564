-- ===== src/Core/Read.antt =====
-- The transactions of `IndexeddbCore::read` and `IndexeddbCore::stat`. They write nothing.
pub mod Refines
pub mod Anywhere
use opendal_indexeddb.Base.{
  Str, Bytes, Bool, Option, none, some, ℕ, is_some, or_else, unwrap_or, and_then, ◌&&◌, ◌||◌, not,
  Result, ok, map_err, with_context, ◌>>=◌, ◌>>◌, if◌then◌else◌,
}
use opendal_indexeddb.Core.Entry.{read_meta}
use opendal_indexeddb.Idb.{StoreApi, Stores, External}
use opendal_indexeddb.Meta.Check.{check_etag, check_modified}
use opendal_indexeddb.Meta.Payload.{
  JsValue, to_meta, record_bytes_range, value_byte_length, value_etag,
}
use opendal_indexeddb.Meta.Records.{
  MetaRecord, EntryInfo, ReadArgs, entry_of_record, entry_meta_with_etag_fallback, from_size,
  with_etag,
}

unfoldable pub has_conditions : ReadArgs → Bool
has_conditions args =
    is_some args.if_match
    || is_some args.if_none_match
    || is_some args.if_modified_since
    || is_some args.if_unmodified_since

-- The two checks, with the path in their errors.
unfoldable pub check_conditions : External → Str → EntryInfo → ReadArgs → Result (Unit {0})
check_conditions x path info args = do
  map_err (with_context "path" path)
      (check_modified x.from_millisecond info args.if_modified_since args.if_unmodified_since)
  map_err (with_context "path" path) (check_etag info args.if_match args.if_none_match)

-- What a read answers once the record is at hand.
unfoldable pub read_value :
    Str → EntryInfo → JsValue → ReadArgs → Result (Option (EntryInfo × Bytes))
read_value path info value args = do
  let total_size = unwrap_or (or_else info.meta.size (value_byte_length value)) 0
  bytes ← record_bytes_range value path args.range total_size
  ok (some (info, bytes))

-- The info of a record with no ETag in its sidecar, or with no sidecar.
unfoldable pub info_of_value : External → Option MetaRecord → JsValue → EntryInfo
unfolding entry_meta_with_etag_fallback value_etag value_byte_length from_size with_etag
info_of_value x (some meta) value = record {
  meta = entry_meta_with_etag_fallback meta (value_etag x.hash_hex value);
}
info_of_value x none value = record {
  meta = with_etag (from_size (value_byte_length value)) (value_etag x.hash_hex value);
}

module _ (api : StoreApi) (x : External) where
  open api use {Store, get, contains}

  -- The branch for a sidecar that has an ETag.
  unfoldable pub read_tagged :
      Str → ReadArgs → Stores Store → MetaRecord → Result (Option (EntryInfo × Bytes))
  unfolding entry_of_record
  read_tagged path args s meta =
      let info : EntryInfo = record { meta = entry_of_record meta } in
      if has_conditions args && not (contains s.data_store path) then ok none else do
        check_conditions x path info args
        elim (get s.data_store path) [
          | none ↦ ok none
          | some value ↦ read_value path info value args
        ]

  -- The branch for the others.
  unfoldable pub read_untagged :
      Str → ReadArgs → Stores Store → Option MetaRecord → Result (Option (EntryInfo × Bytes))
  read_untagged path args s meta = elim (get s.data_store path) [
    | none ↦ ok none
    | some value ↦
        let info = info_of_value x meta value in
        check_conditions x path info args >> read_value path info value args
  ]

  unfoldable pub read_txn : Str → ReadArgs → Stores Store → Result (Option (EntryInfo × Bytes))
  unfolding read_meta
  read_txn path args s = elim (read_meta api s.meta_store path) [
    | none ↦ read_untagged path args s none
    | some meta ↦
        if is_some meta.e
        then read_tagged path args s meta
        else read_untagged path args s (some meta)
  ]

  -- A sidecar that deserialises.
  unfoldable pub stat_recorded : Str → Stores Store → MetaRecord → Option EntryInfo
  unfolding entry_of_record
  stat_recorded path s meta =
      if is_some meta.e
      then (if contains s.data_store path
          then some (record { meta = entry_of_record meta })
          else none)
      else (elim (get s.data_store path) [
        | none ↦ none
        | some value ↦ some (info_of_value x (some meta) value)
      ])

  unfoldable pub stat_txn : Str → Stores Store → Option EntryInfo
  unfolding to_meta
  stat_txn path s = elim (and_then (get s.meta_store path) to_meta) [
    | some meta ↦ stat_recorded path s meta
    | none ↦ elim (get s.data_store path) [
      | some value ↦ some (info_of_value x none value)
      | none ↦ none
    ]
  ]

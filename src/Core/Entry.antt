-- ===== src/Core/Entry.antt =====
-- What the transactions share: `read_meta`, `put_meta`, `entry_info_for_key` and `entry_metadata` of
-- src/backend/meta.rs, and the closure passed to `run_transaction`.
use opendal_indexeddb.Base.{
  Str, Bool, true, false, Option, none, some, ℕ, is_some, or_else, and_then, Result,
  ends_with_slash, if◌then◌else◌,
}
use opendal_indexeddb.Idb.{StoreApi, Stores, External, EntryMode, file}
use opendal_indexeddb.Meta.Check.{last_modified}
use opendal_indexeddb.Meta.Payload.{meta_value, to_meta, value_etag, value_byte_length}
use opendal_indexeddb.Meta.Records.{
  MetaRecord, MetaContent, EntryInfo, UserMetadata, Timestamp, no_meta, meta_record, from_size,
  with_etag, entry_meta_with_etag_fallback,
}

-- The body of a transaction. A body that fails aborts it, so an error comes with no new state.
abbrev pub Txn : Type 0 → Type 0 → Type 0
Txn S A = Stores S → Result (A × Stores S)

-- `opendal::Metadata`, as far as the crate sets it.
pub record Metadata : Type 0 where
  pub mode : EntryMode
  pub content_length : Option ℕ
  pub last_modified : Option Timestamp
  pub etag : Option Str
  pub content_type : Option Str
  pub user_metadata : Option UserMetadata

-- `Metadata::new(mode)`
abbrev pub new_metadata : EntryMode → Metadata
new_metadata mode = record {
  mode = mode;
  content_length = none;
  last_modified = none;
  etag = none;
  content_type = none;
  user_metadata = none;
}

unfoldable pub apply_content_metadata : Metadata → MetaContent → Metadata
apply_content_metadata meta content = record meta {
  content_type = or_else content.content_type meta.content_type;
  user_metadata = or_else content.user_metadata meta.user_metadata;
}

abbrev pub is_file : EntryMode → Bool
is_file file = true
is_file _ = false

unfoldable pub entry_metadata : External → Str → EntryInfo → Metadata
unfolding apply_content_metadata last_modified
entry_metadata x path info =
    let mode = x.mode_from_path path in
    let meta : Metadata = record (new_metadata mode) {
      content_length = if is_file mode then info.meta.size else none;
      last_modified = last_modified x.from_millisecond info;
      etag = info.meta.etag;
    } in
    elim info.meta.content [ none ↦ meta | some content ↦ apply_content_metadata meta content ]

module _ (api : StoreApi) where
  open api use {Store, get, put}

  unfoldable pub read_meta : Store → Str → Option MetaRecord
  unfolding to_meta
  read_meta meta_store key = and_then (get meta_store key) to_meta

  unfoldable pub put_meta : Store → Str → ℕ → Option ℕ → Option MetaContent → Store
  unfolding meta_record
  put_meta meta_store key length modified_ms content =
      put meta_store (meta_value (meta_record key length modified_ms content))

  -- The info of a listed key.
  unfoldable pub entry_info_for_key : External → Stores Store → Str → Option MetaRecord → EntryInfo
  unfolding read_meta value_etag entry_meta_with_etag_fallback value_byte_length from_size with_etag
  entry_info_for_key x s key prefetched_meta =
      elim (or_else prefetched_meta (read_meta s.meta_store key)) [
        | some meta ↦
            let etag =
              if is_some meta.e
              then none
              else and_then (get s.data_store key) (value_etag x.hash_hex) in
            record { meta = entry_meta_with_etag_fallback meta etag }
        | none ↦
            if ends_with_slash key then record { meta = no_meta } else elim (get s.data_store key) [
              | some value ↦ record {
                meta =
                    with_etag (from_size (value_byte_length value)) (value_etag x.hash_hex value);
              }
              | none ↦ record { meta = no_meta }
            ]
      ]

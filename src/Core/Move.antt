-- ===== src/Core/Move.antt =====
-- The transactions of `IndexeddbCore::copy` and `IndexeddbCore::rename`.
pub mod Refines
use opendal_indexeddb.Base.{
  Str, Bool, Option, none, some, ℕ, is_some, or_else, and_then, ◌&&◌, not, Result, ok, err, error,
  fail_if, not_found, condition_not_match, with_context, ◌>>=◌, ◌>>◌, if◌then◌else◌,
}
use opendal_indexeddb.Core.Entry.{Txn, Metadata, entry_metadata, read_meta, put_meta}
use opendal_indexeddb.Core.Write.{matches_existing}
use opendal_indexeddb.Idb.{StoreApi, Stores, External}
use opendal_indexeddb.Meta.Payload.{JsValue, set_record_key, source_size, value_etag}
use opendal_indexeddb.Meta.Records.{
  MetaRecord, MetaContent, EntryMeta, no_content, content_of_record, entry_of_option, with_size,
  with_last_modified_ms, with_etag,
}

-- The content gets the ETag; where there is no content, an ETag makes one.
unfoldable pub content_with_etag : Option MetaContent → Option Str → Option MetaContent
content_with_etag (some content) etag = some (record content { etag = etag })
content_with_etag none none = none
content_with_etag none (some etag) = some (record no_content { etag = some etag })

-- The meta that a copy writes and returns.
unfoldable pub copied_meta : Option MetaRecord → ℕ → ℕ → Option Str → EntryMeta
unfolding entry_of_option with_size with_last_modified_ms with_etag content_with_etag
copied_meta source_meta size modified source_etag =
    let meta =
      with_etag
        (with_last_modified_ms (with_size (entry_of_option source_meta) (some size))
          (some modified))
        source_etag in
    record meta { content = content_with_etag meta.content source_etag }

module _ (api : StoreApi) (x : External) where
  open api use {Store, get, contains, put, delete}

  -- `source_meta.e`, or the ETag of the value.
  unfoldable pub source_etag_of : Option MetaRecord → JsValue → Option Str
  unfolding value_etag
  source_etag_of source_meta value =
      or_else (and_then source_meta (λ m. m.e)) (value_etag x.hash_hex value)

  -- The ETag of the destination, for `if_match`.
  unfoldable pub target_etag : Str → Stores Store → Option Str
  unfolding read_meta value_etag
  target_etag to s =
      if contains s.data_store to
      then (let stored = and_then (get s.data_store to) (value_etag x.hash_hex) in
          elim (read_meta api s.meta_store to) [
            | none ↦ stored
            | some meta ↦ or_else meta.e stored
          ])
      else none

  unfoldable pub check_target : Str → Bool → Option Str → Stores Store → Result (Unit {0})
  unfolding matches_existing
  check_target to if_not_exists if_match s = do
    fail_if (if_not_exists && contains s.data_store to)
        (with_context "to" to (error condition_not_match "path already exists"))
    elim if_match [
      | none ↦ ok tt
      | some want ↦
          fail_if (not (matches_existing want (contains s.data_store to) (target_etag to s))) (
            with_context "to" to
              (error condition_not_match "the destination entry's etag does not match if_match"))
    ]

  pub missing_source : {A : Type 0} → Str → Result A
  missing_source from =
      err (with_context "from" from (error not_found "indexeddb doesn't have this path"))

  -- The part of a copy after the checks.
  unfoldable pub copy_record :
      Str → Str → ℕ → Stores Store → JsValue → Result (Metadata × Stores Store)
  unfolding read_meta source_size source_etag_of copied_meta set_record_key put_meta entry_metadata
  copy_record from to now s value = do
    let source_meta = read_meta api s.meta_store from
    size ← source_size source_meta value from
    let meta = copied_meta source_meta size now (source_etag_of source_meta value)
    ok (
      entry_metadata x to (record { meta = meta }),
      record {
        data_store = put s.data_store (set_record_key value to);
        meta_store = put_meta api s.meta_store to size (some now) meta.content;
      },
    )

  unfoldable pub copy_txn : Str → Str → Bool → Option Str → ℕ → Txn Store Metadata
  unfolding missing_source
  copy_txn from to if_not_exists if_match now s = elim (get s.data_store from) [
    | none ↦ missing_source from
    | some value ↦ check_target to if_not_exists if_match s >> copy_record from to now s value
  ]

  -- The part of a rename after the lookup.
  unfoldable pub rename_record :
      Str → Str → Stores Store → JsValue → Result (Unit {0} × Stores Store)
  unfolding read_meta source_size source_etag_of content_of_record content_with_etag set_record_key
      put_meta
  rename_record from to s value = do
    let source_meta = read_meta api s.meta_store from
    size ← source_size source_meta value from
    let modified_ms = and_then source_meta (λ meta. meta.m)
    let content_meta =
        content_with_etag (and_then source_meta (λ meta. some (content_of_record meta)))
          (source_etag_of source_meta value)
    ok (
      tt,
      record {
        data_store = delete (put s.data_store (set_record_key value to)) from;
        meta_store = delete (put_meta api s.meta_store to size modified_ms content_meta) from;
      },
    )

  unfoldable pub rename_txn : Str → Str → Txn Store (Unit {0})
  unfolding missing_source
  rename_txn from to s = elim (get s.data_store from) [
    | none ↦ missing_source from
    | some value ↦ rename_record from to s value
  ]

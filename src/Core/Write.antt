-- ===== src/Core/Write.antt =====
-- The transaction of `IndexeddbCore::set`.
pub mod Refines
use opendal_indexeddb.Base.{
  Str, Bytes, Bool, true, false, Option, none, some, ℕ, is_some, or_else, unwrap_or, and_then, ◌&&◌,
  ◌||◌, not, [], ◌++◌, length, lit, str_eq, opt_eq, Result, ok, error, fail_if, condition_not_match,
  with_context, ◌>>=◌, ◌>>◌, if◌then◌else◌,
}
use opendal_indexeddb.Core.Entry.{Txn, read_meta}
use opendal_indexeddb.Idb.{StoreApi, Stores, External}
use opendal_indexeddb.Meta.Payload.{
  JsValue, key_and_value, meta_value, record_bytes, value_etag, etag_from_bytes,
}
use opendal_indexeddb.Meta.Records.{
  MetaRecord, MetaContent, EntryInfo, WriteArgs, no_content, content_of_record, merge, meta_record,
}

-- `want == "*" && exists || existing_etag == Some(want)`
unfoldable pub matches_existing : Str → Bool → Option Str → Bool
matches_existing want exists existing_etag =
    str_eq want (lit "*") && exists || opt_eq existing_etag (some want)

-- The three conditions of a write, in the order of the source.
unfoldable pub check_write : Str → WriteArgs → Bool → Option Str → Result (Unit {0})
unfolding matches_existing
check_write path args exists existing_etag = do
  fail_if (args.if_not_exists && exists)
      (with_context "path" path (error condition_not_match "path already exists"))
  elim args.if_match [
    | none ↦ ok tt
    | some want ↦ fail_if (not (matches_existing want exists existing_etag)) (
        with_context "path" path
          (error condition_not_match "the entry's etag does not match if_match"))
  ]
  elim args.if_none_match [
    | none ↦ ok tt
    | some want ↦ fail_if (matches_existing want exists existing_etag) (
        with_context "path" path
          (error condition_not_match "the entry's etag matches if_none_match"))
  ]

unfoldable pub unconditional_overwrite : WriteArgs → Bool
unconditional_overwrite args =
    not args.append
    && not args.if_not_exists
    && not (is_some args.if_match)
    && not (is_some args.if_none_match)

-- The bytes that an append starts from.
unfoldable pub appended_to : Str → WriteArgs → Option JsValue → Result Bytes
unfolding record_bytes
appended_to path args existing_data =
    if args.append
    then (elim existing_data [ none ↦ ok [] | some value ↦ record_bytes value path ])
    else ok []

-- The content metadata of the new record: an append starts from the existing sidecar.
unfoldable pub new_content : WriteArgs → Option MetaRecord → Str → MetaContent
unfolding content_of_record merge
new_content args existing_meta etag =
    let base : MetaContent =
      if args.append
      then (elim existing_meta [ none ↦ no_content | some meta ↦ content_of_record meta ])
      else no_content in
    let merged : MetaContent = elim args.meta [
      | none ↦ base
      | some request_meta ↦ merge base request_meta
    ] in
    record merged { etag = some etag }

module _ (api : StoreApi) (x : External) where
  open api use {Store, get, put}

  -- What the write is evaluated against; an unconditional overwrite reads nothing.
  unfoldable pub existing_data : Str → WriteArgs → Stores Store → Option JsValue
  existing_data path args s = if unconditional_overwrite args then none else get s.data_store path

  -- The sidecar is read only beside a data record.
  unfoldable pub existing_meta : Str → WriteArgs → Stores Store → Option MetaRecord
  existing_meta path args s =
      if is_some (existing_data path args s) then read_meta api s.meta_store path else none

  unfoldable pub existing_etag : Str → WriteArgs → Stores Store → Option Str
  existing_etag path args s =
      or_else (and_then (existing_meta path args s) (λ m. m.e))
        (and_then (existing_data path args s) (value_etag x.hash_hex))

  -- The record and its sidecar, and the info that the write returns.
  unfoldable pub store_object :
      Str → Bytes → MetaContent → ℕ → Stores Store → EntryInfo × Stores Store
  unfolding meta_record
  store_object path bytes content now s = (
    record {
      meta = record {
        size = some (length bytes);
        last_modified_ms = some now;
        etag = content.etag;
        content = some content;
      };
    },
    record {
      data_store = put s.data_store (key_and_value path bytes);
      meta_store =
          put s.meta_store (meta_value (meta_record path (length bytes) (some now) (some content)));
    },
  )

  -- The checks, the new bytes and the two writes, against what was read.
  unfoldable pub write_over :
      Str
      → Bytes
      → WriteArgs
      → ℕ
      → Option JsValue
      → Option MetaRecord
      → Option Str
      → Txn Store EntryInfo
  unfolding appended_to new_content store_object
  write_over path incoming args now found meta etag s = do
    check_write path args (is_some found) etag
    base ← appended_to path args found
    let bytes = base ++ incoming
    let content = new_content args meta (etag_from_bytes x.hash_hex bytes)
    ok (store_object path bytes content now s)

  -- `now` is `Date::now()`.
  unfoldable pub set_txn : Str → Bytes → WriteArgs → ℕ → Txn Store EntryInfo
  set_txn path incoming args now s =
      write_over path incoming args now (existing_data path args s) (existing_meta path args s)
        (existing_etag path args s) s

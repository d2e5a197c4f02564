-- ===== src/Examples/Objects.antt =====
-- The properties of single objects at concrete stores: one object, `docs/a`.
use opendal_indexeddb.Base.{
  drop, Str, Bytes, Bool, true, false, none, some, List, [], ◌∷◌, ◌++◌, ◌≡◌, refl, lit,
  ends_with_slash, ◌&&◌, js_le, js_lt, str_le, str_lt, starts_with, ok, arith, if◌then◌else◌,
}
use opendal_indexeddb.Connection.Prefix.{prefix_upper_bound}
use opendal_indexeddb.Connection.Prefix.Bounds.{prefix_upper_bound_lem}
use opendal_indexeddb.Connection.Utf8.{is_utf8}
use opendal_indexeddb.Core.Remove.{delete_many_txn}
use opendal_indexeddb.Core.Remove.Refines.{Loses, delete_many_txn-Loses}
use opendal_indexeddb.Examples.Shelf.{Shelf, shelf, shelf-IsStore, find}
use opendal_indexeddb.Files.Model.{Object, Files, update, removed}
use opendal_indexeddb.Files.Represents.{Represents, sidecar, put-Represents}
use opendal_indexeddb.Idb.{Stores, External, dir, file}
use opendal_indexeddb.Meta.Payload.{key_and_value, meta_value, etag_from_bytes, record_bytes_range}
use opendal_indexeddb.Meta.Payload.Range.{slice, record_bytes_range-slice}
use opendal_indexeddb.Meta.Records.{WriteArgs, ReadArgs}

-- A hash that names the bytes, and paths below the root `/`.
abbrev pub ext : External
ext = record {
  hash_hex = λ bytes. bytes;
  from_millisecond = λ ms. some ms;
  mode_from_path = λ path. if ends_with_slash path then dir else file;
  build_abs_path = λ root path. drop 1 (root ++ path);
  build_rel_path = λ root path. path;
  normalize_root = λ root. root;
}

abbrev pub etag_by : Bytes → Str
etag_by = etag_from_bytes ext.hash_hex

abbrev pub here : Str
here = lit "docs/a"

abbrev pub there : Str
there = lit "docs/b"

abbrev pub hello : Object
hello = record {
  bytes = lit "hello";
  modified = some 5;
  content_type = some (lit "text/plain");
  user_metadata = none;
}

abbrev nothing : Stores Shelf
nothing = record { data_store = []; meta_store = [] }

abbrev no_files : Files
no_files k = none

nothing-Represents : Represents etag_by shelf nothing no_files
unfolding find
nothing-Represents = record { at_key = λ k. (refl, refl) }

abbrev pub one : Stores Shelf
one = record {
  data_store = shelf.put [] (key_and_value here hello.bytes);
  meta_store = shelf.put [] (meta_value (sidecar etag_by here hello));
}

abbrev pub one_file : Files
one_file = update no_files here (some hello)

pub one-Represents : Represents etag_by shelf one one_file
one-Represents =
    put-Represents etag_by shelf shelf-IsStore nothing no_files nothing-Represents here hello

-- An append that asks for the present ETag.
abbrev pub append_args : WriteArgs
append_args = record {
  append = true;
  if_not_exists = false;
  if_match = some (lit "\"hello\"");
  if_none_match = none;
  meta = none;
}

abbrev pub from_two : ReadArgs
from_two = record {
  if_match = some (lit "*");
  if_none_match = none;
  if_modified_since = some 4;
  if_unmodified_since = none;
  range = record { offset = 2; size = some 2 };
}

abbrev pub below_docs : List (Str × Bool)
below_docs = (lit "docs", true) ∷ (lit "x", false) ∷ []

delete_many_txn-Loses_example :
    (t : Stores Shelf) × (delete_many_txn shelf below_docs one ≡ ok (tt, t))
    × Loses shelf (removed below_docs) one t
unfolding is_utf8
delete_many_txn-Loses_example =
    delete_many_txn-Loses shelf shelf-IsStore below_docs one (refl, (refl, tt))

prefix_upper_bound_lem_example :
    ((js_le (lit "docs/") here && js_lt here (lit "docs0")) ≡ starts_with (lit "docs/") here)
    × ((str_le (lit "docs/") here && str_lt here (lit "docs0")) ≡ starts_with (lit "docs/") here)
unfolding is_utf8 prefix_upper_bound
prefix_upper_bound_lem_example = prefix_upper_bound_lem (lit "docs/") here refl refl

record_bytes_range-slice_example :
    record_bytes_range (key_and_value here hello.bytes) here from_two.range 5
    ≡ ok (slice from_two.range hello.bytes)
record_bytes_range-slice_example =
    record_bytes_range-slice here here hello.bytes from_two.range (omega arith)

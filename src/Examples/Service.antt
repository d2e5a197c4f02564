-- ===== src/Examples/Service.antt =====
-- The properties of the service, of its connections and of its builder at concrete inputs.
use opendal_indexeddb.Access.Info.{native_capability}
use opendal_indexeddb.Access.{IndexeddbBackend, new_backend, with_normalized_root}
use opendal_indexeddb.Base.{
  Str, false, Option, none, some, ℕ, ◌+◌, ◌*◌, ◌^◌, ◌≡◌, ◌≢◌, refl, ◌&&◌, lit, take, [], ◌∷◌,
  Result, ok, arith,
}
use opendal_indexeddb.Builder.{
  IndexeddbBuilder, default_builder, set_object_store_name, set_root, build, db_name_of,
  object_store_name_of, build_core, is_reserved, meta_store_name_for,
}
use opendal_indexeddb.Builder.Names.{
  IsAccepted, acceptable, build_accepts, build_disjoint, build_sidecars,
}
use opendal_indexeddb.Connection.Cache.{
  Database, CachedConnection, Realm, set_entry, close, cached_connection_expired,
  cached_connection_cleanup_delay_ms, cache_cleanup,
}
use opendal_indexeddb.Connection.Cache.Cleanup.{cache_cleanup-closes}
use opendal_indexeddb.Connection.Open.{Browser, IndexeddbCore, World, opened}
use opendal_indexeddb.Core.Move.{rename_txn}
use opendal_indexeddb.Core.Read.{
  read_txn, stat_txn, read_tagged, read_untagged, read_value, has_conditions, check_conditions,
}
use opendal_indexeddb.Core.Read.Anywhere.{read_txn-orphan, stat_txn-read}
use opendal_indexeddb.Core.Transaction.{read_write, run_transaction}
use opendal_indexeddb.Core.Transaction.Atomic.{Atomic, run_transaction-Atomic}
use opendal_indexeddb.Examples.Objects.{ext, etag_by, here, there, hello, one, from_two}
use opendal_indexeddb.Examples.Shelf.{Shelf, shelf, shelf-IsStore, find, insert}
use opendal_indexeddb.Files.Model.{newer, not_newer, wanted, unwanted, info}
use opendal_indexeddb.Idb.{Stores}
use opendal_indexeddb.Io.{new_limit_lister, limit_next, list_page_size}
use opendal_indexeddb.Io.Limits.{drive, drive-limit, list_page_size_wraps}
use opendal_indexeddb.Meta.Check.{check_etag, check_modified, last_modified, etag_matches}
use opendal_indexeddb.Meta.Check.Decides.{IsDecided, check_modified_decides, check_etag_decides}
use opendal_indexeddb.Meta.Payload.{etag_from_bytes, record_bytes_range, saturating_add}
use opendal_indexeddb.Meta.Records.{EntryInfo}

abbrev pub main_core : IndexeddbCore
main_core = record {
  db_name = lit "db";
  object_store_name = lit "main";
  meta_store_name = lit "meta";
}

abbrev pub database : Database
database = record { handle = 1; version = 1; object_store_names = lit "main" ∷ lit "meta" ∷ [] }

-- A browser whose clock ticks at each look, with the database in place and no faults.
abbrev pub chrome : Browser
chrome = record {
  Env = ℕ;
  now = λ t. (t, t + 1);
  factory = λ t. (none, t);
  open_latest_version = λ name t. (some database, t);
  upgrade = λ name version missing t. (opened database, t);
  fault = λ db t. (none, t);
  to_string = λ e. "fault";
}

abbrev pub fresh : Realm
fresh = record { cache = λ name. none; generation = 0; closed = []; tasks = [] }

abbrev pub world : World ℕ Shelf
world = record { env = 9; realm = fresh; stores = one }

run_transaction-Atomic_example :
    Atomic chrome Shelf
      (rename_txn shelf ext here there)
      world
      (run_transaction chrome Shelf main_core read_write (rename_txn shelf ext here there) world)
run_transaction-Atomic_example =
    run_transaction-Atomic chrome Shelf (rename_txn shelf ext here there) main_core read_write world

-- The sidecar alone.
abbrev orphan : Stores Shelf
orphan = record { data_store = []; meta_store = one.meta_store }

read_txn-orphan_example :
    (read_txn shelf ext here from_two orphan ≡ ok none) × (stat_txn shelf ext here orphan ≡ none)
unfolding find
read_txn-orphan_example = read_txn-orphan ext shelf shelf-IsStore orphan here from_two refl

abbrev hello_info : EntryInfo
hello_info = info etag_by hello

stat_txn-read_example : stat_txn shelf ext here one ≡ some hello_info
unfolding find insert read_txn read_tagged read_untagged read_value has_conditions check_conditions
    check_etag check_modified etag_matches record_bytes_range etag_from_bytes saturating_add
stat_txn-read_example =
    stat_txn-read ext shelf shelf-IsStore one here from_two {info = hello_info} {bytes = lit "ll"}
      refl

check_modified_decides_example :
    IsDecided
      (newer (some 5) (last_modified ext.from_millisecond hello_info)
        && not_newer none (last_modified ext.from_millisecond hello_info))
      (check_modified ext.from_millisecond hello_info (some 5) none)
check_modified_decides_example =
    check_modified_decides ext.from_millisecond hello_info (some 5) none

check_etag_decides_example :
    IsDecided
      (wanted (some (lit "*")) (some (lit "\"hello\""))
        && unwanted (some (lit "x")) (some (lit "\"hello\"")))
      (check_etag hello_info (some (lit "*")) (some (lit "x")))
unfolding etag_from_bytes
check_etag_decides_example =
    check_etag_decides hello_info (lit "\"hello\"") (some (lit "*")) (some (lit "x")) refl

abbrev cached : CachedConnection
cached = record {
  db = database;
  object_store_names = database.object_store_names;
  last_used_ms = 100;
  generation = 1;
}

abbrev warm : Realm
warm = record fresh { cache = λ name. some cached; generation = 1 }

cache_cleanup-closes_example :
    cache_cleanup (lit "db") 1 ((100, 600) ∷ (600, 601) ∷ []) warm
    ≡ (close database (set_entry (lit "db") none warm), false)
unfolding cached_connection_cleanup_delay_ms cached_connection_expired
cache_cleanup-closes_example =
    cache_cleanup-closes (lit "db") cached warm 100 600 601 {delay = 500} refl (omega arith) refl
      (omega arith) (omega arith)

abbrev files_builder : IndexeddbBuilder
files_builder = set_root (set_object_store_name default_builder (lit "files")) (lit "/app")

abbrev built_main : IndexeddbBackend
built_main = record {
  core = record {
    db_name = lit "opendal";
    object_store_name = lit "main";
    meta_store_name = lit "__opendal_indexeddb_meta__main";
  };
  root = lit "/";
  info = record {
    scheme_of = lit "indexeddb";
    name = lit "opendal-main";
    root = lit "/";
    native = native_capability;
  };
}

abbrev built_files : IndexeddbBackend
built_files = record {
  core = record {
    db_name = lit "opendal";
    object_store_name = lit "files";
    meta_store_name = lit "__opendal_indexeddb_meta__files";
  };
  root = lit "/app";
  info = record {
    scheme_of = lit "indexeddb";
    name = lit "opendal-files";
    root = lit "/app";
    native = native_capability;
  };
}

build_accepts_example : IsAccepted (acceptable files_builder) (build ext files_builder)
build_accepts_example = build_accepts ext files_builder

build_disjoint_example : ◌≢◌ {A = Str} (lit "files") (lit "__opendal_indexeddb_meta__main")
unfolding new_backend with_normalized_root build db_name_of object_store_name_of build_core
    is_reserved meta_store_name_for
build_disjoint_example =
    build_disjoint ext files_builder default_builder {first = built_files} {second = built_main}
      refl refl

build_sidecars_example : ◌≡◌ {A = Str} (lit "files") (lit "files")
unfolding new_backend with_normalized_root build db_name_of object_store_name_of build_core
    is_reserved meta_store_name_for
build_sidecars_example =
    build_sidecars ext files_builder files_builder {first = built_files} {second = built_files} refl
      refl refl

list_page_size_wraps_example : list_page_size (some (1 * 2 ^ 30)) ≡ 0
list_page_size_wraps_example = list_page_size_wraps 1 (omega arith) (omega arith)

-- A lister that counts upwards.
abbrev counting : ℕ → ℕ → Result (Option ℕ × ℕ) × ℕ
counting n w = (ok (some n, n + 1), w)

drive-limit_example :
    drive (limit_next counting) 4 (new_limit_lister 7 (some 2)) 0 ≡ take 2 (drive counting 4 7 0)
drive-limit_example = drive-limit counting 4 2 7 0

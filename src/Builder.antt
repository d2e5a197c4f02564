-- ===== src/Builder.antt =====
-- src/config.rs and src/backend/builder.rs: the configuration and what is built from it.
pub mod Names
use opendal_indexeddb.Access.{IndexeddbBackend, new_backend, with_normalized_root}
use opendal_indexeddb.Base.{
  Str, Bool, Option, none, some, ◌++◌, lit, is_empty, starts_with, unwrap_or, Result, ok, err,
  error, fail_if, config_invalid, with_context, ◌>>=◌, ◌>>◌, if◌then◌else◌,
}
use opendal_indexeddb.Connection.Open.{IndexeddbCore}
use opendal_indexeddb.Idb.{External}

pub record IndexeddbConfig : Type 0 where
  pub db_name : Option Str
  pub object_store_name : Option Str
  pub root : Option Str

-- `IndexeddbBuilder`, with its setters; the default has no setting.
pub record IndexeddbBuilder : Type 0 where
  pub config : IndexeddbConfig

abbrev pub default_builder : IndexeddbBuilder
default_builder = record {
  config = record { db_name = none; object_store_name = none; root = none };
}

-- `Configurator::into_builder`
abbrev pub into_builder : IndexeddbConfig → IndexeddbBuilder
into_builder config = record { config = config }

abbrev pub set_db_name : IndexeddbBuilder → Str → IndexeddbBuilder
set_db_name self name = record { config = record (self.config) { db_name = some name } }

abbrev pub set_object_store_name : IndexeddbBuilder → Str → IndexeddbBuilder
set_object_store_name self name = record {
  config = record (self.config) { object_store_name = some name };
}

abbrev pub set_root : IndexeddbBuilder → Str → IndexeddbBuilder
set_root self root = record { config = record (self.config) { root = some root } }

-- `META_STORE_PREFIX`
abbrev pub meta_store_prefix : Str
meta_store_prefix = lit "__opendal_indexeddb_meta__"

unfoldable pub meta_store_name_for : Str → Str
meta_store_name_for object_store_name = meta_store_prefix ++ object_store_name

-- A name that is given must not be empty.
unfoldable pub db_name_of : Option Str → Result Str
db_name_of none = ok (lit "opendal")
db_name_of (some name) =
    if is_empty name
    then err
        (with_context "db_name" name (error config_invalid "indexeddb db_name must not be empty"))
    else ok name

unfoldable pub object_store_name_of : Option Str → Result Str
object_store_name_of none = ok (lit "main")
object_store_name_of (some name) =
    if is_empty name
    then err (
        with_context "object_store_name" name
          (error config_invalid "indexeddb object_store_name must not be empty"))
    else ok name

-- `object_store_name.starts_with(META_STORE_PREFIX)`
unfoldable pub is_reserved : Str → Bool
is_reserved object_store_name = starts_with meta_store_prefix object_store_name

-- The core, once both names are there.
unfoldable pub build_core : Str → Str → Result IndexeddbCore
build_core db_name object_store_name = do
  fail_if (is_reserved object_store_name) (
      with_context "object_store_name" object_store_name (
        error config_invalid
          "indexeddb object_store_name must not start with reserved prefix `__opendal_indexeddb_meta__`"))
  ok (record {
    db_name = db_name;
    object_store_name = object_store_name;
    meta_store_name = meta_store_name_for object_store_name;
  })

unfoldable pub build : External → IndexeddbBuilder → Result IndexeddbBackend
unfolding new_backend with_normalized_root
build x self = do
  db_name ← db_name_of self.config.db_name
  object_store_name ← object_store_name_of self.config.object_store_name
  core ← build_core db_name object_store_name
  ok (
      with_normalized_root (new_backend core)
        (x.normalize_root (unwrap_or self.config.root (lit "/"))))

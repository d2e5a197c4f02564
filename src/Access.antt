-- ===== src/Access.antt =====
-- src/backend/access.rs: the operations of the service, under the root.
pub mod Info
pub mod Answers
pub mod Roundtrip
pub mod Listing
use opendal_indexeddb.Access.Info.{scheme, native_capability, AccessorInfo}
use opendal_indexeddb.Base.{
  Str, Bytes, Bool, true, false, ◌++◌, Option, none, some, ℕ, [], lit, str_eq, ends_with_slash, not,
  not_found, Error, error, with_context, Result, ok, err, ◌&&◌, map_err, if◌then◌else◌,
}
use opendal_indexeddb.Base.Exec.{Exec, pure, raise, lift, ◌>>=◌, ◌>>◌}
use opendal_indexeddb.Connection.Open.{Browser, IndexeddbCore, World}
use opendal_indexeddb.Core.Entry.{Metadata, new_metadata, entry_metadata}
use opendal_indexeddb.Core.Ops
use opendal_indexeddb.Idb.{StoreApi, External, dir}
use opendal_indexeddb.Io.{
  QueueBuf, IndexeddbWriter, new_writer, IndexeddbDeleter, IndexeddbLister, new_lister,
  list_page_size, IndexeddbLimitLister, new_limit_lister,
}
use opendal_indexeddb.Meta.Check.{check_etag, check_modified}
use opendal_indexeddb.Meta.Records.{EntryInfo, ReadArgs, WriteArgs, Timestamp, UserMetadata}

pub record IndexeddbBackend : Type 0 where
  pub core : IndexeddbCore
  pub root : Str
  pub info : AccessorInfo

-- `IndexeddbBackend::new`
unfoldable pub new_backend : IndexeddbCore → IndexeddbBackend
new_backend core = record {
  core = core;
  root = lit "/";
  info = record {
    scheme_of = scheme;
    name = core.db_name ++ lit "-" ++ core.object_store_name;
    root = lit "/";
    native = native_capability;
  };
}

unfoldable pub with_normalized_root : IndexeddbBackend → Str → IndexeddbBackend
with_normalized_root self root = record self {
  root = root;
  info = record self.info { root = root };
}

-- `OpStat`, `OpWrite`, `OpCopy` and `OpList`, as far as the crate reads them.
pub record OpStat : Type 0 where
  pub if_match : Option Str
  pub if_none_match : Option Str
  pub if_modified_since : Option Timestamp
  pub if_unmodified_since : Option Timestamp

pub record OpWrite : Type 0 where
  pub append : Bool
  pub if_not_exists : Bool
  pub if_match : Option Str
  pub if_none_match : Option Str
  pub content_type : Option Str
  pub user_metadata : Option UserMetadata

pub record OpRead : Type 0 where
  pub if_match : Option Str
  pub if_none_match : Option Str
  pub if_modified_since : Option Timestamp
  pub if_unmodified_since : Option Timestamp
  pub offset : ℕ
  pub size : Option ℕ

pub record OpCopy : Type 0 where
  pub if_not_exists : Bool
  pub if_match : Option Str

pub record OpList : Type 0 where
  pub recursive : Bool
  pub start_after : Option Str
  pub limit : Option ℕ

-- `WriteArgs::from(&OpWrite)`
unfoldable pub write_args_of : OpWrite → WriteArgs
write_args_of value = record {
  append = value.append;
  if_not_exists = value.if_not_exists;
  if_match = value.if_match;
  if_none_match = value.if_none_match;
  meta = some (record {
    etag = none;
    content_type = value.content_type;
    user_metadata = value.user_metadata;
  });
}

-- `ReadArgs::from(&OpRead)`
unfoldable pub read_args_of : OpRead → ReadArgs
read_args_of value = record {
  if_match = value.if_match;
  if_none_match = value.if_none_match;
  if_modified_since = value.if_modified_since;
  if_unmodified_since = value.if_unmodified_since;
  range = record { offset = value.offset; size = value.size };
}

-- The arguments of the write that creates a directory.
abbrev pub dir_args : WriteArgs
dir_args = record {
  append = false;
  if_not_exists = false;
  if_match = none;
  if_none_match = none;
  meta = none;
}

abbrev pub no_such_path : Str → Error
no_such_path path = with_context "path" path (error not_found "indexeddb doesn't have this path")

-- `a?; b`
abbrev pub and_also : Result (Unit {0}) → Result (Unit {0}) → Result (Unit {0})
and_also (ok _) r = r
and_also (err e) r = err e

module _ (b : Browser) (api : StoreApi) (x : External) (self : IndexeddbBackend) where
  abbrev pub W : Type 0
  W = World b.Env api.Store

  abbrev pub abs : Str → Str
  abs path = x.build_abs_path self.root path

  unfoldable pub create_dir : Str → Exec W (Unit {0})
  create_dir path =
      let create = Ops.set b api x self.core (abs path) [] dir_args in
      if not (str_eq (abs path) (abs [])) then create >>= (λ _. pure tt) else pure tt

  -- The two checks of a stat, with the path of the request in their errors.
  unfoldable pub check_stat : Str → OpStat → EntryInfo → Result (Unit {0})
  check_stat path args info =
      and_also
        (map_err (with_context "path" path)
          (check_modified x.from_millisecond info args.if_modified_since args.if_unmodified_since))
        (map_err (with_context "path" path) (check_etag info args.if_match args.if_none_match))

  unfoldable pub stat : Str → OpStat → Exec W Metadata
  unfolding check_stat
  stat path args =
      let found = (do
        answer ← Ops.stat b api x self.core (abs path)
        elim answer [
          | some info ↦ lift (check_stat path args info) >> pure (entry_metadata x path info)
          | none ↦ raise (no_such_path path)
        ]) in
      if str_eq (abs path) (abs []) then pure (new_metadata dir) else found

  unfoldable pub read : Str → OpRead → Exec W (Metadata × Bytes)
  unfolding read_args_of
  read path args = do
    answer ← Ops.read b api x self.core (abs path) (read_args_of args)
    elim answer [
      | none ↦ raise (no_such_path path)
      | some (info, bs) ↦ pure (entry_metadata x path info, bs)
    ]

  unfoldable pub write : (q : QueueBuf) → Str → OpWrite → IndexeddbWriter q.Queue
  unfolding write_args_of new_writer
  write q path args = new_writer q self.core (abs path) (write_args_of args)

  -- What the copier does once it is driven.
  unfoldable pub copy : Str → Str → OpCopy → Exec W Metadata
  copy from to args =
      Ops.copy b api x self.core (abs from) (abs to) args.if_not_exists args.if_match

  unfoldable pub rename : Str → Str → Exec W (Unit {0})
  rename from to = Ops.rename b api x self.core (abs from) (abs to)

  unfoldable pub delete : IndexeddbDeleter
  delete = record { core = self.core; root = self.root }

  -- A directory that a listing without recursion is to resume behind.
  unfoldable pub skip_folded_dir : OpList → Option Str
  skip_folded_dir args = elim args.start_after [
    | none ↦ none
    | some s ↦ if not args.recursive && ends_with_slash (abs s) then some (abs s) else none
  ]

  -- `hierarchy` is `oio::HierarchyLister::new`, given the lister, the path and the recursion.
  unfoldable pub list :
      {H : Type 0} → (IndexeddbLister → Str → Bool → H) → Str → OpList → IndexeddbLimitLister H
  unfolding skip_folded_dir new_lister list_page_size new_limit_lister
  list hierarchy path args =
      let lister = new_lister (record {
        core = self.core;
        root = self.root;
        prefix = abs path;
        start_after = elim args.start_after [ none ↦ none | some s ↦ some (abs s) ];
        skip_prefix = skip_folded_dir args;
        page_size = list_page_size args.limit;
      }) in
      new_limit_lister (hierarchy lister path args.recursive) args.limit

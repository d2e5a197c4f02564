-- ===== src/Io.antt =====
-- src/backend/io.rs: listing, writing and deleting through OpenDAL's traits.
pub mod Limits
pub mod Writes
use opendal_indexeddb.Base.{
  Str, Bytes, Bool, true, false, Option, none, some, ℕ, zero, suc, ◌+◌, ◌*◌, ◌%◌, ◌^◌, min, max,
  List, [], ◌∷◌, lit, is_empty, leb, ◌&&◌, if◌then◌else◌,
}
use opendal_indexeddb.Base.Exec.{Exec, pure, ◌>>=◌, ◌>>◌}
use opendal_indexeddb.Connection.Open.{Browser, IndexeddbCore, World}
use opendal_indexeddb.Core.Entry.{Metadata, entry_metadata}
use opendal_indexeddb.Core.Ops.{set, delete, delete_recursive, delete_many, scan_page}
use opendal_indexeddb.Core.Scan.{ScanPageRequest, ScanPage}
use opendal_indexeddb.Idb.{StoreApi, External}
use opendal_indexeddb.Meta.Records.{EntryInfo, WriteArgs}

-- `(limit.max(1) * 4).min(1024)`, where the product is of 32 bits on wasm, and wraps in a release.
unfoldable pub list_page_size : Option ℕ → ℕ
list_page_size none = 1024
list_page_size (some limit) = min (max limit 1 * 4 % 2 ^ 32) 1024

-- `oio::Entry`
pub record ListedEntry : Type 0 where
  pub path : Str
  pub metadata : Metadata

pub record IndexeddbListRequest : Type 0 where
  pub core : IndexeddbCore
  pub root : Str
  pub prefix : Str
  pub start_after : Option Str
  pub skip_prefix : Option Str
  pub page_size : ℕ

pub record IndexeddbLister : Type 0 where
  pub core : IndexeddbCore
  pub root : Str
  pub prefix : Str
  pub start_after : Option Str
  pub skip_prefix : Option Str
  pub page_size : ℕ
  pub buffer : List (Str × EntryInfo)
  pub done : Bool

unfoldable pub new_lister : IndexeddbListRequest → IndexeddbLister
new_lister req = record {
  core = req.core;
  root = req.root;
  prefix = req.prefix;
  start_after = req.start_after;
  skip_prefix = req.skip_prefix;
  page_size = req.page_size;
  buffer = [];
  done = false;
}

unfoldable pub listed_entry : External → Str → Str → EntryInfo → ListedEntry
unfolding entry_metadata
listed_entry x root key info =
    let rel = x.build_rel_path root key in
    let path = if is_empty rel then lit "/" else rel in
    record { path = path; metadata = entry_metadata x path info }

-- What a page brings to the lister.
unfoldable pub take_page : IndexeddbLister → ScanPage → IndexeddbLister
take_page self page = record self {
  start_after = page.next_start_after;
  skip_prefix = page.skip_prefix;
  done = page.done;
  buffer = page.entries;
}

unfoldable pub page_request : IndexeddbLister → ScanPageRequest
page_request self = record {
  prefix = self.prefix;
  start_after = self.start_after;
  skip_prefix = self.skip_prefix;
  limit = self.page_size;
}

-- What a lister answers: an entry, or the end; nothing where fuel runs out.
abbrev pub Next : Type 0 → Type 0
Next L = Option (Option ListedEntry × L)

module _ (b : Browser) (api : StoreApi) (x : External) (fuel : ℕ) where
  abbrev W : Type 0
  W = World b.Env api.Store

  -- The loop of `IndexeddbLister::next`, on rounds; `scan_page` runs on `fuel`.
  unfoldable pub lister_next : ℕ → IndexeddbLister → Exec W (Next IndexeddbLister)
  unfolding listed_entry take_page page_request
  lister_next zero self = pure none
  lister_next (suc rounds) self = elim self.buffer [
    | (key, info) ∷ rest ↦
        pure (some (some (listed_entry x self.root key info), record self { buffer = rest }))
    | [] ↦ elim self.done [
      | true ↦ pure (some (none, self))
      | false ↦ do
        page ← scan_page b api x self.core fuel (page_request self)
        elim page [
          | none ↦ pure none
          | some p ↦
              let filled = take_page self p in
              let again = lister_next rounds filled in
              if is_empty filled.buffer && filled.done then pure (some (none, filled)) else again
        ]
    ]
  ]

-- `IndexeddbLimitLister<P>`, over any lister.
pub record IndexeddbLimitLister (P : Type 0) : Type 0 where
  pub inner : P
  pub limit : Option ℕ
  pub emitted : ℕ

unfoldable pub new_limit_lister : {P : Type 0} → P → Option ℕ → IndexeddbLimitLister P
new_limit_lister inner limit = record { inner = inner; limit = limit; emitted = 0 }

abbrev pub exhausted : {P : Type 0} → IndexeddbLimitLister P → Bool
exhausted self = elim self.limit [ none ↦ false | some limit ↦ leb limit self.emitted ]

-- The match on what the lister within answered.
unfoldable pub count_entry :
    {W P E : Type 0}
    → IndexeddbLimitLister P
    → Option E × P
    → Exec W (Option E × IndexeddbLimitLister P)
count_entry self (some entry, inner) =
    pure (some entry, record self { inner = inner; emitted = self.emitted + 1 })
count_entry self (none, inner) = pure (none, record self { inner = inner })

-- `next` is the `next` of the lister within.
module _ {W P E : Type 0} (next : P → Exec W (Option E × P)) where
  unfoldable pub limit_next : IndexeddbLimitLister P → Exec W (Option E × IndexeddbLimitLister P)
  unfolding count_entry
  limit_next self =
      let asked = next self.inner >>= count_entry self in
      if exhausted self then pure (none, self) else asked

-- `oio::QueueBuf`
pub record QueueBuf : Type 1 where
  pub Queue : Type 0
  pub empty : Queue
  pub push : Queue → Bytes → Queue
  pub collect : Queue → Bytes

pub record IndexeddbWriter (Q : Type 0) : Type 0 where
  pub core : IndexeddbCore
  pub path : Str
  pub args : WriteArgs
  pub buffer : Q

module _ (q : QueueBuf) where
  unfoldable pub new_writer : IndexeddbCore → Str → WriteArgs → IndexeddbWriter q.Queue
  new_writer core path args = record { core = core; path = path; args = args; buffer = q.empty }

  -- `oio::Write::write`
  unfoldable pub writer_write : IndexeddbWriter q.Queue → Bytes → IndexeddbWriter q.Queue
  writer_write self bs = record self { buffer = q.push self.buffer bs }

  -- `oio::Write::abort`
  unfoldable pub writer_abort : IndexeddbWriter q.Queue → IndexeddbWriter q.Queue
  writer_abort self = record self { buffer = q.empty }

  -- `oio::Write::close`
  unfoldable pub writer_close :
      (b : Browser) (api : StoreApi)
      → External
      → IndexeddbWriter q.Queue
      → Exec (World b.Env api.Store) Metadata
  unfolding entry_metadata
  writer_close b api x self = do
    info ← set b api x self.core self.path (q.collect self.buffer) self.args
    pure (entry_metadata x self.path info)

pub record IndexeddbDeleter : Type 0 where
  pub core : IndexeddbCore
  pub root : Str

-- `build_abs_path` on each path of a batch
unfoldable pub absolute_paths : External → Str → List (Str × Bool) → List (Str × Bool)
absolute_paths x root [] = []
absolute_paths x root ((path, recursive) ∷ batch) =
    (x.build_abs_path root path, recursive) ∷ absolute_paths x root batch

module _ (b : Browser) (api : StoreApi) (x : External) (self : IndexeddbDeleter) where
  abbrev V : Type 0
  V = World b.Env api.Store

  -- `recursive` is `args.recursive()`.
  unfoldable pub delete_once : Str → Bool → Exec V (Unit {0})
  delete_once path recursive =
      let p = x.build_abs_path self.root path in
      if recursive then delete_recursive b api x self.core p else delete b api x self.core p

  -- The requests that succeeded; none fail alone.
  unfoldable pub delete_batch : List (Str × Bool) → Exec V (List (Str × Bool) × List (Str × Bool))
  unfolding absolute_paths
  delete_batch batch = do
    delete_many b api x self.core (absolute_paths x self.root batch)
    pure (batch, [])

-- ===== src/Access/Listing.antt =====
-- `list` of src/backend/access.rs in a browser that works: what a recursive listing emits.
use opendal_indexeddb.Access.{IndexeddbBackend, OpList, list, skip_folded_dir}
use opendal_indexeddb.Base.{
  Str, Bool, true, Option, none, some, ℕ, ◌<◌, ◌^◌, ◌≡◌, refl, ap, sym, subst, Option-cases, inl,
  inr, ◌∙◌, List, map, take, length, select, arith,
}
use opendal_indexeddb.Connection.Open.{Browser, World}
use opendal_indexeddb.Core.Scan.{ScanPageRequest}
use opendal_indexeddb.Core.Scan.Entries.{HasCursor}
use opendal_indexeddb.Core.Scan.Keys.{HasKeys, is_wanted}
use opendal_indexeddb.Core.Scan.Pages.{IsPlain}
use opendal_indexeddb.Core.Transaction.Working.{IsWorking}
use opendal_indexeddb.Files.Model.{Files}
use opendal_indexeddb.Files.Represents.{Represents}
use opendal_indexeddb.Idb.{StoreApi, Stores, External}
use opendal_indexeddb.Io.{
  IndexeddbLister, IndexeddbListRequest, new_lister, page_request, list_page_size, limit_next,
  new_limit_lister,
}
use opendal_indexeddb.Io.Limits.{drive, drive-at_most, at_most, list_page_size_bounds}
use opendal_indexeddb.Meta.Payload.{etag_from_bytes}
use opendal_indexeddb.Service.Listing.Whole.{next_entry, entry_at, new_lister-emits}

-- `oio::HierarchyLister` where the listing is recursive: it passes the entries on.
abbrev pub pass_on : IndexeddbLister → Str → Bool → IndexeddbLister
pass_on lister path recursive = lister

-- A limit for which the size of a page does not wrap.
abbrev pub IsSmall : Option ℕ → Type 0
IsSmall none = Unit
IsSmall (some limit) = limit < 2 ^ 30

list_page_size_positive : (limit : Option ℕ) → IsSmall limit → 0 < list_page_size limit
unfolding list_page_size
list_page_size_positive none h = omega arith
list_page_size_positive (some limit) h =
    let (low, _, _) = list_page_size_bounds limit h in omega (arith, low)

module _ (b : Browser) (api : StoreApi) (x : External) (fuel : ℕ) (self : IndexeddbBackend)
    (working : IsWorking b self.core) (f : Files) (keys : List Str) (s : Stores api.Store)
    (stands : Represents (etag_from_bytes x.hash_hex) api s f) (has : HasKeys api s.data_store keys)
    (cursor : HasCursor api s.meta_store) (enough : length keys < fuel) where
  abbrev abs : Str → Str
  abs path = x.build_abs_path self.root path

  -- The listing's first request for a page.
  abbrev pub wants : Str → OpList → ScanPageRequest
  wants path args = record {
    prefix = abs path;
    start_after = elim args.start_after [ none ↦ none | some k ↦ some (abs k) ];
    skip_prefix = none;
    limit = list_page_size args.limit;
  }

  request : Str → OpList → Option Str → IndexeddbListRequest
  request path args skip = record {
    core = self.core;
    root = self.root;
    prefix = abs path;
    start_after = elim args.start_after [ none ↦ none | some k ↦ some (abs k) ];
    skip_prefix = skip;
    page_size = list_page_size args.limit;
  }

  no_skip : (args : OpList) → args.recursive ≡ true → skip_folded_dir b api x self args ≡ none
  unfolding skip_folded_dir
  no_skip args h = elim (Option-cases args.start_after) [
    | inl e ↦ rw (skip_folded_dir, e) refl
    | inr (k, e) ↦ rw (skip_folded_dir, e, h) refl
  ]

  -- In a browser that works, on stores that stand for a map of objects with these keys, a recursive
  -- listing, called any number of times, emits one entry for each key under its path that is behind the
  -- key where it starts, in IndexedDB's order, with what the map tells of it, and as many as its limit at
  -- most. The limit is below 2^30, the texts are valid UTF-8 with no characters beyond U+FFFF, and
  -- `scan_page` has more rounds than there are keys.
  pub list-emits :
      (n : ℕ) (path : Str) (args : OpList) (w : World b.Env api.Store)
      → args.recursive ≡ true
      → IsSmall args.limit
      → IsPlain (wants path args) keys
      → w.stores ≡ s
      → drive (limit_next (next_entry b api x fuel)) n (list b api x self pass_on path args) w
        ≡ at_most (next_entry b api x fuel) args.limit (
            take n (
              map
                (entry_at b api x fuel self.core working f keys s stands has cursor enough
                  self.root)
                (select (is_wanted (wants path args)) keys)))
  unfolding list new_lister page_request new_limit_lister request
  list-emits n path args w recursive small plain kept =
      subst
        (λ skip.
          drive (limit_next (next_entry b api x fuel)) n
            (new_limit_lister (new_lister (request path args skip)) args.limit) w
          ≡ at_most (next_entry b api x fuel) args.limit (
              take n (
                map
                  (entry_at b api x fuel self.core working f keys s stands has cursor enough
                    self.root)
                  (select (is_wanted (wants path args)) keys))))
        (sym (no_skip args recursive))
        (drive-at_most (next_entry b api x fuel) n args.limit (new_lister (request path args none))
            w
          ∙ ap (at_most (next_entry b api x fuel) args.limit) (
              new_lister-emits b api x fuel self.core working f keys s stands has cursor enough
                self.root n (request path args none) w plain
                (list_page_size_positive args.limit small) refl refl kept))

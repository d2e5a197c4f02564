-- ===== src/Examples/Pages.antt =====
-- Pages and listers over two concrete objects, `docs/a` and `docs/b`.
use opendal_indexeddb.Access.{OpList, list}
use opendal_indexeddb.Access.Listing.{pass_on, wants, list-emits}
use opendal_indexeddb.Examples.Backend.{backend}
use opendal_indexeddb.Base.{
  ok, true, Str, inr, some, none, ℕ, ◌≡◌, refl, List, [], ◌∷◌, map, take, select, lit, arith,
}
use opendal_indexeddb.Connection.Open.{World}
use opendal_indexeddb.Connection.Utf8.{is_utf8}
use opendal_indexeddb.Core.Ops
use opendal_indexeddb.Core.Scan.{
  ScanPageRequest, scan_page_txn, scan_loop, scan_start, for_keys, get_all_string_keys_in,
  scan_fetched, page_of, metas_for, entries_for, scan_lower,
}
use opendal_indexeddb.Connection.Prefix.{prefix_upper_bound}
use opendal_indexeddb.Core.Scan.Entries.{HasCursor}
use opendal_indexeddb.Core.Scan.Keys.{HasKeys, is_wanted}
use opendal_indexeddb.Core.Scan.Pages.{IsPlain}
use opendal_indexeddb.Examples.Listing.{shelf-HasKeys, shelf-HasCursor}
use opendal_indexeddb.Examples.Objects.{
  ext, etag_by, here, there, hello, one, one_file, one-Represents,
}
use opendal_indexeddb.Examples.Service.{main_core, chrome, world}
use opendal_indexeddb.Examples.Shelf.{Shelf, shelf, shelf-IsStore, insert}
use opendal_indexeddb.Examples.Working.{chrome-IsWorking}
use opendal_indexeddb.Files.Model.{Files, update}
use opendal_indexeddb.Files.Represents.{Represents, sidecar, put-Represents}
use opendal_indexeddb.Idb.{Stores}
use opendal_indexeddb.Io.{
  IndexeddbLister, limit_next, IndexeddbListRequest, page_request, new_lister,
}
use opendal_indexeddb.Io.Limits.{drive, at_most}
use opendal_indexeddb.Meta.Payload.{key_and_value, meta_value}
use opendal_indexeddb.Service.Listing.{Listing}
use opendal_indexeddb.Service.Listing.Whole.{next_entry, entry_at, new_lister-emits}
use opendal_indexeddb.Service.Pages.{AnswersPage, scan_page-AnswersPage}

abbrev two : Stores Shelf
two = record {
  data_store = shelf.put one.data_store (key_and_value there hello.bytes);
  meta_store = shelf.put one.meta_store (meta_value (sidecar etag_by there hello));
}

abbrev two_files : Files
two_files = update one_file there (some hello)

two-Represents : Represents etag_by shelf two two_files
two-Represents = put-Represents etag_by shelf shelf-IsStore one one_file one-Represents there hello

abbrev both : List Str
both = here ∷ there ∷ []

both-HasKeys : HasKeys shelf two.data_store both
unfolding insert
both-HasKeys = shelf-HasKeys two.data_store ((refl, tt), (tt, tt))

both-HasCursor : HasCursor shelf two.meta_store
unfolding insert
both-HasCursor = shelf-HasCursor two.meta_store ((refl, tt), (tt, tt))

abbrev two_world : World ℕ Shelf
two_world = record world { stores = two }

-- A page of one object, and a listing by pages of one object.
abbrev one_of_docs : ScanPageRequest
one_of_docs = record { prefix = lit "docs/"; start_after = none; skip_prefix = none; limit = 1 }

one_of_docs-IsPlain : IsPlain one_of_docs both
unfolding is_utf8
one_of_docs-IsPlain = record {
  valid = refl;
  prefix_bmp = ground arith;
  keys_bmp = ground arith;
  start_bmp = tt;
  skip_dir = tt;
}

scan_page-AnswersPage_example :
    AnswersPage chrome shelf ext main_core chrome-IsWorking two_files one_of_docs both two_world
      (Ops.scan_page chrome shelf ext main_core 3 one_of_docs two_world)
scan_page-AnswersPage_example =
    scan_page-AnswersPage chrome shelf ext main_core chrome-IsWorking one_of_docs 3 two_world
      two_files both two-Represents both-HasKeys both-HasCursor one_of_docs-IsPlain (omega arith)
      (omega arith)

abbrev docs_request : IndexeddbListRequest
docs_request = record {
  core = main_core;
  root = lit "/";
  prefix = lit "docs/";
  start_after = none;
  skip_prefix = none;
  page_size = 1;
}

abbrev docs_lister : IndexeddbLister
docs_lister = new_lister docs_request

same_request : page_request docs_lister ≡ one_of_docs
unfolding page_request new_lister
same_request = refl

docs_lister-IsPlain : IsPlain (page_request docs_lister) both
unfolding page_request new_lister
docs_lister-IsPlain = one_of_docs-IsPlain

docs_lister-Listing :
    Listing chrome shelf ext 3 main_core chrome-IsWorking two_files both two two-Represents
      both-HasKeys both-HasCursor
      (omega arith)
      (lit "/")
      docs_lister
      both
unfolding page_request new_lister
docs_lister-Listing = record {
  names = [];
  buffered = refl;
  follows = inr (refl, refl, one_of_docs-IsPlain);
  positive = omega arith;
  same_core = refl;
  same_root = refl;
}

new_lister-emits_example :
    drive (next_entry chrome shelf ext 3) 5 (new_lister docs_request) two_world
    ≡ take 5 (
        map
          (entry_at chrome shelf ext 3 main_core chrome-IsWorking two_files both two two-Represents
            both-HasKeys both-HasCursor
            (omega arith)
            (lit "/"))
          (select (is_wanted (page_request (new_lister docs_request))) both))
new_lister-emits_example =
    new_lister-emits chrome shelf ext 3 main_core chrome-IsWorking two_files both two two-Represents
      both-HasKeys both-HasCursor (omega arith) (lit "/") 5 docs_request two_world
      docs_lister-IsPlain (omega arith) refl refl refl

-- A recursive listing of the directory, with a limit.
abbrev all_docs : OpList
all_docs = record { recursive = true; start_after = none; limit = some 5 }

all_docs-IsPlain :
    IsPlain
      (wants chrome shelf ext 3 backend chrome-IsWorking two_files both two two-Represents
        both-HasKeys both-HasCursor
        (omega arith)
        (lit "docs/")
        all_docs)
      both
unfolding is_utf8
all_docs-IsPlain = record {
  valid = refl;
  prefix_bmp = ground arith;
  keys_bmp = ground arith;
  start_bmp = tt;
  skip_dir = tt;
}

list-emits_example :
    drive
      (limit_next (next_entry chrome shelf ext 3))
      9
      (list chrome shelf ext backend pass_on (lit "docs/") all_docs)
      two_world
    ≡ at_most (next_entry chrome shelf ext 3) (some 5) (
        take 9 (
          map
            (entry_at chrome shelf ext 3 main_core chrome-IsWorking two_files both two
              two-Represents both-HasKeys both-HasCursor
              (omega arith)
              (lit "/"))
            (select
              (is_wanted (
                wants chrome shelf ext 3 backend chrome-IsWorking two_files both two two-Represents
                  both-HasKeys both-HasCursor
                  (omega arith)
                  (lit "docs/")
                  all_docs))
              both)))
list-emits_example =
    list-emits chrome shelf ext 3 backend chrome-IsWorking two_files both two two-Represents
      both-HasKeys both-HasCursor (omega arith) 9 (lit "docs/") all_docs two_world refl
      (omega arith) all_docs-IsPlain refl

-- The key U+1F600 stands before U+FF21 in IndexedDB's order and behind it in Rust's: a page that resumes
-- behind the first leaves the second out.
abbrev emoji : Str
emoji = 0xF0 ∷ 0x9F ∷ 0x98 ∷ 0x80 ∷ []

abbrev wide_a : Str
wide_a = 0xEF ∷ 0xBC ∷ 0xA1 ∷ []

abbrev behind_emoji : ScanPageRequest
behind_emoji = record { prefix = []; start_after = some emoji; skip_prefix = none; limit = 5 }

abbrev two_scripts : Stores Shelf
two_scripts = record {
  data_store =
      shelf.put (shelf.put [] (key_and_value emoji hello.bytes)) (key_and_value wide_a hello.bytes);
  meta_store = [];
}

lost_key_wanted : select (is_wanted behind_emoji) (emoji ∷ wide_a ∷ []) ≡ wide_a ∷ []
lost_key_wanted = refl

lost_key :
    scan_page_txn shelf 9 ext behind_emoji two_scripts
    ≡ ok (
        some (record {
          entries = [];
          next_start_after = some wide_a;
          skip_prefix = none;
          done = true;
        }))
unfolding scan_page_txn scan_loop scan_start for_keys insert get_all_string_keys_in
    prefix_upper_bound scan_fetched page_of metas_for entries_for scan_lower
lost_key = refl

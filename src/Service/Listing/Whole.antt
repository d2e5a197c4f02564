-- ===== src/Service/Listing/Whole.antt =====
-- A lister in a browser that works, called any number of times.
use opendal_indexeddb.Base.{
  Str, Option, none, some, ℕ, zero, suc, ◌<◌, ◌≡◌, refl, ◌∙◌, inr, List, [], ◌∷◌, map, take,
  take_nil, error, unexpected, length, select, Result, ok, err,
}
use opendal_indexeddb.Base.Exec.{Exec}
use opendal_indexeddb.Connection.Open.{Browser, IndexeddbCore, World}
use opendal_indexeddb.Core.Scan.Entries.{HasCursor, listed}
use opendal_indexeddb.Core.Scan.Keys.{HasKeys, is_wanted}
use opendal_indexeddb.Core.Scan.Pages.{IsPlain}
use opendal_indexeddb.Core.Transaction.Working.{IsWorking}
use opendal_indexeddb.Files.Model.{Files}
use opendal_indexeddb.Files.Represents.{Represents}
use opendal_indexeddb.Idb.{StoreApi, Stores, External}
use opendal_indexeddb.Io.{
  IndexeddbLister, ListedEntry, Next, lister_next, listed_entry, page_request, new_lister,
  IndexeddbListRequest,
}
use opendal_indexeddb.Io.Limits.{drive, gather}
use opendal_indexeddb.Meta.Payload.{etag_from_bytes}
use opendal_indexeddb.Service.Listing.{Listing, Emits, lister_next-Emits}

-- A call that runs out of rounds, as an error.
abbrev pub settled : {W L : Type 0} → Result (Next L) × W → Result (Option ListedEntry × L) × W
settled (ok none, w) = (err (error unexpected "out of rounds"), w)
settled (ok (some found), w) = (ok found, w)
settled (err e, w) = (err e, w)

cons_both : {i j : ListedEntry} {l m : List ListedEntry} → i ≡ j → l ≡ m → i ∷ l ≡ j ∷ m
cons_both e e' = cc

module _ (b : Browser) (api : StoreApi) (x : External) (fuel : ℕ) where
  -- A call of `next`, within two rounds.
  pub next_entry :
      IndexeddbLister → Exec (World b.Env api.Store) (Option ListedEntry × IndexeddbLister)
  next_entry self w = settled (lister_next b api x fuel 2 self w)

  abbrev W : Type 0
  W = World b.Env api.Store

  abbrev nexts : ℕ → IndexeddbLister → Exec W (Next IndexeddbLister)
  nexts = lister_next b api x fuel

  module _ (core : IndexeddbCore) (working : IsWorking b core) (f : Files) (keys : List Str)
      (s : Stores api.Store) (stands : Represents (etag_from_bytes x.hash_hex) api s f)
      (has : HasKeys api s.data_store keys) (cursor : HasCursor api s.meta_store)
      (enough : length keys < fuel) (root : Str) where
    abbrev pub entry_at : Str → ListedEntry
    entry_at k = listed_entry x root k (listed api x f k).1

    drive_step :
        (n : ℕ) (pending : List Str) (r : Result (Next IndexeddbLister) × W)
        → ((self : IndexeddbLister) (pending : List Str) (w : W)
            → (Listing b api x fuel core working f keys s stands has cursor enough root) self
                pending
            → w.stores ≡ s
            → drive (next_entry) n self w ≡ take n (map entry_at pending))
        → Emits b api x fuel core working f keys s stands has cursor enough root pending r
        → gather (settled r) (drive (next_entry) n) ≡ take (suc n) (map entry_at pending)
    drive_step n [] (ok (some (none, self)), w) ih (l, kept) = ih self [] w l kept ∙ take_nil n
    drive_step n (k ∷ pending) (ok (some (some entry, self)), w) ih (e, l, kept) =
        cons_both e (ih self pending w l kept)
    drive_step n [] (ok none, w) ih impossible = absurd impossible
    drive_step n [] (ok (some (some entry, self)), w) ih impossible = absurd impossible
    drive_step n [] (err e, w) ih impossible = absurd impossible
    drive_step n (k ∷ pending) (ok none, w) ih impossible = absurd impossible
    drive_step n (k ∷ pending) (ok (some (none, self)), w) ih impossible = absurd impossible
    drive_step n (k ∷ pending) (err e, w) ih impossible = absurd impossible

    drive_listing :
        (n : ℕ) (self : IndexeddbLister) (pending : List Str) (w : W)
        → (Listing b api x fuel core working f keys s stands has cursor enough root) self pending
        → w.stores ≡ s
        → drive (next_entry) n self w ≡ take n (map entry_at pending)
    unfolding drive next_entry
    drive_listing zero self pending w l kept = refl
    drive_listing (suc n) self pending w l kept =
        drive_step n pending (nexts 2 self w) (drive_listing n) (
          lister_next-Emits b api x fuel core working f keys s stands has cursor enough root 0 self
            pending w l kept)

    -- In a browser that works, on stores that stand for a map of objects with these keys, the lister of
    -- a request with a positive page size, called any number of times, emits one entry for each key
    -- that the request wants, over all its pages, in IndexedDB's order and with what the map tells of
    -- it, and then no more, where the texts are valid UTF-8 with no characters beyond U+FFFF, a skipped
    -- prefix is a directory, and `scan_page` has more rounds than there are keys.
    pub new_lister-emits :
        (n : ℕ) (req : IndexeddbListRequest) (w : W)
        → IsPlain (page_request (new_lister req)) keys
        → 0 < req.page_size
        → req.core ≡ core
        → req.root ≡ root
        → w.stores ≡ s
        → drive (next_entry) n (new_lister req) w
          ≡ take n (map entry_at (select (is_wanted (page_request (new_lister req))) keys))
    unfolding new_lister page_request
    new_lister-emits n req w plain positive c r kept =
        drive_listing n (new_lister req) _ w
          (record {
            names = [];
            buffered = refl;
            follows = inr (refl, refl, plain);
            positive = positive;
            same_core = c;
            same_root = r;
          })
          kept

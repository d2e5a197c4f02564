-- ===== src/Service/Listing.antt =====
-- A lister in a browser that works: what one call of its `next` emits.
use mathlib.Core.List.{append-nil}
use opendal_indexeddb.Base.{
  Str, Bool, true, false, Option, none, some, ℕ, zero, suc, ◌<◌, ◌≡◌, refl, ap, sym, subst, ◌∙◌,
  ◌⊎◌, inl, inr, List, [], ◌∷◌, ◌++◌, map, take, drop, take_nil, error, unexpected, length, All,
  select, Result, ok, err, is_empty, ◌&&◌, arith, if◌then◌else◌,
}
use opendal_indexeddb.Base.Exec.{Exec, pure}
use opendal_indexeddb.Connection.Cache.{Database}
use opendal_indexeddb.Connection.Open.{Browser, IndexeddbCore, World}
use opendal_indexeddb.Core.Ops
use opendal_indexeddb.Core.Scan.{ScanPageRequest, ScanPage}
use opendal_indexeddb.Core.Scan.Entries.{HasCursor, listed}
use opendal_indexeddb.Core.Scan.Keys.{HasKeys, is_wanted, is_behind}
use opendal_indexeddb.Core.Scan.Pages.{IsPlain, PageLists}
use opendal_indexeddb.Core.Scan.Resume.{resumed, full_page-resumed, short_page_whole}
use opendal_indexeddb.Core.Transaction.Working.{IsWorking}
use opendal_indexeddb.Files.Model.{Files}
use opendal_indexeddb.Files.Represents.{Represents}
use opendal_indexeddb.Idb.{StoreApi, Stores, External}
use opendal_indexeddb.Io.{
  IndexeddbLister, ListedEntry, Next, lister_next, listed_entry, take_page, page_request,
  new_lister, IndexeddbListRequest,
}
use opendal_indexeddb.Io.Limits.{drive, gather}
use opendal_indexeddb.Meta.Payload.{etag_from_bytes}
use opendal_indexeddb.Meta.Records.{EntryInfo}
use opendal_indexeddb.Service.Pages.{Lists, AnswersPage, scan_page-AnswersPage}
use opendal_indexeddb.Service.Listing.Rounds.{
  next-buffered, next-end, next-page, end_or_next, end_or_next-end,
}
pub mod Rounds
pub mod Whole

module _ (b : Browser) (api : StoreApi) (x : External) (fuel : ℕ) where
  abbrev W : Type 0
  W = World b.Env api.Store

  abbrev nexts : ℕ → IndexeddbLister → Exec W (Next IndexeddbLister)
  nexts = lister_next b api x fuel

  module _ (core : IndexeddbCore) (working : IsWorking b core) (f : Files) (keys : List Str)
      (s : Stores api.Store) (stands : Represents (etag_from_bytes x.hash_hex) api s f)
      (has : HasKeys api s.data_store keys) (cursor : HasCursor api s.meta_store)
      (enough : length keys < fuel) (root : Str) where
    -- A lister that has these names still to emit.
    pub record Listing (self : IndexeddbLister) (pending : List Str) : Type 0 where
      pub names : List Str
      pub buffered : self.buffer ≡ map (listed api x f) names
      pub follows :
          ((self.done ≡ true) × (pending ≡ names))
          ⊎ ((self.done ≡ false)
              × (pending ≡ names ++ select (is_wanted (page_request self)) keys)
              × IsPlain (page_request self) keys)
      pub positive : 0 < self.page_size
      pub same_core : self.core ≡ core
      pub same_root : self.root ≡ root

    -- A page, taken into a lister that has emitted all it had.
    take_page-Listing :
        (self : IndexeddbLister) (page : ScanPage)
        → IsPlain (page_request self) keys
        → 0 < self.page_size
        → self.core ≡ core
        → self.root ≡ root
        → Lists api x f (page_request self) keys page
        → Listing (take_page self page) (select (is_wanted (page_request self)) keys)
    unfolding take_page page_request
    take_page-Listing self page plain positive c r lists = record {
      names = lists.names;
      buffered = lists.tells;
      follows = follow_on lists.in_order.1;
      positive = positive;
      same_core = c;
      same_root = r;
    }
      where
        req : ScanPageRequest
        req = page_request self

        follow_on :
            ((page.done ≡ true) × (length lists.names < req.limit))
              ⊎ ((page.done ≡ false)
                  × (length lists.names ≡ req.limit)
                  × (init : List Str) × (last : Str) × (lists.names ≡ init ++ last ∷ [])
                  × (page.next_start_after ≡ some last))
            → ((page.done ≡ true) × (select (is_wanted req) keys ≡ lists.names))
              ⊎ ((page.done ≡ false)
                  × (select (is_wanted req) keys
                      ≡ lists.names ++ select (is_wanted (page_request (take_page self page))) keys)
                  × IsPlain (page_request (take_page self page)) keys)
        follow_on (inl (done, short)) =
            inl (done, short_page_whole req keys lists.names lists.in_order.0 short)
        follow_on (inr (going, _, init, last, parted, next)) =
            let (rest, plain') =
              full_page-resumed req keys init last plain has.ascends
                (sym parted ∙ lists.in_order.0) in
            let same : resumed req last ≡ page_request (take_page self page) = cc in
            inr (
              going,
              subst (λ q. select (is_wanted req) keys ≡ lists.names ++ select (is_wanted q) keys)
                  same
                  (rest ∙ ap (λ l. l ++ select (is_wanted (resumed req last)) keys) (sym parted)),
              subst (λ q. IsPlain q keys) same plain',
            )

    -- What a call answers: the first of the names, or the end.
    abbrev pub Emits : List Str → Result (Next IndexeddbLister) × W → Type 0
    Emits [] (ok (some (none, self)), w) = Listing self [] × (w.stores ≡ s)
    Emits (k ∷ pending) (ok (some (some entry, self)), w) =
        (entry ≡ listed_entry x root k (listed api x f k).1) × Listing self pending × (w.stores ≡ s)
    Emits _ _ = ⊥

    -- The first name that is buffered.
    emit_first :
        (n : ℕ) (self : IndexeddbLister) (w : W) (k : Str) (names pending : List Str)
        → self.buffer ≡ map (listed api x f) (k ∷ names)
        → Listing (record self { buffer = map (listed api x f) names }) pending
        → w.stores ≡ s
        → Emits (k ∷ pending) (nexts (suc n) self w)
    emit_first n self w k names pending e listing kept =
        subst (Emits (k ∷ pending)) (sym (next-buffered b api x fuel n self w e))
          (ap (λ r. listed_entry x r k (listed api x f k).1) listing.same_root, listing, kept)

    emit_buffered :
        (n : ℕ) (self : IndexeddbLister) (w : W) (k : Str) (names pending : List Str)
        → self.buffer ≡ map (listed api x f) (k ∷ names)
        → ((self.done ≡ true) × (pending ≡ k ∷ names))
          ⊎ ((self.done ≡ false)
              × (pending ≡ (k ∷ names) ++ select (is_wanted (page_request self)) keys)
              × IsPlain (page_request self) keys)
        → Listing self pending
        → w.stores ≡ s
        → Emits pending (nexts (suc n) self w)
    unfolding page_request
    emit_buffered n self w k names pending e (inl (done, p)) l kept =
        subst (λ q. Emits q (nexts (suc n) self w)) (sym p)
          (emit_first n self w k names names e
            (record {
              names = names;
              buffered = refl;
              follows = inl (done, refl);
              positive = l.positive;
              same_core = l.same_core;
              same_root = l.same_root;
            })
            kept)
    emit_buffered n self w k names pending e (inr (going, p, plain)) l kept =
        subst (λ q. Emits q (nexts (suc n) self w)) (sym p)
          (emit_first n self w k names (names ++ select (is_wanted (page_request self)) keys) e
            (record {
              names = names;
              buffered = refl;
              follows = inr (going, refl, plain);
              positive = l.positive;
              same_core = l.same_core;
              same_root = l.same_root;
            })
            kept)

    -- Behind a page: its first name, or the end where it has none.
    end_or_next-Emits :
        (n : ℕ) (self : IndexeddbLister) (w : W) (names pending : List Str)
        → self.buffer ≡ map (listed api x f) names
        → ((self.done ≡ true) × (pending ≡ names))
          ⊎ ((self.done ≡ false)
              × (pending ≡ names ++ select (is_wanted (page_request self)) keys)
              × IsPlain (page_request self) keys)
        → (names ≡ [] → self.done ≡ true)
        → Listing self pending
        → w.stores ≡ s
        → Emits pending (end_or_next b api x fuel (suc n) self w)
    unfolding end_or_next
    end_or_next-Emits n self w [] pending e (inl (done, p)) ends l kept =
        subst (λ q. Emits q (end_or_next b api x fuel (suc n) self w)) (sym p)
          (subst (Emits []) (sym (end_or_next-end b api x fuel (suc n) self w e done))
            (subst (Listing self) p l, kept))
    end_or_next-Emits n self w [] pending e (inr (going, _, _)) ends l kept =
        absurd (cc (ends refl, going))
    end_or_next-Emits n self w (k ∷ names) pending e follows ends l kept =
        subst (Emits pending) (ap (λ buffer. not_yet buffer) (sym e))
          (emit_buffered n self w k names pending e follows l kept)
      where
        not_yet : List (Str × EntryInfo) → Result (Next IndexeddbLister) × W
        not_yet buffer =
            (if is_empty buffer && self.done then pure (some (none, self)) else nexts (suc n) self)
              w

    page_ends :
        (self : IndexeddbLister) (page : ScanPage)
        → 0 < self.page_size
        → (lists : Lists api x f (page_request self) keys page) → lists.names ≡ []
        → page.done ≡ true
    unfolding page_request
    page_ends self page positive lists e = elim lists.in_order.1 [
      | inl (done, _) ↦ done
      | inr (_, full, _, _, _, _) ↦ absurd (omega (arith, full, ap length e, positive))
    ]

    after_page :
        (n : ℕ) (self : IndexeddbLister) (w : W)
        → self.buffer ≡ []
        → self.done ≡ false
        → IsPlain (page_request self) keys
        → 0 < self.page_size
        → self.core ≡ core
        → self.root ≡ root
        → w.stores ≡ s
        → (r : Result (Option ScanPage) × W)
        → Ops.scan_page b api x self.core fuel (page_request self) w ≡ r
        → AnswersPage b api x core working f (page_request self) keys w r
        → Emits (select (is_wanted (page_request self)) keys) (nexts (suc (suc n)) self w)
    unfolding end_or_next take_page take_page-Listing
    after_page n self w e going plain positive c t kept (ok (some page), w') run (lists, kept') =
        let l = take_page-Listing self page plain positive c t lists in
        subst (Emits (select (is_wanted (page_request self)) keys))
          (sym (next-page b api x fuel (suc n) self w w' page e going run))
          (end_or_next-Emits n (take_page self page) w' l.names
            (select (is_wanted (page_request self)) keys) l.buffered l.follows
            (page_ends self page positive lists) l (kept' ∙ kept))
    after_page n self w e going plain positive c t kept (ok none, w') run answers = absurd answers
    after_page n self w e going plain positive c t kept (err error, w') run answers = absurd answers

    -- In a browser that works, on stores that stand for a map of objects with these keys, a call of a
    -- lister's `next` ends within two rounds: it emits the entry of the first of the names that the
    -- lister has still to emit, with what the map tells of it, and leaves the lister with the others; it
    -- answers with the end where there is none. The names are those that its buffer holds and then all
    -- that its next request wants, in IndexedDB's order. The page size is positive, the texts are valid
    -- UTF-8 with no characters beyond U+FFFF, a skipped prefix is a directory, and `scan_page` has more
    -- rounds than there are keys.
    pub lister_next-Emits :
        (n : ℕ) (self : IndexeddbLister) (pending : List Str) (w : W)
        → Listing self pending
        → w.stores ≡ s
        → Emits pending (nexts (suc (suc n)) self w)
    unfolding page_request
    lister_next-Emits n self pending w l kept = by_names l.names l.buffered l.follows
      where
        by_names :
            (names : List Str)
            → self.buffer ≡ map (listed api x f) names
            → ((self.done ≡ true) × (pending ≡ names))
              ⊎ ((self.done ≡ false)
                  × (pending ≡ names ++ select (is_wanted (page_request self)) keys)
                  × IsPlain (page_request self) keys)
            → Emits pending (nexts (suc (suc n)) self w)
        by_names (k ∷ names) e follows =
            emit_buffered (suc n) self w k names pending e follows l kept
        by_names [] e (inl (done, p)) =
            subst (λ q. Emits q (nexts (suc (suc n)) self w)) (sym p)
              (subst (Emits []) (sym (next-end b api x fuel (suc n) self w e done))
                (subst (Listing self) p l, kept))
        by_names [] e (inr (going, p, plain)) =
            subst (λ q. Emits q (nexts (suc (suc n)) self w)) (sym p)
              (after_page n self w e going plain l.positive l.same_core l.same_root kept
                (Ops.scan_page b api x self.core fuel (page_request self) w) refl
                (subst
                  (λ c.
                    AnswersPage b api x core working f (page_request self) keys w
                      (Ops.scan_page b api x c fuel (page_request self) w))
                  (sym l.same_core)
                  (scan_page-AnswersPage b api x core working (page_request self) fuel w f keys
                    (subst (λ t. Represents (etag_from_bytes x.hash_hex) api t f) (sym kept) stands)
                    (subst (λ t. HasKeys api t.data_store keys) (sym kept) has)
                    (subst (λ t. HasCursor api t.meta_store) (sym kept) cursor) plain l.positive
                    enough)))

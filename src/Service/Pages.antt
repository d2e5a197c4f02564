-- ===== src/Service/Pages.antt =====
-- Pages of a listing in a browser that works, against the map of objects.
use opendal_indexeddb.Base.{
  Str, Bytes, true, Option, none, some, ℕ, ◌<◌, ◌≡◌, refl, ap, sym, subst, ◌∙◌, inl, inr, List, [],
  map, length, All, All-map, All-select, All-take, select, Result, ok, err, is_some, Bool-cases,
}
use opendal_indexeddb.Connection.Open.{Browser, IndexeddbCore, World}
use opendal_indexeddb.Core.Ops
use opendal_indexeddb.Core.Ops.{reading, with_state}
use opendal_indexeddb.Core.Scan.{
  ScanPageRequest, ScanPage, ScanState, page_of, scan_page_txn, is_vacant, no_page,
}
use opendal_indexeddb.Core.Scan.Entries.{HasCursor, listed, entries_for-listed}
use opendal_indexeddb.Core.Scan.Keys.{HasKeys, has_key-All, is_wanted}
use opendal_indexeddb.Core.Scan.Pages.{IsPlain, PageLists, scan_start-PageLists, vacant_wanted}
use opendal_indexeddb.Core.Transaction.{read_only, run_transaction}
use opendal_indexeddb.Core.Transaction.Working.{IsWorking}
use opendal_indexeddb.Core.Transaction.Attempts.{outcome_of}
use opendal_indexeddb.Core.Transaction.Runs.{run_transaction_runs}
use opendal_indexeddb.Files.Model.{Object, Files}
use opendal_indexeddb.Files.Represents.{Represents, IsStored}
use opendal_indexeddb.Idb.{StoreApi, Stores, External}
use opendal_indexeddb.Meta.Payload.{JsValue, etag_from_bytes}

-- The keys of the data store are the paths of the objects.
module _ (api : StoreApi) (x : External) where
  abbrev etag_by : Bytes → Str
  etag_by = etag_from_bytes x.hash_hex

  -- A page of a listing of these keys: the entries tell of their keys what the map tells.
  pub record Lists (f : Files) (req : ScanPageRequest) (keys : List Str) (page : ScanPage)
      : Type 0 where
    pub names : List Str
    pub tells : page.entries ≡ map (listed api x f) names
    pub in_order : PageLists req keys names page.done page.next_start_after
    pub skips : page.skip_prefix ≡ req.skip_prefix

  object_of_stored :
      (k : Str) (o : Option Object) (d m : Option JsValue)
      → IsStored etag_by k o d m
      → is_some d ≡ true
      → (p : Object) × (o ≡ some p)
  object_of_stored k none d m (no_data, _) h = absurd (cc (no_data, h))
  object_of_stored k (some o) d m stored h = (o, refl)

  module _ (s : Stores api.Store) (f : Files) (keys : List Str)
      (stands : Represents etag_by api s f) (has : HasKeys api s.data_store keys)
      (cursor : HasCursor api s.meta_store) (req : ScanPageRequest) (plain : IsPlain req keys) where
    abbrev IsObject : Str → Type 0
    IsObject k = (o : Object) × (f k ≡ some o)

    keys_are_objects : All IsObject keys
    keys_are_objects =
        All-map _ _ keys
          (λ k h.
            object_of_stored k (f k) (api.get s.data_store k) (api.get s.meta_store k)
              (stands.at_key k) (has.holds k ∙ h))
          (has_key-All keys)

    -- The page of a state of the scan whose keys are the wanted ones.
    page_of-Lists :
        (st : ScanState)
        → PageLists req keys st.keys st.done st.next_start_after
        → Lists f req keys (page_of api x req s st)
    unfolding page_of
    page_of-Lists st h = record {
      names = st.keys;
      tells = entries_for-listed api x s f st.keys st.keys stands cursor (
          subst (All IsObject) (sym h.0) (
            All-take IsObject req.limit (select (is_wanted req) keys)
              (All-select IsObject (is_wanted req) keys keys_are_objects)));
      in_order = h;
      skips = refl;
    }

    scan_page_txn-Lists :
        (fuel : ℕ)
        → 0 < req.limit
        → length keys < fuel
        → (page : ScanPage) × (scan_page_txn api fuel x req s ≡ ok (some page))
          × Lists f req keys page
    unfolding scan_page_txn
    scan_page_txn-Lists fuel positive enough =
        let (st, e, lists) =
          scan_start-PageLists req keys plain api s.data_store has fuel positive enough in
        (page_of api x req s st, rw e refl, page_of-Lists st lists)

    no_page-Lists : 0 < req.limit → is_vacant req ≡ true → Lists f req keys (no_page req)
    no_page-Lists positive vacant = record {
      names = [];
      tells = refl;
      in_order = (sym (vacant_wanted req keys plain vacant), inl (refl, positive));
      skips = refl;
    }

reading-outcome :
    {A S : Type 0} (s : Stores S) (r : Result A) → outcome_of s (with_state r s) ≡ (r, s)
reading-outcome s (ok a) = refl
reading-outcome s (err e) = refl

module _ (b : Browser) (api : StoreApi) (x : External) (core : IndexeddbCore)
    (working : IsWorking b core) where
  abbrev W : Type 0
  W = World b.Env api.Store

  -- What a call answers, with the stores behind it.
  abbrev pub AnswersPage :
      Files → ScanPageRequest → List Str → W → Result (Option ScanPage) × W → Type 0
  AnswersPage f req keys w (ok (some page), w') =
      Lists api x f req keys page × (w'.stores ≡ w.stores)
  AnswersPage f req keys w (ok none, w') = ⊥
  AnswersPage f req keys w (err e, w') = ⊥

  answers_page :
      (f : Files) (req : ScanPageRequest) (keys : List Str) (w : W) (page : ScanPage)
      (r : Result (Option ScanPage) × W)
      → Lists api x f req keys page
      → ◌≡◌ {A = Result (Option ScanPage) × Stores api.Store}
          (ok (some page), w.stores)
          (r.0, r.1.stores)
      → AnswersPage f req keys w r
  answers_page f req keys w page (ok (some p), w') h e =
      let same : page ≡ p = cc in (subst (λ p'. Lists api x f req keys p') same h, cc)
  answers_page f req keys w page (ok none, w') h e = cc
  answers_page f req keys w page (err error, w') h e = cc

  -- In a browser that works, on stores that stand for a map of objects with these keys, `scan_page`
  -- ends, where its loop has more rounds than there are keys, with the first of the keys that the
  -- request wants, in IndexedDB's order, as many as its limit, and tells of each what the map tells; it
  -- is marked as the last page exactly where it is not full, and else says where to resume. The limit
  -- is positive, the texts are valid UTF-8 with no characters beyond U+FFFF, and a skipped prefix is a
  -- directory.
  pub scan_page-AnswersPage :
      (req : ScanPageRequest) (fuel : ℕ) (w : W) (f : Files) (keys : List Str)
      → Represents (etag_from_bytes x.hash_hex) api w.stores f
      → HasKeys api w.stores.data_store keys
      → HasCursor api w.stores.meta_store
      → IsPlain req keys
      → 0 < req.limit
      → length keys < fuel
      → AnswersPage f req keys w (Ops.scan_page b api x core fuel req w)
  unfolding Ops.scan_page
  scan_page-AnswersPage req fuel w f keys stands has cursor plain positive enough =
      elim (Bool-cases (is_vacant req)) [
        | inl vacant ↦
            rw vacant (
              no_page-Lists api x w.stores f keys stands has cursor req plain positive vacant,
              refl,
            )
        | inr occupied ↦
            let (page, e, lists) =
              scan_page_txn-Lists api x w.stores f keys stands has cursor req plain fuel positive
                enough in
            let body = scan_page_txn api fuel x req in
            rw occupied (
              answers_page f req keys w page
                (run_transaction b api.Store core read_only (reading body) w) lists
                (ap {B = Result (Option ScanPage) × Stores api.Store} (λ r. (r, w.stores)) (sym e)
                  ∙ sym (reading-outcome w.stores (body w.stores))
                  ∙ run_transaction_runs b api.Store core working read_only (reading body) w))
      ]

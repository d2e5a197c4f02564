-- ===== src/Core/Scan/Entries.antt =====
-- The entries of a page: what a listing tells of each key, with and without the join of the sidecars.
use opendal_indexeddb.Base.{
  Str, Bytes, true, false, Option, none, some, ◌≡◌, refl, ap, sym, subst, ◌∙◌, inl, inr, List, [],
  ◌∷◌, map, All, str_eq, str_eq→eq, arith, Bool-cases, Option-cases, leb, length,
}
use opendal_indexeddb.Core.Entry.{read_meta, entry_info_for_key}
use opendal_indexeddb.Core.Scan.{
  meta_join_min_size, last_of, prefetched, find_meta, metas_for, entries_for,
}
use opendal_indexeddb.Files.Model.{Object, Files, info}
use opendal_indexeddb.Files.Represents.{Represents, IsStored}
use opendal_indexeddb.Idb.{
  StoreApi, Stores, External, JsKey, text, before_texts, after_texts, as_string,
}
use opendal_indexeddb.Meta.Payload.{JsValue, to_meta, etag_from_bytes}
use opendal_indexeddb.Meta.Records.{MetaRecord, EntryInfo, no_meta, entry_meta_with_etag_fallback}

-- A cursor visits records of the store.
abbrev pub IsRecord : (api : StoreApi) → api.Store → JsKey × JsValue → Type 0
IsRecord api s (key, value) = (name : Str) → as_string key ≡ some name → api.get s name ≡ some value

pub record HasCursor (api : StoreApi) (s : api.Store) : Type 0 where
  pub visits : (lo hi : Str) → All (IsRecord api s) (api.open_cursor s lo hi)

find_meta-nil : (key : Str) → find_meta key (prefetched []) ≡ none
unfolding find_meta prefetched
find_meta-nil key = refl

find_meta-empty : (key : Str) → find_meta key [] ≡ none
unfolding find_meta
find_meta-empty key = refl

find_meta-same :
    (key name : Str) (m : MetaRecord) (metas : List (Str × MetaRecord))
    → str_eq name key ≡ true
    → find_meta key ((name, m) ∷ metas) ≡ some m
unfolding find_meta
find_meta-same key name m metas e = rw e refl

find_meta-other :
    (key name : Str) (m : MetaRecord) (metas : List (Str × MetaRecord))
    → str_eq name key ≡ false
    → find_meta key ((name, m) ∷ metas) ≡ find_meta key metas
unfolding find_meta
find_meta-other key name m metas e = rw e refl

-- A record that is no sidecar, or has no text key, is left out of the join.
prefetched-none :
    (key : Str) (k : JsKey) (value : JsValue) (records : List (JsKey × JsValue))
    → to_meta value ≡ none
    → prefetched ((k, value) ∷ records) ≡ prefetched records
unfolding prefetched
prefetched-none key (text name) value records e = ground (arith, e)
prefetched-none key before_texts value records e = refl
prefetched-none key after_texts value records e = refl

prefetched-foreign :
    (k : JsKey) (value : JsValue) (records : List (JsKey × JsValue))
    → as_string k ≡ none
    → prefetched ((k, value) ∷ records) ≡ prefetched records
unfolding prefetched
prefetched-foreign (text name) value records e = cc
prefetched-foreign before_texts value records e = refl
prefetched-foreign after_texts value records e = refl

prefetched-some :
    (name : Str) (value : JsValue) (records : List (JsKey × JsValue)) {meta : MetaRecord}
    → to_meta value ≡ some meta
    → prefetched ((text name, value) ∷ records) ≡ (name, meta) ∷ prefetched records
unfolding prefetched
prefetched-some name value records e = ground (arith, e)

module _ (api : StoreApi) where
  open api use {Store, get}

  read_meta-record :
      (s : Store) (key name : Str) (value : JsValue)
      → name ≡ key
      → get s name ≡ some value
      → read_meta api s key ≡ to_meta value
  unfolding read_meta
  read_meta-record s key name value same here = rw (← same, here) refl

  -- What the join finds for a key, if anything, is the sidecar that a read finds.
  find_meta-prefetched :
      (s : Store) (key : Str) (records : List (JsKey × JsValue)) (meta : MetaRecord)
      → All (IsRecord api s) records
      → find_meta key (prefetched records) ≡ some meta
      → read_meta api s key ≡ some meta
  find_meta-prefetched s key [] meta h e = cc (e, find_meta-nil key)
  find_meta-prefetched s key ((before_texts, value) ∷ records) meta h e =
      find_meta-prefetched s key records meta h.1
        (ap (find_meta key) (sym (prefetched-foreign before_texts value records refl)) ∙ e)
  find_meta-prefetched s key ((after_texts, value) ∷ records) meta h e =
      find_meta-prefetched s key records meta h.1
        (ap (find_meta key) (sym (prefetched-foreign after_texts value records refl)) ∙ e)
  find_meta-prefetched s key ((text name, value) ∷ records) meta h e =
      elim (Option-cases (to_meta value)) [
        | inl no_meta ↦
            find_meta-prefetched s key records meta h.1
              (ap (find_meta key) (sym (prefetched-none key (text name) value records no_meta)) ∙ e)
        | inr (m, found) ↦
            let joined : find_meta key ((name, m) ∷ prefetched records) ≡ some meta =
              ap (find_meta key) (sym (prefetched-some name value records found)) ∙ e in
            elim (Bool-cases (str_eq name key)) [
              | inl same ↦
                  read_meta-record s key name value (str_eq→eq name key same) (h.0 name refl)
                  ∙ found
                  ∙ sym (find_meta-same key name m (prefetched records) same)
                  ∙ joined
              | inr other ↦
                  find_meta-prefetched s key records meta h.1
                    (sym (find_meta-other key name m (prefetched records) other) ∙ joined)
            ]
      ]

  find_meta-read :
      (s : Store) (key : Str) (keys : List Str) (meta : MetaRecord)
      → HasCursor api s
      → find_meta key (metas_for api s keys) ≡ some meta
      → read_meta api s key ≡ some meta
  unfolding metas_for
  find_meta-read s key [] meta h e = cc (e, find_meta-empty key)
  find_meta-read s key (first ∷ keys) meta h e =
      elim (Bool-cases (leb meta_join_min_size (length (first ∷ keys)))) [
        | inl joins ↦
            find_meta-prefetched s key _ meta (h.visits first (last_of first keys)) (rw joins at e)
        | inr small ↦ cc (find_meta-empty key, rw small at e)
      ]

module _ (api : StoreApi) (x : External) where
  open api use {Store, get}

  abbrev etag_by : Bytes → Str
  etag_by = etag_from_bytes x.hash_hex

  -- A sidecar that was joined tells the same as one that is read.
  entry_info-joined :
      (s : Stores Store) (key : Str) (meta : MetaRecord)
      → read_meta api s.meta_store key ≡ some meta
      → entry_info_for_key api x s key (some meta) ≡ entry_info_for_key api x s key none
  unfolding entry_info_for_key
  entry_info-joined s key meta e = ground (arith, e)

  entry_info-stored :
      (s : Stores Store) (key : Str) (o : Object)
      → IsStored etag_by key (some o) (get s.data_store key) (get s.meta_store key)
      → entry_info_for_key api x s key none ≡ info etag_by o
  unfolding entry_info_for_key read_meta entry_meta_with_etag_fallback
  entry_info-stored s key o (data_here, meta_here) = ground (arith, meta_here)

  entry_info-page :
      (s : Stores Store) (keys : List Str) (key : Str)
      → HasCursor api s.meta_store
      → entry_info_for_key api x s key (find_meta key (metas_for api s.meta_store keys))
        ≡ entry_info_for_key api x s key none
  entry_info-page s keys key visits =
      elim (Option-cases (find_meta key (metas_for api s.meta_store keys))) [
        | inl e ↦ rw e refl
        | inr (meta, e) ↦
            rw e (
              entry_info-joined s key meta (find_meta-read api s.meta_store key keys meta visits e))
      ]

  -- What a listing tells of a path.
  abbrev pub listed_info : Option Object → EntryInfo
  listed_info none = record { meta = no_meta }
  listed_info (some o) = info etag_by o

  abbrev pub listed : Files → Str → Str × EntryInfo
  listed f key = (key, listed_info (f key))

  cons_cong :
      {k : Str} {i j : EntryInfo} {l m : List (Str × EntryInfo)}
      → i ≡ j
      → l ≡ m
      → (k, i) ∷ l ≡ (k, j) ∷ m
  cons_cong e e' = cc

  -- The keys of a page are objects: the entries tell of them what the map tells.
  pub entries_for-listed :
      (s : Stores Store) (f : Files) (keys page : List Str)
      → Represents etag_by api s f
      → HasCursor api s.meta_store
      → All (λ k. (o : Object) × (f k ≡ some o)) page
      → entries_for api x s (metas_for api s.meta_store keys) page ≡ map (listed f) page
  unfolding entries_for
  entries_for-listed s f keys [] h visits objects = refl
  entries_for-listed s f keys (k ∷ page) h visits ((o, here), objects) =
      let rest = entries_for-listed s f keys page h visits objects in
      let stored =
        subst (λ found. IsStored etag_by k found (get s.data_store k) (get s.meta_store k)) here
          (h.at_key k) in
      let told = entry_info-page s keys k visits ∙ entry_info-stored s k o stored in
      cons_cong (told ∙ ap listed_info (sym here)) rest

-- ===== src/Idb.antt =====
-- What the crate takes from other code: IndexedDB's object stores (by the `indexed-db` crate), and
-- pure functions of BLAKE3, jiff and OpenDAL.
use opendal_indexeddb.Base.{
  Str, Bytes, Bool, Option, none, some, ℕ, List, ◌≡◌, ◌&&◌, js_le, js_lt, str_eq, is_some, Result,
  if◌then◌else◌,
}
use opendal_indexeddb.Meta.Payload.{JsValue, key_of}

-- A key of an object store. IndexedDB puts numbers and dates before all texts, binary data and
-- arrays behind them.
pub data JsKey : Type 0 where
  before_texts after_texts : JsKey
  text : Str → JsKey

-- `key.as_string()`
abbrev pub as_string : JsKey → Option Str
as_string (text s) = some s
as_string _ = none

-- The operations of an object store.
pub record StoreApi : Type 1 where
  pub Store : Type 0
  pub get : Store → Str → Option JsValue
  pub contains : Store → Str → Bool
  pub put : Store → JsValue → Store
  pub delete : Store → Str → Store
  pub clear : Store → Store
  -- from the first key, below the second
  pub delete_range : Store → Str → Str → Store
  -- the lower bound and whether it is excluded, the excluded upper bound, the count; it fails where
  -- the bounds are no range, with the error as `parse_txn_error` makes it
  pub get_all_keys_in : Store → Str → Bool → Option Str → ℕ → Result (List JsKey)
  -- the keys that a cursor visits from a lower bound on
  pub open_key : Store → Str → List JsKey
  -- the records that a cursor visits between two bounds, both included
  pub open_cursor : Store → Str → Str → List (JsKey × JsValue)

-- What IndexedDB documents of single records. A range is by the order of JavaScript's strings.
pub record IsStore (api : StoreApi) : Type 0 where
  pub contains-eq : (s : api.Store) (k : Str) → api.contains s k ≡ is_some (api.get s k)
  pub get-put :
      (s : api.Store) (v : JsValue) (k : Str)
      → api.get (api.put s v) k ≡ (if str_eq (key_of v) k then some v else api.get s k)
  pub get-delete :
      (s : api.Store) (j k : Str)
      → api.get (api.delete s j) k ≡ (if str_eq j k then none else api.get s k)
  pub get-clear : (s : api.Store) (k : Str) → api.get (api.clear s) k ≡ none
  pub get-delete_range :
      (s : api.Store) (lo hi k : Str)
      → api.get (api.delete_range s lo hi) k
        ≡ (if js_le lo k && js_lt k hi then none else api.get s k)

-- The data store and its sidecar, as one transaction sees them.
pub record Stores (S : Type 0) : Type 0 where
  pub data_store : S
  pub meta_store : S

pub data EntryMode : Type 0 where
  file dir unknown : EntryMode

-- The pure functions of other crates.
pub record External : Type 0 where
  -- `blake3::hash(bytes).to_hex()`
  pub hash_hex : Bytes → Str
  -- `Timestamp::from_millisecond(ms).ok()`
  pub from_millisecond : ℕ → Option ℕ
  -- `EntryMode::from_path`
  pub mode_from_path : Str → EntryMode
  pub build_abs_path : Str → Str → Str
  pub build_rel_path : Str → Str → Str
  pub normalize_root : Str → Str

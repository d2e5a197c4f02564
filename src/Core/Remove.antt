-- ===== src/Core/Remove.antt =====
-- The transaction of `IndexeddbCore::delete_many`, with `delete_prefix` and
-- `delete_prefix_by_cursor` of src/backend/connection.rs.
pub mod Refines
use opendal_indexeddb.Base.{
  Str, Bool, true, false, Option, none, some, List, [], ◌∷◌, ◌++◌, is_empty, starts_with, Result,
  ok, if◌then◌else◌,
}
use opendal_indexeddb.Connection.Prefix.{
  RecursiveDeleteTarget, recursive_delete_target, prefix_upper_bound,
}
use opendal_indexeddb.Core.Entry.{Txn}
use opendal_indexeddb.Idb.{StoreApi, Stores, JsKey, as_string}

-- The keys that `for (path, recursive) in batch` leaves to delete one by one.
unfoldable pub exact_key_of : Str × Bool → List Str
unfolding recursive_delete_target
exact_key_of (path, false) = path ∷ []
exact_key_of (path, true) = elim (recursive_delete_target path).exact_key [
  | none ↦ []
  | some key ↦ key ∷ []
]

unfoldable pub exact_keys : List (Str × Bool) → List Str
exact_keys [] = []
exact_keys (entry ∷ batch) = exact_key_of entry ++ exact_keys batch

module _ (api : StoreApi) where
  open api use {Store, delete, clear, delete_range, open_key}

  -- Both stores lose the key.
  unfoldable pub delete_key : Str → Stores Store → Stores Store
  delete_key key s = record {
    data_store = delete s.data_store key;
    meta_store = delete s.meta_store key;
  }

  unfoldable pub delete_keys : List Str → Stores Store → Stores Store
  unfolding delete_key
  delete_keys [] s = s
  delete_keys (key ∷ keys) s = delete_keys keys (delete_key key s)

  -- The loop over the cursor: a key that is no text is passed over, and the first text without the
  -- prefix ends it.
  unfoldable pub delete_while_prefix : Str → List JsKey → Stores Store → Stores Store
  unfolding delete_key
  delete_while_prefix prefix [] s = s
  delete_while_prefix prefix (key ∷ keys) s = elim (as_string key) [
    | none ↦ delete_while_prefix prefix keys s
    | some name ↦ elim (starts_with prefix name) [
      | true ↦ delete_while_prefix prefix keys (delete_key name s)
      | false ↦ s
    ]
  ]

  unfoldable pub delete_prefix_by_cursor : Str → Stores Store → Stores Store
  unfolding delete_while_prefix
  delete_prefix_by_cursor prefix s = delete_while_prefix prefix (open_key s.data_store prefix) s

  unfoldable pub delete_prefix : Str → Stores Store → Stores Store
  unfolding prefix_upper_bound delete_prefix_by_cursor
  delete_prefix prefix s =
      if is_empty prefix
      then record { data_store = clear s.data_store; meta_store = clear s.meta_store }
      else elim (prefix_upper_bound prefix) [
        | some upper ↦ record {
          data_store = delete_range s.data_store prefix upper;
          meta_store = delete_range s.meta_store prefix upper;
        }
        | none ↦ delete_prefix_by_cursor prefix s
      ]

  -- The ranges of the recursive entries, in the order of the batch.
  unfoldable pub delete_prefixes : List (Str × Bool) → Stores Store → Stores Store
  delete_prefixes [] s = s
  delete_prefixes ((path, recursive) ∷ batch) s =
      delete_prefixes batch
        (if recursive then delete_prefix (recursive_delete_target path).prefix s else s)

  unfoldable pub delete_many_txn : List (Str × Bool) → Txn Store (Unit {0})
  delete_many_txn batch s = ok (tt, delete_keys (exact_keys batch) (delete_prefixes batch s))

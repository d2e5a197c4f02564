-- ===== src/Core/Move/Refines.antt =====
-- A copy and a rename do to the object stores what they do to the map of objects.
use opendal_indexeddb.Base.{
  Str, Bytes, Bool, true, false, Option, none, some, ℕ, ◌≡◌, refl, not, ◌&&◌, is_some, Result, ok,
  err, ◌>>◌, condition_not_match, Bool-cases, inl, inr, arith, if◌then◌else◌,
}
use opendal_indexeddb.Core.Entry.{entry_metadata}
use opendal_indexeddb.Core.Move.{
  target_etag, check_target, copy_record, copy_txn, rename_record, rename_txn,
}
use opendal_indexeddb.Files.Model.{
  Object, Files, done, refused, update, copy, rename, etag, info, wanted,
}
use opendal_indexeddb.Files.Represents.{
  Represents, Refines, IsStored, sidecar, put-Represents, delete-Represents,
}
use opendal_indexeddb.Idb.{StoreApi, IsStore, Stores, External}
use opendal_indexeddb.Meta.Payload.{key_and_value, meta_value, etag_from_bytes}

module _ (x : External) (api : StoreApi) (laws : IsStore api) where
  open api use {Store, get}

  abbrev etag_by : Bytes → Str
  etag_by = etag_from_bytes x.hash_hex

  module _ (s : Stores Store) (f : Files) (h : Represents etag_by api s f) (from to : Str) where
    target_etag-eq :
        (new : Option Object)
        → IsStored etag_by to new (get s.data_store to) (get s.meta_store to)
        → target_etag api x to s ≡ etag etag_by new
    unfolding target_etag
    target_etag-eq none (no_data, no_meta) = simp (laws.contains-eq, no_data)
    target_etag-eq (some o) (data_here, meta_here) = simp (laws.contains-eq, data_here, meta_here)

    contains_target :
        (new : Option Object)
        → IsStored etag_by to new (get s.data_store to) (get s.meta_store to)
        → api.contains s.data_store to ≡ is_some new
    contains_target none (no_data, no_meta) = simp (laws.contains-eq, no_data)
    contains_target (some o) (data_here, meta_here) = simp (laws.contains-eq, data_here)

    abbrev IsRefused : {A : Type 0} → Result A → Type 0
    IsRefused (ok a) = ⊥
    IsRefused (err e) = e.kind ≡ condition_not_match

    abbrev allowed : Bool → Option Str → Option Object → Bool
    allowed if_not_exists if_match new =
        not (if_not_exists && is_some new) && wanted if_match (etag etag_by new)

    Refines-refused :
        {A B : Type 0} (m : Result (Unit {0})) (rest : Result (A × Stores Store)) (answer : B → A)
        → IsRefused m
        → Refines etag_by api answer (m >> rest) (refused condition_not_match)
    Refines-refused (ok a) rest answer h' = absurd h'
    Refines-refused (err e) rest answer h' = h'

    check_target-allowed :
        (if_not_exists : Bool) (if_match : Option Str) (new : Option Object)
        → IsStored etag_by to new (get s.data_store to) (get s.meta_store to)
        → allowed if_not_exists if_match new ≡ true
        → check_target api x to if_not_exists if_match s ≡ ok tt
    unfolding check_target
    check_target-allowed if_not_exists if_match none stored permitted =
        ground (arith, contains_target none stored, target_etag-eq none stored)
    check_target-allowed if_not_exists if_match (some o) stored permitted =
        ground (arith, contains_target (some o) stored, target_etag-eq (some o) stored)

    check_target-IsRefused :
        (if_not_exists : Bool) (if_match : Option Str) (new : Option Object)
        → IsStored etag_by to new (get s.data_store to) (get s.meta_store to)
        → allowed if_not_exists if_match new ≡ false
        → IsRefused (check_target api x to if_not_exists if_match s)
    unfolding check_target
    check_target-IsRefused if_not_exists if_match none stored refusal =
        ground (arith, contains_target none stored, target_etag-eq none stored)
    check_target-IsRefused if_not_exists if_match (some o) stored refusal =
        ground (arith, contains_target (some o) stored, target_etag-eq (some o) stored)

    -- The source is an object.
    copy_record-eq :
        (now : ℕ) (o : Object)
        → IsStored etag_by from (some o) (get s.data_store from) (get s.meta_store from)
        → copy_record api x from to now s (key_and_value from o.bytes)
          ≡ ok (
            entry_metadata x to (info etag_by (record o { modified = some now })),
            record {
              data_store = api.put s.data_store (key_and_value to o.bytes);
              meta_store =
                  api.put s.meta_store
                    (meta_value (sidecar etag_by to (record o { modified = some now })));
            },
          )
    unfolding copy_record
    copy_record-eq now o (data_here, meta_here) = simp meta_here

    rename_record-eq :
        (o : Object)
        → IsStored etag_by from (some o) (get s.data_store from) (get s.meta_store from)
        → rename_record api x from to s (key_and_value from o.bytes)
          ≡ ok (
            tt,
            record {
              data_store = api.delete (api.put s.data_store (key_and_value to o.bytes)) from;
              meta_store =
                  api.delete (api.put s.meta_store (meta_value (sidecar etag_by to o))) from;
            },
          )
    unfolding rename_record
    rename_record-eq o (data_here, meta_here) = simp meta_here

    -- The copy of an object, once the checks are decided.
    copy_checked :
        (if_not_exists : Bool) (if_match : Option Str) (now : ℕ) (o : Object)
        → IsStored etag_by from (some o) (get s.data_store from) (get s.meta_store from)
        → Refines etag_by api
            (λ i. entry_metadata x to i)
            (check_target api x to if_not_exists if_match s
              >> copy_record api x from to now s (key_and_value from o.bytes))
            (let new : Object = record o { modified = some now } in
              if allowed if_not_exists if_match (f to)
              then done (info etag_by new) (update f to (some new))
              else refused condition_not_match)
    copy_checked if_not_exists if_match now o stored =
        elim (Bool-cases (allowed if_not_exists if_match (f to))) [
          | inl e ↦
              rw
                (
                  e,
                  check_target-allowed if_not_exists if_match (f to) (h.at_key to) e,
                  copy_record-eq now o stored,
                )
                (refl, put-Represents etag_by api laws s f h to (record o { modified = some now }))
          | inr e ↦ rw e (
              Refines-refused (check_target api x to if_not_exists if_match s) _ _
                (check_target-IsRefused if_not_exists if_match (f to) (h.at_key to) e))
        ]

    copy_outcome :
        (if_not_exists : Bool) (if_match : Option Str) (now : ℕ) (old : Option Object)
        → IsStored etag_by from old (get s.data_store from) (get s.meta_store from)
        → f from ≡ old
        → Refines etag_by api
            (λ i. entry_metadata x to i)
            (copy_txn api x from to if_not_exists if_match now s)
            (copy etag_by from to if_not_exists if_match now f)
    unfolding copy copy_txn
    copy_outcome if_not_exists if_match now none stored e = rw (stored.0, copy_txn, e, copy) refl
    copy_outcome if_not_exists if_match now (some o) stored e =
        rw (stored.0, copy_txn, e, copy) (copy_checked if_not_exists if_match now o stored)

    rename_outcome :
        (old : Option Object)
        → IsStored etag_by from old (get s.data_store from) (get s.meta_store from)
        → f from ≡ old
        → Refines etag_by api (λ i. i) (rename_txn api x from to s) (rename from to f)
    unfolding rename rename_txn
    rename_outcome none stored e = rw (stored.0, rename_txn, e, rename) refl
    rename_outcome (some o) stored e =
        rw (stored.0, rename_txn, e, rename, rename_record-eq o stored)
          (
            refl,
            delete-Represents etag_by api laws _ _ (put-Represents etag_by api laws s f h to o)
                from,
          )

  -- On stores that stand for a map of objects, a copy answers as the map's `copy` does, and leaves
  -- stores that stand for the new map; where the map refuses, it fails with the same kind.
  pub copy-Refines :
      (s : Stores Store) (f : Files) (from to : Str) (if_not_exists : Bool) (if_match : Option Str)
      (now : ℕ)
      → Represents etag_by api s f
      → Refines etag_by api
          (λ i. entry_metadata x to i)
          (copy_txn api x from to if_not_exists if_match now s)
          (copy etag_by from to if_not_exists if_match now f)
  copy-Refines s f from to if_not_exists if_match now h =
      copy_outcome s f h from to if_not_exists if_match now (f from) (h.at_key from) refl

  -- On stores that stand for a map of objects, a rename moves the object of the map with its bytes,
  -- its time and its metadata, and leaves stores that stand for the new map; with no object under
  -- the source it fails with `NotFound`.
  pub rename-Refines :
      (s : Stores Store) (f : Files) (from to : Str)
      → Represents etag_by api s f
      → Refines etag_by api (λ i. i) (rename_txn api x from to s) (rename from to f)
  rename-Refines s f from to h = rename_outcome s f h from to (f from) (h.at_key from) refl

-- ===== src/Core/Write/Refines.antt =====
-- A write does to the object stores what `Files.Model.write` does to the map of objects.
use opendal_indexeddb.Base.{
  Str, Bytes, true, false, Option, none, some, ℕ, ◌≡◌, refl, is_some, Result, ok, err, ◌>>=◌,
  condition_not_match, Bool-cases, inl, inr, arith, if◌then◌else◌,
}
use opendal_indexeddb.Core.Entry.{read_meta}
use opendal_indexeddb.Core.Write.{
  matches_existing, check_write, unconditional_overwrite, write_over, existing_data, existing_meta,
  existing_etag, set_txn,
}
use opendal_indexeddb.Files.Model.{
  Object, Files, Outcome, done, refused, update, write, permits, written, etag, info, tag_matches,
}
use opendal_indexeddb.Files.Represents.{Represents, Refines, IsStored, sidecar, put-Represents}
use opendal_indexeddb.Idb.{StoreApi, IsStore, Stores, External}
use opendal_indexeddb.Meta.Payload.{JsValue, key_and_value, meta_value, value_etag, etag_from_bytes}
use opendal_indexeddb.Meta.Records.{MetaRecord, EntryInfo, WriteArgs}

module _ (etag_of : Bytes → Str) where
  matches_existing-eq-tag_matches :
      (want : Str) (old : Option Object)
      → matches_existing want (is_some old) (etag etag_of old) ≡ tag_matches want (etag etag_of old)
  unfolding matches_existing
  matches_existing-eq-tag_matches want none = ground arith
  matches_existing-eq-tag_matches want (some o) = ground arith

  abbrev IsRefusal : {A : Type 0} → Result A → Type 0
  IsRefusal (ok a) = ⊥
  IsRefusal (err e) = e.kind ≡ condition_not_match

  -- The three conditions pass exactly where the map's operation permits the write.
  check_write-permits :
      (path : Str) (args : WriteArgs) (old : Option Object)
      → permits etag_of args old ≡ true
      → check_write path args (is_some old) (etag etag_of old) ≡ ok tt
  unfolding check_write
  check_write-permits path args none h = ground arith
  check_write-permits path args (some o) h = ground arith

  check_write-refuses :
      (path : Str) (args : WriteArgs) (old : Option Object)
      → permits etag_of args old ≡ false
      → IsRefusal (check_write path args (is_some old) (etag etag_of old))
  unfolding check_write
  check_write-refuses path args none h = ground arith
  check_write-refuses path args (some o) h = ground arith

  IsRefusal-bind :
      {A B : Type 0} (m : Result A) (k : A → Result B) → IsRefusal m → IsRefusal (m >>= k)
  IsRefusal-bind (ok a) k h = absurd h
  IsRefusal-bind (err e) k h = h

  -- What the transaction reads of an object that is stored.
  abbrev data_of : Str → Option Object → Option JsValue
  data_of path none = none
  data_of path (some o) = some (key_and_value path o.bytes)

  abbrev sidecar_of : Str → Option Object → Option MetaRecord
  sidecar_of path none = none
  sidecar_of path (some o) = some (sidecar etag_of path o)

module _ (x : External) where
  abbrev etag_by : Bytes → Str
  etag_by = etag_from_bytes x.hash_hex

  module _ (api : StoreApi) (laws : IsStore api) where
    open api use {Store, get, put}

    Refines-refusal :
        {A B : Type 0} (answer : B → A) (r : Result (A × Stores Store))
        → IsRefusal etag_by r
        → Refines etag_by api answer r (refused condition_not_match)
    Refines-refusal answer (ok a) h = absurd h
    Refines-refusal answer (err e) h = h

    module _ (s : Stores Store) (f : Files) (h : Represents etag_by api s f) (path : Str)
        (incoming : Bytes) (args : WriteArgs) (now : ℕ) where
      -- Against an object that was read, or none.
      write_over-permitted :
          (old : Option Object)
          → permits etag_by args old ≡ true
          → write_over api x path incoming args now
              (data_of etag_by path old)
              (sidecar_of etag_by path old)
              (etag etag_by old)
              s
            ≡ ok (
              info etag_by (written etag_by incoming args now old),
              record {
                data_store =
                    put s.data_store
                      (key_and_value path (written etag_by incoming args now old).bytes);
                meta_store =
                    put s.meta_store
                      (meta_value (sidecar etag_by path (written etag_by incoming args now old)));
              },
            )
      unfolding write_over
      write_over-permitted none permitted =
          ground (arith, check_write-permits etag_by path args none permitted)
      write_over-permitted (some o) permitted =
          ground (arith, check_write-permits etag_by path args (some o) permitted)

      write_over-refused :
          (old : Option Object)
          → permits etag_by args old ≡ false
          → IsRefusal etag_by (
              write_over api x path incoming args now
                (data_of etag_by path old)
                (sidecar_of etag_by path old)
                (etag etag_by old)
                s)
      unfolding write_over
      write_over-refused none no_leave =
          IsRefusal-bind etag_by _ _ (check_write-refuses etag_by path args none no_leave)
      write_over-refused (some o) no_leave =
          IsRefusal-bind etag_by _ _ (check_write-refuses etag_by path args (some o) no_leave)

      abbrev write_outcome : Option Object → Outcome EntryInfo
      write_outcome old =
          if permits etag_by args old
          then done (info etag_by (written etag_by incoming args now old))
              (update f path (some (written etag_by incoming args now old)))
          else refused condition_not_match

      write_over-Refines :
          (old : Option Object)
          → Refines etag_by api
              (λ i. i)
              (write_over api x path incoming args now
                (data_of etag_by path old)
                (sidecar_of etag_by path old)
                (etag etag_by old)
                s)
              (write_outcome old)
      write_over-Refines old = elim (Bool-cases (permits etag_by args old)) [
        | inl e ↦
            rw (e, write_over-permitted old e)
              (
                refl,
                put-Represents etag_by api laws s f h path (written etag_by incoming args now old),
              )
        | inr e ↦ rw e (Refines-refusal (λ i. i) _ (write_over-refused old e))
      ]

      -- An unconditional overwrite does not depend on what was there.
      overwrite_args :
          unconditional_overwrite args ≡ true
          → (args.append ≡ false)
            × (args.if_not_exists ≡ false)
            × (args.if_match ≡ none)
            × (args.if_none_match ≡ none)
      unfolding unconditional_overwrite
      overwrite_args free = ground arith

      write_outcome-overwrite :
          (old : Option Object)
          → unconditional_overwrite args ≡ true
          → write_outcome none ≡ write_outcome old
      write_outcome-overwrite old free =
          let (append, if_not_exists, if_match, if_none_match) = overwrite_args free in
          simp (append, if_not_exists, if_match, if_none_match)

      -- What the transaction reads: nothing, or the object under the path.
      set_txn-overwrite :
          unconditional_overwrite args ≡ true
          → set_txn api x path incoming args now s
            ≡ write_over api x path incoming args now none none none s
      unfolding set_txn existing_data existing_meta existing_etag
      set_txn-overwrite free = simp free

      set_txn-read :
          (old : Option Object)
          → IsStored etag_by path old (get s.data_store path) (get s.meta_store path)
          → unconditional_overwrite args ≡ false
          → set_txn api x path incoming args now s
            ≡ write_over api x path incoming args now
                (data_of etag_by path old)
                (sidecar_of etag_by path old)
                (etag etag_by old)
                s
      unfolding set_txn existing_data existing_meta existing_etag read_meta value_etag
      set_txn-read none (no_data, no_meta) bound = simp (bound, no_data, no_meta)
      set_txn-read (some o) (data_here, meta_here) bound = simp (bound, data_here, meta_here)

      set_outcome :
          (old : Option Object)
          → IsStored etag_by path old (get s.data_store path) (get s.meta_store path)
          → Refines etag_by api
              (λ i. i)
              (set_txn api x path incoming args now s)
              (write_outcome old)
      set_outcome old stored = elim (Bool-cases (unconditional_overwrite args)) [
        | inl free ↦
            rw (set_txn-overwrite free, ← write_outcome-overwrite old free)
              (write_over-Refines none)
        | inr bound ↦ rw (set_txn-read old stored bound) (write_over-Refines old)
      ]

    -- On stores that stand for a map of objects, a write (`set`) answers as the map's `write` does, and
    -- leaves stores that stand for the new map; where the map refuses, it fails with the same kind.
    pub set-Refines :
        (s : Stores Store) (f : Files) (path : Str) (incoming : Bytes) (args : WriteArgs) (now : ℕ)
        → Represents etag_by api s f
        → Refines etag_by api
            (λ i. i)
            (set_txn api x path incoming args now s)
            (write etag_by path incoming args now f)
    unfolding write
    set-Refines s f path incoming args now h =
        set_outcome s f h path incoming args now (f path) (h.at_key path)

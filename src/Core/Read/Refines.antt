-- ===== src/Core/Read/Refines.antt =====
-- A read and a stat answer from the map of objects.
use opendal_indexeddb.Base.{
  Str, Bytes, Bool, true, false, Option, none, some, ℕ, ◌<◌, ◌≡◌, refl, and_then, length, Result,
  ok, err, condition_not_match, ◌>>=◌, ◌>>◌, Bool-cases, inl, inr, arith,
}
use mathlib.Core.Option
use opendal_indexeddb.Core.Read.{
  check_conditions, read_value, read_tagged, read_untagged, read_txn, stat_recorded, stat_txn,
  has_conditions,
}
use opendal_indexeddb.Files.Model.{Object, Files, info, readable}
use opendal_indexeddb.Files.Represents.{Represents, IsStored}
use opendal_indexeddb.Idb.{StoreApi, IsStore, Stores, External}
use opendal_indexeddb.Meta.Check.{check_etag, check_modified, etag_matches}
use opendal_indexeddb.Meta.Payload.{key_and_value, etag_from_bytes, u32_mod}
use opendal_indexeddb.Meta.Payload.Range.{slice, record_bytes_range-slice}
use opendal_indexeddb.Meta.Records.{EntryInfo, ReadArgs}

module _ (x : External) where
  abbrev etag_by : Bytes → Str
  etag_by = etag_from_bytes x.hash_hex

  -- The time of an object, as the conditions see it.
  abbrev pub time_of : Object → Option ℕ
  time_of o = and_then o.modified x.from_millisecond

  abbrev pub stored_size : Option Object → ℕ
  stored_size none = 0
  stored_size (some o) = length o.bytes

  abbrev pub passes : ReadArgs → Object → Bool
  passes args o = readable args (time_of o) (some (etag_by o.bytes))

  -- What a read tells of the map: the object's info and the bytes of the range, or an error of the
  -- kind `ConditionNotMatch`; nothing where there is no object.
  abbrev pub Answers : ReadArgs → Option Object → Result (Option (EntryInfo × Bytes)) → Type 0
  Answers args none r = r ≡ ok none
  Answers args (some o) (ok found) =
      (passes args o ≡ true) × (found ≡ some (info etag_by o, slice args.range o.bytes))
  Answers args (some o) (err e) = (passes args o ≡ false) × (e.kind ≡ condition_not_match)

  abbrev pub IsRefused : {A : Type 0} → Result A → Type 0
  IsRefused (ok a) = ⊥
  IsRefused (err e) = e.kind ≡ condition_not_match

  check_conditions-passes :
      (path : Str) (args : ReadArgs) (o : Object)
      → passes args o ≡ true
      → check_conditions x path (info etag_by o) args ≡ ok tt
  unfolding check_conditions check_modified check_etag etag_matches
  check_conditions-passes path args o h = ground arith

  check_conditions-refuses :
      (path : Str) (args : ReadArgs) (o : Object)
      → passes args o ≡ false
      → IsRefused (check_conditions x path (info etag_by o) args)
  unfolding check_conditions check_modified check_etag etag_matches
  check_conditions-refuses path args o h = ground arith

  Answers-refusal :
      {A : Type 0} (args : ReadArgs) (o : Object) (m : Result A)
      (k : A → Result (Option (EntryInfo × Bytes)))
      → passes args o ≡ false
      → IsRefused m
      → Answers args (some o) (m >>= k)
  Answers-refusal args o (ok a) k h r = absurd r
  Answers-refusal args o (err e) k h r = (h, r)

  module _ (api : StoreApi) (laws : IsStore api) (s : Stores api.Store) (path : Str)
      (args : ReadArgs) where
    open api use {Store, get}

    read_value-slice :
        (o : Object)
        → length o.bytes < u32_mod
        → read_value path (info etag_by o) (key_and_value path o.bytes) args
          ≡ ok (some (info etag_by o, slice args.range o.bytes))
    unfolding read_value
    read_value-slice o small = rw (record_bytes_range-slice path path o.bytes args.range small) refl

    read_txn-object :
        (o : Object)
        → IsStored etag_by path (some o) (get s.data_store path) (get s.meta_store path)
        → read_txn api x path args s ≡ (
            check_conditions x path (info etag_by o) args
            >> read_value path (info etag_by o) (key_and_value path o.bytes) args)
    unfolding read_txn read_tagged
    read_txn-object o (data_here, meta_here) = elim (Bool-cases (has_conditions args)) [
      | inl e ↦ simp (read_txn, read_tagged, meta_here, e, laws.contains-eq, data_here)
      | inr e ↦ simp (read_txn, read_tagged, meta_here, e, data_here)
    ]

    read_txn-missing :
        get s.data_store path ≡ none
        → get s.meta_store path ≡ none
        → read_txn api x path args s ≡ ok none
    unfolding read_txn read_untagged
    read_txn-missing no_data no_meta = simp (read_txn, read_untagged, no_data, no_meta)

    read_outcome :
        (old : Option Object)
        → stored_size old < u32_mod
        → IsStored etag_by path old (get s.data_store path) (get s.meta_store path)
        → Answers args old (read_txn api x path args s)
    read_outcome none small (no_data, no_meta) = read_txn-missing no_data no_meta
    read_outcome (some o) small stored = elim (Bool-cases (passes args o)) [
      | inl e ↦
          rw
            (
              read_txn-object o stored,
              check_conditions-passes path args o e,
              read_value-slice o small,
            )
            (e, refl)
      | inr e ↦ rw (read_txn-object o stored) (
          Answers-refusal args o (check_conditions x path (info etag_by o) args) _ e
            (check_conditions-refuses path args o e))
    ]

  module _ (api : StoreApi) (laws : IsStore api) (s : Stores api.Store) (path : Str) where
    open api use {Store, get}

    stat_outcome :
        (old : Option Object)
        → IsStored etag_by path old (get s.data_store path) (get s.meta_store path)
        → stat_txn api x path s ≡ Option.map (info etag_by) old
    unfolding stat_txn stat_recorded
    stat_outcome none (no_data, no_meta) = simp (stat_txn, no_data, no_meta)
    stat_outcome (some o) (data_here, meta_here) =
        simp (stat_txn, stat_recorded, laws.contains-eq, data_here, meta_here)

  -- On stores that stand for a map of objects, a read answers with the object's info and exactly the
  -- bytes of the range where the conditions on the time and the ETag hold, and fails with
  -- `ConditionNotMatch` where one does not; with no object it answers nothing. The object is to have
  -- fewer than 2^32 bytes.
  pub read_refines :
      (api : StoreApi) (laws : IsStore api) (s : Stores api.Store) (f : Files) (path : Str)
      (args : ReadArgs)
      → Represents etag_by api s f
      → stored_size (f path) < u32_mod
      → Answers args (f path) (read_txn api x path args s)
  read_refines api laws s f path args h small =
      read_outcome api laws s path args (f path) small (h.at_key path)

  -- On stores that stand for a map of objects, a stat answers with the info of the map's object, and
  -- nothing where there is none.
  pub stat_refines :
      (api : StoreApi) (laws : IsStore api) (s : Stores api.Store) (f : Files) (path : Str)
      → Represents etag_by api s f
      → stat_txn api x path s ≡ Option.map (info etag_by) (f path)
  stat_refines api laws s f path h = stat_outcome api laws s path (f path) (h.at_key path)

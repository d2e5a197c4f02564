-- ===== src/Files/Represents.antt =====
-- When two object stores stand for a map of objects: each object is one record of bytes and one
-- sidecar, which tells its length and its ETag, and there is nothing else.
use opendal_indexeddb.Base.{
  Str, Bytes, Option, none, some, ◌≡◌, refl, ap, length, str_eq, Result, ok, err, Bool-cases, inl,
  inr, str_eq→eq,
}
use opendal_indexeddb.Files.Model.{Object, Files, Outcome, done, refused, update}
use opendal_indexeddb.Idb.{StoreApi, IsStore, Stores}
use opendal_indexeddb.Meta.Payload.{JsValue, key_and_value, meta_value}
use opendal_indexeddb.Meta.Records.{MetaRecord}

module _ (etag_of : Bytes → Str) where
  abbrev pub sidecar : Str → Object → MetaRecord
  sidecar k o = record {
    k = k;
    l = length o.bytes;
    m = o.modified;
    e = some (etag_of o.bytes);
    ct = o.content_type;
    um = o.user_metadata;
  }

  abbrev pub IsStored : Str → Option Object → Option JsValue → Option JsValue → Type 0
  IsStored k none d m = (d ≡ none) × (m ≡ none)
  IsStored k (some o) d m =
      (d ≡ some (key_and_value k o.bytes)) × (m ≡ some (meta_value (sidecar k o)))

  module _ (api : StoreApi) where
    open api use {Store, get, put, delete}

    pub record Represents (s : Stores Store) (f : Files) : Type 0 where
      pub at_key : (k : Str) → IsStored k (f k) (get s.data_store k) (get s.meta_store k)

    -- A transaction does what the map's operation does: the same answer, and stores that stand for
    -- the new map; or an error of the same kind.
    abbrev pub Refines : {A B : Type 0} → (B → A) → Result (A × Stores Store) → Outcome B → Type 0
    Refines answer (ok (a, s)) (done b f) = (a ≡ answer b) × Represents s f
    Refines answer (ok r) (refused kind) = ⊥
    Refines answer (err e) (done b f) = ⊥
    Refines answer (err e) (refused kind) = e.kind ≡ kind

    module _ (laws : IsStore api) (s : Stores Store) (f : Files) (h : Represents s f) where
      -- An object and its sidecar are written.
      pub put-Represents :
          (path : Str) (o : Object)
          → Represents
              (record {
                data_store = put s.data_store (key_and_value path o.bytes);
                meta_store = put s.meta_store (meta_value (sidecar path o));
              })
              (update f path (some o))
      put-Represents path o = record {
        at_key = λ k. elim (Bool-cases (str_eq path k)) [
          | inl e ↦
              let same = str_eq→eq path k e in
              simp (laws.get-put, e)
                (
                  ap (λ j. some (key_and_value j o.bytes)) same,
                  ap (λ j. some (meta_value (sidecar j o))) same,
                )
          | inr e ↦ simp (laws.get-put, e) (h.at_key k)
        ];
      }

      -- Both stores lose a key.
      pub delete-Represents :
          (path : Str)
          → Represents
              (record {
                data_store = delete s.data_store path;
                meta_store = delete s.meta_store path;
              })
              (update f path none)
      delete-Represents path = record {
        at_key = λ k. elim (Bool-cases (str_eq path k)) [
          | inl e ↦ simp (laws.get-delete, e) (refl, refl)
          | inr e ↦ simp (laws.get-delete, e) (h.at_key k)
        ];
      }

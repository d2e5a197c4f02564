-- ===== src/Builder/Names.antt =====
-- The names of the object stores that builders agree on.
use opendal_indexeddb.Access.{IndexeddbBackend, new_backend, with_normalized_root}
use opendal_indexeddb.Base.{
  Str, Bool, true, false, Option, none, some, ◌≡◌, ◌≢◌, refl, sym, ◌∙◌, [], ◌∷◌, ◌++◌, lit,
  is_empty, starts_with, Result, ok, err, config_invalid, ◌&&◌, not, arith,
}
use opendal_indexeddb.Builder.{
  IndexeddbBuilder, build, db_name_of, object_store_name_of, meta_store_name_for, meta_store_prefix,
  is_reserved, build_core,
}
use opendal_indexeddb.Idb.{External}

starts_with-append : (p s : Str) → starts_with p (p ++ s) ≡ true
starts_with-append [] s = refl
starts_with-append (a ∷ p) s = ground (arith, starts_with-append p s)

is_reserved-meta : (name : Str) → is_reserved (meta_store_name_for name) ≡ true
unfolding is_reserved meta_store_name_for
is_reserved-meta name = starts_with-append meta_store_prefix name

append-cancel : (p s t : Str) → p ++ s ≡ p ++ t → s ≡ t
append-cancel [] s t h = h
append-cancel (a ∷ p) s t h = append-cancel p s t (cc)

meta_store_name_for-injective : (s t : Str) → meta_store_name_for s ≡ meta_store_name_for t → s ≡ t
unfolding meta_store_name_for
meta_store_name_for-injective s t h = append-cancel meta_store_prefix s t h

-- A setting that is given and empty is refused, and so is the reserved prefix.
abbrev valid_name : Option Str → Bool
valid_name none = true
valid_name (some name) = not (is_empty name)

abbrev reserved : Option Str → Bool
reserved none = false
reserved (some name) = is_reserved name

abbrev IsConfigInvalid : {A : Type 0} → Result A → Type 0
IsConfigInvalid (ok a) = ⊥
IsConfigInvalid (err e) = e.kind ≡ config_invalid

abbrev pub acceptable : IndexeddbBuilder → Bool
acceptable builder =
    valid_name builder.config.db_name
    && valid_name builder.config.object_store_name
    && not (reserved builder.config.object_store_name)

abbrev pub IsAccepted : {A : Type 0} → Bool → Result A → Type 0
IsAccepted b (ok a) = b ≡ true
IsAccepted b (err e) = (b ≡ false) × (e.kind ≡ config_invalid)

main-plain : is_reserved (lit "main") ≡ false
unfolding is_reserved
main-plain = refl

module _ (x : External) where
  -- A build succeeds exactly where no name is given and empty and the object store's name does not
  -- start with the reserved prefix; else it fails with `ConfigInvalid`.
  pub build_accepts :
      (builder : IndexeddbBuilder) → IsAccepted (acceptable builder) (build x builder)
  unfolding build build_core db_name_of object_store_name_of
  build_accepts builder = ground (arith, main-plain)

  -- What was built has an object store whose name is not reserved, and a sidecar named after it.
  build-names :
      (builder : IndexeddbBuilder) {built : IndexeddbBackend}
      → build x builder ≡ ok built
      → (is_reserved built.core.object_store_name ≡ false)
        × (built.core.meta_store_name ≡ meta_store_name_for built.core.object_store_name)
  unfolding build build_core new_backend with_normalized_root
  build-names builder h = ground arith

  -- Whatever two builders are configured with, the data store of one is never the sidecar of the other,
  -- nor its own.
  pub build_disjoint :
      (one two : IndexeddbBuilder) {first second : IndexeddbBackend}
      → build x one ≡ ok first
      → build x two ≡ ok second
      → first.core.object_store_name ≢ second.core.meta_store_name
  build_disjoint one two {first} {second} h k same =
      cc (
        (build-names one h).0,
        (build-names two k).1,
        is_reserved-meta second.core.object_store_name,
      )

  -- Two builders share a sidecar only where they share the data store.
  pub build_sidecars :
      (one two : IndexeddbBuilder) {first second : IndexeddbBackend}
      → build x one ≡ ok first
      → build x two ≡ ok second
      → first.core.meta_store_name ≡ second.core.meta_store_name
      → first.core.object_store_name ≡ second.core.object_store_name
  build_sidecars one two {first} {second} h k same =
      meta_store_name_for-injective first.core.object_store_name second.core.object_store_name
        (sym (build-names one h).1 ∙ same ∙ (build-names two k).1)

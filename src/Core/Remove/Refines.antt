-- ===== src/Core/Remove/Refines.antt =====
-- What a batch of deletions removes, on any stores, and on stores that stand for a map of objects.
use opendal_indexeddb.Base.{
  Str, Bytes, Bool, true, false, Option, none, some, ℕ, ◌≡◌, refl, ap, ◌∙◌, sym, [], ◌∷◌, ◌++◌,
  List, ◌||◌, lit, slash, str_eq, is_empty, ends_with_slash, starts_with, ok, Bool-cases, inl, inr,
  arith, if◌then◌else◌,
}
use opendal_indexeddb.Connection.Prefix.{recursive_delete_target, prefix_upper_bound}
use opendal_indexeddb.Connection.Prefix.Bounds.{prefix_upper_bound_lem, prefix_upper_bound-slash}
use opendal_indexeddb.Connection.Utf8.{is_utf8, is_utf8-ascii}
use opendal_indexeddb.Core.Remove.{
  exact_key_of, exact_keys, delete_key, delete_keys, delete_prefix, delete_prefixes,
  delete_many_txn,
}
use opendal_indexeddb.Files.Model.{Files, names_path, removed, remove}
use opendal_indexeddb.Files.Represents.{Represents, IsStored}
use opendal_indexeddb.Meta.Payload.{JsValue}
use opendal_indexeddb.Idb.{StoreApi, IsStore, Stores}

abbrev keyed : List Str → Str → Bool
keyed [] k = false
keyed (key ∷ keys) k = str_eq key k || keyed keys k

abbrev prefixed : List (Str × Bool) → Str → Bool
prefixed [] k = false
prefixed ((path, recursive) ∷ batch) k =
    (if recursive then starts_with (recursive_delete_target path).prefix k else false)
    || prefixed batch k

-- Every path of the batch is valid UTF-8, as every `String` is.
abbrev pub AreUtf8 : List (Str × Bool) → Type 0
AreUtf8 [] = Unit
AreUtf8 ((path, recursive) ∷ batch) = (is_utf8 path ≡ true) × AreUtf8 batch

keyed-append : (xs ys : List Str) (k : Str) → keyed (xs ++ ys) k ≡ (keyed xs k || keyed ys k)
keyed-append [] ys k = refl
keyed-append (x ∷ xs) ys k = ground (arith, keyed-append xs ys k)

-- What a recursive entry names: its exact key, and what starts with its prefix.
names_path-eq :
    (path k : Str)
    → names_path path true k
      ≡ (starts_with (recursive_delete_target path).prefix k || keyed (exact_key_of (path, true)) k)
unfolding recursive_delete_target exact_key_of
names_path-eq [] k = refl
names_path-eq (a ∷ p) k = ground arith

keyed-plain : (path k : Str) → keyed (exact_key_of (path, false)) k ≡ str_eq path k
unfolding exact_key_of
keyed-plain path k = ground arith

removed-eq :
    (batch : List (Str × Bool)) (k : Str)
    → removed batch k ≡ (prefixed batch k || keyed (exact_keys batch) k)
unfolding exact_keys
removed-eq [] k = refl
removed-eq ((path, true) ∷ batch) k = ground (
  arith,
  names_path-eq path k,
  keyed-append (exact_key_of (path, true)) (exact_keys batch) k,
  removed-eq batch k,
)
removed-eq ((path, false) ∷ batch) k = ground (
  arith,
  keyed-plain path k,
  keyed-append (exact_key_of (path, false)) (exact_keys batch) k,
  removed-eq batch k,
)

ends_with_slash-snoc : (a : ℕ) (p : Str) → ends_with_slash (a ∷ (p ++ lit "/")) ≡ true
ends_with_slash-snoc a [] = refl
ends_with_slash-snoc a (b ∷ p) = ends_with_slash-snoc b p

module _ (api : StoreApi) where
  open api use {Store, get}

  -- From `s` to `t` both stores lose the keys that `gone` picks, and nothing else.
  pub record Loses (gone : Str → Bool) (s t : Stores Store) : Type 0 where
    pub of_data : (k : Str) → get t.data_store k ≡ (if gone k then none else get s.data_store k)
    pub of_meta : (k : Str) → get t.meta_store k ≡ (if gone k then none else get s.meta_store k)

module _ (api : StoreApi) (laws : IsStore api) where
  open api use {Store, get}

  Loses-none : (s : Stores Store) → Loses api (λ k. false) s s
  Loses-none s = record { of_data = λ k. refl; of_meta = λ k. refl }

  Loses-both :
      (p q : Str → Bool) {s t u : Stores Store}
      → Loses api p s t
      → Loses api q t u
      → Loses api (λ k. p k || q k) s u
  Loses-both p q a b = record {
    of_data = λ k. ground (arith, a.of_data k, b.of_data k);
    of_meta = λ k. ground (arith, a.of_meta k, b.of_meta k);
  }

  Loses-ext :
      (p q : Str → Bool) {s t : Stores Store}
      → ((k : Str) → p k ≡ q k)
      → Loses api p s t
      → Loses api q s t
  Loses-ext p q same a = record {
    of_data = λ k. cc (a.of_data k, same k);
    of_meta = λ k. cc (a.of_meta k, same k);
  }

  delete_key-Loses :
      (key : Str) (s : Stores Store) → Loses api (str_eq key) s (delete_key api key s)
  unfolding delete_key
  delete_key-Loses key s = record {
    of_data = λ k. laws.get-delete s.data_store key k;
    of_meta = λ k. laws.get-delete s.meta_store key k;
  }

  delete_keys-Loses :
      (keys : List Str) (s : Stores Store) → Loses api (keyed keys) s (delete_keys api keys s)
  unfolding delete_keys
  delete_keys-Loses [] s = Loses-none s
  delete_keys-Loses (key ∷ keys) s =
      Loses-both (str_eq key) (keyed keys) (delete_key-Loses key s)
        (delete_keys-Loses keys (delete_key api key s))

  clear-Loses : (s : Stores Store) → Loses api (λ k. true) s (delete_prefix api [] s)
  unfolding delete_prefix
  clear-Loses s = record {
    of_data = λ k. laws.get-clear s.data_store k;
    of_meta = λ k. laws.get-clear s.meta_store k;
  }

  -- A prefix that is no empty text and has an upper bound.
  range-Loses :
      (prefix : Str) {upper : Str} (s : Stores Store)
      → is_empty prefix ≡ false
      → is_utf8 prefix ≡ true
      → prefix_upper_bound prefix ≡ some upper
      → Loses api (starts_with prefix) s (delete_prefix api prefix s)
  unfolding delete_prefix
  range-Loses prefix s filled valid bound =
      rw (filled, delete_prefix, bound)
        (record {
          of_data = λ k.
              laws.get-delete_range s.data_store prefix _ k
              ∙ ap (λ b. if b then none else get s.data_store k)
                  (prefix_upper_bound_lem prefix k valid bound).0;
          of_meta = λ k.
              laws.get-delete_range s.meta_store prefix _ k
              ∙ ap (λ b. if b then none else get s.meta_store k)
                  (prefix_upper_bound_lem prefix k valid bound).0;
        })

  slash-Loses :
      (prefix : Str) (s : Stores Store)
      → is_empty prefix ≡ false
      → is_utf8 prefix ≡ true
      → ends_with_slash prefix ≡ true
      → Loses api (starts_with prefix) s (delete_prefix api prefix s)
  slash-Loses prefix s filled valid ends =
      let (q, shape, bound) = prefix_upper_bound-slash prefix valid ends in
      range-Loses prefix s filled valid bound

  target-Loses :
      (path : Str) (s : Stores Store)
      → is_utf8 path ≡ true
      → let prefix = (recursive_delete_target path).prefix in
        Loses api (starts_with prefix) s (delete_prefix api prefix s)
  unfolding recursive_delete_target
  target-Loses [] s valid = clear-Loses s
  target-Loses (a ∷ p) s valid = elim (Bool-cases (ends_with_slash (a ∷ p))) [
    | inl e ↦ rw (e, recursive_delete_target) (slash-Loses (a ∷ p) s refl valid e)
    | inr e ↦
        rw (e, recursive_delete_target)
          (slash-Loses (a ∷ (p ++ lit "/")) s refl (is_utf8-ascii (a ∷ p) slash (omega arith) valid)
            (ends_with_slash-snoc a p))
  ]

  delete_prefixes-Loses :
      (batch : List (Str × Bool)) (s : Stores Store)
      → AreUtf8 batch
      → Loses api (prefixed batch) s (delete_prefixes api batch s)
  unfolding delete_prefixes
  delete_prefixes-Loses [] s valid = Loses-none s
  delete_prefixes-Loses ((path, true) ∷ batch) s (here, below) =
      Loses-both (starts_with (recursive_delete_target path).prefix) (prefixed batch)
        (target-Loses path s here) (delete_prefixes-Loses batch _ below)
  delete_prefixes-Loses ((path, false) ∷ batch) s (here, below) =
      delete_prefixes-Loses batch s below

  -- A batch of deletions fails on no stores, and removes from both, sidecars without a record
  -- included, exactly the paths that an entry of the batch names: the path itself, or for a
  -- recursive entry the path and all below it, which for the empty path is everything. The paths
  -- are valid UTF-8.
  pub delete_many_txn-Loses :
      (batch : List (Str × Bool)) (s : Stores Store)
      → AreUtf8 batch
      → (t : Stores Store) × (delete_many_txn api batch s ≡ ok (tt, t))
        × Loses api (removed batch) s t
  unfolding delete_many_txn
  delete_many_txn-Loses batch s valid = (
    delete_keys api (exact_keys batch) (delete_prefixes api batch s),
    refl,
    Loses-ext (λ k. prefixed batch k || keyed (exact_keys batch) k) (removed batch)
        (λ k. sym (removed-eq batch k))
        (Loses-both (prefixed batch) (keyed (exact_keys batch))
          (delete_prefixes-Loses batch s valid) (delete_keys-Loses (exact_keys batch) _)),
  )

  module _ (etag_of : Bytes → Str) where
    -- On stores that stand for a map of objects, a batch of deletions leaves stores that stand for the
    -- map without the paths that the batch names, and fails on none. The paths are valid UTF-8.
    pub delete_many_refines :
        (batch : List (Str × Bool)) (s : Stores Store) (f : Files)
        → AreUtf8 batch
        → Represents etag_of api s f
        → (t : Stores Store) × (delete_many_txn api batch s ≡ ok (tt, t))
          × Represents etag_of api t (remove batch f)
    unfolding remove
    delete_many_refines batch s f valid h =
        let (t, runs, loses) = delete_many_txn-Loses batch s valid in
        (
          t,
          runs,
          record { at_key = λ k. at (removed batch k) k (loses.of_data k) (loses.of_meta k) },
        )
      where
        at :
            (gone : Bool) (k : Str) {d m : Option JsValue}
            → d ≡ (if gone then none else get s.data_store k)
            → m ≡ (if gone then none else get s.meta_store k)
            → IsStored etag_of k (if gone then none else f k) d m
        at true k e g = (e, g)
        at false k e g = rw (e, g) (h.at_key k)

-- ===== src/Service.antt =====
-- The methods of `IndexeddbCore` as a service: each call, on any browser, against the map of objects.
pub mod Completes
pub mod Pages
pub mod Listing
pub mod Calls
pub mod Sequences
pub mod Races
pub mod Obedience
pub mod Faults
pub mod Scopes
use opendal_indexeddb.Base.{
  Str, Bytes, Bool, Option, ℕ, List, ◌≡◌, refl, ◌⊎◌, inl, inr, [], ◌∷◌, unexpected, is_same_file,
  str_eq, Result, ok, err, Bool-cases, if◌then◌else◌,
}
use opendal_indexeddb.Connection.Open.{Browser, IndexeddbCore, World, date_now}
use opendal_indexeddb.Core.Entry.{Txn, Metadata, entry_metadata}
use opendal_indexeddb.Core.Move.{copy_txn, rename_txn}
use opendal_indexeddb.Core.Move.Refines.{copy-Refines, rename-Refines}
use opendal_indexeddb.Core.Ops
use opendal_indexeddb.Core.Remove.{delete_many_txn}
use opendal_indexeddb.Core.Remove.Refines.{AreUtf8, delete_many_refines}
use opendal_indexeddb.Core.Transaction.{read_write, run_transaction}
use opendal_indexeddb.Core.Transaction.Atomic.{Atomic, run_transaction-Atomic}
use opendal_indexeddb.Core.Write.{set_txn}
use opendal_indexeddb.Core.Write.Refines.{set-Refines}
use opendal_indexeddb.Files.Model.{Files, Outcome, done, refused, write, copy, rename, remove}
use opendal_indexeddb.Files.Represents.{Represents, Refines}
use opendal_indexeddb.Idb.{StoreApi, IsStore, External}
use opendal_indexeddb.Meta.Payload.{etag_from_bytes}
use opendal_indexeddb.Meta.Records.{EntryInfo, WriteArgs}

module _ (b : Browser) (api : StoreApi) (etag_of : Bytes → Str) where
  abbrev W : Type 0
  W = World b.Env api.Store

  -- A call that succeeds does what the map's operation does; one that fails leaves the stores as they
  -- were, and fails as the map refuses, or with `Unexpected`.
  abbrev pub Serves : {A B : Type 0} → (B → A) → W → Outcome B → Result A × W → Type 0
  Serves answer w (done c f) (ok a, w') = (a ≡ answer c) × Represents etag_of api w'.stores f
  Serves answer w (refused kind) (ok a, w') = ⊥
  Serves answer w (done c f) (err e, w') = (w'.stores ≡ w.stores) × (e.kind ≡ unexpected)
  Serves answer w (refused kind) (err e, w') =
      (w'.stores ≡ w.stores) × ((e.kind ≡ kind) ⊎ (e.kind ≡ unexpected))

  module _ {A B : Type 0} (answer : B → A) (body : Txn api.Store A) (w : W) where
    Serves-body :
        (r : Result A × W) (o : Outcome B)
        → Refines etag_of api answer (body w.stores) o
        → Atomic b api.Store body w r
        → Serves answer w o r
    Serves-body (ok a, w') (done c f) h atomic = rw atomic at h
    Serves-body (ok a, w') (refused kind) h atomic = rw atomic at h
    Serves-body (err error, w') (done c f) h (kept, inl e) = absurd (rw e at h)
    Serves-body (err error, w') (done c f) h (kept, inr e) = (kept, e)
    Serves-body (err error, w') (refused kind) h (kept, inl e) = (kept, inl (rw e at h))
    Serves-body (err error, w') (refused kind) h (kept, inr e) = (kept, inr e)

-- The map's copy and rename, which refuse to put an object onto itself.
abbrev pub copy_distinct :
    (Bytes → Str) → Str → Str → Bool → Option Str → ℕ → Files → Outcome EntryInfo
copy_distinct etag_of from to if_not_exists if_match now f =
    if str_eq from to
    then refused is_same_file
    else copy etag_of from to if_not_exists if_match now f

abbrev pub rename_distinct : Str → Str → Files → Outcome (Unit {0})
rename_distinct from to f = if str_eq from to then refused is_same_file else rename from to f

module _ (b : Browser) (api : StoreApi) (laws : IsStore api) (x : External)
    (core : IndexeddbCore) where
  abbrev etag_by : Bytes → Str
  etag_by = etag_from_bytes x.hash_hex

  -- The time at which a call starts.
  abbrev pub time_at : World b.Env api.Store → ℕ
  time_at w = (b.now w.env).0

  -- On any browser, a write on stores that stand for a map of objects does what the map's `write` does
  -- at the time of the call; or it fails, writes nothing, and the error is of the map's kind or
  -- `Unexpected`.
  pub set-Serves :
      (path : Str) (value : Bytes) (args : WriteArgs) (w : World b.Env api.Store) (f : Files)
      → Represents etag_by api w.stores f
      → Serves b api etag_by
          (λ i. i)
          w
          (write etag_by path value args (time_at w) f)
          (Ops.set b api x core path value args w)
  unfolding Ops.set date_now
  set-Serves path value args w f h =
      Serves-body b api etag_by (λ i. i) (set_txn api x path value args (time_at w)) w₁
        (run_transaction b api.Store core read_write (set_txn api x path value args (time_at w)) w₁)
        (write etag_by path value args (time_at w) f)
        (set-Refines x api laws w.stores f path value args (time_at w) h)
        (run_transaction-Atomic b api.Store (set_txn api x path value args (time_at w)) core
          read_write w₁)
    where
      w₁ : World b.Env api.Store
      w₁ = record w { env = (b.now w.env).1 }

  -- On any browser, a copy on stores that stand for a map of objects does what the map's `copy` does at
  -- the time of the call, or refuses with `IsSameFile` where the paths are equal; or it fails, writes
  -- nothing, and the error is of the map's kind or `Unexpected`.
  pub copy-Serves :
      (from to : Str) (if_not_exists : Bool) (if_match : Option Str) (w : World b.Env api.Store)
      (f : Files)
      → Represents etag_by api w.stores f
      → Serves b api etag_by
          (λ i. entry_metadata x to i)
          w
          (copy_distinct etag_by from to if_not_exists if_match (time_at w) f)
          (Ops.copy b api x core from to if_not_exists if_match w)
  unfolding Ops.copy date_now
  copy-Serves from to if_not_exists if_match w f h = elim (Bool-cases (str_eq from to)) [
    | inl e ↦ rw e (refl, inl refl)
    | inr e ↦ rw e (
        Serves-body b api etag_by (λ i. entry_metadata x to i) body w₁
          (run_transaction b api.Store core read_write body w₁)
          (copy etag_by from to if_not_exists if_match (time_at w) f)
          (copy-Refines x api laws w.stores f from to if_not_exists if_match (time_at w) h)
          (run_transaction-Atomic b api.Store body core read_write w₁))
  ]
    where
      w₁ : World b.Env api.Store
      w₁ = record w { env = (b.now w.env).1 }

      body : Txn api.Store Metadata
      body = copy_txn api x from to if_not_exists if_match (time_at w)

  -- On any browser, a rename on stores that stand for a map of objects moves the map's object, or
  -- refuses with `IsSameFile` where the paths are equal; or it fails, writes nothing, and the error is
  -- of the map's kind or `Unexpected`.
  pub rename-Serves :
      (from to : Str) (w : World b.Env api.Store) (f : Files)
      → Represents etag_by api w.stores f
      → Serves b api etag_by
          (λ i. i)
          w
          (rename_distinct from to f)
          (Ops.rename b api x core from to w)
  unfolding Ops.rename
  rename-Serves from to w f h = elim (Bool-cases (str_eq from to)) [
    | inl e ↦ rw e (refl, inl refl)
    | inr e ↦ rw e (
        Serves-body b api etag_by (λ i. i) (rename_txn api x from to) w
          (run_transaction b api.Store core read_write (rename_txn api x from to) w)
          (rename from to f) (rename-Refines x api laws w.stores f from to h)
          (run_transaction-Atomic b api.Store (rename_txn api x from to) core read_write w))
  ]

  -- On any browser, a batch of deletions on stores that stand for a map of objects removes from the map
  -- the paths that it names, or fails with `Unexpected` and writes nothing. The paths are valid UTF-8.
  pub delete_many-Serves :
      (batch : List (Str × Bool)) (w : World b.Env api.Store) (f : Files)
      → AreUtf8 batch
      → Represents etag_by api w.stores f
      → Serves b api etag_by
          (λ i. i)
          w
          (done tt (remove batch f))
          (Ops.delete_many b api x core batch w)
  unfolding Ops.delete_many remove
  delete_many-Serves [] w f valid h = (refl, record { at_key = h.at_key })
  delete_many-Serves (entry ∷ batch) w f valid h =
      let (t, runs, stands) =
        delete_many_refines api laws etag_by (entry ∷ batch) w.stores f valid h in
      Serves-body b api etag_by (λ i. i) (delete_many_txn api (entry ∷ batch)) w
        (run_transaction b api.Store core read_write (delete_many_txn api (entry ∷ batch)) w)
        (done tt (remove (entry ∷ batch) f)) (rw runs (refl, stands))
        (run_transaction-Atomic b api.Store (delete_many_txn api (entry ∷ batch)) core read_write w)

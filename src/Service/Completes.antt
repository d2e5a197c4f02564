-- ===== src/Service/Completes.antt =====
-- The methods of `IndexeddbCore` in a browser that works: each call does what the map's operation does.
use mathlib.Core.Option
use opendal_indexeddb.Base.{
  Str, Bytes, Bool, Option, List, [], ◌∷◌, ◌≡◌, refl, sym, ap, ◌∙◌, ◌<◌, inl, inr, str_eq, Result,
  ok, err, Bool-cases, subst,
}
use opendal_indexeddb.Connection.Open.{Browser, IndexeddbCore, World, date_now}
use opendal_indexeddb.Core.Entry.{Txn, entry_metadata}
use opendal_indexeddb.Core.Move.{copy_txn, rename_txn}
use opendal_indexeddb.Core.Move.Refines.{copy-Refines, rename-Refines}
use opendal_indexeddb.Core.Ops
use opendal_indexeddb.Core.Ops.{reading, with_state}
use opendal_indexeddb.Core.Read.{read_txn, stat_txn}
use opendal_indexeddb.Core.Read.Refines.{Answers, stored_size, read_refines, stat_refines}
use opendal_indexeddb.Core.Remove.{delete_many_txn}
use opendal_indexeddb.Core.Remove.Refines.{AreUtf8, delete_many_refines}
use opendal_indexeddb.Core.Transaction.{Mode, read_only, read_write, run_transaction}
use opendal_indexeddb.Core.Transaction.Working.{IsWorking}
use opendal_indexeddb.Core.Transaction.Attempts.{outcome_of}
use opendal_indexeddb.Core.Transaction.Runs.{run_transaction_runs}
use opendal_indexeddb.Core.Write.{set_txn}
use opendal_indexeddb.Core.Write.Refines.{set-Refines}
use opendal_indexeddb.Files.Model.{Files, Outcome, info, done, write, copy, rename, remove}
use opendal_indexeddb.Files.Represents.{Represents, Refines}
use opendal_indexeddb.Idb.{StoreApi, IsStore, Stores, External}
use opendal_indexeddb.Meta.Payload.{etag_from_bytes, u32_mod}
use opendal_indexeddb.Meta.Records.{WriteArgs, ReadArgs}
use opendal_indexeddb.Service.{copy_distinct, rename_distinct}

-- The answer of a call, with the stores that it leaves.
abbrev pub with_stores : {E S A : Type 0} → Result A × World E S → Result (A × Stores S)
with_stores (ok a, w) = ok (a, w.stores)
with_stores (err e, w) = err e

with_stores-eq :
    {E S A : Type 0} (s : Stores S) (r : Result (A × Stores S)) (q : Result A × World E S)
    → outcome_of s r ≡ (q.0, q.1.stores)
    → r ≡ with_stores q
with_stores-eq s (ok (a, t)) (ok a', w) e = cc
with_stores-eq s (ok (a, t)) (err e', w) e = cc
with_stores-eq s (err e') (ok a', w) e = cc
with_stores-eq s (err e') (err e'', w) e = cc

-- A body that writes nothing.
outcome_of-reading :
    {A S : Type 0} (s : Stores S) (r : Result A) → r ≡ (outcome_of s (with_state r s)).0
outcome_of-reading s (ok a) = refl
outcome_of-reading s (err e) = refl

module _ (b : Browser) (api : StoreApi) (core : IndexeddbCore) (working : IsWorking b core)
    (etag_of : Bytes → Str) where
  abbrev W : Type 0
  W = World b.Env api.Store

  Refines-run :
      {A B : Type 0} (answer : B → A) (mode : Mode) (body : Txn api.Store A) (w : W) (o : Outcome B)
      → Refines etag_of api answer (body w.stores) o
      → Refines etag_of api answer (with_stores (run_transaction b api.Store core mode body w)) o
  Refines-run answer mode body w o h =
      subst (λ r. Refines etag_of api answer r o)
        (with_stores-eq w.stores (body w.stores) _
          (run_transaction_runs b api.Store core working mode body w))
        h

module _ (b : Browser) (api : StoreApi) (laws : IsStore api) (x : External) (core : IndexeddbCore)
    (working : IsWorking b core) where
  abbrev etag_by : Bytes → Str
  etag_by = etag_from_bytes x.hash_hex

  -- In a browser that works, a write on stores that stand for a map of objects succeeds where the map
  -- permits it, as the map's `write` at the time of the call, and else fails with the map's kind of
  -- error.
  pub set-Completes :
      (path : Str) (value : Bytes) (args : WriteArgs) (w : World b.Env api.Store) (f : Files)
      → Represents etag_by api w.stores f
      → Refines etag_by api
          (λ i. i)
          (with_stores (Ops.set b api x core path value args w))
          (write etag_by path value args (b.now w.env).0 f)
  unfolding Ops.set date_now
  set-Completes path value args w f h =
      Refines-run b api core working etag_by (λ i. i) read_write
        (set_txn api x path value args (b.now w.env).0) (record w { env = (b.now w.env).1 })
        (write etag_by path value args (b.now w.env).0 f)
        (set-Refines x api laws w.stores f path value args (b.now w.env).0 h)

  -- In a browser that works, a copy on stores that stand for a map of objects succeeds exactly where
  -- the map's `copy` does, with its answer and its new map, and else fails with the map's kind of error,
  -- which for equal paths is `IsSameFile`.
  pub copy-Completes :
      (from to : Str) (if_not_exists : Bool) (if_match : Option Str) (w : World b.Env api.Store)
      (f : Files)
      → Represents etag_by api w.stores f
      → Refines etag_by api
          (λ i. entry_metadata x to i)
          (with_stores (Ops.copy b api x core from to if_not_exists if_match w))
          (copy_distinct etag_by from to if_not_exists if_match (b.now w.env).0 f)
  unfolding Ops.copy date_now
  copy-Completes from to if_not_exists if_match w f h = elim (Bool-cases (str_eq from to)) [
    | inl e ↦ rw e refl
    | inr e ↦ rw e (
        Refines-run b api core working etag_by (λ i. entry_metadata x to i) read_write
          (copy_txn api x from to if_not_exists if_match (b.now w.env).0)
          (record w { env = (b.now w.env).1 })
          (copy etag_by from to if_not_exists if_match (b.now w.env).0 f)
          (copy-Refines x api laws w.stores f from to if_not_exists if_match (b.now w.env).0 h))
  ]

  -- In a browser that works, a rename on stores that stand for a map of objects moves the map's object,
  -- or fails: with `IsSameFile` for equal paths, with `NotFound` where there is no object.
  pub rename-Completes :
      (from to : Str) (w : World b.Env api.Store) (f : Files)
      → Represents etag_by api w.stores f
      → Refines etag_by api
          (λ i. i)
          (with_stores (Ops.rename b api x core from to w))
          (rename_distinct from to f)
  unfolding Ops.rename
  rename-Completes from to w f h = elim (Bool-cases (str_eq from to)) [
    | inl e ↦ rw e refl
    | inr e ↦ rw e (
        Refines-run b api core working etag_by (λ i. i) read_write (rename_txn api x from to) w
          (rename from to f) (rename-Refines x api laws w.stores f from to h))
  ]

  -- In a browser that works, a batch of deletions on stores that stand for a map of objects succeeds
  -- and removes exactly the paths that it names. The paths are valid UTF-8.
  pub delete_many-Completes :
      (batch : List (Str × Bool)) (w : World b.Env api.Store) (f : Files)
      → AreUtf8 batch
      → Represents etag_by api w.stores f
      → Refines etag_by api
          (λ i. i)
          (with_stores (Ops.delete_many b api x core batch w))
          (done tt (remove batch f))
  unfolding Ops.delete_many remove
  delete_many-Completes [] w f valid h = (refl, record { at_key = h.at_key })
  delete_many-Completes (entry ∷ batch) w f valid h =
      let (t, runs, stands) =
        delete_many_refines api laws etag_by (entry ∷ batch) w.stores f valid h in
      Refines-run b api core working etag_by (λ i. i) read_write
        (delete_many_txn api (entry ∷ batch)) w (done tt (remove (entry ∷ batch) f))
        (rw runs (refl, stands))

  answer-runs :
      {A : Type 0} (mode : Mode) (body : Stores api.Store → Result A) (w : World b.Env api.Store)
      → body w.stores ≡ (run_transaction b api.Store core mode (reading body) w).0
  answer-runs mode body w =
      outcome_of-reading w.stores (body w.stores)
      ∙ ap (λ q. q.0) (run_transaction_runs b api.Store core working mode (reading body) w)

  -- In a browser that works, a read on stores that stand for a map of objects answers from the map, as
  -- the read of its transaction does. The object is to have fewer than 2^32 bytes.
  pub read-Completes :
      (path : Str) (args : ReadArgs) (w : World b.Env api.Store) (f : Files)
      → Represents etag_by api w.stores f
      → stored_size x (f path) < u32_mod
      → Answers x args (f path) ((Ops.read b api x core path args w).0)
  unfolding Ops.read
  read-Completes path args w f h small =
      subst (λ r. Answers x args (f path) r) (answer-runs read_only (read_txn api x path args) w)
        (read_refines x api laws w.stores f path args h small)

  -- In a browser that works, a stat on stores that stand for a map of objects answers with the info of
  -- the map's object, and nothing where there is none.
  pub stat-Completes :
      (path : Str) (w : World b.Env api.Store) (f : Files)
      → Represents etag_by api w.stores f
      → (Ops.stat b api x core path w).0 ≡ ok (Option.map (info etag_by) (f path))
  unfolding Ops.stat
  stat-Completes path w f h =
      sym (answer-runs read_only (λ s. ok (stat_txn api x path s)) w)
      ∙ ap (λ r. ok r) (stat_refines x api laws w.stores f path h)

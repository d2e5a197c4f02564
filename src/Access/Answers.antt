-- ===== src/Access/Answers.antt =====
-- `stat` and `read` of src/backend/access.rs in a browser that works, against the map of objects.
use mathlib.Core.Option
use opendal_indexeddb.Access.{
  IndexeddbBackend, OpStat, OpRead, read_args_of, check_stat, stat, read, no_such_path,
}
use opendal_indexeddb.Base.{
  Str, Bytes, true, false, Option, none, some, ◌<◌, ◌≡◌, refl, [], str_eq, Result, ok, err,
  not_found, condition_not_match, Bool-cases, inl, inr, arith, if◌then◌else◌, subst,
}
use opendal_indexeddb.Base.Exec.{Exec, continue, pure, raise, lift, ◌>>◌}
use opendal_indexeddb.Connection.Open.{Browser, World}
use opendal_indexeddb.Core.Entry.{Metadata, new_metadata, entry_metadata}
use opendal_indexeddb.Core.Ops
use opendal_indexeddb.Core.Read.Refines.{Answers, passes, stored_size, IsRefused}
use opendal_indexeddb.Core.Transaction.Working.{IsWorking}
use opendal_indexeddb.Files.Model.{Object, Files, info}
use opendal_indexeddb.Files.Represents.{Represents}
use opendal_indexeddb.Idb.{StoreApi, IsStore, External, dir}
use opendal_indexeddb.Meta.Check.{check_etag, check_modified, etag_matches}
use opendal_indexeddb.Meta.Payload.{etag_from_bytes, u32_mod}
use opendal_indexeddb.Meta.Records.{EntryInfo, ReadArgs}
use opendal_indexeddb.Meta.Payload.Range.{slice}
use opendal_indexeddb.Service.Completes.{read-Completes, stat-Completes}

-- The conditions of a stat, as those of a read of the whole.
abbrev pub conditions_of : OpStat → ReadArgs
conditions_of args = record {
  if_match = args.if_match;
  if_none_match = args.if_none_match;
  if_modified_since = args.if_modified_since;
  if_unmodified_since = args.if_unmodified_since;
  range = record { offset = 0; size = none };
}

module _ (x : External) (path : Str) where
  abbrev etag_by : Bytes → Str
  etag_by = etag_from_bytes x.hash_hex

  -- What a stat tells of a path: the metadata of its object, `ConditionNotMatch` where a condition on
  -- it does not hold, and `NotFound` where there is none.
  abbrev pub TellsStat : OpStat → Option Object → Result Metadata → Type 0
  TellsStat args none (ok m) = ⊥
  TellsStat args none (err e) = e.kind ≡ not_found
  TellsStat args (some o) (ok m) =
      (passes x (conditions_of args) o ≡ true) × (m ≡ entry_metadata x path (info etag_by o))
  TellsStat args (some o) (err e) =
      (passes x (conditions_of args) o ≡ false) × (e.kind ≡ condition_not_match)

  -- What a read tells of a path, in the same way.
  abbrev pub TellsRead : ReadArgs → Option Object → Result (Metadata × Bytes) → Type 0
  TellsRead args none (ok m) = ⊥
  TellsRead args none (err e) = e.kind ≡ not_found
  TellsRead args (some o) (ok m) =
      (passes x args o ≡ true)
      × (m ≡ (entry_metadata x path (info etag_by o), slice args.range o.bytes))
  TellsRead args (some o) (err e) = (passes x args o ≡ false) × (e.kind ≡ condition_not_match)

module _ (b : Browser) (api : StoreApi) (laws : IsStore api) (x : External)
    (self : IndexeddbBackend) (working : IsWorking b self.core) where
  abbrev W : Type 0
  W = World b.Env api.Store

  abbrev abs : Str → Str
  abs path = x.build_abs_path self.root path

  check_stat-passes :
      (path : Str) (args : OpStat) (o : Object)
      → passes x (conditions_of args) o ≡ true
      → check_stat b api x self path args (info (etag_by x path) o) ≡ ok tt
  unfolding check_stat check_modified check_etag etag_matches
  check_stat-passes path args o h = ground arith

  check_stat-refuses :
      (path : Str) (args : OpStat) (o : Object)
      → passes x (conditions_of args) o ≡ false
      → IsRefused x (check_stat b api x self path args (info (etag_by x path) o))
  unfolding check_stat check_modified check_etag etag_matches
  check_stat-refuses path args o h = ground arith

  -- Behind the call of the core.
  stat_answer : Str → OpStat → Option EntryInfo → Exec W Metadata
  stat_answer path args answer = elim answer [
    | some i ↦ lift (check_stat b api x self path args i) >> pure (entry_metadata x path i)
    | none ↦ raise (no_such_path path)
  ]

  TellsStat-refusal :
      (path : Str) (args : OpStat) (o : Object) (r : Result (Unit {0})) (k : Exec W Metadata)
      (w : W)
      → passes x (conditions_of args) o ≡ false
      → IsRefused x r
      → TellsStat x path args (some o) (((lift r >> k) w).0)
  TellsStat-refusal path args o (ok _) k w h refused = absurd refused
  TellsStat-refusal path args o (err e) k w h refused = (h, refused)

  TellsStat-answer :
      (path : Str) (args : OpStat) (old : Option Object) (w : W)
      → TellsStat x path args old
          ((stat_answer path args (Option.map (info (etag_by x path)) old) w).0)
  unfolding stat_answer
  TellsStat-answer path args none w = refl
  TellsStat-answer path args (some o) w = elim (Bool-cases (passes x (conditions_of args) o)) [
    | inl e ↦ rw (check_stat-passes path args o e) (e, refl)
    | inr e ↦ TellsStat-refusal path args o _ _ w e (check_stat-refuses path args o e)
  ]

  TellsStat-found :
      (path : Str) (args : OpStat) (old : Option Object) (r : Result (Option EntryInfo) × W)
      → r.0 ≡ ok (Option.map (info (etag_by x path)) old)
      → TellsStat x path args old ((continue r (stat_answer path args)).0)
  TellsStat-found path args old (ok answer, w) e =
      let same : Option.map (info (etag_by x path)) old ≡ answer = cc in
      subst (λ a. TellsStat x path args old ((stat_answer path args a w).0)) same
        (TellsStat-answer path args old w)
  TellsStat-found path args old (err e', w) e = cc

  -- In a browser that works, on stores that stand for a map of objects, a stat of a path under the root
  -- answers from the map, conditions included; a stat of the root itself answers with a directory.
  pub stat-TellsStat :
      (path : Str) (args : OpStat) (w : W) (f : Files)
      → Represents (etag_from_bytes x.hash_hex) api w.stores f
      → (if str_eq (abs path) (abs [])
          then (stat b api x self path args w ≡ (ok (new_metadata dir), w))
          else TellsStat x path args (f (abs path)) ((stat b api x self path args w).0))
  unfolding stat stat_answer
  stat-TellsStat path args w f h = elim (Bool-cases (str_eq (abs path) (abs []))) [
    | inl e ↦ rw e refl
    | inr e ↦ rw e (
        TellsStat-found path args (f (abs path)) (Ops.stat b api x self.core (abs path) w)
          (stat-Completes b api laws x self.core working (abs path) w f h))
  ]

  read_answer : Str → Option (EntryInfo × Bytes) → Exec W (Metadata × Bytes)
  read_answer path answer = elim answer [
    | none ↦ raise (no_such_path path)
    | some (i, bs) ↦ pure (entry_metadata x path i, bs)
  ]

  TellsRead-answer :
      (path : Str) (args : ReadArgs) (old : Option Object)
      (r : Result (Option (EntryInfo × Bytes)) × W)
      → Answers x args old r.0
      → TellsRead x path args old ((continue r (read_answer path)).0)
  unfolding read_answer
  TellsRead-answer path args none (ok none, w) h = refl
  TellsRead-answer path args none (ok (some found), w) h = cc
  TellsRead-answer path args none (err e, w) h = cc
  TellsRead-answer path args (some o) (ok none, w) (e, h) = cc
  TellsRead-answer path args (some o) (ok (some (i, bs)), w) (e, h) = (e, cc)
  TellsRead-answer path args (some o) (err e, w) h = h

  -- In a browser that works, on stores that stand for a map of objects, a read of a path under the root
  -- answers from the map: with the metadata and the bytes of the range, or the error that the conditions
  -- or a missing object call for. The object is to have fewer than 2^32 bytes.
  pub read-TellsRead :
      (path : Str) (args : OpRead) (w : W) (f : Files)
      → Represents (etag_from_bytes x.hash_hex) api w.stores f
      → stored_size x (f (abs path)) < u32_mod
      → TellsRead x path (read_args_of args) (f (abs path)) ((read b api x self path args w).0)
  unfolding read read_answer
  read-TellsRead path args w f h small =
      TellsRead-answer path (read_args_of args) (f (abs path))
        (Ops.read b api x self.core (abs path) (read_args_of args) w)
        (read-Completes b api laws x self.core working (abs path) (read_args_of args) w f h small)

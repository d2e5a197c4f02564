-- ===== src/Access/Roundtrip.antt =====
-- What a client reads back through src/backend/access.rs after a write, a copy or a rename.
use opendal_indexeddb.Access.{
  IndexeddbBackend, OpRead, OpWrite, OpCopy, read_args_of, write_args_of, read, write, copy, rename,
}
use opendal_indexeddb.Access.Answers.{TellsRead, read-TellsRead}
use opendal_indexeddb.Base.{
  Str, Bytes, Bool, true, false, not, ◌&&◌, Option, none, some, ℕ, ◌<◌, ◌≡◌, sym, ap, ◌∙◌, List,
  length, str_eq, is_some, Result, ok, err, subst,
}
use opendal_indexeddb.Base.Exec.{Exec, ◌>>=◌, ◌>>◌}
use opendal_indexeddb.Connection.Open.{Browser, World}
use opendal_indexeddb.Core.Entry.{Metadata, entry_metadata}
use opendal_indexeddb.Core.Ops
use opendal_indexeddb.Core.Read.Refines.{stored_size}
use opendal_indexeddb.Core.Transaction.Working.{IsWorking}
use opendal_indexeddb.Files.Model
use opendal_indexeddb.Files.Model.{
  Object, Files, Outcome, done, info, update, permits, written, wanted, etag,
}
use opendal_indexeddb.Files.Writes.{write-done, update-same}
use opendal_indexeddb.Files.Represents.{Represents, Refines}
use opendal_indexeddb.Idb.{StoreApi, IsStore, External}
use opendal_indexeddb.Io.{QueueBuf, writer_close, new_writer}
use opendal_indexeddb.Io.Writes.{IsQueue, joined, write_all, writer_close-Completes}
use opendal_indexeddb.Meta.Payload.{etag_from_bytes, u32_mod}
use opendal_indexeddb.Meta.Payload.Range.{slice}
use opendal_indexeddb.Meta.Records.{ReadRange}
use opendal_indexeddb.Service.{copy_distinct, rename_distinct}
use opendal_indexeddb.Service.Completes.{with_stores, copy-Completes, rename-Completes}

-- A read without conditions.
abbrev pub plain_read : ReadRange → OpRead
plain_read range = record {
  if_match = none;
  if_none_match = none;
  if_modified_since = none;
  if_unmodified_since = none;
  offset = range.offset;
  size = range.size;
}

copy-done :
    (etag_of : Bytes → Str) (from to : Str) (if_not_exists : Bool) (if_match : Option Str) (now : ℕ)
    (f : Files) (o : Object)
    → str_eq from to ≡ false
    → f from ≡ some o
    → not (if_not_exists && is_some (f to)) && wanted if_match (etag etag_of (f to)) ≡ true
    → (let new : Object = record o { modified = some now } in
        copy_distinct etag_of from to if_not_exists if_match now f
        ≡ done (info etag_of new) (update f to (some new)))
unfolding Model.copy
copy-done etag_of from to if_not_exists if_match now f o apart here allowed =
    rw apart (simp (Model.copy, here, allowed))

rename-done :
    (from to : Str) (f : Files) (o : Object)
    → str_eq from to ≡ false
    → f from ≡ some o
    → rename_distinct from to f ≡ done tt (update (update f to (some o)) from none)
unfolding Model.rename
rename-done from to f o apart here = rw apart (simp (Model.rename, here))

module _ {E A B : Type 0} (etag_of : Bytes → Str) (api : StoreApi) (answer : B → A) where
  -- A call that did what the map's operation does.
  finished :
      (r : Result A × World E api.Store) (c : B) (f : Files)
      → Refines etag_of api answer (with_stores r) (done c f)
      → (w : World E api.Store) × (r ≡ (ok (answer c), w)) × Represents etag_of api w.stores f
  finished (ok a, w) c f (e, h) = (w, ap (λ a'. (ok a', w)) e, h)
  finished (err e, w) c f h = absurd h

module _ (b : Browser) (api : StoreApi) (laws : IsStore api) (x : External)
    (self : IndexeddbBackend) (working : IsWorking b self.core) where
  abbrev W : Type 0
  W = World b.Env api.Store

  abbrev abs : Str → Str
  abs path = x.build_abs_path self.root path

  abbrev etag_by : Bytes → Str
  etag_by = etag_from_bytes x.hash_hex

  -- What a plain read answers of an object.
  abbrev pub read_back : Str → ReadRange → Object → Result (Metadata × Bytes)
  read_back path range o = ok (entry_metadata x path (info etag_by o), slice range o.bytes)

  TellsRead-plain :
      (path : Str) (range : ReadRange) (o : Object) (old : Option Object)
      (r : Result (Metadata × Bytes))
      → old ≡ some o
      → TellsRead x path (read_args_of (plain_read range)) old r
      → r ≡ read_back path range o
  unfolding read_args_of
  TellsRead-plain path range o (some p) (ok m) e (h, same) =
      let one : p ≡ o = cc in
      ap ok (same ∙ ap (λ o'. (entry_metadata x path (info etag_by o'), slice range o'.bytes)) one)
  TellsRead-plain path range o (some p) (err e) e' (h, k) = cc
  TellsRead-plain path range o none r e h = cc

  read-object :
      (path : Str) (range : ReadRange) (o : Object) (f : Files) (w : W)
      → f (abs path) ≡ some o
      → length o.bytes < u32_mod
      → Represents etag_by api w.stores f
      → (read b api x self path (plain_read range) w).0 ≡ read_back path range o
  read-object path range o f w e small h = TellsRead-plain path range o (f (abs path)) _ e (
      read-TellsRead b api laws x self working path (plain_read range) w f h
        (subst (λ old. stored_size x old < u32_mod) (sym e) small))

  -- A read behind a call that did what the map's operation does.
  read_behind :
      {A B : Type 0} (answer : B → A) (m : Exec W A) (w : W) (c : B) (f : Files) (path : Str)
      (range : ReadRange) (o : Object)
      → Refines etag_by api answer (with_stores (m w)) (done c f)
      → f (abs path) ≡ some o
      → length o.bytes < u32_mod
      → ((m >>= λ _. read b api x self path (plain_read range)) w).0 ≡ read_back path range o
  read_behind answer m w c f path range o refines e small =
      let (w', runs, h) = finished etag_by api answer (m w) c f refines in
      rw runs (read-object path range o f w' e small h)

  -- A writer of the service that is given chunks and closed, and then a read of the path.
  unfoldable pub write_read :
      (q : QueueBuf) → Str → OpWrite → List Bytes → ReadRange → Exec W (Metadata × Bytes)
  write_read q path args chunks range = do
    _ ← writer_close q b api x (write_all q chunks (write b api x self q path args))
    read b api x self path (plain_read range)

  -- The object that the write makes of the old one.
  abbrev pub new_object : Str → OpWrite → List Bytes → W → Files → Object
  new_object path args chunks w f =
      written (etag_from_bytes x.hash_hex) (joined chunks) (write_args_of args) (b.now w.env).0
        (f (abs path))

  -- In a browser that works, on stores that stand for a map of objects, a read without conditions of a
  -- path to which a writer was given chunks and closed, where the conditions of the write hold, answers
  -- with the metadata that was asked for and with the range of what was written: all chunks in order,
  -- behind the old bytes where the write appends. The object is to have fewer than 2^32 bytes.
  pub write_read-roundtrip :
      (q : QueueBuf) (path : Str) (args : OpWrite) (chunks : List Bytes) (range : ReadRange) (w : W)
      (f : Files)
      → IsQueue q
      → Represents (etag_from_bytes x.hash_hex) api w.stores f
      → permits (etag_from_bytes x.hash_hex) (write_args_of args) (f (abs path)) ≡ true
      → length (new_object path args chunks w f).bytes < u32_mod
      → (write_read q path args chunks range w).0
        ≡ read_back path range (new_object path args chunks w f)
  unfolding write_read write
  write_read-roundtrip q path args chunks range w f queue h allowed small =
      let new = new_object path args chunks w f in
      read_behind (λ i. entry_metadata x (abs path) i)
        (writer_close q b api x
          (write_all q chunks (new_writer q self.core (abs path) (write_args_of args))))
        w (info etag_by new) (update f (abs path) (some new)) path range new
        (subst
          (λ o.
            Refines etag_by api (λ i. entry_metadata x (abs path) i)
              (with_stores (
                writer_close q b api x
                  (write_all q chunks (new_writer q self.core (abs path) (write_args_of args))) w))
              o)
          (write-done etag_by (abs path) (joined chunks) (write_args_of args) (b.now w.env).0 f
            allowed)
          (writer_close-Completes b api laws x q self.core (abs path) (write_args_of args) chunks w
            f working queue h))
        (update-same f (abs path) (some new)) small

  -- In a browser that works, on stores that stand for a map of objects, a read without conditions of the
  -- target of a copy answers with the bytes of the source, and with its metadata at the time of the copy.
  -- The two paths differ, the target meets the conditions of the copy, and the object has fewer than
  -- 2^32 bytes.
  pub copy-read :
      (from to : Str) (args : OpCopy) (range : ReadRange) (w : W) (f : Files) (o : Object)
      → Represents (etag_from_bytes x.hash_hex) api w.stores f
      → str_eq (abs from) (abs to) ≡ false
      → f (abs from) ≡ some o
      → not (args.if_not_exists && is_some (f (abs to)))
          && wanted args.if_match (etag (etag_from_bytes x.hash_hex) (f (abs to)))
        ≡ true
      → length o.bytes < u32_mod
      → ((copy b api x self from to args >>= λ _. read b api x self to (plain_read range)) w).0
        ≡ read_back to range (record o { modified = some (b.now w.env).0 })
  unfolding copy
  copy-read from to args range w f o h apart here allowed small =
      let new : Object = record o { modified = some (b.now w.env).0 } in
      read_behind (λ i. entry_metadata x (abs to) i)
        (Ops.copy b api x self.core (abs from) (abs to) args.if_not_exists args.if_match) w
        (info etag_by new) (update f (abs to) (some new)) to range new
        (subst
          (Refines etag_by api (λ i. entry_metadata x (abs to) i)
            (with_stores
              (Ops.copy b api x self.core (abs from) (abs to) args.if_not_exists args.if_match w)))
          (copy-done etag_by (abs from) (abs to) args.if_not_exists args.if_match (b.now w.env).0 f
            o apart here allowed)
          (copy-Completes b api laws x self.core working (abs from) (abs to) args.if_not_exists
            args.if_match w f h))
        (update-same f (abs to) (some new)) small

  -- In a browser that works, on stores that stand for a map of objects, a read without conditions of the
  -- new path of a rename answers with the object as it was, its modification time included. The two
  -- paths differ, and the object has fewer than 2^32 bytes.
  pub rename-read :
      (from to : Str) (range : ReadRange) (w : W) (f : Files) (o : Object)
      → Represents (etag_from_bytes x.hash_hex) api w.stores f
      → str_eq (abs from) (abs to) ≡ false
      → f (abs from) ≡ some o
      → length o.bytes < u32_mod
      → ((rename b api x self from to >> read b api x self to (plain_read range)) w).0
        ≡ read_back to range o
  unfolding rename
  rename-read from to range w f o h apart here small =
      read_behind (λ i. i) (Ops.rename b api x self.core (abs from) (abs to)) w tt
        (update (update f (abs to) (some o)) (abs from) none) to range o
        (subst
          (Refines etag_by api (λ i. i)
            (with_stores (Ops.rename b api x self.core (abs from) (abs to) w)))
          (rename-done (abs from) (abs to) f o apart here)
          (rename-Completes b api laws x self.core working (abs from) (abs to) w f h))
        (rw apart (update-same f (abs to) (some o))) small

-- ===== src/Io/Writes.antt =====
-- A writer over its life: chunks are written, and the writer is closed.
use opendal_indexeddb.Base.{
  Str, Bytes, List, [], ◌∷◌, ◌++◌, ◌≡◌, refl, sym, ap, ◌∙◌, Result, ok, err,
}
use opendal_indexeddb.Base.Exec.{continue, pure}
use opendal_indexeddb.Connection.Open.{Browser, IndexeddbCore, World}
use opendal_indexeddb.Core.Entry.{entry_metadata}
use opendal_indexeddb.Core.Ops
use opendal_indexeddb.Core.Transaction.Working.{IsWorking}
use opendal_indexeddb.Files.Model.{Files, Outcome, done, refused, write}
use opendal_indexeddb.Files.Represents.{Represents, Refines}
use opendal_indexeddb.Idb.{StoreApi, IsStore, External}
use opendal_indexeddb.Io.{
  QueueBuf, IndexeddbWriter, new_writer, writer_write, writer_abort, writer_close,
}
use opendal_indexeddb.Meta.Payload.{etag_from_bytes}
use opendal_indexeddb.Meta.Records.{WriteArgs}
use opendal_indexeddb.Service.Completes.{with_stores, set-Completes}
use mathlib.Core.List.{append-nil, append_assoc}

-- What a `QueueBuf` collects is what was pushed, in order.
pub record IsQueue (q : QueueBuf) : Type 0 where
  pub collect-empty : q.collect q.empty ≡ []
  pub collect-push :
      (buffer : q.Queue) (bs : Bytes) → q.collect (q.push buffer bs) ≡ q.collect buffer ++ bs

abbrev pub joined : List Bytes → Bytes
joined [] = []
joined (bs ∷ chunks) = bs ++ joined chunks

-- The calls of `write` for the chunks of a stream.
abbrev pub write_all :
    (q : QueueBuf) → List Bytes → IndexeddbWriter q.Queue → IndexeddbWriter q.Queue
write_all q [] self = self
write_all q (bs ∷ chunks) self = write_all q chunks (writer_write q self bs)

module _ (q : QueueBuf) where
  -- Only the buffer changes.
  write_all-eq :
      (chunks : List Bytes) (self : IndexeddbWriter q.Queue)
      → write_all q chunks self ≡ record self { buffer = (write_all q chunks self).buffer }
  unfolding writer_write
  write_all-eq [] self = refl
  write_all-eq (bs ∷ chunks) self =
      write_all-eq chunks (record self { buffer = q.push self.buffer bs })

  collect-write_all :
      (chunks : List Bytes) (self : IndexeddbWriter q.Queue)
      → IsQueue q
      → q.collect (write_all q chunks self).buffer ≡ q.collect self.buffer ++ joined chunks
  unfolding writer_write
  collect-write_all [] self queue = sym (append-nil (q.collect self.buffer))
  collect-write_all (bs ∷ chunks) self queue =
      collect-write_all chunks (record self { buffer = q.push self.buffer bs }) queue
      ∙ ap (λ s. s ++ joined chunks) (queue.collect-push self.buffer bs)
      ∙ append_assoc (q.collect self.buffer) bs (joined chunks)

Refines-answer :
    {E B C : Type 0} (etag_of : Bytes → Str) (api : StoreApi) (g : B → C)
    (r : Result B × World E api.Store) (o : Outcome B)
    → Refines etag_of api (λ i. i) (with_stores r) o
    → Refines etag_of api g (with_stores (continue r (λ a. pure (g a)))) o
Refines-answer etag_of api g (ok a, w) (done c f) (e, h) = (ap g e, h)
Refines-answer etag_of api g (ok a, w) (refused kind) h = h
Refines-answer etag_of api g (err e, w) (done c f) h = h
Refines-answer etag_of api g (err e, w) (refused kind) h = h

-- A writer that was aborted is as new: what it was given is gone.
pub writer_abort-write_all :
    (q : QueueBuf) (core : IndexeddbCore) (path : Str) (args : WriteArgs) (chunks : List Bytes)
    → writer_abort q (write_all q chunks (new_writer q core path args))
      ≡ new_writer q core path args
unfolding writer_abort new_writer
writer_abort-write_all q core path args chunks =
    ap {A = IndexeddbWriter q.Queue} (λ self. record self { buffer = q.empty })
      (write_all-eq q chunks (new_writer q core path args))

-- In a browser that works, a writer that is given chunks and closed does on stores that stand for a map
-- of objects what the map's `write` does with all the chunks at once, at the time of the close.
pub writer_close-Completes :
    (b : Browser) (api : StoreApi) (laws : IsStore api) (x : External) (q : QueueBuf)
    (core : IndexeddbCore) (path : Str) (args : WriteArgs) (chunks : List Bytes)
    (w : World b.Env api.Store) (f : Files)
    → IsWorking b core
    → IsQueue q
    → Represents (etag_from_bytes x.hash_hex) api w.stores f
    → Refines
        (etag_from_bytes x.hash_hex)
        api
        (λ i. entry_metadata x path i)
        (with_stores (writer_close q b api x (write_all q chunks (new_writer q core path args)) w))
        (write (etag_from_bytes x.hash_hex) path (joined chunks) args (b.now w.env).0 f)
unfolding writer_close new_writer
writer_close-Completes b api laws x q core path args chunks w f working queue h =
    let start = new_writer q core path args in
    let all : q.collect (write_all q chunks start).buffer ≡ joined chunks =
      collect-write_all q chunks start queue ∙ ap (λ s. s ++ joined chunks) queue.collect-empty in
    rw (write_all-eq q chunks start, all)
      (Refines-answer (etag_from_bytes x.hash_hex) api (λ i. entry_metadata x path i)
        (Ops.set b api x core path (joined chunks) args w)
        (write (etag_from_bytes x.hash_hex) path (joined chunks) args (b.now w.env).0 f)
        (set-Completes b api laws x core working path (joined chunks) args w f h))

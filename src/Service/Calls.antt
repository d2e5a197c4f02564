-- ===== src/Service/Calls.antt =====
-- Sequences of calls of the methods `set`, `copy`, `rename`, `delete_many`, `read` and `stat` of
-- src/backend/core.rs, and what the map of objects answers to them.
use mathlib.Core.Option
use opendal_indexeddb.Base.{
  Str, Bytes, Bool, Option, none, some, ℕ, List, [], ◌∷◌, Result, ok, err, ErrorKind,
  condition_not_match, if◌then◌else◌,
}
use opendal_indexeddb.Core.Read.Refines.{passes}
use opendal_indexeddb.Meta.Payload.Range.{slice}
use opendal_indexeddb.Connection.Open.{Browser, IndexeddbCore, World}
use opendal_indexeddb.Core.Entry.{Metadata, entry_metadata}
use opendal_indexeddb.Core.Ops
use opendal_indexeddb.Files.Model.{Object, Files, Outcome, done, refused, info, write, remove}
use opendal_indexeddb.Idb.{StoreApi, External}
use opendal_indexeddb.Meta.Payload.{etag_from_bytes}
use opendal_indexeddb.Meta.Records.{EntryInfo, ReadArgs, WriteArgs}
use opendal_indexeddb.Service.{copy_distinct, rename_distinct}

pub data Call : Type 0 where
  set_call : Str → Bytes → WriteArgs → Call
  copy_call : Str → Str → Bool → Option Str → Call
  rename_call : Str → Str → Call
  delete_call : List (Str × Bool) → Call
  read_call : Str → ReadArgs → Call
  stat_call : Str → Call

-- What a client learns.
pub data Reply : Type 0 where
  wrote : EntryInfo → Reply
  copied : Metadata → Reply
  finished : Reply
  gave : Option (EntryInfo × Bytes) → Reply
  told : Option EntryInfo → Reply
  failed : ErrorKind → Reply

module _ (x : External) where
  abbrev pub replied : {B : Type 0} → (B → Reply) → Outcome B → Files → Reply × Files
  replied reply (done c f') f = (reply c, f')
  replied reply (refused kind) f = (failed kind, f)

  abbrev pub read_reply : ReadArgs → Option Object → Reply
  read_reply args none = gave none
  read_reply args (some o) =
      if passes x args o
      then gave (some (info (etag_from_bytes x.hash_hex) o, slice args.range o.bytes))
      else failed condition_not_match

  unfoldable pub promised : Call → ℕ → Files → Reply × Files
  promised (set_call path value args) now f =
      replied wrote (write (etag_from_bytes x.hash_hex) path value args now f) f
  promised (copy_call from to if_not_exists if_match) now f =
      replied (λ i. copied (entry_metadata x to i))
        (copy_distinct (etag_from_bytes x.hash_hex) from to if_not_exists if_match now f) f
  promised (rename_call from to) now f = replied (λ _. finished) (rename_distinct from to f) f
  promised (delete_call batch) now f = (finished, remove batch f)
  promised (read_call path args) now f = (read_reply args (f path), f)
  promised (stat_call path) now f =
      (told (Option.map (info (etag_from_bytes x.hash_hex)) (f path)), f)

  -- Calls, each with the time at which it is made.
  unfoldable pub promised_all : List (ℕ × Call) → Files → List Reply × Files
  promised_all [] f = ([], f)
  promised_all ((now, call) ∷ calls) f =
      let (reply, f') = promised call now f in
      let (replies, f'') = promised_all calls f' in (reply ∷ replies, f'')

abbrev pub reply_of : {A W : Type 0} → (A → Reply) → Result A × W → Reply × W
reply_of reply (ok a, w) = (reply a, w)
reply_of reply (err e, w) = (failed e.kind, w)

module _ (b : Browser) (api : StoreApi) (x : External) (core : IndexeddbCore) where
  abbrev pub W : Type 0
  W = World b.Env api.Store

  unfoldable pub perform : Call → W → Reply × W
  perform (set_call path value args) w = reply_of wrote (Ops.set b api x core path value args w)
  perform (copy_call from to if_not_exists if_match) w =
      reply_of copied (Ops.copy b api x core from to if_not_exists if_match w)
  perform (rename_call from to) w = reply_of (λ _. finished) (Ops.rename b api x core from to w)
  perform (delete_call batch) w = reply_of (λ _. finished) (Ops.delete_many b api x core batch w)
  perform (read_call path args) w = reply_of gave (Ops.read b api x core path args w)
  perform (stat_call path) w = reply_of told (Ops.stat b api x core path w)

  unfoldable pub perform_all : List Call → W → List Reply × W
  perform_all [] w = ([], w)
  perform_all (call ∷ calls) w =
      let (reply, w') = perform call w in
      let (replies, w'') = perform_all calls w' in (reply ∷ replies, w'')

  -- The time at which each of the calls is made.
  unfoldable pub dated : List Call → W → List (ℕ × Call)
  dated [] w = []
  dated (call ∷ calls) w = ((b.now w.env).0, call) ∷ dated calls (perform call w).1

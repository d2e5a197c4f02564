-- ===== src/Service/Sequences.antt =====
-- Calls one behind the other do what the map of objects promises: each sees what the calls before it left.
use mathlib.Core.Option
use opendal_indexeddb.Base.{
  Str, Bytes, Option, none, some, ℕ, ◌<◌, ◌≡◌, refl, ap, ◌∙◌, sym, subst, List, [], ◌∷◌, Result, ok,
  err,
}
use opendal_indexeddb.Connection.Open.{Browser, IndexeddbCore, World}
use opendal_indexeddb.Core.Entry.{entry_metadata}
use opendal_indexeddb.Core.Ops
use opendal_indexeddb.Core.Ops.{reading, with_state}
use opendal_indexeddb.Core.Read.{read_txn, stat_txn}
use opendal_indexeddb.Core.Read.Refines.{Answers, stored_size, stat_refines}
use opendal_indexeddb.Core.Remove.Refines.{AreUtf8}
use opendal_indexeddb.Core.Transaction.{read_only, run_transaction}
use opendal_indexeddb.Core.Transaction.Attempts.{outcome_of}
use opendal_indexeddb.Core.Transaction.Runs.{run_transaction_runs}
use opendal_indexeddb.Core.Transaction.Working.{IsWorking}
use opendal_indexeddb.Files.Model.{Files, Object, Outcome, done, refused, info, remove}
use opendal_indexeddb.Files.Represents.{Represents, Refines}
use opendal_indexeddb.Idb.{StoreApi, IsStore, Stores, External}
use opendal_indexeddb.Meta.Payload.{etag_from_bytes, u32_mod}
use opendal_indexeddb.Service.{Serves, set-Serves, copy-Serves, rename-Serves, delete_many-Serves}
use opendal_indexeddb.Service.Calls.{
  Call, set_call, copy_call, rename_call, delete_call, read_call, stat_call, Reply, wrote, copied,
  finished, gave, told, failed, replied, read_reply, promised, promised_all, reply_of, perform,
  perform_all, dated,
}
use opendal_indexeddb.Meta.Records.{EntryInfo, ReadArgs}
use opendal_indexeddb.Service.Completes.{
  with_stores, set-Completes, copy-Completes, rename-Completes, delete_many-Completes,
  read-Completes,
}

-- The paths of a batch of deletions are texts.
abbrev pub IsText : Call → Type 0
IsText (delete_call batch) = AreUtf8 batch
IsText _ = Unit

abbrev pub AreTexts : List Call → Type 0
AreTexts [] = Unit
AreTexts (call ∷ calls) = IsText call × AreTexts calls

-- Where the map is when a call is made, the object that it reads has fewer than 2^32 bytes.
abbrev pub IsSmall : External → Call → Files → Type 0
IsSmall x (read_call path args) f = stored_size x (f path) < u32_mod
IsSmall x _ f = Unit

abbrev pub AreSmall : External → List (ℕ × Call) → Files → Type 0
AreSmall x [] f = Unit
AreSmall x ((now, call) ∷ calls) f = IsSmall x call f × AreSmall x calls (promised x call now f).1

-- The reply to a read is the map's, as far as the read answers from the map.
pub Answers-reply :
    {W : Type 0} (x : External) (args : ReadArgs) (old : Option Object)
    (r : Result (Option (EntryInfo × Bytes)) × W)
    → Answers x args old r.0
    → (reply_of gave r).0 ≡ read_reply x args old
Answers-reply x args none (ok a, w) h = let same : a ≡ none = cc in ap gave same
Answers-reply x args none (err e, w) h = cc
Answers-reply x args (some o) (ok found, w) (p, e) = rw (p, e) refl
Answers-reply x args (some o) (err e, w) (p, k) = rw (p, k) refl

outcome_of-kept :
    {A S : Type 0} (s : Stores S) (r : Result A) → (outcome_of s (with_state r s)).1 ≡ s
outcome_of-kept s (ok a) = refl
outcome_of-kept s (err e) = refl

module _ (b : Browser) (api : StoreApi) (laws : IsStore api) (x : External) (core : IndexeddbCore)
    (working : IsWorking b core) where
  abbrev W : Type 0
  W = World b.Env api.Store

  abbrev etag_by : Bytes → Str
  etag_by = etag_from_bytes x.hash_hex

  -- The reply is the map's, and the stores stand for the map that the call leaves.
  abbrev Agrees : Reply × W → Reply × Files → Type 0
  Agrees (reply, w) (promise, f) = (reply ≡ promise) × Represents etag_by api w.stores f

  replied-Agrees :
      {A B : Type 0} (answer : B → A) (reply : A → Reply) (w : W) (f : Files) (o : Outcome B)
      (r : Result A × W)
      → Represents etag_by api w.stores f
      → Refines etag_by api answer (with_stores r) o
      → Serves b api etag_by answer w o r
      → Agrees (reply_of reply r) (replied x (λ c. reply (answer c)) o f)
  replied-Agrees answer reply w f (done c f') (ok a, w') h (e, stands) serves = (ap reply e, stands)
  replied-Agrees answer reply w f (refused kind) (ok a, w') h refines serves = absurd refines
  replied-Agrees answer reply w f (done c f') (err e, w') h refines serves = absurd refines
  replied-Agrees answer reply w f (refused kind) (err e, w') h same (kept, _) =
      (ap failed same, subst (λ s. Represents etag_by api s f) (sym kept) h)

  -- A stat leaves the stores alone.
  stat-Agrees :
      (path : Str) (w : W) (f : Files)
      → Represents etag_by api w.stores f
      → Agrees
          (perform b api x core (stat_call path) w)
          (promised x (stat_call path) (b.now w.env).0 f)
  unfolding perform promised Ops.stat
  stat-Agrees path w f h =
      go (run_transaction b api.Store core read_only (reading (λ s. ok (stat_txn api x path s))) w)
        (run_transaction_runs b api.Store core working read_only
          (reading (λ s. ok (stat_txn api x path s))) w)
    where
      go :
          (r : Result (Option EntryInfo) × W)
          → ◌≡◌ {A = Result (Option EntryInfo) × Stores api.Store}
              (ok (stat_txn api x path w.stores), w.stores)
              (r.0, r.1.stores)
          → Agrees (reply_of told r) (told (Option.map (info etag_by) (f path)), f)
      go (ok a, w') e = (
        ap told (
            let same : stat_txn api x path w.stores ≡ a = cc in
            sym same ∙ stat_refines x api laws w.stores f path h),
        subst (λ s. Represents etag_by api s f) (ap (λ q. q.1) e) h,
      )
      go (err error, w') e = absurd (cc (ap (λ q. q.0) e))

  read-Agrees :
      (path : Str) (args : ReadArgs) (w : W) (f : Files)
      → stored_size x (f path) < u32_mod
      → Represents etag_by api w.stores f
      → Agrees
          (perform b api x core (read_call path args) w)
          (promised x (read_call path args) (b.now w.env).0 f)
  unfolding perform promised Ops.read
  read-Agrees path args w f small h =
      go (Ops.read b api x core path args w)
        (read-Completes b api laws x core working path args w f h small)
        (run_transaction_runs b api.Store core working read_only
          (reading (read_txn api x path args)) w)
    where
      kept :
          {q : Result (Option (EntryInfo × Bytes)) × Stores api.Store}
          → outcome_of w.stores (with_state (read_txn api x path args w.stores) w.stores) ≡ q
          → w.stores ≡ q.1
      kept e = sym (outcome_of-kept w.stores (read_txn api x path args w.stores)) ∙ ap (λ q. q.1) e

      go :
          (r : Result (Option (EntryInfo × Bytes)) × W)
          → Answers x args (f path) r.0
          → outcome_of w.stores (with_state (read_txn api x path args w.stores) w.stores)
            ≡ (r.0, r.1.stores)
          → Agrees (reply_of gave r) (read_reply x args (f path), f)
      go (ok a, w') answers e = (
        Answers-reply x args (f path) (ok a, w') answers,
        subst (λ s. Represents etag_by api s f) (kept e) h,
      )
      go (err error, w') answers e = (
        Answers-reply x args (f path) (err error, w') answers,
        subst (λ s. Represents etag_by api s f) (kept e) h,
      )

  perform-Agrees :
      (call : Call) (w : W) (f : Files)
      → IsText call
      → IsSmall x call f
      → Represents etag_by api w.stores f
      → Agrees (perform b api x core call w) (promised x call (b.now w.env).0 f)
  unfolding perform promised
  perform-Agrees (set_call path value args) w f text small h =
      replied-Agrees (λ i. i) wrote w f _ (Ops.set b api x core path value args w) h
        (set-Completes b api laws x core working path value args w f h)
        (set-Serves b api laws x core path value args w f h)
  perform-Agrees (copy_call from to if_not_exists if_match) w f text small h =
      replied-Agrees (λ i. entry_metadata x to i) copied w f _
        (Ops.copy b api x core from to if_not_exists if_match w) h
        (copy-Completes b api laws x core working from to if_not_exists if_match w f h)
        (copy-Serves b api laws x core from to if_not_exists if_match w f h)
  perform-Agrees (rename_call from to) w f text small h =
      replied-Agrees (λ i. i) (λ _. finished) w f _ (Ops.rename b api x core from to w) h
        (rename-Completes b api laws x core working from to w f h)
        (rename-Serves b api laws x core from to w f h)
  perform-Agrees (delete_call batch) w f text small h =
      replied-Agrees (λ i. i) (λ _. finished) w f (done tt (remove batch f))
        (Ops.delete_many b api x core batch w) h
        (delete_many-Completes b api laws x core working batch w f text h)
        (delete_many-Serves b api laws x core batch w f text h)
  perform-Agrees (read_call path args) w f text small h = read-Agrees path args w f small h
  perform-Agrees (stat_call path) w f text small h = stat-Agrees path w f h

  -- In a browser that works, for any sequence of calls of `set`, `copy`, `rename`, `delete_many`,
  -- `read` and `stat` of one core, one behind the other, on stores that stand for a map of objects: the
  -- replies are those of the map's operations in that order, at the times of the calls, each on the map
  -- that the ones before it left, and the stores then stand for the last map. A call that fails changes
  -- nothing. The paths of deletions are valid UTF-8, and an object has fewer than 2^32 bytes when it is
  -- read. Calls of `scan_page` are not in the sequence.
  pub perform_all-Agrees :
      (calls : List Call) (w : World b.Env api.Store) (f : Files)
      → AreTexts calls
      → AreSmall x (dated b api x core calls w) f
      → Represents (etag_from_bytes x.hash_hex) api w.stores f
      → ((perform_all b api x core calls w).0 ≡ (promised_all x (dated b api x core calls w) f).0)
        × Represents
            (etag_from_bytes x.hash_hex)
            api
            (perform_all b api x core calls w).1.stores
            (promised_all x (dated b api x core calls w) f).1
  unfolding perform_all promised_all dated
  perform_all-Agrees [] w f texts small h = (refl, h)
  perform_all-Agrees (call ∷ calls) w f (text, texts) (small, smalls) h =
      let (same, stands) = perform-Agrees call w f text small h in
      let promise = promised x call (b.now w.env).0 f in
      let rest =
        perform_all-Agrees calls (perform b api x core call w).1 promise.1 texts smalls stands in
      let (equal, last) = rest in (cc (same, equal), last)

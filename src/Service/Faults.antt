-- ===== src/Service/Faults.antt =====
-- Calls one behind the other in a browser whose transactions fail, with errors that the crate sees.
use mathlib.Core.Option
use opendal_indexeddb.Base.{
  Str, Bytes, Option, ◌≡◌, ap, ◌∙◌, sym, subst, List, [], ◌∷◌, ◌⊎◌, inl, inr, Result, ok, err,
  unexpected, ◌<◌,
}
use opendal_indexeddb.Connection.Open.{Browser, IndexeddbCore, World}
use opendal_indexeddb.Core.Entry.{entry_metadata}
use opendal_indexeddb.Core.Ops
use opendal_indexeddb.Core.Ops.{reading, with_state}
use opendal_indexeddb.Core.Read.{read_txn, stat_txn}
use opendal_indexeddb.Core.Read.Refines.{Answers, stored_size, read_refines, stat_refines}
use opendal_indexeddb.Core.Transaction.{read_only, run_transaction}
use opendal_indexeddb.Core.Transaction.Atomic.{Atomic, run_transaction-Atomic}
use opendal_indexeddb.Files.Model.{Files, Outcome, done, refused, info, remove}
use opendal_indexeddb.Files.Represents.{Represents}
use opendal_indexeddb.Idb.{StoreApi, IsStore, Stores, External}
use opendal_indexeddb.Meta.Payload.{etag_from_bytes, u32_mod}
use opendal_indexeddb.Meta.Records.{EntryInfo, ReadArgs}
use opendal_indexeddb.Service.{Serves, set-Serves, copy-Serves, rename-Serves, delete_many-Serves}
use opendal_indexeddb.Service.Calls.{
  Call, set_call, copy_call, rename_call, delete_call, read_call, stat_call, Reply, wrote, copied,
  finished, gave, told, failed, replied, read_reply, promised, reply_of, perform, perform_all,
  dated,
}
use opendal_indexeddb.Service.Obedience.{
  IsLarge, IsSmall-or-IsLarge, Obeys, nothing, served, broken, oversized, with_state-ok,
  with_state-err,
}
use opendal_indexeddb.Service.Sequences.{IsText, AreTexts, IsSmall, Answers-reply}

module _ (b : Browser) (api : StoreApi) (laws : IsStore api) (x : External)
    (core : IndexeddbCore) where
  abbrev W : Type 0
  W = World b.Env api.Store

  abbrev etag_by : Bytes → Str
  etag_by = etag_from_bytes x.hash_hex

  -- One call: the map's reply, or a failure that changed nothing.
  abbrev Obeyed : W → Files → Reply × W → Reply × Files → Type 0
  Obeyed w f (reply, w') (promise, g) =
      ((reply ≡ promise) × Represents etag_by api w'.stores g)
      ⊎ ((reply ≡ failed unexpected) × Represents etag_by api w'.stores f)

  still :
      (w w' : W) (f : Files)
      → w'.stores ≡ w.stores
      → Represents etag_by api w.stores f
      → Represents etag_by api w'.stores f
  still w w' f kept h = subst (λ s. Represents etag_by api s f) (sym kept) h

  replied-Obeyed :
      {A B : Type 0} (answer : B → A) (reply : A → Reply) (w : W) (f : Files) (o : Outcome B)
      (r : Result A × W)
      → Represents etag_by api w.stores f
      → Serves b api etag_by answer w o r
      → Obeyed w f (reply_of reply r) (replied x (λ c. reply (answer c)) o f)
  replied-Obeyed answer reply w f (done c f') (ok a, w') h (e, stands) = inl (ap reply e, stands)
  replied-Obeyed answer reply w f (refused kind) (ok a, w') h serves = absurd serves
  replied-Obeyed answer reply w f (done c f') (err e, w') h (kept, unknown) =
      inr (ap failed unknown, still w w' f kept h)
  replied-Obeyed answer reply w f (refused kind) (err e, w') h (kept, inl same) =
      inl (ap failed same, still w w' f kept h)
  replied-Obeyed answer reply w f (refused kind) (err e, w') h (kept, inr unknown) =
      inr (ap failed unknown, still w w' f kept h)

  stat-Obeyed :
      (path : Str) (w : W) (f : Files)
      → Represents etag_by api w.stores f
      → Obeyed w f
          (perform b api x core (stat_call path) w)
          (promised x (stat_call path) (b.now w.env).0 f)
  unfolding perform promised Ops.stat
  stat-Obeyed path w f h =
      go (run_transaction b api.Store core read_only (reading (λ s. ok (stat_txn api x path s))) w)
        (run_transaction-Atomic b api.Store (reading (λ s. ok (stat_txn api x path s))) core
          read_only w)
    where
      go :
          (r : Result (Option EntryInfo) × W)
          → Atomic b api.Store (reading (λ s. ok (stat_txn api x path s))) w r
          → Obeyed w f (reply_of told r) (told (Option.map (info etag_by) (f path)), f)
      go (ok a, w') e =
          let pair : ◌≡◌ {A = Option EntryInfo × Stores api.Store}
              (stat_txn api x path w.stores, w.stores) (a, w'.stores) =
            cc in
          let same = ap (λ q. q.0) pair in
          let kept = sym (ap (λ q. q.1) pair) in
          inl (ap told (sym same ∙ stat_refines x api laws w.stores f path h), still w w' f kept h)
      go (err error, w') (kept, inl e) = absurd (cc e)
      go (err error, w') (kept, inr unknown) = inr (ap failed unknown, still w w' f kept h)

  abbrev read_body : Str → ReadArgs → Stores api.Store → Result (Option (EntryInfo × Bytes))
  read_body path args s = read_txn api x path args s

  read-Atomic :
      (path : Str) (args : ReadArgs) (w : W)
      → Atomic b api.Store (reading (read_body path args)) w (Ops.read b api x core path args w)
  unfolding Ops.read
  read-Atomic path args w =
      run_transaction-Atomic b api.Store (reading (read_body path args)) core read_only w

  -- A read leaves the stores alone, whatever it replies.
  read-kept :
      (path : Str) (args : ReadArgs) (w : W) (r : Result (Option (EntryInfo × Bytes)) × W)
      → Atomic b api.Store (reading (read_body path args)) w r
      → (reply_of gave r).1.stores ≡ w.stores
  read-kept path args w (ok a, w') e = (with_state-ok (read_body path args w.stores) _ _ a e).1
  read-kept path args w (err error, w') (kept, _) = kept

  read-Obeyed :
      (path : Str) (args : ReadArgs) (w : W) (f : Files)
      → stored_size x (f path) < u32_mod
      → Represents etag_by api w.stores f
      → Obeyed w f
          (perform b api x core (read_call path args) w)
          (promised x (read_call path args) (b.now w.env).0 f)
  unfolding perform promised
  read-Obeyed path args w f small h =
      go (Ops.read b api x core path args w) (read-Atomic path args w)
    where
      answers : Answers x args (f path) (read_body path args w.stores)
      answers = read_refines x api laws w.stores f path args h small

      go :
          (r : Result (Option (EntryInfo × Bytes)) × W)
          → Atomic b api.Store (reading (read_body path args)) w r
          → Obeyed w f (reply_of gave r) (read_reply x args (f path), f)
      go (ok a, w') e =
          let (same, kept) = with_state-ok (read_body path args w.stores) _ _ a e in
          inl (
            Answers-reply x args (f path) (ok a, w') (subst (Answers x args (f path)) same answers),
            still w w' f kept h,
          )
      go (err error, w') (kept, inl e) =
          let same = with_state-err (read_body path args w.stores) _ error e in
          inl (
            Answers-reply x args (f path) (err error, w')
                (subst (Answers x args (f path)) same answers),
            still w w' f kept h,
          )
      go (err error, w') (kept, inr unknown) = inr (ap failed unknown, still w w' f kept h)

  -- A call that is not done as the map promises, since it reads a large object, changes nothing.
  large-kept :
      (call : Call) (w : W) (f : Files)
      → IsLarge x call f
      → Represents etag_by api w.stores f
      → Represents etag_by api (perform b api x core call w).1.stores f
  unfolding perform
  large-kept (read_call path args) w f large h =
      subst (λ s. Represents etag_by api s f)
        (sym (read-kept path args w (Ops.read b api x core path args w) (read-Atomic path args w)))
        h
  large-kept (set_call path value args) w f large h = absurd large
  large-kept (copy_call from to if_not_exists if_match) w f large h = absurd large
  large-kept (rename_call from to) w f large h = absurd large
  large-kept (delete_call batch) w f large h = absurd large
  large-kept (stat_call path) w f large h = absurd large

  perform-Obeyed :
      (call : Call) (w : W) (f : Files)
      → IsText call
      → IsSmall x call f
      → Represents etag_by api w.stores f
      → Obeyed w f (perform b api x core call w) (promised x call (b.now w.env).0 f)
  unfolding perform promised
  perform-Obeyed (set_call path value args) w f text small h =
      replied-Obeyed (λ i. i) wrote w f _ (Ops.set b api x core path value args w) h
        (set-Serves b api laws x core path value args w f h)
  perform-Obeyed (copy_call from to if_not_exists if_match) w f text small h =
      replied-Obeyed (λ i. entry_metadata x to i) copied w f _
        (Ops.copy b api x core from to if_not_exists if_match w) h
        (copy-Serves b api laws x core from to if_not_exists if_match w f h)
  perform-Obeyed (rename_call from to) w f text small h =
      replied-Obeyed (λ i. i) (λ _. finished) w f _ (Ops.rename b api x core from to w) h
        (rename-Serves b api laws x core from to w f h)
  perform-Obeyed (delete_call batch) w f text small h =
      replied-Obeyed (λ i. i) (λ _. finished) w f (done tt (remove batch f))
        (Ops.delete_many b api x core batch w) h
        (delete_many-Serves b api laws x core batch w f text h)
  perform-Obeyed (read_call path args) w f text small h = read-Obeyed path args w f small h
  perform-Obeyed (stat_call path) w f text small h = stat-Obeyed path w f h

  -- On any browser whose faults come to the crate as errors, for any sequence of calls of `set`, `copy`,
  -- `rename`, `delete_many`, `read` and `stat` of one core, one behind the other, on stores that stand
  -- for a map of objects: each call does what the map's operation does at the time of the call, on the
  -- map that the calls before it left, and gives its reply; or it fails with `Unexpected` and changes
  -- nothing. The stores then stand for the last map. The paths of deletions are valid UTF-8. A read of
  -- an object of 2^32 bytes or more changes nothing, and may reply anything. An exceeded storage quota,
  -- which panics and is no error (Known limitations in README.md), is left out, and so are calls of
  -- `scan_page`.
  pub perform_all-Obeys :
      (calls : List Call) (w : World b.Env api.Store) (f : Files)
      → AreTexts calls
      → Represents (etag_from_bytes x.hash_hex) api w.stores f
      → (g : Files) × Obeys x (dated b api x core calls w) f (perform_all b api x core calls w).0 g
        × Represents (etag_from_bytes x.hash_hex) api (perform_all b api x core calls w).1.stores g
  unfolding perform_all dated
  perform_all-Obeys [] w f texts h = (f, nothing f, h)
  perform_all-Obeys (call ∷ calls) w f (text, texts) h =
      let w' = (perform b api x core call w).1 in
      let replies = (perform_all b api x core calls w').0 in
      let rest = dated b api x core calls w' in
      let now = (b.now w.env).0 in
      elim (IsSmall-or-IsLarge x call f) [
        | inr large ↦
            let (g, obeys, last) =
              perform_all-Obeys calls w' f texts (large-kept call w f large h) in
            (g, oversized now call large obeys, last)
        | inl small ↦ elim (perform-Obeyed call w f text small h) [
          | inl (same, stands) ↦
              let (g, obeys, last) =
                perform_all-Obeys calls w' (promised x call now f).1 texts stands in
              (
                g,
                subst (λ r. Obeys x ((now, call) ∷ rest) f (r ∷ replies) g) (sym same)
                    (served now call obeys),
                last,
              )
          | inr (unknown, stands) ↦
              let (g, obeys, last) = perform_all-Obeys calls w' f texts stands in
              (
                g,
                subst (λ r. Obeys x ((now, call) ∷ rest) f (r ∷ replies) g) (sym unknown)
                    (broken now call obeys),
                last,
              )
        ]
      ]

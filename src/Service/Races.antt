-- ===== src/Service/Races.antt =====
-- Clients that write the same path at the same time: whoever comes first, every write is one transaction.
use opendal_indexeddb.Base.{lit, ◌⊎◌, inl, inr, Bool-cases, ◌++◌}
use opendal_indexeddb.Base.{
  Str, Bytes, true, false, Option, none, some, ℕ, ◌≡◌, refl, sym, ap, ◌∙◌, subst, List, [], ◌∷◌,
  ◌++◌, str_eq, condition_not_match,
}
use opendal_indexeddb.Connection.Open.{Browser, IndexeddbCore, World}
use opendal_indexeddb.Core.Transaction.Working.{IsWorking}
use opendal_indexeddb.Files.Model.{
  Object, Files, info, update, permits, written, unwanted, old_bytes,
}
use opendal_indexeddb.Files.Represents.{Represents}
use opendal_indexeddb.Files.Writes.{write-done, write-refused, update-same, update-other}
use opendal_indexeddb.Idb.{StoreApi, IsStore, External}
use opendal_indexeddb.Meta.Payload.{etag_from_bytes}
use opendal_indexeddb.Meta.Records.{WriteArgs}
use opendal_indexeddb.Service.Calls.{
  Call, set_call, Reply, wrote, failed, promised, promised_all, perform, perform_all, dated,
}
use opendal_indexeddb.Service.Sequences.{AreTexts, AreSmall, perform_all-Agrees}
use mathlib.Core.List.{append-nil, append_assoc}

-- The writes of one path, each with its bytes and its arguments.
abbrev pub Writes : Type 0
Writes = List (Bytes × WriteArgs)

-- Their calls, in the order in which their transactions run.
abbrev pub writes : Str → Writes → List Call
writes path [] = []
writes path ((bytes, args) ∷ values) = set_call path bytes args ∷ writes path values

writes-AreTexts : (path : Str) (values : Writes) → AreTexts (writes path values)
writes-AreTexts path [] = tt
writes-AreTexts path ((bytes, args) ∷ values) = (tt, writes-AreTexts path values)

writes-AreSmall :
    (b : Browser) (api : StoreApi) (x : External) (core : IndexeddbCore) (path : Str)
    (values : Writes) (w : World b.Env api.Store) (f : Files)
    → AreSmall x (dated b api x core (writes path values) w) f
unfolding dated
writes-AreSmall b api x core path [] w f = tt
writes-AreSmall b api x core path ((bytes, args) ∷ values) w f = (
  tt,
  writes-AreSmall b api x core path values (perform b api x core (set_call path bytes args) w).1
      (promised x (set_call path bytes args) (b.now w.env).0 f).1,
)

-- The bytes of all of them, in order.
abbrev pub all_bytes : Writes → Bytes
all_bytes [] = []
all_bytes ((bytes, args) ∷ values) = bytes ++ all_bytes values

-- The replies of those that come too late.
abbrev pub all_refused : Writes → List Reply
all_refused [] = []
all_refused (late ∷ values) = failed condition_not_match ∷ all_refused values

-- A write that is to make a new object, by `if_not_exists` or by an `if_none_match` of `*`, and has no
-- condition on an old one.
pub record IsCreating (args : WriteArgs) : Type 0 where
  pub only_new : (args.if_not_exists ≡ true) ⊎ (args.if_none_match ≡ some (lit "*"))
  pub no_tag : args.if_match ≡ none

-- An append without conditions.
pub record IsAppending (args : WriteArgs) : Type 0 where
  pub appends : args.append ≡ true
  pub anyway : args.if_not_exists ≡ false
  pub any_tag : args.if_match ≡ none
  pub no_tag : args.if_none_match ≡ none

abbrev pub AllCreating : Writes → Type 0
AllCreating [] = Unit
AllCreating ((bytes, args) ∷ values) = IsCreating args × AllCreating values

abbrev pub AllAppending : Writes → Type 0
AllAppending [] = Unit
AllAppending ((bytes, args) ∷ values) = IsAppending args × AllAppending values

unwanted-none : (tag : Option Str) → unwanted tag none ≡ true
unwanted-none none = refl
unwanted-none (some want) = refl

module _ (etag_of : Bytes → Str) (args : WriteArgs) where
  permits-first : IsCreating args → permits etag_of args none ≡ true
  permits-first creating = elim (Bool-cases args.if_not_exists) [
    | inl e ↦ rw (e, creating.no_tag, unwanted-none args.if_none_match) refl
    | inr e ↦ rw (e, creating.no_tag, unwanted-none args.if_none_match) refl
  ]

  permits-late : (o : Object) → IsCreating args → permits etag_of args (some o) ≡ false
  permits-late o creating = elim (creating.only_new) [
    | inl new ↦ rw new refl
    | inr star ↦ elim (Bool-cases args.if_not_exists) [
      | inl e ↦ rw e refl
      | inr e ↦ rw (e, creating.no_tag, star) refl
    ]
  ]

  permits-append : (old : Option Object) → IsAppending args → permits etag_of args old ≡ true
  permits-append old appending = rw (appending.anyway, appending.any_tag, appending.no_tag) refl

module _ (b : Browser) (api : StoreApi) (x : External) (core : IndexeddbCore) (path : Str) where
  abbrev W : Type 0
  W = World b.Env api.Store

  abbrev etag_by : Bytes → Str
  etag_by = etag_from_bytes x.hash_hex

  -- What the map promises to the writes, at the times at which they are made.
  abbrev promise : Writes → W → Files → List Reply × Files
  promise values w f = promised_all x (dated b api x core (writes path values) w) f

  promised-done :
      (bytes : Bytes) (args : WriteArgs) (now : ℕ) (f : Files)
      → permits etag_by args (f path) ≡ true
      → promised x (set_call path bytes args) now f ≡ (
        wrote (info etag_by (written etag_by bytes args now (f path))),
        update f path (some (written etag_by bytes args now (f path))),
      )
  unfolding promised
  promised-done bytes args now f allowed =
      rw (write-done etag_by path bytes args now f allowed) refl

  promised-refused :
      (bytes : Bytes) (args : WriteArgs) (now : ℕ) (f : Files)
      → permits etag_by args (f path) ≡ false
      → promised x (set_call path bytes args) now f ≡ (failed condition_not_match, f)
  unfolding promised
  promised-refused bytes args now f forbidden =
      rw (write-refused etag_by path bytes args now f forbidden) refl

  -- Once there is an object, no write that is to make a new one changes it.
  late-promise :
      (values : Writes) (w : W) (f : Files) (o : Object)
      → AllCreating values
      → f path ≡ some o
      → promise values w f ≡ (all_refused values, f)
  unfolding promised_all dated
  late-promise [] w f o creating there = refl
  late-promise ((bytes, args) ∷ values) w f o (creating, rest) there =
      let forbidden : permits etag_by args (f path) ≡ false =
        rw there (permits-late etag_by args o creating) in
      rw
        (
          promised-refused bytes args (b.now w.env).0 f forbidden,
          late-promise values (perform b api x core (set_call path bytes args) w).1 f o rest there,
        )
        refl

  first-promise :
      (bytes : Bytes) (args : WriteArgs) (values : Writes) (w : W) (f : Files)
      → IsCreating args
      → AllCreating values
      → f path ≡ none
      → (let new = written etag_by bytes args (b.now w.env).0 none in
          promise ((bytes, args) ∷ values) w f
          ≡ (wrote (info etag_by new) ∷ all_refused values, update f path (some new)))
  unfolding promised_all dated
  first-promise bytes args values w f creating rest absent =
      let new = written etag_by bytes args (b.now w.env).0 none in
      let allowed : permits etag_by args (f path) ≡ true =
        rw absent (permits-first etag_by args creating) in
      rw
        (
          promised-done bytes args (b.now w.env).0 f allowed,
          absent,
          late-promise values (perform b api x core (set_call path bytes args) w).1
              (update f path (some new)) new rest (update-same f path (some new)),
        )
        refl

  -- The bytes under the path, and what the other paths have, behind appends.
  append-promise :
      (values : Writes) (w : W) (f : Files)
      → AllAppending values
      → (old_bytes etag_by ((promise values w f).1 path)
          ≡ old_bytes etag_by (f path) ++ all_bytes values)
  unfolding promised_all dated
  append-promise [] w f appending = sym (append-nil (old_bytes etag_by (f path)))
  append-promise ((bytes, args) ∷ values) w f (appending, rest) =
      let allowed = permits-append etag_by args (f path) appending in
      let new = written etag_by bytes args (b.now w.env).0 (f path) in
      let f' = update f path (some new) in
      let w' = (perform b api x core (set_call path bytes args) w).1 in
      ap (λ p. old_bytes etag_by ((promise values w' p.1).1 path))
        (promised-done bytes args (b.now w.env).0 f allowed)
      ∙ append-promise values w' f' rest
      ∙ ap (λ o. old_bytes etag_by o ++ all_bytes values) (update-same f path (some new))
      ∙ ap (λ old. (old ++ bytes) ++ all_bytes values) (rw (appending.appends) refl)
      ∙ append_assoc (old_bytes etag_by (f path)) bytes (all_bytes values)

  append-elsewhere :
      (values : Writes) (w : W) (f : Files) (k : Str)
      → AllAppending values
      → str_eq path k ≡ false
      → (promise values w f).1 k ≡ f k
  unfolding promised_all dated
  append-elsewhere [] w f k appending other = refl
  append-elsewhere ((bytes, args) ∷ values) w f k (appending, rest) other =
      let new = written etag_by bytes args (b.now w.env).0 (f path) in
      let f' = update f path (some new) in
      let w' = (perform b api x core (set_call path bytes args) w).1 in
      ap (λ p. (promise values w' p.1).1 k)
        (promised-done bytes args (b.now w.env).0 f
          (permits-append etag_by args (f path) appending))
      ∙ append-elsewhere values w' f' k rest other
      ∙ update-other f path k (some new) other

module _ (b : Browser) (api : StoreApi) (laws : IsStore api) (x : External) (core : IndexeddbCore)
    (working : IsWorking b core) (path : Str) where
  -- In a browser that works, of any number of writes that are to make a new object under one path,
  -- each with its own arguments and by `if_not_exists` or by an `if_none_match` of `*`, without an
  -- `if_match`, on stores that stand for a map with none there, exactly the one that runs first succeeds: the others
  -- are refused with `ConditionNotMatch`, and the stores then stand for the map with its object.
  pub one_winner :
      (bytes : Bytes) (args : WriteArgs) (values : Writes) (w : World b.Env api.Store) (f : Files)
      → IsCreating args
      → AllCreating values
      → f path ≡ none
      → Represents (etag_from_bytes x.hash_hex) api w.stores f
      → (let r = perform_all b api x core (writes path ((bytes, args) ∷ values)) w in
          let new = written (etag_from_bytes x.hash_hex) bytes args (b.now w.env).0 none in
          (r.0 ≡ wrote (info (etag_from_bytes x.hash_hex) new) ∷ all_refused values)
          × Represents (etag_from_bytes x.hash_hex) api r.1.stores (update f path (some new)))
  one_winner bytes args values w f creating rest absent h =
      let calls = writes path ((bytes, args) ∷ values) in
      let (same, stands) =
        perform_all-Agrees b api laws x core working calls w f
          (writes-AreTexts path ((bytes, args) ∷ values))
          (writes-AreSmall b api x core path ((bytes, args) ∷ values) w f) h in
      let promised_them =
        first-promise b api x core path bytes args values w f creating rest absent in
      (
        same ∙ ap (λ p. p.0) promised_them,
        subst
            (λ g.
              Represents (etag_from_bytes x.hash_hex) api
                (perform_all b api x core calls w).1.stores g)
            (ap (λ p. p.1) promised_them) stands,
      )

  -- In a browser that works, of any number of appends without conditions to one path, each with
  -- its own arguments, in whatever order
  -- they run, no bytes are lost: the stores then stand for a map that has under the path the old bytes,
  -- or none where there was no object, and behind them those of all appends in that order. The other
  -- objects are as they were.
  pub appends_kept :
      (values : Writes) (w : World b.Env api.Store) (f : Files)
      → AllAppending values
      → Represents (etag_from_bytes x.hash_hex) api w.stores f
      → (g : Files) × Represents
          (etag_from_bytes x.hash_hex)
          api
          (perform_all b api x core (writes path values) w).1.stores
          g
        × (old_bytes (etag_from_bytes x.hash_hex) (g path)
            ≡ old_bytes (etag_from_bytes x.hash_hex) (f path) ++ all_bytes values)
        × ((k : Str) → str_eq path k ≡ false → g k ≡ f k)
  appends_kept values w f appending h =
      let (same, stands) =
        perform_all-Agrees b api laws x core working (writes path values) w f
          (writes-AreTexts path values) (writes-AreSmall b api x core path values w f) h in
      (
        _,
        stands,
        append-promise b api x core path values w f appending,
        λ k other. append-elsewhere b api x core path values w f k appending other,
      )

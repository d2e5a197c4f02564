-- ===== src/Core/Transaction/Keeper/Opens.antt =====
-- `open_client` of src/backend/core.rs keeps what a keeper keeps, and the connection that it returns is
-- its caller's own.
use opendal_indexeddb.Base.{
  ◌⊎◌, inl, inr, none, some, ℕ, zero, suc, ◌+◌, ◌≡◌, refl, Bool-cases, Option-cases, if◌then◌else◌,
}
use opendal_indexeddb.Base.Exec.{pure, ◌>>=◌, ◌>>◌}
use opendal_indexeddb.Connection.Cache.{Database, close}
use opendal_indexeddb.Connection.Open.{
  Browser, IndexeddbCore, World, OpenResult, opened, failed, timed_out, got, again, version_too_old,
  database_is_closed, does_not_exist, object_store_was_removed, other, stores_exist_in, in_realm,
  missing_stores, latest_version, open_version, get_factory, open_if_stores_exist, next_version,
  after_open, upgrade_attempt, upgrade_rounds, open_client,
}
use opendal_indexeddb.Core.Transaction.Keeper.{
  Keeper, Opener, Kept, Yields, Owned, OwnedFound, OwnedResult, OwnedAttempt, OwnedVersion,
  Anything, Yields-continue, by_found, by_attempt, by_version,
}

module _ {b : Browser} {core : IndexeddbCore} (k : Keeper b core) (o : Opener k) (S : Type 0) where
  abbrev W : Type 0
  W = World b.Env S

  -- A connection that was opened is used where it has both stores, and else closed.
  use-Yields :
      {A : Type 0} (Q : A → W → Type 0) (db : Database) (use_it otherwise : A) (w : W)
      → Owned k S o db w
      → (Owned k S o db w → Q use_it w)
      → ((w' : W) → Kept k S w' → Q otherwise w')
      → Yields k S Q (
          (if stores_exist_in core db.object_store_names
              then pure use_it
              else (in_realm b S (close db) >> pure otherwise))
            w)
  unfolding in_realm
  use-Yields Q db use_it otherwise w own used not_used =
      elim (Bool-cases (stores_exist_in core db.object_store_names)) [
        | inl e ↦ rw e (used own)
        | inr e ↦ rw e (not_used _ (o.close_own db w.env w.realm own))
      ]

  latest_version-Yields :
      (w : W) → Kept k S w → Yields k S (OwnedFound k S o) (latest_version b S core.db_name w)
  unfolding latest_version
  latest_version-Yields w h = elim (Option-cases (b.open_latest_version core.db_name w.env).0) [
    | inl e ↦ rw (latest_version, e) (o.open_latest w.env w.realm h e)
    | inr (db, e) ↦ rw (latest_version, e) (o.own_latest db w.env w.realm h e)
  ]

  OpenResult-cases :
      (r : OpenResult)
      → ((db : Database) × (r ≡ opened db))
        ⊎ (((db : Database) → r ≡ opened db → ⊥) × ((w : W) → Kept k S w → OwnedResult k S o r w))
  OpenResult-cases (opened db) = inl (db, refl)
  OpenResult-cases (failed fault) = inr (λ db e. cc, λ w h. h)
  OpenResult-cases timed_out = inr (λ db e. cc, λ w h. h)

  open_version-Yields :
      (version : ℕ) (w : W)
      → Kept k S w
      → Yields k S (OwnedResult k S o) (open_version b S core version w)
  unfolding open_version
  open_version-Yields version w h =
      elim (OpenResult-cases (b.upgrade core.db_name version (missing_stores core) w.env).0) [
        | inl (db, e) ↦ rw (open_version, e) (o.own_upgraded db version w.env w.realm h e)
        | inr (none_opened, kept) ↦ kept _ (o.upgrade version w.env w.realm h none_opened)
      ]

  -- The match on what `open_latest_version` found.
  used-Yields :
      {A : Type 0} (Q : A → W → Type 0) (absent : A) (use_it otherwise : Database → A) (w : W)
      → Kept k S w
      → ((w' : W) → Kept k S w' → Q absent w')
      → ((db : Database) (w' : W) → Owned k S o db w' → Q (use_it db) w')
      → ((db : Database) (w' : W) → Kept k S w' → Q (otherwise db) w')
      → Yields k S Q (
          (latest_version b S core.db_name >>= λ found. elim found [
            | none ↦ pure absent
            | some db ↦
                if stores_exist_in core db.object_store_names
                then pure (use_it db)
                else (in_realm b S (close db) >> pure (otherwise db))
          ])
            w)
  used-Yields {A} Q absent use_it otherwise w h nothing used not_used =
      Yields-continue k S (OwnedFound k S o) Q (latest_version b S core.db_name w) _
        (latest_version-Yields w h)
        (by_found k S o Q _ nothing (λ db w' own.
          use-Yields Q db (use_it db) (otherwise db) w' own (used db w') (not_used db)))

  open_if_stores_exist-Yields :
      (w : W) → Kept k S w → Yields k S (OwnedFound k S o) (open_if_stores_exist b S core w)
  unfolding open_if_stores_exist
  open_if_stores_exist-Yields w h =
      used-Yields (OwnedFound k S o) none some (λ _. none) w h (λ w' h'. h') (λ db w' own. own)
        (λ db w' h'. h')

  next_version-Yields :
      (w : W) → Kept k S w → Yields k S (OwnedVersion k S o) (next_version b S core w)
  unfolding next_version
  next_version-Yields w h =
      used-Yields (OwnedVersion k S o) (inr 1) inl (λ db. inr (db.version + 1)) w h (λ w' h'. h')
        (λ db w' own. own) (λ db w' h'. h')

  after_open-Yields :
      (r : OpenResult) (w : W)
      → OwnedResult k S o r w
      → Yields k S (OwnedAttempt k S o) (after_open b S core r w)
  unfolding after_open
  after_open-Yields (opened db) w own =
      use-Yields (OwnedAttempt k S o) db (got db) again w own (λ o. o) (λ w' h'. h')
  after_open-Yields (failed version_too_old) w h = h
  after_open-Yields (failed database_is_closed) w h = h
  after_open-Yields (failed does_not_exist) w h = h
  after_open-Yields (failed object_store_was_removed) w h = h
  after_open-Yields (failed (other message)) w h = h
  after_open-Yields timed_out w h = h

  upgrade_attempt-Yields :
      (w : W) → Kept k S w → Yields k S (OwnedAttempt k S o) (upgrade_attempt b S core w)
  unfolding upgrade_attempt
  upgrade_attempt-Yields w h =
      Yields-continue k S (OwnedVersion k S o) (OwnedAttempt k S o) (next_version b S core w) _
        (next_version-Yields w h)
        (by_version k S o (OwnedAttempt k S o) _ (λ db w' own. own)
          (λ new_version w' h'.
            Yields-continue k S (OwnedResult k S o) (OwnedAttempt k S o)
              (open_version b S core new_version w') (after_open b S core)
              (open_version-Yields new_version w' h') after_open-Yields))

  upgrade_rounds-Yields :
      (rounds : ℕ) (w : W)
      → Kept k S w
      → Yields k S (Owned k S o) (upgrade_rounds b S rounds core w)
  unfolding upgrade_rounds
  upgrade_rounds-Yields zero w h = h
  upgrade_rounds-Yields (suc rounds) w h =
      Yields-continue k S (OwnedAttempt k S o) (Owned k S o) (upgrade_attempt b S core w) _
        (upgrade_attempt-Yields w h)
        (by_attempt k S o (Owned k S o) _ (λ db w' own. own)
          (λ w' h'. upgrade_rounds-Yields rounds w' h'))

  get_factory-Yields : (w : W) → Kept k S w → Yields k S (Anything k S) (get_factory b S w)
  unfolding get_factory
  get_factory-Yields w h =
      let later = o.factory w.env w.realm h in
      elim (Option-cases (b.factory w.env).0) [
        | inl e ↦ rw (get_factory, e) later
        | inr (fault, e) ↦ rw (get_factory, e) later
      ]

  pub open_client-Yields : (w : W) → Kept k S w → Yields k S (Owned k S o) (open_client b S core w)
  unfolding open_client in_realm
  open_client-Yields w h =
      Yields-continue k S (Anything k S) (Owned k S o) (get_factory b S w) _
        (get_factory-Yields w h)
        (λ _ w0 h0.
          Yields-continue k S (OwnedFound k S o) (Owned k S o) (open_if_stores_exist b S core w0) _
            (open_if_stores_exist-Yields w0 h0)
            (by_found k S o (Owned k S o) _
              (λ w' h'. upgrade_rounds-Yields 8 _ (k.evict w'.env w'.realm h')) (λ db w' own. own)))

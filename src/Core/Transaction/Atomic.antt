-- ===== src/Core/Transaction/Atomic.antt =====
-- A transaction is all or nothing: it is the body, run once on the stores as they are, or it leaves
-- them alone.
use opendal_indexeddb.Base.{
  ◌⊎◌, inl, inr, Bool, true, false, none, some, ℕ, zero, suc, ◌≡◌, refl, ◌∙◌, unexpected, Result,
  ok, err, arith,
}
use opendal_indexeddb.Base.Exec.{Exec, continue, ◌>>=◌}
use opendal_indexeddb.Connection.Cache.{Realm, evict_cached_connection}
use opendal_indexeddb.Connection.Open.{
  Browser, IndexeddbCore, World, IdbError, user, idb, got, again, date_now, in_realm, get_factory,
  open_client, open_if_stores_exist, upgrade_rounds, upgrade_attempt,
}
use opendal_indexeddb.Core.Entry.{Txn}
use opendal_indexeddb.Core.Transaction.{
  Mode, TransactionBuilder, Round, returned, refresh, cached_client_has_stores, cached_transaction,
  ensure_cached_client, reopen, run_body, after_run, round, last_round, next_round, run_transaction,
}

module _ (b : Browser) (S : Type 0) where
  open b use {Env}

  abbrev pub W : Type 0
  W = World Env S

  -- The stores are as they were, and an error is `Unexpected`.
  abbrev Kept : {A : Type 0} → W → Result A × W → Type 0
  Kept w (ok a, w') = w'.stores ≡ w.stores
  Kept w (err e, w') = (w'.stores ≡ w.stores) × (e.kind ≡ unexpected)

  abbrev Keeps : {A : Type 0} → Exec W A → Type 0
  Keeps m = (w : W) → Kept w (m w)

  Kept-from :
      {A : Type 0} (w w' : W) (r : Result A × W) → w'.stores ≡ w.stores → Kept w' r → Kept w r
  Kept-from w w' (ok a, w'') e h = h ∙ e
  Kept-from w w' (err error, w'') e h = (h.0 ∙ e, h.1)

  Kept-continue :
      {A B : Type 0} (w : W) (r : Result A × W) (f : A → Exec W B)
      → Kept w r
      → ((a : A) → Keeps (f a))
      → Kept w (continue r f)
  Kept-continue w (ok a, w') f h k = Kept-from w w' (f a w') h (k a w')
  Kept-continue w (err e, w') f h k = h

  Keeps-bind :
      {A B : Type 0} (m : Exec W A) (f : A → Exec W B)
      → Keeps m
      → ((a : A) → Keeps (f a))
      → Keeps (m >>= f)
  Keeps-bind m f h k w = Kept-continue w (m w) f (h w) k

  open_if_stores_exist-Keeps : (core : IndexeddbCore) → Keeps (open_if_stores_exist b S core)
  unfolding open_if_stores_exist
  open_if_stores_exist-Keeps core w = ground arith

  upgrade_attempt-Keeps : (core : IndexeddbCore) → Keeps (upgrade_attempt b S core)
  unfolding upgrade_attempt
  upgrade_attempt-Keeps core w = ground arith

  upgrade_rounds-Keeps : (n : ℕ) (core : IndexeddbCore) → Keeps (upgrade_rounds b S n core)
  unfolding upgrade_rounds
  upgrade_rounds-Keeps zero core = λ w. (refl, refl)
  upgrade_rounds-Keeps (suc n) core =
      Keeps-bind (upgrade_attempt b S core) _ (upgrade_attempt-Keeps core)
        (elim [ got db ↦ λ w. refl | again ↦ upgrade_rounds-Keeps n core ])

  in_realm-Keeps : (f : Realm → Realm) → Keeps (in_realm b S f)
  unfolding in_realm
  in_realm-Keeps f w = refl

  date_now-Keeps : Keeps (date_now b S)
  unfolding date_now
  date_now-Keeps w = refl

  get_factory-Keeps : Keeps (get_factory b S)
  unfolding get_factory
  get_factory-Keeps w = ground arith

  open_client-Keeps : (core : IndexeddbCore) → Keeps (open_client b S core)
  unfolding open_client
  open_client-Keeps core = Keeps-bind (get_factory b S) _ get_factory-Keeps (λ _.
      Keeps-bind (open_if_stores_exist b S core) _ (open_if_stores_exist-Keeps core) (elim [
        | some db ↦ λ w. refl
        | none ↦
            Keeps-bind (in_realm b S (evict_cached_connection core.db_name)) _
              (in_realm-Keeps (evict_cached_connection core.db_name))
              (λ _. upgrade_rounds-Keeps 8 core)
      ]))

  cached_client_has_stores-Keeps :
      (core : IndexeddbCore) → Keeps (cached_client_has_stores b S core)
  unfolding cached_client_has_stores
  cached_client_has_stores-Keeps core w = ground arith

  cached_transaction-Keeps :
      (core : IndexeddbCore) (mode : Mode) → Keeps (cached_transaction b S core mode)
  unfolding cached_transaction
  cached_transaction-Keeps core mode w = ground arith

  reopen-Keeps : (core : IndexeddbCore) → Keeps (reopen b S core)
  unfolding reopen
  reopen-Keeps core = Keeps-bind _ _ (in_realm-Keeps (evict_cached_connection core.db_name)) (λ _.
      Keeps-bind (open_client b S core) _ (open_client-Keeps core)
        (λ db. Keeps-bind (date_now b S) _ date_now-Keeps (λ now. in_realm-Keeps _)))

  ensure_cached_client-Keeps : (core : IndexeddbCore) → Keeps (ensure_cached_client b S core)
  unfolding ensure_cached_client
  ensure_cached_client-Keeps core =
      Keeps-bind (cached_client_has_stores b S core) _ (cached_client_has_stores-Keeps core) (elim [
        | true ↦ λ w. refl
        | false ↦
            Keeps-bind (cached_client_has_stores b S core) _ (cached_client_has_stores-Keeps core)
              (elim [ true ↦ λ w. refl | false ↦ reopen-Keeps core ])
      ])

  -- The answer is the body's, on the stores as they are; or nothing was written.
  abbrev pub Atomic : {A : Type 0} → Txn S A → W → Result A × W → Type 0
  Atomic body w (ok a, w') = body w.stores ≡ ok (a, w'.stores)
  Atomic body w (err e, w') =
      (w'.stores ≡ w.stores) × ((body w.stores ≡ err e) ⊎ (e.kind ≡ unexpected))

  abbrev AtomicRound : {A : Type 0} → Txn S A → W → Result (Round A) × W → Type 0
  AtomicRound body w (ok (returned a), w') = body w.stores ≡ ok (a, w'.stores)
  AtomicRound body w (ok refresh, w') = w'.stores ≡ w.stores
  AtomicRound body w (err e, w') =
      (w'.stores ≡ w.stores) × ((body w.stores ≡ err e) ⊎ (e.kind ≡ unexpected))

  module _ {A : Type 0} (body : Txn S A) where
    AtomicRound-continue :
        {B : Type 0} (w : W) (r : Result B × W) (f : B → Exec W (Round A))
        → Kept w r
        → ((a : B) (w' : W) → w'.stores ≡ w.stores → AtomicRound body w (f a w'))
        → AtomicRound body w (continue r f)
    AtomicRound-continue w (ok a, w') f h k = k a w' h
    AtomicRound-continue w (err e, w') f h k = (h.0, inr h.1)

    -- What a run of the body on the stores of `w` came to.
    abbrev Ran : W → (A ⊎ IdbError) × W → Type 0
    Ran w (inl a, w') = body w.stores ≡ ok (a, w'.stores)
    Ran w (inr (user e), w') = (w'.stores ≡ w.stores) × (body w.stores ≡ err e)
    Ran w (inr (idb fault), w') = w'.stores ≡ w.stores

    run_body-Ran :
        (transaction : TransactionBuilder) (w w' : W)
        → w'.stores ≡ w.stores
        → Ran w (run_body b S transaction body w')
    unfolding run_body
    run_body-Ran transaction w w' same = ground arith

    after_run-AtomicRound :
        (core : IndexeddbCore) (first : Bool) (w : W) (r : (A ⊎ IdbError) × W)
        → Ran w r
        → AtomicRound body w (after_run b S core first r)
    unfolding after_run
    after_run-AtomicRound core first w (inl a, w') ran = ran
    after_run-AtomicRound core first w (inr (user e), w') ran = ground arith
    after_run-AtomicRound core first w (inr (idb fault), w') ran = ground arith

    round-AtomicRound :
        (core : IndexeddbCore) (mode : Mode) (first : Bool) (w w₀ : W)
        → w₀.stores ≡ w.stores
        → AtomicRound body w (round b S core mode first body w₀)
    unfolding round in_realm
    round-AtomicRound core mode first w w₀ same =
        AtomicRound-continue w (ensure_cached_client b S core w₀) _
          (Kept-from w w₀ (ensure_cached_client b S core w₀) same
            (ensure_cached_client-Keeps core w₀))
          λ _ w₁ same₁.
            AtomicRound-continue w (cached_transaction b S core mode w₁) _
              (Kept-from w w₁ (cached_transaction b S core mode w₁) same₁
                (cached_transaction-Keeps core mode w₁))
              (elim [
                | none ↦ λ w₂ same₂. same₂
                | some transaction ↦ λ w₂ same₂.
                    after_run-AtomicRound core first w (run_body b S transaction body w₂)
                      (run_body-Ran transaction w w₂ same₂)
              ])

    second_round :
        (core : IndexeddbCore) (w : W) (r : Result (Round A) × W)
        → AtomicRound body w r
        → Atomic body w (continue r (last_round b S core))
    unfolding last_round
    second_round core w (ok (returned a), w') h = h
    second_round core w (ok refresh, w') h = (h, inr refl)
    second_round core w (err e, w') h = h

    first_round :
        (core : IndexeddbCore) (mode : Mode) (w : W) (r : Result (Round A) × W)
        → AtomicRound body w r
        → Atomic body w (continue r (next_round b S core mode body))
    unfolding next_round
    first_round core mode w (ok (returned a), w') h = h
    first_round core mode w (ok refresh, w') h =
        second_round core w (round b S core mode false body w')
          (round-AtomicRound core mode false w w' h)
    first_round core mode w (err e, w') h = h

    -- Whatever the cache, the browser and its faults do: where `run_transaction` returns a value, the
    -- body returned it on the stores as they were, and they are now what the body made of them; where
    -- it fails, the stores are as they were, and the error is the body's or `Unexpected`.
    pub run_transaction-Atomic :
        (core : IndexeddbCore) (mode : Mode) (w : W)
        → Atomic body w (run_transaction b S core mode body w)
    unfolding run_transaction
    run_transaction-Atomic core mode w =
        first_round core mode w (round b S core mode true body w)
          (round-AtomicRound core mode true w w refl)

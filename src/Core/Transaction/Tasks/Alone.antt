-- ===== src/Core/Transaction/Tasks/Alone.antt =====
-- A task that runs `ensure_cached_client` and `run_transaction` of src/backend/core.rs with no other one
-- between, as moves of the task.
use opendal_indexeddb.Base.{
  Bool, true, false, none, some, ℕ, ◌≡◌, ◌∙◌, subst, Result, ok, err, Bool-cases, inl, inr,
}
use opendal_indexeddb.Base.Exec.{Exec, continue, pure, ◌>>=◌}
use opendal_indexeddb.Connection.Cache.{Database, Realm, evict_cached_connection, cache_connection}
use opendal_indexeddb.Connection.Locks.{
  Locks, set_lock, upgrade_lock, owner_of, owner_of-set_lock, owner_of-upgrade_lock,
}
use opendal_indexeddb.Connection.Open.{
  Browser, IndexeddbCore, World, date_now, in_realm, open_client,
}
use opendal_indexeddb.Core.Entry.{Txn}
use opendal_indexeddb.Core.Transaction.{
  Mode, look_up, cached_client_has_stores, ensure_cached_client, reopen, run_transaction,
}
use opendal_indexeddb.Core.Transaction.Tasks.{
  Stage, outside, waiting, opening, Shared, TaskMove, look_found, look_missing, found_under_lock,
  missing_under_lock, evict_again, close_own, open_failed, open_done, transact, evict_stale,
}
use opendal_indexeddb.Core.Transaction.Keeper.{Keeper, Opener, Yields, Owned, Anything}
use opendal_indexeddb.Core.Transaction.Keeper.Opens.{open_client-Yields}
use opendal_indexeddb.Core.Transaction.Keeper.Rounds.{run_transaction-Kept}

-- TaskMoves of one task, one behind the other.
pub data TaskMoves (t : ℕ) (m : Shared) (p : Stage) : Shared → Stage → Type 0 where
  no_move : TaskMoves t m p m p
  then_move :
      {n o : Shared} {q r : Stage} → TaskMoves t m p n q → TaskMove t n q o r → TaskMoves t m p o r

-- A task comes out of `ensure_cached_client` with the realm as said, and has not kept the lock.
pub record Returns (t : ℕ) (core : IndexeddbCore) (m : Shared) (realm : Realm) : Type 0 where
  pub locks : Locks
  pub free : owner_of locks core.db_name ≡ none
  pub moves : TaskMoves t m outside (record { realm = realm; locks = locks }) outside

module _ (t : ℕ) (core : IndexeddbCore) (b : Browser) (m : Shared) where
  -- The task is outside `ensure_cached_client`, and the lock is free.
  abbrev is_back : Keeper b core
  is_back = record {
    Holds = λ e x. Returns t core m x;
    read_clock = λ e x h. h;
    evict = λ e x h. record {
      locks = h.locks;
      free = h.free;
      moves = then_move h.moves (evict_stale core.db_name);
    };
  }

  -- It is in `open_client`, under the lock, which nothing there touches.
  abbrev is_opening : Locks → Keeper b core
  is_opening locks = record {
    Holds = λ e x. TaskMoves t m outside (record { realm = x; locks = locks }) (opening core);
    read_clock = λ e x h. h;
    evict = λ e x h. then_move h (evict_again core);
  }

  abbrev opens : (locks : Locks) → Opener (is_opening locks)
  opens locks = record {
    Owns = λ db e x. TaskMoves t m outside (record { realm = x; locks = locks }) (opening core);
    keep_own = λ db e x h. h;
    factory = λ e x h. h;
    open_latest = λ e x h nothing. h;
    own_latest = λ db e x h found. h;
    upgrade = λ version e x h nothing. h;
    own_upgraded = λ db version e x h found. h;
    close_own = λ db e x h. then_move h (close_own core db);
  }

  module _ (S : Type 0) where
    abbrev W : Type 0
    W = World b.Env S

    -- The part of `reopen` behind `open_client`.
    abbrev cache_it : Database → Exec W (Unit {0})
    cache_it db = date_now b S >>= λ now.
        in_realm b S (cache_connection core.db_name db db.object_store_names now)

    -- However `open_client` ends, the lock is given back.
    opened-Yields :
        (locks : Locks) (r : Result Database × W)
        → Yields (is_opening locks) S (Owned (is_opening locks) S (opens locks)) r
        → Yields is_back S (Anything is_back S) (continue r cache_it)
    unfolding date_now in_realm
    opened-Yields locks (ok db, w') h = record {
      locks = set_lock core.db_name none locks;
      free = owner_of-set_lock core.db_name none locks;
      moves = then_move h (open_done core db (b.now w'.env).0);
    }
    opened-Yields locks (err e, w') h = record {
      locks = set_lock core.db_name none locks;
      free = owner_of-set_lock core.db_name none locks;
      moves = then_move h (open_failed core);
    }

    reopen-Yields :
        (locks : Locks) (w : W)
        → TaskMoves t m outside
            (record { realm = evict_cached_connection core.db_name w.realm; locks = locks })
            (opening core)
        → Yields is_back S (Anything is_back S) (reopen b S core w)
    unfolding reopen in_realm
    reopen-Yields locks w before =
        let w1 : W = record w { realm = evict_cached_connection core.db_name w.realm } in
        opened-Yields locks (open_client b S core w1)
          (open_client-Yields (is_opening locks) (opens locks) S w1 before)

    -- What the cache says, at the times that the clock shows.
    abbrev first_time : W → ℕ
    first_time w = (b.now w.env).0

    abbrev second_time : W → ℕ
    second_time w = (b.now (b.now w.env).1).0

    abbrev seen : W → Bool × Realm
    seen w = look_up core true (first_time w) (second_time w) w.realm

    abbrev under_lock : Exec W (Unit {0})
    under_lock = cached_client_has_stores b S core >>= λ ready_now. elim ready_now [
      | true ↦ pure tt
      | false ↦ reopen b S core
    ]

    under_lock-Yields :
        (locks : Locks) (w : W)
        → owner_of locks core.db_name ≡ none
        → TaskMoves t m outside (record { realm = w.realm; locks = locks }) (waiting core)
        → Yields is_back S (Anything is_back S) (under_lock w)
    unfolding cached_client_has_stores date_now
    under_lock-Yields locks w free before = elim (Bool-cases (seen w).0) [
      | inl found ↦ rw found (record {
        locks = set_lock core.db_name none locks;
        free = owner_of-set_lock core.db_name none locks;
        moves = then_move before (found_under_lock core (first_time w) (second_time w) free found);
      })
      | inr missing ↦ rw missing (
          reopen-Yields (set_lock core.db_name (some t) locks) _ (
            then_move before (missing_under_lock core (first_time w) (second_time w) free missing)))
    ]

    ensure_cached_client-Yields :
        (w : W)
        → Returns t core m w.realm
        → Yields is_back S (Anything is_back S) (ensure_cached_client b S core w)
    unfolding ensure_cached_client cached_client_has_stores date_now
    ensure_cached_client-Yields w h = elim (Bool-cases (seen w).0) [
      | inl found ↦
          rw (ensure_cached_client, found)
            (record {
              locks = h.locks;
              free = h.free;
              moves = then_move h.moves (look_found core (first_time w) (second_time w) found);
            })
      | inr missing ↦
          rw (ensure_cached_client, missing)
            (under_lock-Yields (upgrade_lock core.db_name h.locks) _
              (owner_of-upgrade_lock core.db_name core.db_name h.locks ∙ h.free)
              (then_move h.moves (look_missing core (first_time w) (second_time w) missing)))
    ]

    looks-Returns :
        (now later : ℕ) (e : b.Env) (x : Realm)
        → Returns t core m x
        → Returns t core m (look_up core false now later x).1
    looks-Returns now later e x h = record {
      locks = h.locks;
      free = h.free;
      moves = then_move h.moves (transact core now later);
    }

    -- A transaction that a task runs by itself is a sequence of the task's moves: whatever the browser
    -- and the body do, from a free lock the task comes out of it with the connection cache that
    -- `run_transaction` leaves, and the lock is free again.
    pub run_transaction-Returns :
        {A : Type 0} (mode : Mode) (body : Txn S A) (w : W)
        → m.realm ≡ w.realm
        → owner_of m.locks core.db_name ≡ none
        → Returns t core m (run_transaction b S core mode body w).1.realm
    run_transaction-Returns mode body w here free =
        run_transaction-Kept is_back S (λ db e x h. h) looks-Returns ensure_cached_client-Yields
          mode body w
          (subst (Returns t core m) here (record { locks = m.locks; free = free; moves = no_move }))

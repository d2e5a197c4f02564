-- ===== src/Core/Transaction/Tasks/Exclusive.antt =====
-- The upgrade lock: one task at a time opens a database, and no other one caches a connection of it.
use opendal_indexeddb.Base.{
  Str, true, false, Option, none, some, ℕ, ◌≡◌, ◌≢◌, ◌==◌, sym, ap, ◌∙◌, subst, str_eq, str_eq→eq,
  arith, Bool-cases, inl, inr,
}
use opendal_indexeddb.Connection.Cache.{Database, Realm, cache_connection}
use opendal_indexeddb.Connection.Locks.{
  Locks, owner_of, owner_of-set_lock, owner_of-other, owner_of-upgrade_lock,
}
use opendal_indexeddb.Connection.Open.{IndexeddbCore}
use opendal_indexeddb.Core.Transaction.{look_up}
use opendal_indexeddb.Core.Transaction.Tasks.{
  Stage, outside, waiting, opening, Shared, TaskMove, look_found, look_missing, found_under_lock,
  missing_under_lock, evict_again, close_own, open_failed, open_done, transact, evict_stale, wake,
  System, Step, pick, Reach, start, later,
}
use opendal_indexeddb.Core.Transaction.Tasks.Absent.{
  IsAbsent, evict-IsAbsent, insert-IsAbsent, look-IsAbsent, wake-IsAbsent, evict-gone,
  insert-closes_nothing,
}

-- A task has the lock of the database, and the cache has no connection of it.
record HasLock (i : ℕ) (c : IndexeddbCore) (m : Shared) : Type 0 where
  owns : owner_of m.locks c.db_name ≡ some i
  absent : IsAbsent c.db_name m.realm

-- A task in `open_client` has the lock.
abbrev Holds : ℕ → Stage → Shared → Type 0
Holds i (opening c) m = HasLock i c m
Holds i _ m = Unit

abbrev IsExclusive : System → Type 0
IsExclusive s = (i : ℕ) → Holds i (s.stage i) s.shared

-- Locks of two owners are of two databases.
names_apart :
    (name n : Str) (locks : Locks) (owner : Option ℕ) (i : ℕ)
    → owner_of locks name ≡ owner
    → owner_of locks n ≡ some i
    → (owner ≡ some i → ⊥)
    → str_eq name n ≡ false
names_apart name n locks owner i e k apart = elim (Bool-cases (str_eq name n)) [
  | inl same ↦ absurd (apart (sym e ∙ ap (owner_of locks) (str_eq→eq name n same) ∙ k))
  | inr other ↦ other
]

module _ (t : ℕ) (m : Shared) where
  -- What a move leaves to the task that has the lock of `c`, and is not the one that moves.
  TaskMove-others :
      {p p' : Stage} {m' : Shared}
      → TaskMove t m p m' p'
      → Holds t p m
      → (i : ℕ) (c : IndexeddbCore) → (t == i) ≡ false
      → HasLock i c m
      → HasLock i c m'
  TaskMove-others (look_found core now l found) own i c other h = record {
    owns = h.owns;
    absent = look-IsAbsent c.db_name m.realm h.absent core true now l;
  }
  TaskMove-others (look_missing core now l missing) own i c other h = record {
    owns = owner_of-upgrade_lock core.db_name c.db_name m.locks ∙ h.owns;
    absent = look-IsAbsent c.db_name m.realm h.absent core true now l;
  }
  TaskMove-others (found_under_lock core now l free found) own i c other h =
      let apart = names_apart core.db_name c.db_name m.locks none i free h.owns (λ e. cc) in
      record {
        owns = owner_of-other core.db_name c.db_name none m.locks apart ∙ h.owns;
        absent = look-IsAbsent c.db_name m.realm h.absent core true now l;
      }
  TaskMove-others (missing_under_lock core now l free missing) own i c other h =
      let apart = names_apart core.db_name c.db_name m.locks none i free h.owns (λ e. cc) in
      record {
        owns = owner_of-other core.db_name c.db_name (some t) m.locks apart ∙ h.owns;
        absent =
            evict-IsAbsent c.db_name _ (look-IsAbsent c.db_name m.realm h.absent core true now l)
              core.db_name;
      }
  TaskMove-others (evict_again core) own i c other h = record {
    owns = h.owns;
    absent = evict-IsAbsent c.db_name m.realm h.absent core.db_name;
  }
  TaskMove-others (close_own core db) own i c other h = record { owns = h.owns; absent = h.absent }
  TaskMove-others (open_failed core) own i c other h =
      let mine = own.owns in
      let apart =
        names_apart core.db_name c.db_name m.locks (some t) i mine h.owns
          (λ e. let same : t ≡ i = cc in ground arith) in
      record {
        owns = owner_of-other core.db_name c.db_name none m.locks apart ∙ h.owns;
        absent = h.absent;
      }
  TaskMove-others (open_done core db now) own i c other h =
      let mine = own.owns in
      let apart =
        names_apart core.db_name c.db_name m.locks (some t) i mine h.owns
          (λ e. let same : t ≡ i = cc in ground arith) in
      record {
        owns = owner_of-other core.db_name c.db_name none m.locks apart ∙ h.owns;
        absent =
            insert-IsAbsent c.db_name m.realm h.absent core.db_name db db.object_store_names now
              apart;
      }
  TaskMove-others (transact core now l) own i c other h = record {
    owns = h.owns;
    absent = look-IsAbsent c.db_name m.realm h.absent core false now l;
  }
  TaskMove-others (evict_stale name) own i c other h = record {
    owns = h.owns;
    absent = evict-IsAbsent c.db_name m.realm h.absent name;
  }
  TaskMove-others (wake name generation now) own i c other h = record {
    owns = h.owns;
    absent = wake-IsAbsent c.db_name m.realm h.absent name generation now;
  }

  TaskMove-Holds :
      {p p' : Stage} {m' : Shared}
      → TaskMove t m p m' p'
      → Holds t p m
      → (i : ℕ) (q : Stage) → (t == i) ≡ false
      → Holds i q m
      → Holds i q m'
  TaskMove-Holds mv own i outside other h = tt
  TaskMove-Holds mv own i (waiting c) other h = tt
  TaskMove-Holds mv own i (opening c) other h = TaskMove-others mv own i c other h

  -- What it leaves to the task that moves.
  TaskMove-mover : {p p' : Stage} {m' : Shared} → TaskMove t m p m' p' → Holds t p m → Holds t p' m'
  TaskMove-mover (missing_under_lock core now l free missing) own = record {
    owns = owner_of-set_lock core.db_name (some t) m.locks;
    absent = evict-gone core.db_name (look_up core true now l m.realm).1;
  }
  TaskMove-mover (evict_again core) own = record {
    owns = own.owns;
    absent = evict-IsAbsent core.db_name m.realm own.absent core.db_name;
  }
  TaskMove-mover (close_own core db) own = record { owns = own.owns; absent = own.absent }
  TaskMove-mover (look_found core now l found) own = tt
  TaskMove-mover (look_missing core now l missing) own = tt
  TaskMove-mover (found_under_lock core now l free found) own = tt
  TaskMove-mover (open_failed core) own = tt
  TaskMove-mover (open_done core db now) own = tt
  TaskMove-mover (transact core now l) own = tt
  TaskMove-mover (evict_stale name) own = tt
  TaskMove-mover (wake name generation now) own = tt

Step-IsExclusive : {s u : System} → Step s u → IsExclusive s → IsExclusive u
Step-IsExclusive {s} (pick t {m} {p} mv) h i = elim (Bool-cases (t == i)) [
  | inl same ↦
      let here : t ≡ i = ground arith in
      rw same (subst (λ j. Holds j p m) here (TaskMove-mover t s.shared mv (h t)))
  | inr other ↦ rw other (TaskMove-Holds t s.shared mv (h t) i (s.stage i) other (h i))
]

Reach-IsExclusive : {realm : Realm} {s : System} → Reach realm s → IsExclusive s
Reach-IsExclusive start i = tt
Reach-IsExclusive (later r st) i = Step-IsExclusive st (Reach-IsExclusive r) i

opening-HasLock :
    {realm : Realm} {s : System} {c : IndexeddbCore}
    → Reach realm s
    → (i : ℕ) → s.stage i ≡ opening c
    → HasLock i c s.shared
opening-HasLock {s} r i e = subst (λ p. Holds i p s.shared) e (Reach-IsExclusive r i)

-- However the tasks of a realm take their turns, while one of them is in `open_client` for a database
-- no other one is.
pub one_opens :
    {realm : Realm} {s : System} {c d : IndexeddbCore}
    → Reach realm s
    → (i j : ℕ) → i ≢ j
    → s.stage i ≡ opening c
    → c.db_name ≡ d.db_name
    → s.stage j ≢ opening d
one_opens {s} r i j apart e same k =
    let first = (opening-HasLock r i e).owns in
    let second = (opening-HasLock r j k).owns in apart (cc (first, second, same))

-- However the tasks take their turns, while one of them is in `open_client` the cache has no connection
-- of the database, so the connection that it caches takes the place of none and none is closed for it.
pub opening-replaces_nothing :
    {realm : Realm} {s : System} {c : IndexeddbCore}
    → Reach realm s
    → (i : ℕ) → s.stage i ≡ opening c
    → (db : Database) (now : ℕ)
    → (s.shared.realm.cache c.db_name ≡ none)
      × ((cache_connection c.db_name db db.object_store_names now s.shared.realm).closed
          ≡ s.shared.realm.closed)
opening-replaces_nothing {s} {c} r i e db now =
    let absent = (opening-HasLock r i e).absent in
    (absent, insert-closes_nothing c.db_name db db.object_store_names now s.shared.realm absent)

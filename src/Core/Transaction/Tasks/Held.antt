-- ===== src/Core/Transaction/Tasks/Held.antt =====
-- An upgrade lock is held by a task in `open_client` alone.
use opendal_indexeddb.Base.{
  Str, false, Option, none, some, ℕ, ◌≡◌, ◌==◌, sym, ap, ◌∙◌, inl, inr, str_eq, str_eq_refl,
  str_eq→eq, arith, Bool-cases,
}
use opendal_indexeddb.Connection.Cache.{Realm}
use opendal_indexeddb.Connection.Locks.{
  Locks, set_lock, owner_of, owner_of-set_lock, owner_of-other, owner_of-upgrade_lock,
}
use opendal_indexeddb.Connection.Open.{IndexeddbCore}
use opendal_indexeddb.Core.Transaction.Tasks.{
  Stage, opening, Shared, TaskMove, look_found, look_missing, found_under_lock, missing_under_lock,
  evict_again, close_own, open_failed, open_done, transact, evict_stale, wake, System, Step, pick,
  Reach, start, later,
}

-- In `open_client`, for the database of that name.
abbrev pub IsOpening : Str → Stage → Type 0
IsOpening n (opening c) = c.db_name ≡ n
IsOpening n _ = ⊥

-- Whoever has a lock is in `open_client` for that database.
abbrev pub IsHeld : System → Type 0
IsHeld s = (n : Str) (i : ℕ) → owner_of s.shared.locks n ≡ some i → IsOpening n (s.stage i)

-- A lock that is set to an owner, and is held by another one, is one of another database.
set_lock-other :
    (name n : Str) (owner : Option ℕ) (locks : Locks) (i : ℕ)
    → owner_of (set_lock name owner locks) n ≡ some i
    → (owner ≡ some i → ⊥)
    → (str_eq name n ≡ false) × (owner_of locks n ≡ some i)
set_lock-other name n owner locks i e apart = elim (Bool-cases (str_eq name n)) [
  | inl same ↦
      let now_owned : owner_of (set_lock name owner locks) n ≡ owner =
        sym (ap (owner_of (set_lock name owner locks)) (str_eq→eq name n same))
        ∙ owner_of-set_lock name owner locks in
      absurd (apart (sym now_owned ∙ e))
  | inr other ↦ (other, sym (owner_of-other name n owner locks other) ∙ e)
]

module _ (t : ℕ) (m : Shared) where
  -- A move gives a lock to the task that moves alone.
  TaskMove-owner :
      {p p' : Stage} {m' : Shared}
      → TaskMove t m p m' p'
      → (n : Str) (i : ℕ) → (t == i) ≡ false
      → owner_of m'.locks n ≡ some i
      → owner_of m.locks n ≡ some i
  TaskMove-owner (look_missing core now l missing) n i other e =
      sym (owner_of-upgrade_lock core.db_name n m.locks) ∙ e
  TaskMove-owner (found_under_lock core now l free found) n i other e =
      (set_lock-other core.db_name n none m.locks i e (λ k. cc)).1
  TaskMove-owner (missing_under_lock core now l free missing) n i other e =
      (set_lock-other core.db_name n (some t) m.locks i e
        (λ k. let same : t ≡ i = cc in ground arith)).1
  TaskMove-owner (open_failed core) n i other e =
      (set_lock-other core.db_name n none m.locks i e (λ k. cc)).1
  TaskMove-owner (open_done core db now) n i other e =
      (set_lock-other core.db_name n none m.locks i e (λ k. cc)).1
  TaskMove-owner (look_found core now l found) n i other e = e
  TaskMove-owner (evict_again core) n i other e = e
  TaskMove-owner (close_own core db) n i other e = e
  TaskMove-owner (transact core now l) n i other e = e
  TaskMove-owner (evict_stale name) n i other e = e
  TaskMove-owner (wake name generation now) n i other e = e

  -- A lock that was given back is held for no database but another.
  given_back :
      (core : IndexeddbCore) (n : Str)
      → ((n : Str) → owner_of m.locks n ≡ some t → core.db_name ≡ n)
      → owner_of (set_lock core.db_name none m.locks) n ≡ some t
      → ⊥
  given_back core n held e =
      let (other, before) = set_lock-other core.db_name n none m.locks t e (λ k. cc) in
      let same = held n before in
      let equal = ap (str_eq core.db_name) same in
      let self = str_eq_refl core.db_name in absurd (cc (other, equal, self))

  TaskMove-IsOpening :
      {p p' : Stage} {m' : Shared}
      → TaskMove t m p m' p'
      → ((n : Str) → owner_of m.locks n ≡ some t → IsOpening n p)
      → (n : Str) → owner_of m'.locks n ≡ some t
      → IsOpening n p'
  TaskMove-IsOpening (look_missing core now l missing) held n e =
      held n (sym (owner_of-upgrade_lock core.db_name n m.locks) ∙ e)
  TaskMove-IsOpening (found_under_lock core now l free found) held n e =
      held n (set_lock-other core.db_name n none m.locks t e (λ k. cc)).1
  TaskMove-IsOpening (missing_under_lock core now l free missing) held n e =
      elim (Bool-cases (str_eq core.db_name n)) [
        | inl same ↦ str_eq→eq core.db_name n same
        | inr other ↦
            absurd (held n (sym (owner_of-other core.db_name n (some t) m.locks other) ∙ e))
      ]
  TaskMove-IsOpening (open_failed core) held n e = given_back core n held e
  TaskMove-IsOpening (open_done core db now) held n e = given_back core n held e
  TaskMove-IsOpening (look_found core now l found) held n e = held n e
  TaskMove-IsOpening (evict_again core) held n e = held n e
  TaskMove-IsOpening (close_own core db) held n e = held n e
  TaskMove-IsOpening (transact core now l) held n e = held n e
  TaskMove-IsOpening (evict_stale name) held n e = held n e
  TaskMove-IsOpening (wake name generation now) held n e = held n e

Step-IsHeld : {s u : System} → Step s u → IsHeld s → IsHeld u
Step-IsHeld {s} (pick t {m} {p} mv) held n i e = elim (Bool-cases (t == i)) [
  | inl same ↦
      let here : t ≡ i = ground arith in
      let mine : owner_of m.locks n ≡ some t = e ∙ ap some (sym here) in
      rw same (TaskMove-IsOpening t s.shared mv (λ n' e'. held n' t e') n mine)
  | inr other ↦ rw other (held n i (TaskMove-owner t s.shared mv n i other e))
]

pub Reach-IsHeld : {realm : Realm} {s : System} → Reach realm s → IsHeld s
Reach-IsHeld start n i e = cc
Reach-IsHeld (later r st) n i e = Step-IsHeld st (Reach-IsHeld r) n i e

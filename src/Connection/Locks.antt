-- ===== src/Connection/Locks.antt =====
-- `UPGRADE_LOCKS` of src/backend/connection.rs: a mutex for each database of the realm.
use opendal_indexeddb.Base.{
  Str, Option, none, some, ℕ, ◌≡◌, refl, str_eq, str_eq_refl, and_then, if◌then◌else◌, Bool-cases,
  Option-cases, inl, inr, false, str_eq→eq, ap, ◌∙◌, sym,
}

-- `futures_util::lock::Mutex<()>`, as its waiters see it: the task that holds it, if any.
pub record Mutex : Type 0 where
  pub held_by : Option ℕ

abbrev pub Locks : Type 0
Locks = Str → Option Mutex

abbrev pub set_lock : Str → Option ℕ → Locks → Locks
set_lock name owner locks j = if str_eq name j then some (record { held_by = owner }) else locks j

-- The mutex of the database, made where there is none yet.
unfoldable pub upgrade_lock : Str → Locks → Locks
upgrade_lock name locks = elim (locks name) [ some _ ↦ locks | none ↦ set_lock name none locks ]

-- Who holds the lock of a database.
abbrev pub owner_of : Locks → Str → Option ℕ
owner_of locks name = and_then (locks name) (λ m. m.held_by)

pub owner_of-set_lock :
    (name : Str) (owner : Option ℕ) (locks : Locks)
    → owner_of (set_lock name owner locks) name ≡ owner
owner_of-set_lock name owner locks = rw (str_eq_refl name) refl

pub owner_of-other :
    (name n : Str) (owner : Option ℕ) (locks : Locks)
    → str_eq name n ≡ false
    → owner_of (set_lock name owner locks) n ≡ owner_of locks n
owner_of-other name n owner locks e = rw e refl

-- A lock that is made is held by no one.
pub owner_of-upgrade_lock :
    (name n : Str) (locks : Locks) → owner_of (upgrade_lock name locks) n ≡ owner_of locks n
unfolding upgrade_lock
owner_of-upgrade_lock name n locks = elim (Option-cases (locks name)) [
  | inr (m, e) ↦ rw (upgrade_lock, e) refl
  | inl e ↦ elim (Bool-cases (str_eq name n)) [
    | inl same ↦
        let here : locks n ≡ none = ap locks (sym (str_eq→eq name n same)) ∙ e in
        rw (upgrade_lock, e, same, here) refl
    | inr other ↦ rw (upgrade_lock, e, other) refl
  ]
]

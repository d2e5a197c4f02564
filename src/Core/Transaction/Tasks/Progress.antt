-- ===== src/Core/Transaction/Tasks/Progress.antt =====
-- What the tasks of a realm can always do: come by the upgrade lock they wait for, and run a transaction.
use opendal_indexeddb.Base.{if◌then◌else◌, some}
use opendal_indexeddb.Base.{
  Str, true, false, none, ℕ, ◌≡◌, ◌==◌, refl, sym, ap, ◌∙◌, ◌⊎◌, inl, inr, subst, arith, Bool-cases,
  Option-cases,
}
use opendal_indexeddb.Connection.Cache.{Realm}
use opendal_indexeddb.Connection.Locks.{set_lock, owner_of, owner_of-set_lock}
use opendal_indexeddb.Connection.Open.{IndexeddbCore}
use opendal_indexeddb.Core.Transaction.{look_up}
use opendal_indexeddb.Core.Transaction.Tasks.{
  Stage, outside, waiting, opening, Shared, TaskMove, found_under_lock, missing_under_lock,
  open_failed, System, set_stage, Step, pick, Reach,
}
use opendal_indexeddb.Core.Transaction.Tasks.Held.{IsOpening, Reach-IsHeld}

opening_for :
    (n : Str) (p : Stage) → IsOpening n p → (c : IndexeddbCore) × (p ≡ opening c) × (c.db_name ≡ n)
opening_for n (opening c) h = (c, refl, h)
opening_for n outside h = absurd h
opening_for n (waiting c) h = absurd h

-- Steps of whatever tasks.
pub data Steps (s : System) : System → Type 0 where
  no_step : Steps s s
  then_step : {u v : System} → Steps s u → Step u v → Steps s v

abbrev moved : System → ℕ → Shared → Stage → System
moved s t m p = record { shared = m; stage = set_stage t p s.stage }

-- A move of a task whose stage is known.
pick_at :
    (s : System) (t : ℕ) {p q : Stage} {m : Shared}
    → s.stage t ≡ p
    → TaskMove t s.shared p m q
    → Step s (moved s t m q)
pick_at s t {p} {q} {m} e mv = pick t (subst (λ p'. TaskMove t s.shared p' m q) (sym e) mv)

set_stage-same : (t : ℕ) (p : Stage) (stage : ℕ → Stage) → set_stage t p stage t ≡ p
set_stage-same t p stage = let same : (t == t) ≡ true = ground arith in rw same refl

-- Where a task stands once it has the lock: it goes by what the cache says then.
abbrev pub behind_lock : IndexeddbCore → ℕ → ℕ → Realm → Stage
behind_lock c now l realm = if (look_up c true now l realm).0 then outside else opening c

-- Where the lock is free, a task that waits for it goes on.
free-proceeds :
    (s : System) (i : ℕ) (c : IndexeddbCore) (now l : ℕ)
    → s.stage i ≡ waiting c
    → owner_of s.shared.locks c.db_name ≡ none
    → (u : System) × Step s u × (u.stage i ≡ behind_lock c now l s.shared.realm)
free-proceeds s i c now l e free = elim (Bool-cases (look_up c true now l s.shared.realm).0) [
  | inl found ↦ (
    _,
    pick_at s i e (found_under_lock c now l free found),
    set_stage-same i outside s.stage ∙ rw found refl,
  )
  | inr missing ↦ (
    _,
    pick_at s i e (missing_under_lock c now l free missing),
    set_stage-same i (opening c) s.stage ∙ rw missing refl,
  )
]

-- However the tasks have taken their turns, one that waits for the upgrade lock is not stuck: by one
-- step where the lock is free, or else by two, the first of another task that is in `open_client` for
-- the database and leaves it, the waiting task gets through the lock at whatever times it then looks at
-- the cache. It is then outside where the cache has the connection, and in `open_client` where it has
-- not. A task that waits is not dropped here.
pub waiting_proceeds :
    {realm : Realm} {s : System}
    → Reach realm s
    → (i : ℕ) (c : IndexeddbCore) (now l : ℕ) → s.stage i ≡ waiting c
    → (u : System) × (u.stage i ≡ behind_lock c now l s.shared.realm)
      × (((owner_of s.shared.locks c.db_name ≡ none) × Step s u)
          ⊎ ((j : ℕ) × (v : System) × (owner_of s.shared.locks c.db_name ≡ some j)
              × IsOpening c.db_name (s.stage j)
              × Step s v
              × (v.stage j ≡ outside)
              × (v.stage i ≡ waiting c)
              × (owner_of v.shared.locks c.db_name ≡ none)
              × Step v u))
waiting_proceeds {s} r i c now l e = elim (Option-cases (owner_of s.shared.locks c.db_name)) [
  | inl free ↦
      let (u, step, there) = free-proceeds s i c now l e free in (u, there, inl (free, step))
  | inr (j, held) ↦
      let opens = Reach-IsHeld r c.db_name j held in
      let (d, inside, same) = opening_for c.db_name (s.stage j) opens in
      let m = record s.shared { locks = set_lock d.db_name none s.shared.locks } in
      let s1 = moved s j m outside in
      let first = pick_at s j inside (open_failed d) in
      let apart : (j == i) ≡ false = elim (Bool-cases (j == i)) [
        | inl one ↦
            let k : j ≡ i = ground arith in
            let clash : opening d ≡ waiting c = sym inside ∙ ap s.stage k ∙ e in absurd (cc clash)
        | inr two ↦ two
      ] in
      let waits : s1.stage i ≡ waiting c = rw apart e in
      let free : owner_of s1.shared.locks c.db_name ≡ none =
        ap (owner_of s1.shared.locks) (sym same)
        ∙ owner_of-set_lock d.db_name none s.shared.locks in
      let (u, step, there) = free-proceeds s1 i c now l waits free in
      (
        u,
        there,
        inr (j, s1, held, opens, first, set_stage-same j outside s.stage, waits, free, step),
      )
]

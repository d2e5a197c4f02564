-- ===== src/Core/Transaction/Interleavings/Invariant.antt =====
-- A sound connection cache, and the changes to its entries that keep it sound.
use opendal_indexeddb.Base.{
  Str, true, false, ◌==◌, Option, none, some, ℕ, ◌≡◌, refl, sym, ap, ◌∙◌, ◌⊎◌, inl, inr, str_eq,
  str_eq→eq, arith, Bool-cases, subst,
}
use opendal_indexeddb.Connection.Cache.{Database, CachedConnection, Realm, set_entry, close}
use opendal_indexeddb.Core.Transaction.{touch}
use opendal_indexeddb.Core.Transaction.Interleavings.{is_closed, has_task}

pub record IsSound (realm : Realm) : Type 0 where
  -- what is cached is not closed
  pub is_open :
      (n : Str) (c : CachedConnection)
      → realm.cache n ≡ some c
      → is_closed realm.closed c.db ≡ false
  -- a connection is cached once
  pub one_name :
      (n m : Str) (c d : CachedConnection)
      → realm.cache n ≡ some c
      → realm.cache m ≡ some d
      → (c.db.handle == d.db.handle) ≡ true
      → str_eq n m ≡ true
  -- its cleanup task was spawned
  pub is_watched :
      (n : Str) (c : CachedConnection)
      → realm.cache n ≡ some c
      → has_task realm.tasks n c.generation ≡ true

-- An entry of the cache that was set, or was there before.
pub entry_cases :
    (name n : Str) (entry : Option CachedConnection) (realm : Realm) (c : CachedConnection)
    → (set_entry name entry realm).cache n ≡ some c
    → ((str_eq name n ≡ true) × (entry ≡ some c))
      ⊎ ((str_eq name n ≡ false) × (realm.cache n ≡ some c))
entry_cases name n entry realm c h = elim (Bool-cases (str_eq name n)) [
  | inl e ↦ inl (e, rw e at h)
  | inr e ↦ inr (e, rw e at h)
]

-- A cache that holds no other connections than another one.
abbrev Within : (Str → Option CachedConnection) → (Str → Option CachedConnection) → Type 0
Within cache old =
    (n : Str) (c : CachedConnection)
    → cache n ≡ some c
    → (d : CachedConnection) × (old n ≡ some d) × (d.db ≡ c.db) × (d.generation ≡ c.generation)

module _ (realm : Realm) (sound : IsSound realm) where
  Within-IsSound :
      (cache : Str → Option CachedConnection)
      → Within cache realm.cache
      → IsSound (record realm { cache = cache })
  Within-IsSound cache within = record {
    is_open = λ n c h.
        let (d, here, e, _) = within n c h in
        subst (λ db. is_closed realm.closed db ≡ false) e (sound.is_open n d here);
    one_name = λ n m c d h k same.
        let (c', here, e, _) = within n c h in
        let (d', there, e', _) = within m d k in
        sound.one_name n m c' d' here there (
          subst (λ db. (c'.db.handle == db.handle) ≡ true) (sym e')
            (subst (λ db. (db.handle == d.db.handle) ≡ true) (sym e) same));
    is_watched = λ n c h.
        let (d, here, _, e) = within n c h in
        subst (λ g. has_task realm.tasks n g ≡ true) e (sound.is_watched n d here);
  }

  -- A connection is closed that is not cached.
  pub close-IsSound :
      (db : Database)
      → ((n : Str) (c : CachedConnection)
          → realm.cache n ≡ some c
          → (c.db.handle == db.handle) ≡ false)
      → IsSound (close db realm)
  close-IsSound db apart = record {
    is_open = λ n c h. let other = apart n c h in let still = sound.is_open n c h in ground arith;
    one_name = sound.one_name;
    is_watched = sound.is_watched;
  }

  pub drop-IsSound : (name : Str) → IsSound (set_entry name none realm)
  drop-IsSound name = Within-IsSound _ (λ n c h. elim (entry_cases name n none realm c h) [
    | inl (_, e) ↦ cc
    | inr (_, e) ↦ (c, e, refl, refl)
  ])

  pub touch-IsSound :
      (name : Str) (cached : CachedConnection) (now : ℕ)
      → realm.cache name ≡ some cached
      → IsSound (touch name cached now realm)
  unfolding touch
  touch-IsSound name cached now e = Within-IsSound _ (λ n c h.
      elim (entry_cases name n (some (record cached { last_used_ms = now })) realm c h) [
        | inl (same, e') ↦
            let used : record cached { last_used_ms = now } ≡ c = cc in
            (
              cached,
              ap realm.cache (sym (str_eq→eq name n same)) ∙ e,
              ap (λ d. d.db) used,
              ap (λ d. d.generation) used,
            )
        | inr (_, e') ↦ (c, e', refl, refl)
      ])

  -- The connection of a name is not that of another one.
  pub apart_from :
      (name : Str) (cached : CachedConnection) (n : Str) (c : CachedConnection)
      → realm.cache name ≡ some cached
      → str_eq name n ≡ false
      → realm.cache n ≡ some c
      → (c.db.handle == cached.db.handle) ≡ false
  apart_from name cached n c e other h = elim (Bool-cases (c.db.handle == cached.db.handle)) [
    | inl same ↦
        let flipped : (cached.db.handle == c.db.handle) ≡ true = ground arith in
        absurd (cc (sound.one_name name n cached c e h flipped, other))
    | inr apart ↦ apart
  ]

-- ===== src/Io/Limits.antt =====
-- Bounds on pages, and on what a lister emits.
use opendal_indexeddb.Base.{
  true, false, Option, none, some, ℕ, zero, suc, ◌+◌, ◌*◌, ◌^◌, ◌≤◌, ◌<◌, ◌≡◌, refl, ap, min, max,
  List, [], ◌∷◌, take, leb, Result, ok, err, arith,
}
use opendal_indexeddb.Base.Exec.{Exec, continue}
use opendal_indexeddb.Io.{
  list_page_size, IndexeddbLimitLister, new_limit_lister, limit_next, count_entry,
}

-- A page asks for at least one key and at most 1024, and for four times the limit between the two, for
-- any limit below 2^30.
pub list_page_size_bounds :
    (limit : ℕ)
    → limit < 2 ^ 30
    → (1 ≤ list_page_size (some limit))
      × (list_page_size (some limit) ≤ 1024)
      × (list_page_size (some limit) ≡ min (4 * max limit 1) 1024)
unfolding list_page_size
list_page_size_bounds limit h = omega arith

-- At each multiple of 2^30 that a `usize` of 32 bits holds, but zero, the product wraps to zero and a
-- page asks for no key.
pub list_page_size_wraps : (n : ℕ) → 1 ≤ n → n < 4 → list_page_size (some (n * 2 ^ 30)) ≡ 0
unfolding list_page_size
list_page_size_wraps n h k = omega arith

-- What one call adds to the entries: an entry, nothing at the end, and no more after an error.
abbrev pub gather : {W P E : Type 0} → Result (Option E × P) × W → (P → W → List E) → List E
gather (ok (some entry, self), w) rest = entry ∷ rest self w
gather (ok (none, self), w) rest = rest self w
gather (err e, w) rest = []

-- The entries that a number of calls of `next` emit.
unfoldable pub drive : {W P E : Type 0} → (P → Exec W (Option E × P)) → ℕ → P → W → List E
drive next zero self w = []
drive next (suc n) self w = gather (next self w) (drive next n)

module _ {W P E : Type 0} (next : P → Exec W (Option E × P)) where
  abbrev limited : P → ℕ → ℕ → IndexeddbLimitLister P
  limited inner limit emitted = record { inner = inner; limit = some limit; emitted = emitted }

  abbrev unlimited : P → ℕ → IndexeddbLimitLister P
  unlimited inner emitted = record { inner = inner; limit = none; emitted = emitted }

  drive-exhausted :
      (n : ℕ) (inner : P) (limit emitted : ℕ) (w : W)
      → leb limit emitted ≡ true
      → drive (limit_next next) n (limited inner limit emitted) w ≡ []
  unfolding drive limit_next
  drive-exhausted zero inner limit emitted w full = refl
  drive-exhausted (suc n) inner limit emitted w full =
      rw full (drive-exhausted n inner limit emitted w full)

  -- One call, where there is room for `suc m` more entries.
  gather-limited :
      (n : ℕ) (inner : P) (limit emitted m : ℕ) (r : Result (Option E × P) × W)
      → ((inner' : P) (w : W)
          → drive (limit_next next) n (limited inner' limit emitted) w
            ≡ take (suc m) (drive next n inner' w))
      → ((inner' : P) (w : W)
          → drive (limit_next next) n (limited inner' limit (emitted + 1)) w
            ≡ take m (drive next n inner' w))
      → gather (continue r (count_entry (limited inner limit emitted))) (drive (limit_next next) n)
        ≡ take (suc m) (gather r (drive next n))
  unfolding count_entry
  gather-limited n inner limit emitted m (ok (some e, inner'), w) same one_less =
      ap (λ l. e ∷ l) (one_less inner' w)
  gather-limited n inner limit emitted m (ok (none, inner'), w) same one_less = same inner' w
  gather-limited n inner limit emitted m (err e, w) same one_less = refl

  drive-limited :
      (n m : ℕ) (inner : P) (limit emitted : ℕ) (w : W)
      → limit ≡ emitted + m
      → drive (limit_next next) n (limited inner limit emitted) w ≡ take m (drive next n inner w)
  unfolding drive limit_next
  drive-limited n zero inner limit emitted w e =
      drive-exhausted n inner limit emitted w (ground arith)
  drive-limited zero (suc m) inner limit emitted w e = refl
  drive-limited (suc n) (suc m) inner limit emitted w e =
      let room : leb limit emitted ≡ false = ground arith in
      rw room (
        gather-limited n inner limit emitted m (next inner w)
          (λ inner' w'. drive-limited n (suc m) inner' limit emitted w' e)
          (λ inner' w'. drive-limited n m inner' limit (emitted + 1) w' (omega arith)))

  -- A lister with a limit emits exactly the first entries of the lister within, as many as the limit
  -- says, however often it is called.
  pub drive-limit :
      (n limit : ℕ) (inner : P) (w : W)
      → drive (limit_next next) n (new_limit_lister inner (some limit)) w
        ≡ take limit (drive next n inner w)
  unfolding new_limit_lister
  drive-limit n limit inner w = drive-limited n limit inner limit 0 w (omega arith)

  gather-unlimited :
      (n : ℕ) (inner : P) (emitted : ℕ) (r : Result (Option E × P) × W)
      → ((inner' : P) (emitted : ℕ) (w : W)
          → drive (limit_next next) n (unlimited inner' emitted) w ≡ drive next n inner' w)
      → gather (continue r (count_entry (unlimited inner emitted))) (drive (limit_next next) n)
        ≡ gather r (drive next n)
  unfolding count_entry
  gather-unlimited n inner emitted (ok (some e, inner'), w) same =
      ap (λ l. e ∷ l) (same inner' (emitted + 1) w)
  gather-unlimited n inner emitted (ok (none, inner'), w) same = same inner' emitted w
  gather-unlimited n inner emitted (err e, w) same = refl

  drive-unlimited :
      (n : ℕ) (inner : P) (emitted : ℕ) (w : W)
      → drive (limit_next next) n (unlimited inner emitted) w ≡ drive next n inner w
  unfolding drive limit_next
  drive-unlimited zero inner emitted w = refl
  drive-unlimited (suc n) inner emitted w =
      gather-unlimited n inner emitted (next inner w) (drive-unlimited n)

  -- With a limit or without.
  abbrev pub at_most : Option ℕ → List E → List E
  at_most none entries = entries
  at_most (some limit) entries = take limit entries

  pub drive-at_most :
      (n : ℕ) (limit : Option ℕ) (inner : P) (w : W)
      → drive (limit_next next) n (new_limit_lister inner limit) w
        ≡ at_most limit (drive next n inner w)
  unfolding new_limit_lister
  drive-at_most n none inner w = drive-unlimited n inner 0 w
  drive-at_most n (some limit) inner w = drive-limit n limit inner w

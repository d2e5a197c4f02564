-- ===== src/Service/Scopes.antt =====
-- Services with different roots over the same object stores: calls under one root leave the rest alone.
use opendal_indexeddb.Base.{
  Str, Bool, true, false, ℕ, ◌≡◌, refl, ap, ◌∙◌, List, [], ◌∷◌, ◌++◌, str_eq, str_eq→eq,
  starts_with, ends_with_slash, lit, arith, Bool-cases, inl, inr,
}
use opendal_indexeddb.Connection.Open.{Browser, IndexeddbCore, World}
use opendal_indexeddb.Files.Model
use opendal_indexeddb.Files.Model.{
  Object, Files, done, refused, update, permits, wanted, etag, names_path, removed, remove,
}
use opendal_indexeddb.Files.Represents.{Represents}
use opendal_indexeddb.Files.Writes.{write-done, write-refused, update-other}
use opendal_indexeddb.Idb.{StoreApi, IsStore, External}
use opendal_indexeddb.Meta.Payload.{etag_from_bytes}
use opendal_indexeddb.Service.Calls.{
  Call, set_call, copy_call, rename_call, delete_call, read_call, stat_call, Reply, promised,
  perform, perform_all, dated,
}
use opendal_indexeddb.Service.Faults.{perform_all-Obeys}
use opendal_indexeddb.Service.Obedience.{Obeys, nothing, served, broken, oversized}
use opendal_indexeddb.Service.Sequences.{AreTexts}

abbrev pub AreUnder : Str → List (Str × Bool) → Type 0
AreUnder root [] = Unit
AreUnder root ((path, recursive) ∷ batch) = (starts_with root path ≡ true) × AreUnder root batch

-- The paths that a call writes are below the root.
abbrev pub IsUnder : Str → Call → Type 0
IsUnder root (set_call path bytes args) = starts_with root path ≡ true
IsUnder root (copy_call from to if_not_exists if_match) = starts_with root to ≡ true
IsUnder root (rename_call from to) = (starts_with root from ≡ true) × (starts_with root to ≡ true)
IsUnder root (delete_call batch) = AreUnder root batch
IsUnder root (read_call path args) = Unit
IsUnder root (stat_call path) = Unit

abbrev pub AllUnder : Str → List Call → Type 0
AllUnder root [] = Unit
AllUnder root (call ∷ calls) = IsUnder root call × AllUnder root calls

abbrev AllDatedUnder : Str → List (ℕ × Call) → Type 0
AllDatedUnder root [] = Unit
AllDatedUnder root ((now, call) ∷ calls) = IsUnder root call × AllDatedUnder root calls

starts_with-through :
    (p q k : Str) → starts_with p q ≡ true → starts_with q k ≡ true → starts_with p k ≡ true
starts_with-through [] q k h j = refl
starts_with-through (a ∷ p) [] k h j = cc
starts_with-through (a ∷ p) (b ∷ q) [] h j = cc
starts_with-through (a ∷ p) (b ∷ q) (c ∷ k) h j = ground (arith, starts_with-through p q k)

starts_with-front : (p q k : Str) → starts_with (p ++ q) k ≡ true → starts_with p k ≡ true
starts_with-front [] q k h = refl
starts_with-front (a ∷ p) q [] h = cc
starts_with-front (a ∷ p) q (c ∷ k) h = ground (arith, starts_with-front p q k)

module _ (root k : Str) (elsewhere : starts_with root k ≡ false) where
  not_under : (path : Str) → starts_with root path ≡ true → str_eq path k ≡ false
  not_under path under = elim (Bool-cases (str_eq path k)) [
    | inr other ↦ other
    | inl same ↦
        let here = ap (starts_with root) (str_eq→eq path k same) in
        absurd (cc (here, under, elsewhere))
  ]

  not_below : (path : Str) → starts_with root path ≡ true → starts_with path k ≡ false
  not_below path under = elim (Bool-cases (starts_with path k)) [
    | inr other ↦ other
    | inl below ↦
        let here = starts_with-through root path k under below in absurd (cc (here, elsewhere))
  ]

  not_named :
      (path : Str) (recursive : Bool)
      → starts_with root path ≡ true
      → names_path path recursive k ≡ false
  not_named path false under = not_under path under
  not_named [] true under =
      let here = starts_with-through root [] k under refl in absurd (cc (here, elsewhere))
  not_named (c ∷ path) true under =
      let exact = not_under (c ∷ path) under in
      let below = not_below (c ∷ path) under in
      let behind : starts_with ((c ∷ path) ++ lit "/") k ≡ false =
        elim (Bool-cases (starts_with ((c ∷ path) ++ lit "/") k)) [
          | inr other ↦ other
          | inl inside ↦
              let front = starts_with-front (c ∷ path) (lit "/") k inside in
              absurd (cc (front, below))
        ] in
      elim (Bool-cases (ends_with_slash (c ∷ path))) [
        | inl slash ↦ rw slash below
        | inr plain ↦ rw (plain, exact) behind
      ]

  not_removed : (batch : List (Str × Bool)) → AreUnder root batch → removed batch k ≡ false
  not_removed [] under = refl
  not_removed ((path, recursive) ∷ batch) (here, rest) =
      rw (not_named path recursive here) (not_removed batch rest)

  module _ (x : External) where
    promised-elsewhere :
        (call : Call) (now : ℕ) (f : Files) → IsUnder root call → (promised x call now f).1 k ≡ f k
    unfolding promised remove Model.copy Model.rename
    promised-elsewhere (set_call path bytes args) now f under =
        elim (Bool-cases (permits (etag_from_bytes x.hash_hex) args (f path))) [
          | inl allowed ↦
              rw (write-done (etag_from_bytes x.hash_hex) path bytes args now f allowed)
                (update-other f path k _ (not_under path under))
          | inr forbidden ↦
              rw (write-refused (etag_from_bytes x.hash_hex) path bytes args now f forbidden) refl
        ]
    promised-elsewhere (copy_call from to if_not_exists if_match) now f under =
        let other = not_under to under in ground arith
    promised-elsewhere (rename_call from to) now f (under_from, under_to) =
        let other = not_under from under_from in let another = not_under to under_to in ground arith
    promised-elsewhere (delete_call batch) now f under = rw (not_removed batch under) refl
    promised-elsewhere (read_call path args) now f under = refl
    promised-elsewhere (stat_call path) now f under = refl

    Obeys-elsewhere :
        {calls : List (ℕ × Call)} {f : Files} {replies : List Reply} {g : Files}
        → Obeys x calls f replies g
        → AllDatedUnder root calls
        → g k ≡ f k
    Obeys-elsewhere (nothing f) under = refl
    Obeys-elsewhere (served now call {f = f} rest) (here, under) =
        Obeys-elsewhere rest under ∙ promised-elsewhere call now f here
    Obeys-elsewhere (broken now call rest) (here, under) = Obeys-elsewhere rest under
    Obeys-elsewhere (oversized now call large rest) (here, under) = Obeys-elsewhere rest under

module _ (b : Browser) (api : StoreApi) (laws : IsStore api) (x : External)
    (core : IndexeddbCore) where
  dated-AllUnder :
      (root : Str) (calls : List Call) (w : World b.Env api.Store)
      → AllUnder root calls
      → AllDatedUnder root (dated b api x core calls w)
  unfolding dated
  dated-AllUnder root [] w under = tt
  dated-AllUnder root (call ∷ calls) w (here, under) =
      (here, dated-AllUnder root calls (perform b api x core call w).1 under)

  -- On any browser, calls that write below a root only, in whatever order they run and whether they fail
  -- or not, leave the objects elsewhere as they are, recursive deletions of the root included: stores
  -- that stand for a map of objects before stand for one behind them that has the same objects under
  -- all paths that do not start with the root. The paths of deletions are valid UTF-8.
  pub perform_all-elsewhere :
      (root : Str) (calls : List Call) (w : World b.Env api.Store) (f : Files)
      → AllUnder root calls
      → AreTexts calls
      → Represents (etag_from_bytes x.hash_hex) api w.stores f
      → (g : Files) × Represents
          (etag_from_bytes x.hash_hex)
          api
          (perform_all b api x core calls w).1.stores
          g
        × ((k : Str) → starts_with root k ≡ false → g k ≡ f k)
  perform_all-elsewhere root calls w f under texts h =
      let (g, obeys, stands) = perform_all-Obeys b api laws x core calls w f texts h in
      (
        g,
        stands,
        λ k elsewhere. Obeys-elsewhere root k elsewhere x obeys (dated-AllUnder root calls w under),
      )

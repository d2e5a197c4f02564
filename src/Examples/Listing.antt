-- ===== src/Examples/Listing.antt =====
-- Listings of a concrete store: the objects `docs/a` and `docs/b`.
use opendal_indexeddb.Base.{
  Str, Bool, true, some, ℕ, zero, suc, ◌≡◌, refl, ap, ◌∙◌, List, [], ◌∷◌, map, take, All, All-map,
  All-both, select, Ascending, js_lt, js_le, js_weight, lex_lt_irrefl, str_eq, str_eq_refl,
  str_eq→eq, is_some, ok, arith, Bool-cases, inl, inr, ◌&&◌,
}
use opendal_indexeddb.Core.Scan.Entries.{HasCursor, IsRecord}
use opendal_indexeddb.Core.Scan.Keys.{HasKeys, has_key, in_bounds}
use opendal_indexeddb.Examples.Shelf.{Shelf, shelf, find, keep, name_of}
use opendal_indexeddb.Idb.{text}
use opendal_indexeddb.Meta.Payload.{JsValue, key_of}

take-map : {A B : Type 0} (f : A → B) (n : ℕ) (xs : List A) → take n (map f xs) ≡ map f (take n xs)
take-map f zero xs = refl
take-map f (suc n) [] = refl
take-map f (suc n) (x ∷ xs) = ap (λ l. f x ∷ l) (take-map f n xs)

-- A shelf in ascending order is a store of text keys as IndexedDB documents it.
keys-keep :
    (p : Str → Bool) (s : Shelf) → map name_of (keep p s) ≡ map text (select p (map key_of s))
keys-keep p [] = refl
keys-keep p (v ∷ s) = elim (Bool-cases (p (key_of v))) [
  | inl e ↦ rw e (ap (λ l. name_of v ∷ l) (keys-keep p s))
  | inr e ↦ rw e (keys-keep p s)
]

find-has_key : (s : Shelf) (k : Str) → is_some (find s k) ≡ has_key (map key_of s) k
unfolding find
find-has_key [] k = refl
find-has_key (v ∷ s) k = ground (arith, find-has_key s k)

pub shelf-HasKeys : (s : Shelf) → Ascending (map key_of s) → HasKeys shelf s (map key_of s)
shelf-HasKeys s h = record {
  ascends = h;
  holds = find-has_key s;
  fetches = λ lower lower_open upper n e. ap ok (
      ap (take n) (keys-keep (in_bounds lower lower_open upper) s)
      ∙ take-map text n (select (in_bounds lower lower_open upper) (map key_of s)));
}

-- Each record is found at its own key.
abbrev IsOwn : Shelf → JsValue → Type 0
IsOwn s v = find s (key_of v) ≡ some v

find-behind :
    (u v : JsValue) (s : Shelf) → js_lt (key_of u) (key_of v) ≡ true → IsOwn s v → IsOwn (u ∷ s) v
unfolding find
find-behind u v s h own = elim (Bool-cases (str_eq (key_of u) (key_of v))) [
  | inl same ↦ absurd (
      cc (
        h,
        ap (js_lt (key_of u)) (str_eq→eq (key_of u) (key_of v) same),
        lex_lt_irrefl js_weight (key_of u),
      ))
  | inr other ↦ rw other own
]

All-from-map :
    {A B : Type 0} (P : B → Type 0) (f : A → B) (xs : List A)
    → All P (map f xs)
    → All (λ x. P (f x)) xs
All-from-map P f [] h = tt
All-from-map P f (x ∷ xs) h = (h.0, All-from-map P f xs h.1)

All-to-map :
    {A B : Type 0} (P : B → Type 0) (f : A → B) (xs : List A)
    → All (λ x. P (f x)) xs
    → All P (map f xs)
All-to-map P f [] h = tt
All-to-map P f (x ∷ xs) h = (h.0, All-to-map P f xs h.1)

finds-IsOwn : (s : Shelf) → Ascending (map key_of s) → All (IsOwn s) s
unfolding find
finds-IsOwn [] h = tt
finds-IsOwn (u ∷ s) h = (
  rw (str_eq_refl (key_of u)) refl,
  All-map _ _ s (λ v k. find-behind u v s k.0 k.1)
      (All-both _ _ s (All-from-map _ key_of s h.0) (finds-IsOwn s h.1)),
)

All-keep : (P : JsValue → Type 0) (p : Str → Bool) (s : Shelf) → All P s → All P (keep p s)
All-keep P p [] h = tt
All-keep P p (v ∷ s) h = elim (Bool-cases (p (key_of v))) [
  | inl e ↦ rw e (h.0, All-keep P p s h.1)
  | inr e ↦ rw e (All-keep P p s h.1)
]

pub shelf-HasCursor : (s : Shelf) → Ascending (map key_of s) → HasCursor shelf s
shelf-HasCursor s h = record {
  visits = λ lo hi.
      All-to-map (IsRecord shelf s) (λ v. (name_of v, v)) (keep (λ j. js_le lo j && js_le j hi) s)
        (All-map _ _ (keep (λ j. js_le lo j && js_le j hi) s)
          (λ v own name same. let e : name ≡ key_of v = cc in ap (find s) e ∙ own)
          (All-keep (IsOwn s) (λ j. js_le lo j && js_le j hi) s (finds-IsOwn s h)));
}

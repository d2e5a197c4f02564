-- ===== src/Examples/Shelf.antt =====
-- A concrete object store: the records in the order of their keys.
use opendal_indexeddb.Base.{
  Str, Bool, Option, none, some, List, [], ◌∷◌, map, ◌≡◌, refl, ◌&&◌, not, is_some, ok, str_eq,
  str_eq_iff, js_le, js_lt, take, arith, if◌then◌else◌,
}
use opendal_indexeddb.Core.Scan.Keys.{in_bounds}
use opendal_indexeddb.Idb.{StoreApi, IsStore, JsKey, text}
use opendal_indexeddb.Meta.Payload.{JsValue, key_of}

abbrev pub Shelf : Type 0
Shelf = List JsValue

unfoldable pub find : Shelf → Str → Option JsValue
find [] k = none
find (v ∷ s) k = if str_eq (key_of v) k then some v else find s k

unfoldable pub insert : JsValue → Shelf → Shelf
insert v [] = v ∷ []
insert v (u ∷ s) =
    let rest = insert v s in
    if str_eq (key_of u) (key_of v)
    then v ∷ s
    else if js_lt (key_of v) (key_of u)
    then v ∷ (u ∷ s)
    else u ∷ rest

abbrev pub keep : (Str → Bool) → Shelf → Shelf
keep p [] = []
keep p (v ∷ s) = let rest = keep p s in if p (key_of v) then v ∷ rest else rest

abbrev pub name_of : JsValue → JsKey
name_of v = text (key_of v)

find-insert :
    (v : JsValue) (s : Shelf) (k : Str)
    → find (insert v s) k ≡ (if str_eq (key_of v) k then some v else find s k)
unfolding find insert
find-insert v [] k = refl
find-insert v (u ∷ s) k = ground (
  arith,
  find-insert v s k,
  str_eq_iff (key_of u) (key_of v),
  str_eq_iff (key_of u) k,
  str_eq_iff (key_of v) k,
)

find-keep :
    (p : Str → Bool) (s : Shelf) (k : Str) → find (keep p s) k ≡ (if p k then find s k else none)
unfolding find
find-keep p [] k = ground arith
find-keep p (u ∷ s) k = ground (arith, find-keep p s k, str_eq_iff (key_of u) k)

abbrev pub shelf : StoreApi
shelf = record {
  Store = Shelf;
  get = find;
  contains = λ s k. is_some (find s k);
  put = λ s v. insert v s;
  delete = λ s k. keep (λ j. not (str_eq k j)) s;
  clear = λ s. [];
  delete_range = λ s lo hi. keep (λ j. not (js_le lo j && js_lt j hi)) s;
  get_all_keys_in = λ s lower lower_open upper n.
      ok (take n (map name_of (keep (in_bounds lower lower_open upper) s)));
  open_key = λ s lower. map name_of (keep (js_le lower) s);
  open_cursor = λ s lo hi. map (λ v. (name_of v, v)) (keep (λ j. js_le lo j && js_le j hi) s);
}

pub shelf-IsStore : IsStore shelf
unfolding find
shelf-IsStore = record {
  contains-eq = λ s k. refl;
  get-put = λ s v k. find-insert v s k;
  get-delete = λ s j k. ground (arith, find-keep (λ i. not (str_eq j i)) s k);
  get-clear = λ s k. refl;
  get-delete_range =
      λ s lo hi k. ground (arith, find-keep (λ j. not (js_le lo j && js_lt j hi)) s k);
}

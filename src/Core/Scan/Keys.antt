-- ===== src/Core/Scan/Keys.antt =====
-- The keys of an object store that holds text keys alone, and those ahead of a scan.
use opendal_indexeddb.Base.{
  Str, Bool, true, false, not, ◌&&◌, ◌||◌, str_eq_refl, Option, none, some, ℕ, ◌≡◌, refl, ap, sym,
  ◌∙◌, subst, List, [], ◌∷◌, map, take, All, select, Ascending, js_lt, js_le, js_weight,
  lex_lt_irrefl, lex_lt→le, lex_le_lt_trans, lex_lt_le_trans, lex_le-eq-not-lt, select-select,
  select-All, select-Ascending, select-passes, All-map, All-both, All-always, starts_with, str_eq,
  ends_with_slash, ok, arith, if◌then◌else◌, is_some,
}
use opendal_indexeddb.Core.Scan.{ScanPageRequest}
use opendal_indexeddb.Idb.{StoreApi, text}

-- A key range: a lower bound, perhaps excluded, and an excluded upper bound.
abbrev pub below : Option Str → Str → Bool
below none k = true
below (some upper) k = js_lt k upper

abbrev pub above : Str → Bool → Str → Bool
above lower lower_open k = if lower_open then js_lt lower k else js_le lower k

abbrev pub in_bounds : Str → Bool → Option Str → Str → Bool
in_bounds lower lower_open upper k = above lower lower_open k && below upper k

pub le_of_above :
    (lower : Str) (lower_open : Bool) (k : Str)
    → above lower lower_open k ≡ true
    → js_le lower k ≡ true
le_of_above lower true k h = lex_lt→le js_weight lower k h
le_of_above lower false k h = h

abbrev pub has_key : List Str → Str → Bool
has_key [] k = false
has_key (j ∷ keys) k = str_eq j k || has_key keys k

pub has_key-All : (keys : List Str) → All (λ k. has_key keys k ≡ true) keys
has_key-All [] = tt
has_key-All (j ∷ keys) =
    (rw (str_eq_refl j) refl, All-map _ _ keys (λ k h. ground (arith, h)) (has_key-All keys))

-- The store holds these text keys and no other key, and fetches them as IndexedDB documents it: in
-- ascending order, from a range that is not empty.
pub record HasKeys (api : StoreApi) (s : api.Store) (keys : List Str) : Type 0 where
  pub ascends : Ascending keys
  pub holds : (k : Str) → is_some (api.get s k) ≡ has_key keys k
  pub fetches :
      (lower : Str) (lower_open : Bool) (upper : Option Str) (n : ℕ)
      → below upper lower ≡ true
      → api.get_all_keys_in s lower lower_open upper n
        ≡ ok (map text (take n (select (in_bounds lower lower_open upper) keys)))

-- What a listing wants of the keys: those with the prefix that stand behind the resumption key, less
-- the entry of the listed directory itself, and those below the skipped prefix.
abbrev pub is_behind : Option Str → Str → Bool
is_behind none k = true
is_behind (some start_after) k = js_lt start_after k

abbrev pub is_skipped : Option Str → Str → Bool
is_skipped none k = false
is_skipped (some skip_prefix) k = starts_with skip_prefix k

abbrev pub is_wanted : ScanPageRequest → Str → Bool
is_wanted req k =
    starts_with req.prefix k
    && is_behind req.start_after k
    && not (str_eq k req.prefix && ends_with_slash req.prefix)
    && not (is_skipped req.skip_prefix k)

module _ (keys : List Str) (ascends : Ascending keys) (upper : Option Str) where
  abbrev pub ahead : Str → Bool → List Str
  ahead lower lower_open = select (in_bounds lower lower_open upper) keys

  ahead-narrow :
      (lower : Str) (lower_open : Bool) (lower' : Str) (lower_open' : Bool)
      → ((k : Str) → above lower' lower_open' k ≡ true → above lower lower_open k ≡ true)
      → ahead lower' lower_open'
        ≡ select (in_bounds lower' lower_open' upper) (ahead lower lower_open)
  ahead-narrow lower lower_open lower' lower_open' narrower = sym (
      select-select (in_bounds lower' lower_open' upper) (in_bounds lower lower_open upper) keys
        (All-always _ keys (λ k h. ground (arith, narrower k))))

  above_trans :
      (lower : Str) (lower_open : Bool) (c k : Str)
      → above lower lower_open c ≡ true
      → js_lt c k ≡ true
      → above lower lower_open k ≡ true
  above_trans lower true c k h h' =
      lex_le_lt_trans js_weight lower c k (lex_lt→le js_weight lower c h) h'
  above_trans lower false c k h h' =
      lex_lt→le js_weight lower k (lex_le_lt_trans js_weight lower c k h h')

  module _ (lower : Str) (lower_open : Bool) (c : Str) (rest : List Str)
      (e : ahead lower lower_open ≡ c ∷ rest) where
    pub ahead-in_bounds : All (λ k. in_bounds lower lower_open upper k ≡ true) (c ∷ rest)
    ahead-in_bounds =
        subst (All (λ k. in_bounds lower lower_open upper k ≡ true)) e
          (select-passes (in_bounds lower lower_open upper) keys)

    pub ahead-Ascending : Ascending (c ∷ rest)
    ahead-Ascending =
        subst Ascending e (select-Ascending (in_bounds lower lower_open upper) keys ascends)

    pub above_first : above lower lower_open c ≡ true
    above_first = let p = ahead-in_bounds.0 in ground arith

    -- Behind the first key ahead are the others.
    pub ahead_next : ahead c true ≡ rest
    ahead_next =
        ahead-narrow lower lower_open c true (λ k. above_trans lower lower_open c k above_first)
        ∙ ap (select (in_bounds c true upper)) e
        ∙ rw (lex_lt_irrefl js_weight c) (
            select-All (in_bounds c true upper) rest (
              All-map _ _ rest (λ k h. let (p, q) = h in ground arith)
                (All-both _ _ rest ahead-Ascending.0 ahead-in_bounds.1)))

    -- A jump behind the first key keeps those of the others that it does not jump over.
    pub ahead_jump :
        (n : Str) → js_lt c n ≡ true → ahead n false ≡ select (in_bounds n false upper) rest
    ahead_jump n h =
        ahead-narrow lower lower_open n false (λ k h'.
          above_trans lower lower_open c k above_first (lex_lt_le_trans js_weight c n k h h'))
        ∙ ap (select (in_bounds n false upper)) e
        ∙ rw (first_out) refl
      where
        first_out : js_le n c ≡ false
        first_out = lex_le-eq-not-lt js_weight n c ∙ ap not h

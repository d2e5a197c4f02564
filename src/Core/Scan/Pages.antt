-- ===== src/Core/Scan/Pages.antt =====
-- A page of `scan_page` against the sorted list of the keys.
use opendal_indexeddb.Base.{
  Str, Bool, true, false, not, Option, none, some, ℕ, ◌<◌, ◌≡◌, refl, ap, sym, ◌∙◌, ◌⊎◌, inl, inr,
  List, [], ◌∷◌, ◌++◌, length, take, All, select, All-map, select-select, select_none,
  length-select-le, take_nil, ◌-◌, select_congr, IsBmp, js_le, str_lt, str_le, js_lt-eq-str_lt,
  js_weight, byte_weight, lex_le-eq-not-lt, lex_le_lt_trans, lex_lt→le, lex_lt_irrefl, Ascending,
  lex_le-starts_with, starts_with, ends_with_slash, ok, arith, Bool-cases, Option-cases, ◌==◌,
  is_some,
}
use opendal_indexeddb.Connection.Prefix.{prefix_upper_bound}
use opendal_indexeddb.Connection.Prefix.Bounds.{
  prefix_upper_bound_lem, prefix_upper_bound-slash, prefix_upper_bound-IsBmp,
}
use opendal_indexeddb.Connection.Utf8.{is_utf8}
use opendal_indexeddb.Core.Scan.{
  ScanPageRequest, ScanState, past, scan_lower, scan_start, scan_loop, is_vacant, skip_of,
  at_or_before,
}
use opendal_indexeddb.Core.Scan.Keys.{
  HasKeys, below, above, le_of_above, in_bounds, ahead, is_behind, is_skipped, is_wanted,
}
use opendal_indexeddb.Core.Scan.Lists.{IsBmpOption, below-past, below_trans, scan_loop-Found}
use opendal_indexeddb.Core.Scan.Round.{is_pushed, CanSkip, Ahead}
use opendal_indexeddb.Idb.{StoreApi}

-- The skipped prefix is a directory.
abbrev pub IsDirOption : Option Str → Type 0
IsDirOption none = Unit
IsDirOption (some p) = (is_utf8 p ≡ true) × (ends_with_slash p ≡ true) × IsBmp p

-- A request whose texts are valid UTF-8, on texts on which the two orders are one.
pub record IsPlain (req : ScanPageRequest) (keys : List Str) : Type 0 where
  pub valid : is_utf8 req.prefix ≡ true
  pub prefix_bmp : IsBmp req.prefix
  pub keys_bmp : All IsBmp keys
  pub start_bmp : IsBmpOption req.start_after
  pub skip_dir : IsDirOption req.skip_prefix

-- The names of a page are the first of the wanted ones, as many as the limit says. A page with fewer
-- is the last; else the last name is where the next page resumes.
abbrev pub PageLists : ScanPageRequest → List Str → List Str → Bool → Option Str → Type 0
PageLists req keys names done next_start_after =
    (names ≡ take req.limit (select (is_wanted req) keys))
    × ((done ≡ true) × (length names < req.limit)
        ⊎ (done ≡ false)
          × (length names ≡ req.limit)
          × (init : List Str) × (last : Str) × (names ≡ init ++ last ∷ [])
          × (next_start_after ≡ some last))

module _ (req : ScanPageRequest) (keys : List Str) (plain : IsPlain req keys) where
  upper : Option Str
  upper = prefix_upper_bound req.prefix

  upper-IsBmp : IsBmpOption upper
  unfolding upper
  upper-IsBmp = elim (Option-cases (prefix_upper_bound req.prefix)) [
    | inl e ↦ rw e tt
    | inr (u, e) ↦ rw e (prefix_upper_bound-IsBmp req.prefix plain.valid plain.prefix_bmp e)
  ]

  skip-CanSkip : (skip : Option Str) → IsDirOption skip → CanSkip skip
  skip-CanSkip none h = tt
  skip-CanSkip (some p) (valid, dir, bmp) =
      let (q, _, e) = prefix_upper_bound-slash p valid dir in
      (valid, _, e, prefix_upper_bound-IsBmp p valid bmp e)

  below-upper : (k : Str) → starts_with req.prefix k ≡ true → below upper k ≡ true
  unfolding upper
  below-upper k h = elim (Option-cases (prefix_upper_bound req.prefix)) [
    | inl e ↦ rw e refl
    | inr (u, e) ↦
        rw e (let cover = (prefix_upper_bound_lem req.prefix k plain.valid e).0 in ground arith)
  ]

  -- The test of the code, by Rust's order, is the one by the order of the keys.
  at_or_before-eq :
      (start_after : Option Str) (k : Str)
      → IsBmpOption start_after
      → IsBmp k
      → at_or_before k start_after ≡ not (is_behind start_after k)
  at_or_before-eq none k h h' = refl
  at_or_before-eq (some s) k h h' =
      lex_le-eq-not-lt byte_weight k s ∙ ap not (sym (js_lt-eq-str_lt s k h h'))

  skip_of-eq : (skip : Option Str) (k : Str) → is_some (skip_of k skip) ≡ is_skipped skip k
  skip_of-eq none k = refl
  skip_of-eq (some p) k = ground arith

  pushed-eq-wanted : (k : Str) → IsBmp k → is_pushed req k ≡ is_wanted req k
  pushed-eq-wanted k h =
      let e = at_or_before-eq req.start_after k plain.start_bmp h in
      let e' = skip_of-eq req.skip_prefix k in rw (e, e') (ground arith)

  -- The first state of a scan, by where it resumes.
  abbrev from : Option Str → ScanPageRequest
  from start = record req { start_after = start }

  lower-IsBmp : (start : Option Str) → IsBmpOption start → IsBmp (scan_lower (from start))
  unfolding scan_lower
  lower-IsBmp none h = plain.prefix_bmp
  lower-IsBmp (some s) h = elim (Bool-cases (str_lt req.prefix s)) [
    | inl e ↦ rw e h
    | inr e ↦ rw e (plain.prefix_bmp)
  ]

  prefix_le_refl : js_le req.prefix req.prefix ≡ true
  prefix_le_refl =
      lex_le-eq-not-lt js_weight req.prefix req.prefix ∙ ap not (lex_lt_irrefl js_weight req.prefix)

  within_lower :
      (start : Option Str) → IsBmpOption start → js_le req.prefix (scan_lower (from start)) ≡ true
  unfolding scan_lower
  within_lower none h = prefix_le_refl
  within_lower (some s) h = elim (Bool-cases (str_lt req.prefix s)) [
    | inl e ↦
        rw e
          (lex_lt→le js_weight req.prefix s (js_lt-eq-str_lt req.prefix s plain.prefix_bmp h ∙ e))
    | inr e ↦ rw e prefix_le_refl
  ]

  above_lower :
      (start : Option Str) (k : Str)
      → IsBmpOption start
      → IsBmp k
      → starts_with req.prefix k ≡ true
      → is_behind start k ≡ true
      → above (scan_lower (from start)) (scan_start (from start)).lower_open k ≡ true
  unfolding scan_lower scan_start
  above_lower none k h h' inside behind = lex_le-starts_with js_weight req.prefix k inside
  above_lower (some s) k h h' inside behind = elim (Bool-cases (str_lt req.prefix s)) [
    | inl e ↦ rw (e, lex_lt→le byte_weight req.prefix s e) behind
    | inr e ↦ elim (Bool-cases (str_le req.prefix s)) [
      | inl e' ↦
          rw (e, e')
            (js_lt-eq-str_lt req.prefix k plain.prefix_bmp h'
              ∙ lex_le_lt_trans byte_weight req.prefix s k e'
                  (sym (js_lt-eq-str_lt s k h h') ∙ behind))
      | inr e' ↦ rw (e, e') (lex_le-starts_with js_weight req.prefix k inside)
    ]
  ]

  -- What is wanted is ahead of the first state.
  wanted_ahead :
      (k : Str)
      → IsBmp k
      → is_pushed req k ≡ true
      → in_bounds (scan_lower req) (scan_start req).lower_open upper k ≡ true
  wanted_ahead k h pushed =
      let wanted : is_wanted req k ≡ true = sym (pushed-eq-wanted k h) ∙ pushed in
      let inside : starts_with req.prefix k ≡ true = ground arith in
      let behind : is_behind req.start_after k ≡ true = ground arith in
      let first = above_lower req.start_after k plain.start_bmp h inside behind in
      let last = below-upper k inside in rw (first, last) refl

  module _ (ascends : Ascending keys) where
    start_rest : List Str
    start_rest = ahead keys ascends upper (scan_lower req) (scan_start req).lower_open

    scan_start-Ahead :
        0 < req.limit
        → Ahead req keys ascends plain.keys_bmp upper
            (skip-CanSkip req.skip_prefix plain.skip_dir)
            (scan_start req)
            start_rest
    unfolding scan_start start_rest
    scan_start-Ahead positive = record {
      stand = refl;
      within = within_lower req.start_after plain.start_bmp;
      plain = lower-IsBmp req.start_after plain.start_bmp;
      room = positive;
      going = refl;
    }

    -- The page that is due from the start is the one that is wanted of all keys.
    start_due :
        take req.limit (select (is_pushed req) start_rest)
        ≡ take req.limit (select (is_wanted req) keys)
    unfolding start_rest
    start_due = ap (take req.limit) (
        select-select (is_pushed req) (in_bounds (scan_lower req) (scan_start req).lower_open upper)
          keys (All-map _ _ keys wanted_ahead plain.keys_bmp)
        ∙ select_congr (is_pushed req) (is_wanted req) keys
            (All-map _ _ keys pushed-eq-wanted plain.keys_bmp))

  module _ (api : StoreApi) (store : api.Store) (has : HasKeys api store keys) where
    -- The scan finds the page that is wanted, where the fuel exceeds the count of the keys.
    pub scan_start-PageLists :
        (fuel : ℕ)
        → 0 < req.limit
        → length keys < fuel
        → (st : ScanState) × (scan_loop api fuel req
              (prefix_upper_bound req.prefix)
              store
              (scan_start req)
            ≡ ok (some st))
          × PageLists req keys st.keys st.done st.next_start_after
    unfolding upper start_rest scan_start
    scan_start-PageLists fuel positive enough =
        let (st, e, (due, ends)) =
          scan_loop-Found api store req keys has plain.keys_bmp upper upper-IsBmp
            (skip-CanSkip req.skip_prefix plain.skip_dir) fuel (scan_start req)
            (start_rest has.ascends) (scan_start-Ahead has.ascends positive)
            (omega (
              arith,
              enough,
              length-select-le (in_bounds (scan_lower req) (scan_start req).lower_open upper) keys,
            )) in
        let whole : req.limit - 0 ≡ req.limit = omega arith in
        (
          st,
          e,
          (
            due
                ∙ ap (λ n. take n (select (is_pushed req) (start_rest has.ascends))) whole
                ∙ start_due has.ascends,
            ends,
          ),
        )

  unwanted_past :
      past (scan_lower req) (prefix_upper_bound req.prefix) ≡ true
      → (k : Str) → IsBmp k
      → is_wanted req k ≡ false
  unfolding upper
  unwanted_past h k bmp = elim (Bool-cases (is_wanted req k)) [
    | inr e ↦ e
    | inl e ↦
        let start = scan_lower req in
        let inside = wanted_ahead k bmp (pushed-eq-wanted k bmp ∙ e) in
        let over : above start (scan_start req).lower_open k ≡ true = ground arith in
        let under : below (prefix_upper_bound req.prefix) k ≡ true = ground arith in
        let lower_under =
          below_trans (prefix_upper_bound req.prefix) start k
            (le_of_above start (scan_start req).lower_open k over) under in
        let not_past =
          below-past start (prefix_upper_bound req.prefix)
            (lower-IsBmp req.start_after plain.start_bmp) upper-IsBmp in
        absurd (cc (h, not_past, lower_under))
  ]

  -- Where there is nothing to scan for, nothing is wanted.
  pub vacant_wanted : is_vacant req ≡ true → take req.limit (select (is_wanted req) keys) ≡ []
  unfolding is_vacant
  vacant_wanted h = elim (Bool-cases (req.limit == 0)) [
    | inl e ↦ let zero_limit : req.limit ≡ 0 = ground arith in rw zero_limit refl
    | inr e ↦
        ap (take req.limit) (
          select_none (is_wanted req) keys
            (All-map _ _ keys (unwanted_past (ground arith)) plain.keys_bmp))
        ∙ take_nil req.limit
  ]

-- ===== src/Core/Scan/Round.antt =====
-- The loop over one fetched page of keys: what it adds to the page, and where it goes on.
use mathlib.Core.List.{append-nil, append_assoc}
use opendal_indexeddb.Base.{
  Str, Bool, true, false, not, ◌&&◌, ◌||◌, Option, none, some, ℕ, suc, ◌+◌, ◌-◌, ◌≤◌, ◌<◌, ◌≡◌,
  refl, ap, sym, ◌∙◌, subst, ◌⊎◌, inl, inr, List, [], ◌∷◌, ◌++◌, length, length-append, take, All,
  select, Ascending, IsBmp, js_lt, js_le, str_lt, js_lt-eq-str_lt, js_weight, js_weight_inj,
  lex_lt→le, lex_le_trans, lex_le_lt_trans, lex_le-eq-not-lt, lex_le-starts_with,
  starts_with-between, select-select, select_none, length-select-le, All-map, All-both, All-select,
  take_nil, starts_with, str_eq, ends_with_slash, is_some, leb, arith, if◌then◌else◌, Bool-cases,
  Option-cases,
}
use opendal_indexeddb.Connection.Prefix.{prefix_upper_bound}
use opendal_indexeddb.Connection.Prefix.Bounds.{prefix_upper_bound_lem}
use opendal_indexeddb.Connection.Utf8.{is_utf8}
use opendal_indexeddb.Core.Scan.{
  ScanPageRequest, ScanState, Flow, break_scan, continue_scan, page_end, pass_over, passed_by,
  skip_of, jump, push_key, for_keys,
}
use opendal_indexeddb.Core.Scan.Keys.{
  above, below, in_bounds, ahead, ahead_next, ahead_jump, ahead-in_bounds, ahead-Ascending,
  above_first, le_of_above,
}
use opendal_indexeddb.Core.Scan.Round.Step.{
  skip_cases, for_keys-nil, for_keys-past, for_keys-over, for_keys-skip, for_keys-full,
  for_keys-push,
}
pub mod Step

-- The keys that the loop pushes.
abbrev pub is_pushed : ScanPageRequest → Str → Bool
is_pushed req k =
    starts_with req.prefix k && not (passed_by req k) && not (is_some (skip_of k req.skip_prefix))

-- A prefix that a scan can jump over: it has an upper bound.
abbrev pub CanSkip : Option Str → Type 0
CanSkip none = Unit
CanSkip (some p) = (is_utf8 p ≡ true) × (n : Str) × (prefix_upper_bound p ≡ some n) × IsBmp n

module _ (req : ScanPageRequest) (keys : List Str) (ascends : Ascending keys) (bmp : All IsBmp keys)
    (upper : Option Str) (can_skip : CanSkip req.skip_prefix) where
  -- A state of the scan with the keys that are ahead of it.
  pub record Ahead (st : ScanState) (rest : List Str) : Type 0 where
    pub stand : ahead keys ascends upper st.lower st.lower_open ≡ rest
    pub within : js_le req.prefix st.lower ≡ true
    pub plain : IsBmp st.lower
    pub room : length st.keys < req.limit
    pub going : st.done ≡ true

  -- The keys of the page that is due.
  abbrev pub page_due : ScanState → List Str → List Str
  page_due st rest = st.keys ++ take (req.limit - length st.keys) (select (is_pushed req) rest)

  -- The page is short and the last one, or it is full and its last key is where the next resumes.
  abbrev pub Ends : ScanState → Type 0
  Ends st =
      ((st.done ≡ true) × (length st.keys < req.limit))
      ⊎ ((st.done ≡ false)
          × (length st.keys ≡ req.limit)
          × (init : List Str) × (last : Str) × (st.keys ≡ init ++ last ∷ [])
          × (st.next_start_after ≡ some last))

  abbrev pub Settles : List Str → ScanState → Type 0
  Settles due st = (st.keys ≡ due) × Ends st

  -- What the loop over the fetched keys comes to, with `n` keys ahead at most.
  abbrev pub Turns : List Str → ℕ → List Str → Flow → Type 0
  Turns due n rest (break_scan st) = Settles due st
  Turns due n rest (continue_scan st) =
      (ahead' : List Str) × Ahead st ahead' × (length ahead' < n) × (page_due st ahead' ≡ due)
  Turns due n rest (page_end st) = Ahead st rest × (page_due st rest ≡ due)

  module _ (st : ScanState) (c : Str) (rest : List Str) (a : Ahead st (c ∷ rest)) where
    behind_lower : js_le st.lower c ≡ true
    behind_lower =
        le_of_above st.lower st.lower_open c
          (above_first keys ascends upper st.lower st.lower_open c rest a.stand)

    within_prefix : js_le req.prefix c ≡ true
    within_prefix = lex_le_trans js_weight req.prefix st.lower c a.within behind_lower

    IsBmp-first : IsBmp c
    IsBmp-first = (subst (All IsBmp) a.stand (All-select IsBmp _ keys bmp)).0

    after_first : All (λ k. js_lt c k ≡ true) rest
    after_first = (ahead-Ascending keys ascends upper st.lower st.lower_open c rest a.stand).0

    not_pushed : is_pushed req c ≡ false → page_due st (c ∷ rest) ≡ page_due st rest
    not_pushed e = rw e refl

    -- A key without the prefix: none behind it has it.
    past_prefix : starts_with req.prefix c ≡ false → Settles (page_due st (c ∷ rest)) st
    past_prefix e = (
      sym (
          ap (λ l. st.keys ++ take (req.limit - length st.keys) l)
            (select_none (is_pushed req) (c ∷ rest)
              (rw e refl, All-map _ _ rest outside after_first))
          ∙ append_take_nil),
      inl (a.going, a.room),
    )
      where
        outside : (k : Str) → js_lt c k ≡ true → is_pushed req k ≡ false
        outside k h = elim (Bool-cases (starts_with req.prefix k)) [
          | inl e' ↦ absurd (
              let e'' =
                starts_with-between js_weight req.prefix c k js_weight_inj within_prefix h e' in
              cc)
          | inr e' ↦ rw e' refl
        ]

        append_take_nil : st.keys ++ take (req.limit - length st.keys) [] ≡ st.keys
        append_take_nil = rw (take_nil (req.limit - length st.keys)) (append-nil st.keys)

    -- A key that is passed over.
    Ahead-pass_over : Ahead (pass_over c st) rest
    Ahead-pass_over = record {
      stand = ahead_next keys ascends upper st.lower st.lower_open c rest a.stand;
      within = within_prefix;
      plain = IsBmp-first;
      room = a.room;
      going = a.going;
    }

    -- A key that is pushed.
    pushed_due : is_pushed req c ≡ true → page_due st (c ∷ rest) ≡ page_due (push_key c st) rest
    unfolding push_key
    pushed_due e = rw (e, more) (sym (append_assoc st.keys (c ∷ []) _))
      where
        more : req.limit - length st.keys ≡ suc (req.limit - length (st.keys ++ c ∷ []))
        more = omega (arith, a.room, length-append st.keys (c ∷ []))

    is_full : Bool
    is_full = leb req.limit (length (push_key c st).keys)

    Ahead-push_key : is_full ≡ false → Ahead (push_key c st) rest
    unfolding is_full push_key
    Ahead-push_key e = record {
      stand = ahead_next keys ascends upper st.lower st.lower_open c rest a.stand;
      within = within_prefix;
      plain = IsBmp-first;
      room = ground arith;
      going = a.going;
    }

    full_page :
        is_pushed req c ≡ true
        → is_full ≡ true
        → Settles (page_due st (c ∷ rest)) (record (push_key c st) { done = false })
    unfolding is_full push_key
    full_page e full = (
      sym (pushed_due e ∙ rw no_more (append-nil (st.keys ++ c ∷ []))),
      inr (refl, exact, st.keys, c, refl, refl),
    )
      where
        exact : length (st.keys ++ c ∷ []) ≡ req.limit
        exact = ground (arith, a.room, length-append st.keys (c ∷ []))

        no_more : req.limit - length (st.keys ++ c ∷ []) ≡ 0
        no_more = omega (arith, exact)

    -- A jump over the skipped prefix, from the first key that has it.
    module _ (p n : Str) (valid : is_utf8 p ≡ true) (bound : prefix_upper_bound p ≡ some n)
        (n_bmp : IsBmp n) (skipped : req.skip_prefix ≡ some p) (e : starts_with p c ≡ true) where
      first_below : js_lt c n ≡ true
      first_below = let h = (prefix_upper_bound_lem p c valid bound).0 in ground arith

      lower_below : str_lt st.lower n ≡ true
      lower_below =
          sym (js_lt-eq-str_lt st.lower n a.plain n_bmp)
          ∙ lex_le_lt_trans js_weight st.lower c n behind_lower first_below

      unskipped : (k : Str) → is_pushed req k ≡ true → starts_with p k ≡ false
      unskipped k pushed = ground (arith, skipped)

      -- What is pushed behind the key is not jumped over.
      lands : (k : Str) → js_lt c k ≡ true → is_pushed req k ≡ true → js_le n k ≡ true
      lands k h pushed =
          let cover = (prefix_upper_bound_lem p k valid bound).0 in
          let behind : js_le p k ≡ true =
            lex_le_trans js_weight p c k (lex_le-starts_with js_weight p c e)
              (lex_lt→le js_weight c k h) in
          let other : starts_with p k ≡ false = unskipped k pushed in
          let past : js_lt k n ≡ false = ground arith in
          lex_le-eq-not-lt js_weight n k ∙ ap not past

      landed : ScanState
      landed = record st { next_start_after = some c; lower = n; lower_open = false }

      left : List Str
      left = select (in_bounds n false upper) rest

      Ahead-landed : Ahead landed left
      unfolding landed left
      Ahead-landed = record {
        stand = ahead_jump keys ascends upper st.lower st.lower_open c rest a.stand n first_below;
        within =
            lex_lt→le js_weight req.prefix n
              (lex_le_lt_trans js_weight req.prefix c n within_prefix first_below);
        plain = n_bmp;
        room = a.room;
        going = a.going;
      }

      landed_due : page_due landed left ≡ page_due st (c ∷ rest)
      unfolding landed left
      landed_due =
          ap (λ l. st.keys ++ take (req.limit - length st.keys) l)
            (select-select (is_pushed req) (in_bounds n false upper) rest (
              All-map _ _ rest (λ k h pushed. let q = lands k h.0 pushed in ground arith)
                (All-both _ _ rest after_first
                  (ahead-in_bounds keys ascends upper st.lower st.lower_open c rest a.stand).1)))
          ∙ sym (not_pushed (ground (arith, skipped)))

      jump-eq : jump c p st ≡ continue_scan landed
      unfolding jump landed
      jump-eq = ground (arith, bound, lower_below)

  jump-Turns :
      (due : List Str) (n : ℕ) (others rest : List Str) (st : ScanState) (c p : Str)
      → Ahead st (c ∷ others)
      → skip_of c req.skip_prefix ≡ some p
      → page_due st (c ∷ others) ≡ due
      → suc (length others) ≤ n
      → Turns due n rest (jump c p st)
  unfolding left
  jump-Turns due n others rest st c p a found e h =
      let (skip, has) = skip_cases req c p found in
      let (valid, u, bound, u_bmp) : CanSkip (some p) = subst CanSkip skip can_skip in
      subst (Turns due n rest) (sym (jump-eq st c others a p u valid bound u_bmp skip has)) (
        left st c others a p u valid bound u_bmp skip has,
        Ahead-landed st c others a p u valid bound u_bmp skip has,
        omega (arith, h, length-select-le (in_bounds u false upper) others),
        landed_due st c others a p u valid bound u_bmp skip has ∙ e,
      )

  -- The loop over the keys that were fetched, `rest` being those that were not.
  pub for_keys-Turns :
      (due : List Str) (n : ℕ) (fetched rest : List Str) (st : ScanState)
      → Ahead st (fetched ++ rest)
      → page_due st (fetched ++ rest) ≡ due
      → length (fetched ++ rest) ≤ n
      → Turns due n rest (for_keys req fetched st)
  unfolding is_full push_key
  for_keys-Turns due n [] rest st a e h =
      subst (Turns due n rest) (sym (for_keys-nil req st)) (a, e)
  for_keys-Turns due n (c ∷ fetched) rest st a e h = elim (Bool-cases (starts_with req.prefix c)) [
    | inr outside ↦
        subst (Turns due n rest) (sym (for_keys-past req c fetched st outside))
          (subst (λ l. Settles l st) e (past_prefix st c (fetched ++ rest) a outside))
    | inl inside ↦ elim (Bool-cases (passed_by req c)) [
      | inl over ↦ subst (Turns due n rest) (sym (for_keys-over req c fetched st inside over)) (
          for_keys-Turns due n fetched rest (pass_over c st)
            (Ahead-pass_over st c (fetched ++ rest) a)
            (sym (not_pushed st c (fetched ++ rest) a (rw (inside, over) refl)) ∙ e)
            (omega (arith, h)))
      | inr behind ↦ elim (Option-cases (skip_of c req.skip_prefix)) [
        | inl kept ↦
            let pushed : is_pushed req c ≡ true = rw (inside, behind, kept) refl in
            elim (Bool-cases (leb req.limit (length (push_key c st).keys))) [
              | inl full ↦
                  subst (Turns due n rest)
                    (sym (for_keys-full req c fetched st inside behind kept full))
                    (subst (λ l. Settles l (record (push_key c st) { done = false })) e
                      (full_page st c (fetched ++ rest) a pushed full))
              | inr open_page ↦
                  subst (Turns due n rest)
                    (sym (for_keys-push req c fetched st inside behind kept open_page))
                    (for_keys-Turns due n fetched rest (push_key c st)
                      (Ahead-push_key st c (fetched ++ rest) a open_page)
                      (sym (pushed_due st c (fetched ++ rest) a pushed) ∙ e) (omega (arith, h)))
            ]
        | inr (p, found) ↦
            subst (Turns due n rest) (sym (for_keys-skip req c fetched st p inside behind found))
              (jump-Turns due n (fetched ++ rest) rest st c p a found e h)
      ]
    ]
  ]

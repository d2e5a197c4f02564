-- ===== src/Core/Scan/Lists.antt =====
-- What the scan of a page finds, for any number of rounds that is enough.
use mathlib.Core.List.{append-nil}
use opendal_indexeddb.Base.{
  Str, Bool, true, false, not, Option, none, some, ℕ, zero, suc, ◌-◌, ◌≤◌, ◌<◌, ◌≡◌, refl, ap, sym,
  ◌∙◌, subst, inl, inr, List, [], ◌∷◌, ◌++◌, map, length, take, drop, take_nil, take-drop,
  drop_short, length-drop, All, IsBmp, js_le, js_lt-eq-str_lt, js_weight, byte_weight,
  lex_le-eq-not-lt, lex_le_lt_trans, ltb, Result, ok, arith, Bool-cases,
}
use opendal_indexeddb.Core.Scan.{
  ScanPageRequest, ScanState, Flow, break_scan, continue_scan, page_end, string_keys,
  get_all_string_keys_in, past, remaining, follow, scan_fetched, for_keys, scan_loop,
}
use opendal_indexeddb.Core.Scan.Keys.{HasKeys, below, le_of_above, above_first, ahead-in_bounds}
use opendal_indexeddb.Core.Scan.Round.{CanSkip, Ahead, page_due, Settles, Turns, for_keys-Turns}
use opendal_indexeddb.Idb.{StoreApi, text}

string_keys-text : (keys : List Str) → string_keys (map text keys) ≡ keys
string_keys-text [] = refl
string_keys-text (k ∷ keys) = ap (λ l. k ∷ l) (string_keys-text keys)

length-text : (keys : List Str) → length (map text keys) ≡ length keys
length-text [] = refl
length-text (k ∷ keys) = ap suc (length-text keys)

abbrev pub IsBmpOption : Option Str → Type 0
IsBmpOption none = Unit
IsBmpOption (some s) = IsBmp s

pub below-past :
    (lower : Str) (upper : Option Str)
    → IsBmp lower
    → IsBmpOption upper
    → past lower upper ≡ not (below upper lower)
below-past lower none h k = refl
below-past lower (some u) h k =
    lex_le-eq-not-lt byte_weight u lower ∙ ap not (sym (js_lt-eq-str_lt lower u h k))

pub below_trans :
    (upper : Option Str) (lower c : Str)
    → js_le lower c ≡ true
    → below upper c ≡ true
    → below upper lower ≡ true
below_trans none lower c h k = refl
below_trans (some u) lower c h k = lex_le_lt_trans js_weight lower c u h k

module _ (api : StoreApi) (store : api.Store) (req : ScanPageRequest) (keys : List Str)
    (has : HasKeys api store keys) (bmp : All IsBmp keys) (upper : Option Str)
    (upper_bmp : IsBmpOption upper) (can_skip : CanSkip req.skip_prefix) where
  abbrev pub IsAhead : ScanState → List Str → Type 0
  IsAhead = Ahead req keys has.ascends bmp upper can_skip

  abbrev pub due_of : ScanState → List Str → List Str
  due_of = page_due req keys has.ascends bmp upper can_skip

  abbrev pub Done : List Str → ScanState → Type 0
  Done = Settles req keys has.ascends bmp upper can_skip

  abbrev pub Found : List Str → Result (Option ScanState) → Type 0
  Found due r = (st : ScanState) × (r ≡ ok (some st)) × Done due st

  -- A key ahead is below the upper bound, and so is the lower one.
  ahead_inside :
      (st : ScanState) (c : Str) (rest : List Str)
      → IsAhead st (c ∷ rest)
      → past st.lower upper ≡ false
  ahead_inside st c rest a =
      let inside =
        below_trans upper st.lower c
          (le_of_above st.lower st.lower_open c
            (above_first keys has.ascends upper st.lower st.lower_open c rest a.stand))
          (let p =
              (ahead-in_bounds keys has.ascends upper st.lower st.lower_open c rest a.stand).0 in
            ground arith) in
      below-past st.lower upper a.plain upper_bmp ∙ ap not inside

  settled_nil : (st : ScanState) → IsAhead st [] → Done (due_of st []) st
  settled_nil st a = (
    sym (ap (λ l. st.keys ++ l) (take_nil (req.limit - length st.keys)) ∙ append-nil st.keys),
    inl (a.going, a.room),
  )

  follow-Found :
      (due rest : List Str) (n : ℕ) (again : ScanState → Result (Option ScanState)) (short : Bool)
      (flow : Flow)
      → Turns req keys has.ascends bmp upper can_skip due n rest flow
      → length rest < n
      → (short ≡ true → rest ≡ [])
      → ((st : ScanState) (rest' : List Str)
          → IsAhead st rest'
          → length rest' < n
          → due_of st rest' ≡ due
          → Found due (again st))
      → Found due (follow again short flow)
  follow-Found due rest n again short (break_scan st) t h e ih = (st, refl, t)
  follow-Found due rest n again short (continue_scan st) (rest', a, h', e') h e ih =
      ih st rest' a h' e'
  follow-Found due rest n again true (page_end st) (a, e') h e ih = (
    st,
    refl,
    subst (λ l. Done l st) e'
        (subst (λ l. Done (due_of st l) st) (sym (e refl))
          (settled_nil st (subst (IsAhead st) (e refl) a))),
  )
  follow-Found due rest n again false (page_end st) (a, e') h e ih = ih st rest a h e'

  -- What a fetch brings: the next keys, as many as are wanted.
  fetched-eq :
      (st : ScanState) (rest : List Str)
      → IsAhead st rest
      → past st.lower upper ≡ false
      → get_all_string_keys_in api store st.lower st.lower_open upper (remaining req st)
        ≡ ok (take (remaining req st) rest, length (take (remaining req st) rest))
  unfolding get_all_string_keys_in
  fetched-eq st rest a h =
      let inside : below upper st.lower ≡ true =
        let e = below-past st.lower upper a.plain upper_bmp in ground arith in
      rw (has.fetches st.lower st.lower_open upper (remaining req st) inside, a.stand)
        (rw (string_keys-text, length-text) refl)

  module _ (fuel : ℕ)
      (loop_on : (st : ScanState) (rest : List Str)
        → IsAhead st rest
        → length rest < fuel
        → Found (due_of st rest) (scan_loop api fuel req upper store st)) where
    abbrev again : ScanState → Result (Option ScanState)
    again = scan_loop api fuel req upper store

    scan_fetched-nil : (st : ScanState) → scan_fetched req st again ([], 0) ≡ ok (some st)
    unfolding scan_fetched
    scan_fetched-nil st = refl

    scan_fetched-cons :
        (st : ScanState) (c : Str) (l : List Str)
        → scan_fetched req st again (c ∷ l, suc (length l))
          ≡ follow again (ltb (suc (length l)) (remaining req st)) (for_keys req (c ∷ l) st)
    unfolding scan_fetched
    scan_fetched-cons st c l = ground arith

    page-Found :
        (st : ScanState) (c : Str) (rest : List Str) (m : ℕ)
        → IsAhead st (c ∷ rest)
        → suc (length rest) ≤ fuel
        → remaining req st ≡ suc m
        → Found
            (due_of st (c ∷ rest))
            (scan_fetched req st again (c ∷ take m rest, suc (length (take m rest))))
    page-Found st c rest m a h e =
        let whole : (c ∷ take m rest) ++ drop m rest ≡ c ∷ rest =
          ap (λ l. c ∷ l) (take-drop m rest) in
        subst (Found (due_of st (c ∷ rest))) (sym (scan_fetched-cons st c (take m rest))) (
          follow-Found (due_of st (c ∷ rest)) (drop m rest) (length (c ∷ rest)) again
            (ltb (suc (length (take m rest))) (remaining req st))
            (for_keys req (c ∷ take m rest) st)
            (for_keys-Turns req keys has.ascends bmp upper can_skip (due_of st (c ∷ rest))
              (length (c ∷ rest)) (c ∷ take m rest) (drop m rest) st
              (subst (IsAhead st) (sym whole) a) (ap (due_of st) whole)
              (omega (arith, ap length whole)))
            (omega (arith, length-drop m rest)) (λ short. drop_short m rest (ground (arith, e)))
            (λ st' rest' a' h' e'.
              subst (λ l. Found l (again st')) e' (loop_on st' rest' a' (omega (arith, h)))))

  loop_at_end :
      (fuel : ℕ) (st : ScanState)
      → past st.lower upper ≡ true
      → scan_loop api (suc fuel) req upper store st ≡ ok (some st)
  unfolding scan_loop
  loop_at_end fuel st h = ground (arith, h)

  loop_inside :
      (fuel : ℕ) (st : ScanState) {fetched : List Str × ℕ}
      → past st.lower upper ≡ false
      → get_all_string_keys_in api store st.lower st.lower_open upper (remaining req st)
        ≡ ok fetched
      → scan_loop api (suc fuel) req upper store st
        ≡ scan_fetched req st (scan_loop api fuel req upper store) fetched
  unfolding scan_loop
  loop_inside fuel st h e = ground (arith, h, e)

  abbrev InPage : ℕ → ScanState → Str → List Str → List Str → Type 0
  InPage fuel st c rest fetched =
      Found (due_of st (c ∷ rest))
        (scan_fetched req st (scan_loop api fuel req upper store) (fetched, length fetched))

  pub scan_loop-Found :
      (fuel : ℕ) (st : ScanState) (rest : List Str)
      → IsAhead st rest
      → length rest < fuel
      → Found (due_of st rest) (scan_loop api fuel req upper store st)
  scan_loop-Found zero st rest a h = absurd (omega arith)
  scan_loop-Found (suc fuel) st [] a h = elim (Bool-cases (past st.lower upper)) [
    | inl at_end ↦ (st, loop_at_end fuel st at_end, settled_nil st a)
    | inr inside ↦ (
      st,
      loop_inside fuel st inside (fetched-eq st [] a inside)
          ∙ rw (take_nil (remaining req st)) (scan_fetched-nil fuel (scan_loop-Found fuel) st),
      settled_nil st a,
    )
  ]
  scan_loop-Found (suc fuel) st (c ∷ rest) a h =
      let inside = ahead_inside st c rest a in
      let m = remaining req st - 1 in
      let e : remaining req st ≡ suc m = omega (arith, a.room) in
      subst (Found (due_of st (c ∷ rest)))
        (sym (loop_inside fuel st inside (fetched-eq st (c ∷ rest) a inside)))
        (subst (λ n. InPage fuel st c rest (take n (c ∷ rest))) (sym e)
          (page-Found fuel (scan_loop-Found fuel) st c rest m a (omega (arith, h)) e))

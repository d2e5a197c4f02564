-- ===== src/Core/Scan/Resume.antt =====
-- Resuming a scan behind the last key of a page.
use mathlib.Core.List.{append_assoc, append-nil}
use opendal_indexeddb.Base.{
  Str, Bool, true, false, Option, none, some, ◌<◌, ◌≡◌, refl, ap, sym, subst, ◌∙◌, inl, inr, List,
  [], ◌∷◌, ◌++◌, take, drop, take-drop, drop_short, length, All, All-map, All-split, All-select,
  select, select_none, select-All, select-select, select-passes, select-Ascending, Ascending, IsBmp,
  js_lt, js_weight, lex_lt_irrefl, lex_lt_trans, arith, Bool-cases, select_congr, All-always,
}
use opendal_indexeddb.Core.Scan.{ScanPageRequest}
use opendal_indexeddb.Core.Scan.Keys.{is_wanted, is_behind}
use opendal_indexeddb.Core.Scan.Pages.{IsPlain}

select-append :
    {A : Type 0} (p : A → Bool) (xs ys : List A) → select p (xs ++ ys) ≡ select p xs ++ select p ys
select-append p [] ys = refl
select-append p (x ∷ xs) ys = elim (Bool-cases (p x)) [
  | inl e ↦ rw e (ap (λ l. x ∷ l) (select-append p xs ys))
  | inr e ↦ rw e (select-append p xs ys)
]

lex_lt_asym : (s t : Str) → js_lt s t ≡ true → js_lt t s ≡ false
lex_lt_asym s t h = elim (Bool-cases (js_lt t s)) [
  | inl e ↦ absurd (cc (lex_lt_trans js_weight s t s h e, lex_lt_irrefl js_weight s))
  | inr e ↦ e
]

is_behind_trans :
    (start : Option Str) (last k : Str)
    → is_behind start last ≡ true
    → js_lt last k ≡ true
    → is_behind start k ≡ true
is_behind_trans none last k h h' = refl
is_behind_trans (some s) last k h h' = lex_lt_trans js_weight s last k h h'

-- In an ascending list the texts before one are below it, those behind it above it.
Ascending-middle :
    (init : List Str) (last : Str) (rest : List Str)
    → Ascending (init ++ last ∷ rest)
    → All (λ k. js_lt last k ≡ false) (init ++ last ∷ []) × All (λ k. js_lt last k ≡ true) rest
Ascending-middle [] last rest (above, _) = ((lex_lt_irrefl js_weight last, tt), above)
Ascending-middle (k ∷ init) last rest (above, ascends) =
    let (low, high) = Ascending-middle init last rest ascends in
    let before : js_lt k last ≡ true = (All-split _ init (last ∷ rest) above).1.0 in
    ((lex_lt_asym k last before, low), high)

-- The request that resumes behind a key.
abbrev pub resumed : ScanPageRequest → Str → ScanPageRequest
resumed req last = record req { start_after = some last }

module _ (req : ScanPageRequest) (last : Str) (behind : is_behind req.start_after last ≡ true) where
  is_wanted-resumed :
      (k : Str) → is_wanted req k ≡ true → js_lt last k ≡ is_wanted (resumed req last) k
  is_wanted-resumed k h = ground arith

  wanted-resumed : (k : Str) → is_wanted (resumed req last) k ≡ true → is_wanted req k ≡ true
  wanted-resumed k h = ground (arith, is_behind_trans req.start_after last k behind)

  -- What is wanted behind the last of the first names is the rest.
  pub resumed-rest :
      (keys init rest : List Str)
      → Ascending keys
      → select (is_wanted req) keys ≡ init ++ last ∷ rest
      → select (is_wanted (resumed req last)) keys ≡ rest
  resumed-rest keys init rest ascends e =
      let sorted : Ascending (init ++ last ∷ rest) =
        subst Ascending e (select-Ascending (is_wanted req) keys ascends) in
      let all_wanted : All (λ k. is_wanted req k ≡ true) (init ++ last ∷ rest) =
        subst (All (λ k. is_wanted req k ≡ true)) e (select-passes (is_wanted req) keys) in
      let (low, high) = Ascending-middle init last rest sorted in
      sym (
        select-select (is_wanted (resumed req last)) (is_wanted req) keys
          (All-always _ keys wanted-resumed))
      ∙ ap (select (is_wanted (resumed req last))) e
      ∙ sym (
          select_congr (js_lt last) (is_wanted (resumed req last)) (init ++ last ∷ rest)
            (All-map _ _ (init ++ last ∷ rest) is_wanted-resumed all_wanted))
      ∙ ap (select (js_lt last)) (sym (append_assoc init (last ∷ []) rest))
      ∙ select-append (js_lt last) (init ++ last ∷ []) rest
      ∙ rw (select_none (js_lt last) (init ++ last ∷ []) low) (select-All (js_lt last) rest high)

-- Behind a full page: the rest of what is wanted is what the resumed request wants.
pub full_page-resumed :
    (req : ScanPageRequest) (keys init : List Str) (last : Str)
    → IsPlain req keys
    → Ascending keys
    → init ++ last ∷ [] ≡ take req.limit (select (is_wanted req) keys)
    → (select (is_wanted req) keys
        ≡ (init ++ last ∷ []) ++ select (is_wanted (resumed req last)) keys)
      × IsPlain (resumed req last) keys
full_page-resumed req keys init last plain ascends e =
    let rest = drop req.limit (select (is_wanted req) keys) in
    let whole : select (is_wanted req) keys ≡ (init ++ last ∷ []) ++ rest =
      sym (take-drop req.limit (select (is_wanted req) keys)) ∙ ap (λ l. l ++ rest) (sym e) in
    let parted : select (is_wanted req) keys ≡ init ++ last ∷ rest =
      whole ∙ append_assoc init (last ∷ []) rest in
    let last_wanted : is_wanted req last ≡ true =
      (All-split _ init (last ∷ rest) (
        subst (All (λ k. is_wanted req k ≡ true)) parted
          (select-passes (is_wanted req) keys))).1.0 in
    let last_bmp : IsBmp last =
      (All-split IsBmp init (last ∷ rest)
        (subst (All IsBmp) parted (All-select IsBmp (is_wanted req) keys plain.keys_bmp))).1.0 in
    let behind : is_behind req.start_after last ≡ true = ground arith in
    (
      whole
          ∙ ap (λ l. (init ++ last ∷ []) ++ l)
              (sym (resumed-rest req last behind keys init rest ascends parted)),
      record {
        valid = plain.valid;
        prefix_bmp = plain.prefix_bmp;
        keys_bmp = plain.keys_bmp;
        start_bmp = last_bmp;
        skip_dir = plain.skip_dir;
      },
    )

-- A page that is not full has all that is wanted.
pub short_page_whole :
    (req : ScanPageRequest) (keys names : List Str)
    → names ≡ take req.limit (select (is_wanted req) keys)
    → length names < req.limit
    → select (is_wanted req) keys ≡ names
short_page_whole req keys names e h =
    let wanted = select (is_wanted req) keys in
    let short : length (take req.limit wanted) < req.limit = omega (arith, h, ap length e) in
    sym (take-drop req.limit wanted)
    ∙ ap (λ l. take req.limit wanted ++ l) (drop_short req.limit wanted short)
    ∙ append-nil (take req.limit wanted)
    ∙ sym e
